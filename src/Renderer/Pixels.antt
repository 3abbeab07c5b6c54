-- ===== src/Renderer/Pixels.antt =====
-- The pixels that `CaptureSwapChainImage` of PlaygroundEngine/src/Renderer/RendererVulkan.cpp writes.
use playground_engine.Base.{
  ℕ, ◌≡◌, refl, ap, subst, List, [], ◌∷◌, ◌++◌, Bool, true, false, Option, some, none,
}
use playground_engine.Renderer.Device.{
  Device, Call, Extent, Layout, Format, b8g8r8a8_unorm, b8g8r8a8_srgb, r8g8b8a8_unorm,
  r8g8b8a8_srgb, map_memory, encode_png, write_file, device_memory_map_error,
  capture_format_unsupported, capture_encode_error, capture_write_error,
}
use playground_engine.Renderer.State.{RendererVulkan}
use playground_engine.Renderer.Transfers.{read_image_to_host}
use playground_engine.Renderer.Capture.{
  swap_red_and_blue, swap_channels, force_opaque, to_image_pixels, capture_swap_chain_image,
}
use playground_engine.Renderer.Ensures.{
  Succeeded, Ensures, Ensures-any, Ensures-ask, Ensures-bind, Ensures-require, Ensures-return,
}

pub record Pixel : Type 0 where
  pub red : ℕ
  pub green : ℕ
  pub blue : ℕ
  pub alpha : ℕ

-- The bytes of an image of the format that has blue first, of that which has red first, and of a
-- picture without transparency.
abbrev pub bgra_bytes : List Pixel → List ℕ
bgra_bytes [] = []
bgra_bytes (p ∷ pixels) = p.blue ∷ p.green ∷ p.red ∷ p.alpha ∷ bgra_bytes pixels

abbrev pub rgba_bytes : List Pixel → List ℕ
rgba_bytes [] = []
rgba_bytes (p ∷ pixels) = p.red ∷ p.green ∷ p.blue ∷ p.alpha ∷ rgba_bytes pixels

abbrev pub opaque_bytes : List Pixel → List ℕ
opaque_bytes [] = []
opaque_bytes (p ∷ pixels) = p.red ∷ p.green ∷ p.blue ∷ 255 ∷ opaque_bytes pixels

-- The bytes of pixels in a swap chain's format, of the four formats of one byte for each channel.
abbrev pub stored_bytes : Format → List Pixel → Option (List ℕ)
stored_bytes b8g8r8a8_unorm pixels = some (bgra_bytes pixels)
stored_bytes b8g8r8a8_srgb pixels = some (bgra_bytes pixels)
stored_bytes r8g8b8a8_unorm pixels = some (rgba_bytes pixels)
stored_bytes r8g8b8a8_srgb pixels = some (rgba_bytes pixels)
stored_bytes _ pixels = none

bgra_bytes-opaque :
    (pixels : List Pixel) → to_image_pixels true (bgra_bytes pixels) ≡ opaque_bytes pixels
unfolding to_image_pixels swap_channels force_opaque
bgra_bytes-opaque [] = refl
bgra_bytes-opaque (p ∷ pixels) =
    ap (λ bytes. p.red ∷ p.green ∷ p.blue ∷ 255 ∷ bytes) (bgra_bytes-opaque pixels)

rgba_bytes-opaque :
    (pixels : List Pixel) → to_image_pixels false (rgba_bytes pixels) ≡ opaque_bytes pixels
unfolding to_image_pixels force_opaque
rgba_bytes-opaque [] = refl
rgba_bytes-opaque (p ∷ pixels) =
    ap (λ bytes. p.red ∷ p.green ∷ p.blue ∷ 255 ∷ bytes) (rgba_bytes-opaque pixels)

-- Whether the format's channels change places is what its order asks for.
stored_bytes-opaque :
    (format : Format) (pixels : List Pixel) (bytes : List ℕ) (swap : Bool)
    → swap_red_and_blue format ≡ some swap
    → stored_bytes format pixels ≡ some bytes
    → to_image_pixels swap bytes ≡ opaque_bytes pixels
stored_bytes-opaque b8g8r8a8_unorm pixels bytes swap e f = let l = bgra_bytes-opaque pixels in cc
stored_bytes-opaque b8g8r8a8_srgb pixels bytes swap e f = let l = bgra_bytes-opaque pixels in cc
stored_bytes-opaque r8g8b8a8_unorm pixels bytes swap e f = let l = rgba_bytes-opaque pixels in cc
stored_bytes-opaque r8g8b8a8_srgb pixels bytes swap e f = let l = rgba_bytes-opaque pixels in cc
stored_bytes-opaque _ pixels bytes swap e f = cc

-- A mapping of memory, as the device answered it.
abbrev pub MappedTo : Device → ℕ → List Call → Type 0
MappedTo device mapped after =
    (asked : List Call) × (memory : ℕ) × (size : ℕ) × (device.answer asked (map_memory memory size)
      ≡ some mapped)

read_image_to_host-MappedTo :
    (device : Device) (pool image : ℕ) (layout : Layout) (extent : Extent) (calls : List Call)
    → Ensures (MappedTo device) (read_image_to_host device pool image layout extent) calls
unfolding read_image_to_host
read_image_to_host-MappedTo device pool image layout extent calls =
    Ensures-any _ _ calls (λ readback c1. Ensures-any _ _ c1 (λ buffer c2.
      Ensures-any _ _ c2 (λ u c3. Ensures-any _ _ c3 (λ v c4.
        Ensures-ask device _ device_memory_map_error _ c4 (λ mapped answered.
          Ensures-any _ _ (c4 ++ (_ ∷ []))
            (λ w c5. Ensures-return mapped c5 (c4, readback.device_memory, _, answered)))))))

-- What a device's mappings hold: the bytes of pixels in the swap chain's format.
pub record HoldsPixels (device : Device) (format : Format) (pixels_in : ℕ → List Pixel)
    : Type 0 where
  pub at :
      (calls : List Call) (memory size mapped : ℕ)
      → device.answer calls (map_memory memory size) ≡ some mapped
      → stored_bytes format (pixels_in mapped) ≡ some (device.listed mapped)

-- The file got the picture that was encoded from the pixels of a mapping.
abbrev pub Written : Device → (ℕ → List Pixel) → Extent → ℕ → Unit {0} → List Call → Type 0
Written device pixels_in extent path u after =
    (mapped : ℕ) × (encoded : ℕ) × (written : ℕ) × MappedTo device mapped after
    × (asked : List Call) × (device.answer asked
          (encode_png (opaque_bytes (pixels_in mapped)) extent)
        ≡ some encoded)
    × (then_asked : List Call) × (device.answer then_asked (write_file path encoded) ≡ some written)

-- Where what is mapped holds the bytes of pixels in the order of the swap chain's format: a capture
-- that succeeds had the picture of exactly those pixels encoded, red first and each opaque, in the
-- swap chain's extent, and wrote it to the path.
pub capture_swap_chain_image-Written :
    (device : Device) (renderer : RendererVulkan) (pixels_in : ℕ → List Pixel) (image path : ℕ)
    (calls : List Call)
    → HoldsPixels device renderer.swap_chain_surface_format.format pixels_in
    → Succeeded
        (Written device pixels_in renderer.swap_chain_extent path)
        (capture_swap_chain_image device renderer image path calls)
unfolding capture_swap_chain_image
capture_swap_chain_image-Written device renderer pixels_in image path calls holds =
    let format = renderer.swap_chain_surface_format.format in
    let extent = renderer.swap_chain_extent in
    let proof : Ensures (Written device pixels_in extent path)
        (capture_swap_chain_image device renderer image path) calls =
      Ensures-any _ _ calls (λ u c1.
        Ensures-require (swap_red_and_blue format) capture_format_unsupported _ c1 (λ swap order.
          Ensures-bind (MappedTo device) _ _ c1 (read_image_to_host-MappedTo device _ _ _ _ c1).at
            (λ mapped c2 from. Ensures-ask device _ capture_encode_error _ c2 (λ encoded answered.
              let c3 = c2 ++ (_ ∷ []) in
              Ensures-ask device _ capture_write_error _ c3 (λ written put.
                let bytes =
                  stored_bytes-opaque format (pixels_in mapped) (device.listed mapped) swap order
                    (holds.at from.0 from.1 from.2 mapped from.3) in
                let asked : device.answer c2 (encode_png (opaque_bytes (pixels_in mapped)) extent)
                    ≡ some encoded =
                  subst (λ b. device.answer c2 (encode_png b extent) ≡ some encoded) bytes
                    answered in
                Ensures-return tt (c3 ++ (_ ∷ []))
                  (mapped, encoded, written, from, c2, asked, c3, put)))))) in
    proof.at
