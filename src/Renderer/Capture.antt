-- ===== src/Renderer/Capture.antt =====
-- The capture of a frame: `CaptureSwapChainImage` and `RequestCapture` of
-- PlaygroundEngine/src/Renderer/RendererVulkan.cpp. A pixel is four bytes.
use playground_engine.Base.{
  ◌++◌, ℕ, List, [], ◌∷◌, Option, none, some, Bool, true, false, if◌then◌else◌,
}
use playground_engine.Renderer.Device.{
  Call, device_wait_idle, Device, Format, b8g8r8a8_unorm, b8g8r8a8_srgb, r8g8b8a8_unorm,
  r8g8b8a8_srgb, encode_png, write_file, swap_chain_transfer_source_unsupported,
  capture_format_unsupported, capture_encode_error, capture_write_error, present_src,
}
use playground_engine.Renderer.Result.{ok, M, ◌>>=◌, ◌>>◌, return, fail, ask, require}
use playground_engine.Renderer.Transfers.{read_image_to_host}
use playground_engine.Renderer.State.{RendererVulkan}

-- Whether red and blue change places, for the formats that are handled.
abbrev pub swap_red_and_blue : Format → Option Bool
swap_red_and_blue b8g8r8a8_unorm = some true
swap_red_and_blue b8g8r8a8_srgb = some true
swap_red_and_blue r8g8b8a8_unorm = some false
swap_red_and_blue r8g8b8a8_srgb = some false
swap_red_and_blue _ = none

-- The loops over the bytes; what is left of a pixel at the end, which no image has, stays.
unfoldable pub swap_channels : List ℕ → List ℕ
swap_channels (a ∷ b ∷ c ∷ d ∷ rest) = c ∷ b ∷ a ∷ d ∷ swap_channels rest
swap_channels (a ∷ b ∷ c ∷ []) = a ∷ b ∷ c ∷ []
swap_channels (a ∷ b ∷ []) = a ∷ b ∷ []
swap_channels (a ∷ []) = a ∷ []
swap_channels [] = []

unfoldable pub force_opaque : List ℕ → List ℕ
force_opaque (a ∷ b ∷ c ∷ d ∷ rest) = a ∷ b ∷ c ∷ 255 ∷ force_opaque rest
force_opaque (a ∷ b ∷ c ∷ []) = a ∷ b ∷ c ∷ []
force_opaque (a ∷ b ∷ []) = a ∷ b ∷ []
force_opaque (a ∷ []) = a ∷ []
force_opaque [] = []

unfoldable pub to_image_pixels : Bool → List ℕ → List ℕ
unfolding swap_channels force_opaque
to_image_pixels swap pixels = force_opaque (if swap then swap_channels pixels else pixels)

-- The image is at its index.
unfoldable pub capture_swap_chain_image : Device → RendererVulkan → ℕ → ℕ → M (Unit {0})
unfolding to_image_pixels
capture_swap_chain_image device renderer image path = do
  if renderer.swap_chain_supports_transfer_source
      then return tt
      else fail swap_chain_transfer_source_unsupported
  swap ←
      require (swap_red_and_blue renderer.swap_chain_surface_format.format)
        capture_format_unsupported
  mapped ←
      read_image_to_host device renderer.command_pool image present_src renderer.swap_chain_extent
  encoded ←
      ask device
        (encode_png (to_image_pixels swap (device.listed mapped)) renderer.swap_chain_extent)
        capture_encode_error
  ask device (write_file path encoded) capture_write_error
  return tt

-- The wait ahead of the capture, whose failure ends it.
unfoldable pub capture_when_idle : Device → RendererVulkan → ℕ → ℕ → M (Unit {0})
unfolding capture_swap_chain_image
capture_when_idle device renderer image path calls =
    let waited : List Call = calls ++ (device_wait_idle ∷ []) in
    elim (device.answer calls device_wait_idle) [
      | none ↦ (ok tt, waited)
      | some idle ↦ capture_swap_chain_image device renderer image path waited
    ]

-- A newer request displaces an older one.
unfoldable pub request_capture : ℕ → RendererVulkan → RendererVulkan
request_capture path renderer = record renderer { pending_capture_path = some path }

unfoldable pub notify_framebuffer_resized : RendererVulkan → RendererVulkan
notify_framebuffer_resized renderer = record renderer { framebuffer_resized = true }
