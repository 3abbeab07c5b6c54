-- ===== src/Renderer/SwapChain.antt =====
-- The swap chain of PlaygroundEngine/src/Renderer/VulkanUtils.cpp.
use playground_engine.Base.{
  ℕ, List, [], ◌∷◌, Option, Bool, true, false, ltb, any_of, if◌then◌else◌, ◌&&◌,
}
use playground_engine.Renderer.Device.{
  Device, Extent, SurfaceFormat, PresentMode, mailbox, fifo, ImageUsage, color_attachment,
  image_transfer_source, create_swap_chain, get_images, surface_capabilities_formats_error,
  swap_chain_creation_error, swap_chain_images_creation_error,
}
use playground_engine.Renderer.Result.{M, ◌>>=◌, return, ask, require}
use playground_engine.Renderer.Resources.{create_image_views}

pub record SurfaceCapabilities : Type 0 where
  pub min_image_count : ℕ
  pub max_image_count : ℕ
  pub min_image_extent : Extent
  pub max_image_extent : Extent
  pub supports_transfer_source : Bool

pub record SwapChainResources : Type 0 where
  pub swap_chain : ℕ
  pub images : List ℕ
  pub image_views : List ℕ
  pub extent : Extent
  pub supports_transfer_source : Bool

-- `std::clamp`.
abbrev pub clamp : ℕ → ℕ → ℕ → ℕ
clamp value low high = if ltb value low then low else if ltb high value then high else value

abbrev pub is_mailbox : PresentMode → Bool
is_mailbox mailbox = true
is_mailbox _ = false

unfoldable pub find_present_mode : List PresentMode → PresentMode
find_present_mode modes = if any_of is_mailbox modes then mailbox else fifo

unfoldable pub swap_chain_extent : SurfaceCapabilities → Extent → Extent
swap_chain_extent c framebuffer_size = record {
  width = clamp framebuffer_size.width c.min_image_extent.width c.max_image_extent.width;
  height = clamp framebuffer_size.height c.min_image_extent.height c.max_image_extent.height;
}

unfoldable pub image_count : SurfaceCapabilities → ℕ
image_count c =
    let wanted = if ltb 3 c.min_image_count then c.min_image_count else 3 in
    if ltb 0 c.max_image_count && ltb c.max_image_count wanted then c.max_image_count else wanted

unfoldable pub image_usage : SurfaceCapabilities → List ImageUsage
image_usage c =
    color_attachment ∷ (if c.supports_transfer_source then image_transfer_source ∷ [] else [])

-- The two queries of the surface, each none where it fails; the check of both comes before any use.
unfoldable pub create_swap_chain_resources :
    Device
    → Option SurfaceCapabilities
    → Option (List PresentMode)
    → Extent
    → SurfaceFormat
    → M SwapChainResources
unfolding find_present_mode swap_chain_extent image_count image_usage create_image_views
create_swap_chain_resources device capabilities modes framebuffer_size format = do
  c ← require capabilities surface_capabilities_formats_error
  available ← require modes surface_capabilities_formats_error
  let extent = swap_chain_extent c framebuffer_size
  swap_chain ←
      ask device
        (create_swap_chain (image_count c) format extent (image_usage c)
          (find_present_mode available))
        swap_chain_creation_error
  list ← ask device (get_images swap_chain) swap_chain_images_creation_error
  let images = device.listed list
  views ← create_image_views device format.format images
  return (record {
    swap_chain = swap_chain;
    images = images;
    image_views = views;
    extent = extent;
    supports_transfer_source = c.supports_transfer_source;
  })
