-- ===== src/Renderer/Lengths.antt =====
-- How many of each resource a creation of PlaygroundEngine/src/Renderer/VulkanUtils.cpp returns, and
-- the bounds that a swap chain meets.
use playground_engine.Base.{
  ◌++◌, [], ◌∷◌, subst, ℕ, zero, suc, ◌≤◌, ◌≡◌, ◌⊎◌, refl, sym, ap, ◌∙◌, List, Option, some, length,
  arith,
}
use playground_engine.Renderer.Device.{
  ImageUsage, create_swap_chain, swap_chain_creation_error, swap_chain_images_creation_error,
  get_images, color, Device, Call, Extent, SurfaceFormat, PresentMode, allocate_command_buffers,
  allocate_descriptor_sets, surface_capabilities_formats_error, command_buffer_create_error,
  descriptor_set_create_error,
}
use playground_engine.Renderer.Result.{Outcome, ok, failed, M, repeat, for_each}
use playground_engine.Renderer.Resources.{
  create_signaled_fences, create_semaphores, create_image_views, create_view, allocate_buffers,
}
use playground_engine.Renderer.SwapChain.{
  SurfaceCapabilities, SwapChainResources, swap_chain_extent, image_count,
  create_swap_chain_resources,
}
use playground_engine.Renderer.Creation.{Setup, allocate_sets}
use playground_engine.Renderer.Ensures.{
  Ensures-ask, Succeeded, Ensures, Ensures-any, Ensures-bind, Ensures-return, Ensures-require,
}

abbrev pub HasLength : {A : Type 0} → ℕ → List A → List Call → Type 0
HasLength n xs after = length xs ≡ n

pub repeat-HasLength :
    {A : Type 0} (n : ℕ) (m : M A) (calls : List Call) → Ensures (HasLength n) (repeat n m) calls
unfolding repeat
repeat-HasLength zero m calls = Ensures-return [] calls refl
repeat-HasLength (suc n) m calls = Ensures-any m _ calls (λ a after.
    Ensures-bind (HasLength n) _ _ after (repeat-HasLength n m after).at
      (λ rest last e. Ensures-return (a ∷ rest) last (ap suc e)))

pub for_each-HasLength :
    {A B : Type 0} (f : A → M B) (xs : List A) (calls : List Call)
    → Ensures (HasLength (length xs)) (for_each f xs) calls
unfolding for_each
for_each-HasLength f [] calls = Ensures-return [] calls refl
for_each-HasLength f (x ∷ xs) calls = Ensures-any (f x) _ calls (λ b after.
    Ensures-bind (HasLength (length xs)) _ _ after (for_each-HasLength f xs after).at
      (λ rest last e. Ensures-return (b ∷ rest) last (ap suc e)))

-- An allocation of some number of objects answers a list of as many, and a swap chain's images are
-- as many as it has.
pub record ListsAsAsked (device : Device) (images_in : ℕ → ℕ) : Type 0 where
  pub images :
      (calls : List Call) (swap_chain list : ℕ)
      → device.answer calls (get_images swap_chain) ≡ some list
      → length (device.listed list) ≡ images_in swap_chain
  pub command_buffers :
      (calls : List Call) (pool count list : ℕ)
      → device.answer calls (allocate_command_buffers pool count) ≡ some list
      → length (device.listed list) ≡ count
  pub descriptor_sets :
      (calls : List Call) (layout pool count list : ℕ)
      → device.answer calls (allocate_descriptor_sets layout pool count) ≡ some list
      → length (device.listed list) ≡ count

module _ (device : Device) (images_in : ℕ → ℕ) (lists : ListsAsAsked device images_in) where
  pub allocate_buffers-HasLength :
      (pool count : ℕ) (calls : List Call)
      → Ensures (HasLength count) (allocate_buffers device pool count) calls
  unfolding allocate_buffers
  allocate_buffers-HasLength pool count calls =
      Ensures-ask device (allocate_command_buffers pool count) command_buffer_create_error _ calls
        (λ list e.
          Ensures-return (device.listed list) _ (lists.command_buffers calls pool count list e))

  pub allocate_sets-HasLength :
      (setup : Setup) (layout pool count : ℕ) (calls : List Call)
      → Ensures (HasLength count) (allocate_sets device setup layout pool count) calls
  unfolding allocate_sets
  allocate_sets-HasLength setup layout pool count calls =
      Ensures-ask device (allocate_descriptor_sets layout pool count) descriptor_set_create_error _
        calls
        (λ list e.
          Ensures-return (device.listed list) _
            (lists.descriptor_sets calls layout pool count list e))

-- What a surface reports of itself: no minimum above its maximum, where it has one.
pub record IsCoherent (c : SurfaceCapabilities) : Type 0 where
  pub width : c.min_image_extent.width ≤ c.max_image_extent.width
  pub height : c.min_image_extent.height ≤ c.max_image_extent.height
  pub count : (c.max_image_count ≡ 0) ⊎ (c.min_image_count ≤ c.max_image_count)

-- The extent is within the surface's, and so is the number of images, which is at least three unless
-- the maximum is lower.
pub record InBounds (c : SurfaceCapabilities) (count : ℕ) (extent : Extent) : Type 0 where
  pub width_low : c.min_image_extent.width ≤ extent.width
  pub width_high : extent.width ≤ c.max_image_extent.width
  pub height_low : c.min_image_extent.height ≤ extent.height
  pub height_high : extent.height ≤ c.max_image_extent.height
  pub count_low : c.min_image_count ≤ count
  pub count_high : (c.max_image_count ≡ 0) ⊎ (count ≤ c.max_image_count)
  pub three : (3 ≤ count) ⊎ (count ≡ c.max_image_count)

swap_chain_extent-InBounds :
    (c : SurfaceCapabilities) (size : Extent)
    → IsCoherent c
    → InBounds c (image_count c) (swap_chain_extent c size)
unfolding swap_chain_extent image_count
swap_chain_extent-InBounds c size h = ground arith

-- The swap chain is the device's answer to a call for so many images of such an extent.
abbrev pub CreatedWith : Device → ℕ → Extent → ℕ → Type 0
CreatedWith device count extent swap_chain =
    (asked : List Call) × (format : SurfaceFormat) × (usage : List ImageUsage)
    × (mode : PresentMode) × (device.answer asked (create_swap_chain count format extent usage mode)
        ≡ some swap_chain)

-- The swap chain's images, one view for each, and the extent that the surface's capabilities give.
abbrev pub Made :
    Device → Option SurfaceCapabilities → Extent → SwapChainResources → List Call → Type 0
Made device capabilities size r after =
    (c : SurfaceCapabilities) × (list : ℕ) × (asked : List Call) × (capabilities ≡ some c)
    × (device.answer asked (get_images r.swap_chain) ≡ some list)
    × (r.images ≡ device.listed list)
    × (length r.image_views ≡ length r.images)
    × (r.extent ≡ swap_chain_extent c size)
    × CreatedWith device (image_count c) r.extent r.swap_chain

pub create_swap_chain_resources-Made :
    (device : Device) (capabilities : Option SurfaceCapabilities)
    (modes : Option (List PresentMode)) (size : Extent) (format : SurfaceFormat) (calls : List Call)
    → Ensures
        (Made device capabilities size)
        (create_swap_chain_resources device capabilities modes size format)
        calls
unfolding create_swap_chain_resources create_image_views
create_swap_chain_resources-Made device capabilities modes size format calls =
    Ensures-require capabilities surface_capabilities_formats_error _ calls (λ c same.
      Ensures-any _ _ calls (λ available c1.
        Ensures-ask device _ swap_chain_creation_error _ c1 (λ swap_chain created.
          let c2 = c1 ++ (_ ∷ []) in
          Ensures-ask device (get_images swap_chain) swap_chain_images_creation_error _ c2
            (λ list asked.
              Ensures-bind (HasLength (length (device.listed list))) _ _
                (c2 ++ (get_images swap_chain ∷ []))
                (for_each-HasLength (λ image. create_view device image format.format color 1)
                  (device.listed list) (c2 ++ (get_images swap_chain ∷ []))).at
                (λ views c4 e.
                  Ensures-return _ c4
                    (c, list, c2, same, asked, refl, e, refl, (c1, format, _, _, created)))))))

-- Of a surface that reports its capabilities: what the device was asked for is in bounds, and each
-- image has a view.
abbrev pub IsWellMade : Device → SurfaceCapabilities → SwapChainResources → List Call → Type 0
IsWellMade device c r after =
    (length r.image_views ≡ length r.images)
    × (count : ℕ) × CreatedWith device count r.extent r.swap_chain
    × InBounds c count r.extent

well_made :
    (device : Device) (c : SurfaceCapabilities) (size : Extent)
    (r : Outcome SwapChainResources × List Call)
    → IsCoherent c
    → Succeeded (Made device (some c) size) r
    → Succeeded (IsWellMade device c) r
well_made device c size (ok r, calls) h
      (d, list, asked, same, answered, images, views, extent, created) =
    let one : c ≡ d = cc in
    (
      views,
      image_count d,
      created,
      subst (λ x. InBounds c (image_count x) r.extent) one
          (subst (InBounds c (image_count c))
            (ap (λ (x : SurfaceCapabilities). swap_chain_extent x size) one ∙ sym extent)
            (swap_chain_extent-InBounds c size h)),
    )
well_made device c size (failed e, calls) h made = tt

-- A swap chain that is created on a surface of coherent capabilities has a view for each of its
-- images. The device was asked to create it with an extent within the surface's bounds, which is the
-- one that is kept, and with a number of images that is within them too and at least three unless
-- the surface's maximum is lower.
pub create_swap_chain_resources-IsWellMade :
    (device : Device) (c : SurfaceCapabilities) (modes : Option (List PresentMode)) (size : Extent)
    (format : SurfaceFormat) (calls : List Call)
    → IsCoherent c
    → Succeeded
        (IsWellMade device c)
        (create_swap_chain_resources device (some c) modes size format calls)
create_swap_chain_resources-IsWellMade device c modes size format calls h =
    well_made device c size (create_swap_chain_resources device (some c) modes size format calls) h
      (create_swap_chain_resources-Made device (some c) modes size format calls).at

pub create_semaphores-HasLength :
    (device : Device) (count : ℕ) (calls : List Call)
    → Ensures (HasLength count) (create_semaphores device count) calls
unfolding create_semaphores
create_semaphores-HasLength device count calls = repeat-HasLength count _ calls

pub create_signaled_fences-HasLength :
    (device : Device) (count : ℕ) (calls : List Call)
    → Ensures (HasLength count) (create_signaled_fences device count) calls
unfolding create_signaled_fences
create_signaled_fences-HasLength device count calls = repeat-HasLength count _ calls
