-- ===== src/Renderer/Recreation.antt =====
-- `RecreateSwapChain` of PlaygroundEngine/src/Renderer/RendererVulkan.cpp keeps the sizes of the
-- arrays, whatever number of images the new swap chain has.
use playground_engine.Base.{subst, ℕ, ◌≡◌, refl, sym, ap, ◌∙◌, List, [], length, arith, ◌==◌}
use playground_engine.Renderer.Device.{Device, Call, Extent, device_wait_idle}
use playground_engine.Renderer.Result.{M}
use playground_engine.Renderer.Resources.{
  create_depth_resources, create_multisample_color_resources, create_semaphores,
}
use playground_engine.Renderer.SwapChain.{SwapChainResources}
use playground_engine.Renderer.State.{
  RendererVulkan, device_wait_idle_error, swap_chain_recreation_error,
}
use playground_engine.Renderer.Step.{Running}
use playground_engine.Renderer.Drawing.{
  Surface, match_semaphores, adopt_swap_chain, recreate_swap_chain,
}
use playground_engine.Renderer.Ensures.{Succeeded, Succeeded-calls}
use playground_engine.Renderer.Lengths.{
  HasLength, ListsAsAsked, Made, create_swap_chain_resources-Made, create_semaphores-HasLength,
}
use playground_engine.Renderer.Quiet.{
  create_swap_chain_resources-Keeps, create_depth_resources-Keeps,
  create_multisample_color_resources-Keeps, create_semaphores-Keeps,
}
use playground_engine.Renderer.Fences.{fence_calls, is_fence_call-Passes}
use playground_engine.Renderer.Invariant.{IsWellFormed}
use playground_engine.Renderer.Runs.{Mild-query}
use playground_engine.Renderer.Holds.{
  Wakes, same-Wakes, Holds, Holds-Mild, Holds-return, Holds-if, Holds-change, Holds-self,
  Holds-changed, Holds-attempt,
}

module _ (device : Device) (images_in : ℕ → ℕ) (lists : ListsAsAsked device images_in)
    (surface : Surface) where
  -- The sizes are kept, and the fences left alone.
  abbrev pub Kept : List Call → Unit {0} → Running → Type 0
  Kept calls u t = IsWellFormed images_in t.0 × (fence_calls t.1 ≡ fence_calls calls)

  anything :
      {A : Type 0} → (m : M A) (calls : List Call) → Succeeded (λ a after. Unit {0}) (m calls)
  anything m calls = Succeeded-calls (λ after. Unit {0}) (m calls) tt

  -- The renderer between two swap chains.
  abbrev emptied : RendererVulkan → RendererVulkan
  emptied r = record r { swap_chain = 0; swap_chain_images = []; swap_chain_image_views = [] }

  -- Sizes that may lack the semaphores of the images.
  match_semaphores-Kept :
      (calls c : List Call) (r : RendererVulkan)
      → (length r.render_finished_semaphores ≡ length r.swap_chain_images
          → IsWellFormed images_in r)
      → ((semaphores : List ℕ)
          → length semaphores ≡ length r.swap_chain_images
          → IsWellFormed images_in (record r { render_finished_semaphores = semaphores }))
      → fence_calls c ≡ fence_calls calls
      → Wakes c
      → Holds
          (Kept calls)
          (match_semaphores device surface
            (length r.render_finished_semaphores)
            (length r.swap_chain_images))
          (r, c)
  unfolding match_semaphores
  match_semaphores-Kept calls c r kept made e wakes =
      Holds-if (length r.render_finished_semaphores == length r.swap_chain_images) _ _ (r, c)
        (λ equal. Holds-return tt (r, c) (kept (ground arith), e))
        (λ other.
          Holds-attempt (HasLength (length r.swap_chain_images)) swap_chain_recreation_error
            (create_semaphores device (length r.swap_chain_images)) _ (r, c)
            (create_semaphores-HasLength device (length r.swap_chain_images) c).at
            ((create_semaphores-Keeps device is_fence_call-Passes (length r.swap_chain_images)).at
              c)
            wakes (λ semaphores d n same. Holds-change _ _ (made semaphores n, same ∙ e)))

  adopt_swap_chain-Kept :
      (chain : SwapChainResources) (calls c : List Call) (r : RendererVulkan)
      → IsWellFormed images_in r
      → length chain.images ≡ images_in chain.swap_chain
      → length chain.image_views ≡ length chain.images
      → fence_calls c ≡ fence_calls calls
      → Wakes c
      → Holds (Kept calls) (adopt_swap_chain device surface chain) (emptied r, c)
  unfolding adopt_swap_chain
  adopt_swap_chain-Kept chain calls c r w n views e wakes = Holds-changed _ _ _ (
      Holds-self _ _ (
        Holds-attempt (λ a after. Unit {0}) swap_chain_recreation_error _ _ _
          (anything
            (create_multisample_color_resources device chain.extent
              r.swap_chain_surface_format.format r.sample_count)
            c)
          ((create_multisample_color_resources-Keeps device is_fence_call-Passes _ _ _).at c) wakes
          (λ color c1 u1 e1. Holds-changed _ _ _ (
            Holds-attempt (λ a after. Unit {0}) swap_chain_recreation_error _ _ _
              (anything (create_depth_resources device chain.extent r.depth_format r.sample_count)
                c1)
              ((create_depth_resources-Keeps device is_fence_call-Passes _ _ _).at c1)
              (same-Wakes c c1 wakes e1)
              (λ depth c2 u2 e2. Holds-changed _ _ _ (
                match_semaphores-Kept calls c2 _
                  (λ same. record {
                    images = n;
                    frame = w.frame;
                    uniforms = w.uniforms;
                    sets = w.sets;
                    buffers = w.buffers;
                    present_complete = w.present_complete;
                    fences = w.fences;
                    views = views;
                    render_finished = same;
                  })
                  (λ semaphores m. record {
                    images = n;
                    frame = w.frame;
                    uniforms = w.uniforms;
                    sets = w.sets;
                    buffers = w.buffers;
                    present_complete = w.present_complete;
                    fences = w.fences;
                    views = views;
                    render_finished = m;
                  })
                  (e2 ∙ e1 ∙ e) (same-Wakes c1 c2 (same-Wakes c c1 wakes e1) e2)))))))

  pub recreate_swap_chain-Kept :
      (size : Extent) (s : Running)
      → IsWellFormed images_in s.0
      → Wakes s.1
      → Holds (Kept s.1) (recreate_swap_chain device surface size) s
  unfolding recreate_swap_chain
  recreate_swap_chain-Kept size s w wakes =
      Holds-Mild _ _ s (Mild-query device device_wait_idle device_wait_idle_error s refl) wakes
        (λ idle s1 same.
          let wakes1 : Wakes s1.1 = same-Wakes s.1 s1.1 wakes same.1 in
          Holds-changed _ _ s1 (
            Holds-self _ _ (
              Holds-attempt (Made device (surface.capabilities s1.1) size) _ _ _ _
                (create_swap_chain_resources-Made device (surface.capabilities s1.1)
                  (surface.present_modes s1.1) size s1.0.swap_chain_surface_format s1.1).at
                ((create_swap_chain_resources-Keeps device is_fence_call-Passes
                    (surface.capabilities s1.1) (surface.present_modes s1.1) size
                    s1.0.swap_chain_surface_format).at
                  s1.1)
                wakes1
                (λ chain c2 made e2.
                  adopt_swap_chain-Kept chain s.1 c2 s1.0
                    (subst (IsWellFormed images_in) (sym same.0) w)
                    (ap length made.5 ∙ lists.images made.2 chain.swap_chain made.1 made.4) made.6
                    (e2 ∙ same.1) (same-Wakes s1.1 c2 wakes1 e2)))))
