-- ===== src/Renderer/Waits.antt =====
-- The parts of `DrawFrame` of PlaygroundEngine/src/Renderer/RendererVulkan.cpp keep the sizes of the
-- arrays, and leave no fence that nothing will signal.
use playground_engine.Base.{
  ℕ, ◌<◌, ◌+◌, ◌%◌, ◌≡◌, refl, ◌∙◌, List, Option, none, some, Bool, length, arith,
}
use playground_engine.Renderer.Device.{Device, Call, Extent}
use playground_engine.Renderer.State.{
  RendererVulkan, queue_present_error, unable_to_acquire_swap_chain_image,
}
use playground_engine.Renderer.Step.{
  Running, N, return, ignore, stop, Drawn, drawn, stopped, out_of_range,
}
use playground_engine.Renderer.Drawing.{
  Surface, Acquired, acquired, suboptimal, out_of_date, not_acquired, Presented, presented,
  presented_suboptimal, present_out_of_date, not_presented, recreate_swap_chain, serve_capture,
  service_capture,
}
use playground_engine.Renderer.Frames.{image_of, conclude, rebuild, finish_frame}
use playground_engine.Renderer.Capture.{capture_when_idle}
use playground_engine.Renderer.Lengths.{ListsAsAsked}
use playground_engine.Renderer.Fences.{Settled, Unsignalled, same-fences_after}
use playground_engine.Renderer.Invariant.{IsWellFormed}
use playground_engine.Renderer.Runs.{Same}
use playground_engine.Renderer.Recording.{capture_when_idle-Keeps}
use playground_engine.Renderer.Holds.{
  Wakes, Settled-Wakes, Fine, Holds, Holds-index, Holds-return, Holds-stop, Holds-if, Holds-self,
  Holds-changed,
}
use playground_engine.Renderer.Recreation.{Kept, recreate_swap_chain-Kept}

-- The image that is acquired is one of the swap chain's.
pub record AcquiresOwn (images_in : ℕ → ℕ) (surface : Surface) : Type 0 where
  pub fresh :
      (calls : List Call) (swap_chain i : ℕ)
      → surface.acquire calls swap_chain ≡ acquired i
      → i < images_in swap_chain
  pub stale :
      (calls : List Call) (swap_chain i : ℕ)
      → surface.acquire calls swap_chain ≡ suboptimal i
      → i < images_in swap_chain

abbrev pub Bounded : ℕ → Option ℕ → Type 0
Bounded count none = Unit
Bounded count (some i) = i < count

pub Unsignalled-Wakes : (fence : ℕ) (calls : List Call) → Unsignalled fence calls → Wakes calls
Unsignalled-Wakes fence calls e = rw e refl

module _ (device : Device) (images_in : ℕ → ℕ) (lists : ListsAsAsked device images_in)
    (surface : Surface) (own : AcquiresOwn images_in surface) where
  -- The sizes are right, and every fence is signalled or will be.
  abbrev pub Ready : Unit {0} → Running → Type 0
  Ready u t = IsWellFormed images_in t.0 × Settled t.1

  pub rebuilt-Ready :
      (size : Extent) (s : Running)
      → Ready tt s
      → Holds Ready (recreate_swap_chain device surface size) s
  rebuilt-Ready size s ready = record {
    at =
        step (recreate_swap_chain device surface size s)
          (recreate_swap_chain-Kept device images_in lists surface size s ready.0
            (Settled-Wakes s.1 ready.1)).at;
  }
    where
      step :
          (r : Drawn (Unit {0}) × Running)
          → Fine (Kept device images_in lists surface s.1) r
          → Fine Ready r
      step (drawn u, t) kept = (kept.0, same-fences_after s.1 t.1 kept.1 ∙ ready.1)
      step (stopped e, t) w = w
      step (out_of_range, t) h = h

  conclude-Ready :
      (result : Presented) (resized : Bool) (rebuilt : N (Unit {0})) (s : Running)
      → Ready tt s
      → Holds Ready rebuilt s
      → Holds Ready (conclude result resized rebuilt) s
  unfolding conclude
  conclude-Ready presented resized rebuilt s ready h =
      Holds-if resized rebuilt (return tt) s (λ e. h) (λ e. Holds-return tt s ready)
  conclude-Ready presented_suboptimal resized rebuilt s ready h = h
  conclude-Ready present_out_of_date resized rebuilt s ready h = h
  conclude-Ready not_presented resized rebuilt s ready h =
      Holds-if resized rebuilt (stop queue_present_error) s (λ e. h)
        (λ e. Holds-stop queue_present_error s (Settled-Wakes s.1 ready.1))

  pub finish_frame-Ready :
      (size : Extent) (result : Presented) (s : Running)
      → Ready tt s
      → Holds Ready (finish_frame device surface size result) s
  unfolding finish_frame rebuild
  finish_frame-Ready size result s ready =
      let w : IsWellFormed images_in s.0 = ready.0 in
      let next : (s.0.frame_index + 1) % 2 < 2 = omega arith in
      Holds-changed _ _ s (
        Holds-self _ _ (
          conclude-Ready result s.0.framebuffer_resized _ _ (ground (arith, next), ready.1)
            (Holds-changed _ _ _ (rebuilt-Ready size _ (ground (arith, next), ready.1)))))

  pub image_of-Bounded :
      (answer : Acquired) (swap_chain : ℕ) (s t : Running)
      → ((i : ℕ) → answer ≡ acquired i → i < images_in swap_chain)
      → ((i : ℕ) → answer ≡ suboptimal i → i < images_in swap_chain)
      → Same s t
      → Wakes t.1
      → Holds (λ o u. Same s u × Bounded (images_in swap_chain) o) (image_of answer) t
  unfolding image_of
  image_of-Bounded (acquired i) swap_chain s t fresh stale same w =
      Holds-return (some i) t (same, fresh i refl)
  image_of-Bounded (suboptimal i) swap_chain s t fresh stale same w =
      Holds-return (some i) t (same, stale i refl)
  image_of-Bounded out_of_date swap_chain s t fresh stale same w = Holds-return none t (same, tt)
  image_of-Bounded not_acquired swap_chain s t fresh stale same w =
      Holds-stop unable_to_acquire_swap_chain_image t w

  serve_capture-Ready :
      (r : RendererVulkan) (image_index : ℕ) (path : Option ℕ) (s : Running)
      → Ready tt s
      → image_index < length r.swap_chain_images
      → Holds Ready (serve_capture device surface r image_index path) s
  unfolding serve_capture ignore
  serve_capture-Ready r image_index none s ready h = Holds-return tt s ready
  serve_capture-Ready r image_index (some path) s ready h =
      let w : IsWellFormed images_in s.0 = ready.0 in
      Holds-changed _ _ s (
        Holds-index r.swap_chain_images image_index _ _ h (λ image. record {
          at = (
            ground arith,
            same-fences_after s.1 (capture_when_idle device r image path s.1).1
                  ((capture_when_idle-Keeps device r image path).at s.1)
                ∙ ready.1,
          );
        }))

  pub service_capture-Ready :
      (image_index : ℕ) (s : Running)
      → Ready tt s
      → image_index < length s.0.swap_chain_images
      → Holds Ready (service_capture device surface image_index) s
  unfolding service_capture
  service_capture-Ready image_index s ready h =
      Holds-self _ s (serve_capture-Ready s.0 image_index s.0.pending_capture_path s ready h)
