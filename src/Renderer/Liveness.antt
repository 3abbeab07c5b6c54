-- ===== src/Renderer/Liveness.antt =====
-- `DrawFrame` of PlaygroundEngine/src/Renderer/RendererVulkan.cpp, and frames one after another until
-- one stops, as `Engine::Run` of Engine.cpp draws them.
use playground_engine.Base.{
  ℕ, ◌<◌, ◌≡◌, refl, sym, ◌∙◌, subst, List, [], ◌∷◌, ◌++◌, Option, none, some, Bool, length, arith,
  ◌==◌, ◌||◌,
}
use playground_engine.Render.{ExtractedMesh}
use playground_engine.Renderer.Device.{
  Device, Call, Extent, wait_for_fence, reset_fence, acquire_next_image, submit_frame, present,
  reset_commands, write_memory,
}
use playground_engine.Renderer.State.{
  RendererVulkan, fence_wait_error, fence_reset_error, unable_to_reset_command_buffer,
  queue_submit_error,
}
use playground_engine.Renderer.Step.{Running, ◌>>=◌, tell}
use playground_engine.Renderer.Drawing.{Surface}
use playground_engine.Renderer.Frames.{acquire_image, submit, draw_on, draw_if_acquired, draw_frame}
use playground_engine.Renderer.Views.{marked-quiet}
use playground_engine.Renderer.Lengths.{ListsAsAsked}
use playground_engine.Renderer.Fences.{
  is_fence_call, fence_calls, Settled, Unsignalled, wait-Settled, reset-Unsignalled, submit-Settled,
  same-fences_after,
}
use playground_engine.Renderer.Invariant.{IsWellFormed}
use playground_engine.Renderer.Runs.{Same, Mild-tell, Mild-query}
use playground_engine.Renderer.Recording.{record_command_buffer-Mild}
use playground_engine.Renderer.Holds.{
  Wakes, Settled-Wakes, same-Wakes, Fine, Holds, Holds-bind, Holds-Mild, Holds-index, Holds-return,
  Holds-if, Holds-self, Holds-told, Holds-queried,
}
use playground_engine.Renderer.Waits.{
  AcquiresOwn, Bounded, Unsignalled-Wakes, Ready, rebuilt-Ready, finish_frame-Ready,
  image_of-Bounded, service_capture-Ready,
}

module _ (device : Device) (images_in : ℕ → ℕ) (lists : ListsAsAsked device images_in)
    (surface : Surface) (own : AcquiresOwn images_in surface) where
  -- From the submission on: the fence is the one that was reset.
  submitted-Ready :
      (size : Extent) (swap_chain buffer wait fence image_index : ℕ) (r : RendererVulkan)
      (s : Running)
      → s.0 ≡ r
      → IsWellFormed images_in r
      → Unsignalled fence s.1
      → image_index < length r.swap_chain_images
      → Holds
          (Ready device images_in lists surface own)
          (submit device surface size swap_chain buffer wait fence r.render_finished_semaphores
            image_index)
          s
  unfolding submit
  submitted-Ready size swap_chain buffer wait fence image_index r s same w dead h =
      let in_semaphores : image_index < length r.render_finished_semaphores =
        omega (arith, h, w.render_finished) in
      Holds-index r.render_finished_semaphores image_index _ s in_semaphores (λ finished.
        let call : Call = submit_frame buffer wait finished fence in
        let settled : Settled (s.1 ++ (submit_frame buffer wait finished fence ∷ [])) =
          submit-Settled buffer wait finished fence s.1 dead in
        Holds-queried device call queue_submit_error _ s (Settled-Wakes _ settled) (λ done.
          Holds-bind (Ready device images_in lists surface own) _ _ _
            (service_capture-Ready device images_in lists surface own image_index
              (s.0, s.1 ++ (submit_frame buffer wait finished fence ∷ []))
              (subst (IsWellFormed images_in) (sym same) w, settled)
              (subst (λ x. image_index < length x.swap_chain_images) (sym same) h)).at
            (λ u t ready. Holds-told (present finished swap_chain image_index) _ t (record {
              at =
                  (finish_frame-Ready device images_in lists surface own size _ _ (
                    ready.0,
                    same-fences_after t.1 _ (
                          marked-quiet is_fence_call t.1 (present finished swap_chain image_index)
                            refl)
                        ∙ ready.1,
                  )).at;
            }))))

  draw_on-Ready :
      (meshes : List (ExtractedMesh ℕ)) (size : Extent) (overlay : Bool)
      (fence present_complete image_index : ℕ) (s : Running)
      → (Ready device images_in lists surface own) tt s
      → image_index < length s.0.swap_chain_images
      → Holds
          (Ready device images_in lists surface own)
          (draw_on device surface meshes size overlay fence present_complete image_index)
          s
  unfolding draw_on
  draw_on-Ready meshes size overlay fence present_complete image_index s ready h =
      let w : IsWellFormed images_in s.0 = ready.0 in
      let frame : s.0.frame_index < 2 = w.frame in
      let in_uniforms : s.0.frame_index < length s.0.uniform_buffer_resources =
        omega (arith, frame, w.uniforms) in
      let in_buffers : s.0.frame_index < length s.0.command_buffers =
        omega (arith, frame, w.buffers) in
      let dead : Unsignalled fence (s.1 ++ (reset_fence fence ∷ [])) =
        reset-Unsignalled fence s.1 ready.1 in
      let w1 : Wakes (s.1 ++ (reset_fence fence ∷ [])) = Unsignalled-Wakes fence _ dead in
      Holds-self _ s (
        Holds-queried device (reset_fence fence) fence_reset_error _ s w1 (λ done.
          Holds-index _ s.0.frame_index _ _ in_uniforms (λ uniforms.
            Holds-Mild _ _ _ (Mild-tell (write_memory uniforms.buffer_mapped) _ refl) w1 (λ u s2 e2.
              let w2 : Wakes s2.1 = same-Wakes _ s2.1 w1 e2.1 in
              Holds-index _ s.0.frame_index _ s2 in_buffers (λ buffer.
                Holds-Mild _ _ s2
                  (Mild-query device (reset_commands buffer) unable_to_reset_command_buffer s2 refl)
                  w2
                  (λ reset s3 e3.
                    let w3 : Wakes s3.1 = same-Wakes s2.1 s3.1 w2 e3.1 in
                    let same3 : s3.0 ≡ s.0 = e3.0 ∙ e2.0 in
                    Holds-Mild _ _ s3
                      (record_command_buffer-Mild images_in device surface meshes image_index
                        overlay s3 (subst (IsWellFormed images_in) (sym same3) w)
                        (subst (λ r. image_index < length r.swap_chain_images) (sym same3) h))
                      w3
                      (λ v s4 e4.
                        submitted-Ready size s.0.swap_chain buffer present_complete fence
                          image_index s.0 s4 (e4.0 ∙ same3) w
                          (same-fences_after (s.1 ++ (reset_fence fence ∷ [])) s4.1
                              (e4.1 ∙ e3.1 ∙ e2.1)
                            ∙ dead)
                          h)))))))

  image_of-after :
      (swap_chain semaphore : ℕ) (s : Running)
      → Wakes s.1
      → Holds
          (λ o t. Same s t × Bounded (images_in swap_chain) o)
          (acquire_image device surface swap_chain semaphore)
          s
  unfolding acquire_image tell ◌>>=◌
  image_of-after swap_chain semaphore s w =
      let call : Call = acquire_next_image swap_chain semaphore in
      let quiet : fence_calls (s.1 ++ (acquire_next_image swap_chain semaphore ∷ []))
          ≡ fence_calls s.1 =
        marked-quiet is_fence_call s.1 (acquire_next_image swap_chain semaphore) refl in
      record {
        at =
            (image_of-Bounded device images_in lists surface own (surface.acquire s.1 swap_chain)
              swap_chain s (s.0, s.1 ++ (acquire_next_image swap_chain semaphore ∷ []))
              (own.fresh s.1 swap_chain) (own.stale s.1 swap_chain) (refl, quiet)
              (same-Wakes s.1 _ w quiet)).at;
      }

  acquired-Ready :
      (meshes : List (ExtractedMesh ℕ)) (size : Extent) (overlay : Bool) (fence complete : ℕ)
      (o : Option ℕ) (s t : Running)
      → IsWellFormed images_in s.0
      → Settled (s.1 ++ (wait_for_fence fence ∷ []))
      → Same (s.0, s.1 ++ (wait_for_fence fence ∷ [])) t × Bounded (images_in s.0.swap_chain) o
      → Holds
          (Ready device images_in lists surface own)
          (draw_if_acquired device surface meshes size overlay fence complete o)
          t
  unfolding draw_if_acquired
  acquired-Ready meshes size overlay fence complete none s t w waited found =
      rebuilt-Ready device images_in lists surface own size t (
        subst (IsWellFormed images_in) (sym found.0.0) w,
        same-fences_after _ t.1 found.0.1 ∙ waited,
      )
  acquired-Ready meshes size overlay fence complete (some i) s t w waited found =
      let within : i < length s.0.swap_chain_images = omega (arith, found.1, w.images) in
      draw_on-Ready meshes size overlay fence complete i t
        (
          subst (IsWellFormed images_in) (sym found.0.0) w,
          same-fences_after _ t.1 found.0.1 ∙ waited,
        )
        (subst (λ r. i < length r.swap_chain_images) (sym found.0.0) within)

  -- Where the swap chain's images are as many as the device says, and an image that is acquired is
  -- one of them: a frame drawn from a renderer whose arrays have their sizes, after calls that left
  -- no fence reset and unsubmitted, reads past the end of none, whatever the device answers. If it
  -- succeeds, the sizes hold and no fence is left reset and unsubmitted; if it stops with an
  -- error, no wait so far was for a fence that was left so.
  pub draw_frame-Ready :
      (meshes : List (ExtractedMesh ℕ)) (size : Extent) (overlay : Bool) (s : Running)
      → IsWellFormed images_in s.0
      → Settled s.1
      → Fine
          (Ready device images_in lists surface own)
          (draw_frame device surface meshes size overlay s)
  unfolding draw_frame
  draw_frame-Ready meshes size overlay s w settled =
      let wakes : Wakes s.1 = Settled-Wakes s.1 settled in
      let frame : s.0.frame_index < 2 = w.frame in
      let in_fences : s.0.frame_index < length s.0.in_flight_fences =
        omega (arith, frame, w.fences) in
      let in_semaphores : s.0.frame_index < length s.0.present_complete_semaphores =
        omega (arith, frame, w.present_complete) in
      let proof : Holds (Ready device images_in lists surface own)
          (draw_frame device surface meshes size overlay) s =
        Holds-if (size.width == 0 || size.height == 0) _ _ s (λ e. Holds-return tt s (w, settled))
          (λ e. Holds-self _ s (
            Holds-index _ s.0.frame_index _ s in_fences (λ fence.
              let waited : Settled (s.1 ++ (wait_for_fence fence ∷ [])) =
                wait-Settled fence s.1 settled in
              Holds-queried device (wait_for_fence fence) fence_wait_error _ s
                (Settled-Wakes _ waited)
                (λ done. Holds-index _ s.0.frame_index _ _ in_semaphores (λ complete.
                  Holds-bind
                    (λ o t.
                      Same (s.0, s.1 ++ (wait_for_fence fence ∷ [])) t
                      × Bounded (images_in s.0.swap_chain) o)
                    _ _ _
                    (image_of-after s.0.swap_chain complete
                      (s.0, s.1 ++ (wait_for_fence fence ∷ [])) (Settled-Wakes _ waited)).at
                    (λ o t found.
                      acquired-Ready meshes size overlay fence complete o s t w waited
                        found)))))) in
      proof.at
