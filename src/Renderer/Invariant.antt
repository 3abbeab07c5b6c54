-- ===== src/Renderer/Invariant.antt =====
-- The sizes of the arrays that a frame indexes, from their creation in
-- PlaygroundEngine/src/Renderer/RendererVulkan.cpp on.
use playground_engine.Base.{ap, ◌∙◌, ℕ, ◌<◌, ◌≡◌, List, Bool, if◌then◌else◌, length, arith}
use playground_engine.Renderer.Device.{Device, Call}
use playground_engine.Renderer.Resources.{create_uniform_buffer}
use playground_engine.Renderer.State.{RendererVulkan, max_frames_in_flight}
use playground_engine.Renderer.Creation.{Setup, initialize_debug_ui_backend, create}
use playground_engine.Renderer.Ensures.{
  Succeeded, Ensures, Ensures-any, Ensures-bind, Ensures-return,
}
use playground_engine.Renderer.Lengths.{
  create_signaled_fences-HasLength, create_semaphores-HasLength, HasLength, repeat-HasLength,
  ListsAsAsked, allocate_buffers-HasLength, allocate_sets-HasLength, Made,
  create_swap_chain_resources-Made,
}

-- One of each for each frame in flight, and one view and one semaphore for each image.
pub record IsWellFormed (images_in : ℕ → ℕ) (r : RendererVulkan) : Type 0 where
  pub images : length r.swap_chain_images ≡ images_in r.swap_chain
  pub frame : r.frame_index < max_frames_in_flight
  pub uniforms : length r.uniform_buffer_resources ≡ max_frames_in_flight
  pub sets : length r.descriptor_sets ≡ max_frames_in_flight
  pub buffers : length r.command_buffers ≡ max_frames_in_flight
  pub present_complete : length r.present_complete_semaphores ≡ max_frames_in_flight
  pub fences : length r.in_flight_fences ≡ max_frames_in_flight
  pub views : length r.swap_chain_image_views ≡ length r.swap_chain_images
  pub render_finished : length r.render_finished_semaphores ≡ length r.swap_chain_images

abbrev Formed : (ℕ → ℕ) → RendererVulkan → List Call → Type 0
Formed images_in r after = IsWellFormed images_in r

overlay-IsWellFormed :
    (images_in : ℕ → ℕ) (b : Bool) (setup : Setup) (r : RendererVulkan)
    → IsWellFormed images_in r
    → IsWellFormed images_in (if b then initialize_debug_ui_backend setup r else r)
unfolding initialize_debug_ui_backend
overlay-IsWellFormed images_in b setup r w = ground arith

-- On a device whose lists are as long as it was asked for, a renderer that is created has one
-- buffer, set, semaphore and fence for each frame in flight, and one view and one semaphore for each
-- image of its swap chain.
pub create-IsWellFormed :
    (device : Device) (images_in : ℕ → ℕ) (setup : Setup) (calls : List Call)
    → ListsAsAsked device images_in
    → Succeeded (λ r after. IsWellFormed images_in r) (create device setup calls)
unfolding create
create-IsWellFormed device images_in setup calls lists =
    let proof : Ensures (Formed images_in) (create device setup) calls =
      Ensures-any _ _ calls (λ instance_ c1. Ensures-any _ _ c1 (λ messenger c2.
        Ensures-any _ _ c2 (λ surface c3. Ensures-any _ _ c3 (λ physical c4.
          Ensures-any _ _ c4 (λ family c5. Ensures-any _ _ c5 (λ logical c6.
            Ensures-any _ _ c6 (λ format c7.
              Ensures-bind (Made device setup.capabilities setup.framebuffer_size) _ _ c7
                (create_swap_chain_resources-Made device setup.capabilities setup.present_modes
                  setup.framebuffer_size format c7).at
                (λ swap_chain c8 made. Ensures-any _ _ c8 (λ depth_format c9.
                  Ensures-any _ _ c9 (λ color c10. Ensures-any _ _ c10 (λ depth c11.
                    Ensures-any _ _ c11 (λ set_layout c12. Ensures-any _ _ c12 (λ layout c13.
                      Ensures-any _ _ c13 (λ pipeline c14. Ensures-any _ _ c14 (λ pool c15.
                        Ensures-any _ _ c15 (λ texture c16. Ensures-any _ _ c16 (λ view c17.
                          Ensures-any _ _ c17 (λ sampler c18.
                            Ensures-bind (HasLength 2) _ _ c18
                              (repeat-HasLength 2 (create_uniform_buffer device setup.uniform_size)
                                c18).at
                              (λ uniforms c19 n1. Ensures-any _ _ c19 (λ descriptor_pool c20.
                                Ensures-bind (HasLength 2) _ _ c20
                                  (allocate_sets-HasLength device images_in lists setup set_layout
                                    descriptor_pool 2 c20).at
                                  (λ sets c21 n2. Ensures-any _ _ c21 (λ written c22.
                                    Ensures-bind (HasLength 2) _ _ c22
                                      (allocate_buffers-HasLength device images_in lists pool 2
                                        c22).at
                                      (λ buffers c23 n3.
                                        Ensures-bind (HasLength (length swap_chain.images)) _ _ c23
                                          (create_semaphores-HasLength device
                                            (length swap_chain.images) c23).at
                                          (λ finished c24 n4.
                                            Ensures-bind (HasLength 2) _ _ c24
                                              (create_semaphores-HasLength device 2 c24).at
                                              (λ complete c25 n5.
                                                Ensures-bind (HasLength 2) _ _ c25
                                                  (create_signaled_fences-HasLength device 2 c25).at
                                                  (λ fences c26 n6. Ensures-return _ c26 (
                                                    overlay-IsWellFormed images_in
                                                      setup.debug_ui_overlay setup _
                                                      (record {
                                                        images =
                                                            ap length made.5
                                                            ∙ lists.images made.2
                                                            swap_chain.swap_chain made.1 made.4;
                                                        frame = omega arith;
                                                        uniforms = n1;
                                                        sets = n2;
                                                        buffers = n3;
                                                        present_complete = n5;
                                                        fences = n6;
                                                        views = made.6;
                                                        render_finished = n4;
                                                      })))))))))))))))))))))))))))) in
    proof.at
