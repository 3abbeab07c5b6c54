-- ===== src/Renderer/Recording.antt =====
-- `RecordCommandBuffer` and `CaptureSwapChainImage` of PlaygroundEngine/src/Renderer/RendererVulkan.cpp
-- stay in range and touch no fence.
use playground_engine.Base.{
  Option-cases, inl, inr, ◌++◌, ℕ, ◌<◌, ◌-◌, ◌≡◌, refl, ◌∙◌, List, [], ◌∷◌, Bool, false, length,
  arith, ◌&&◌,
}
use playground_engine.Render.{ExtractedMesh}
use playground_engine.Renderer.Device.{
  Device, Call, Command, Layout, Extent, record_command, begin_commands, end_commands,
  end_rendering, transition, color_attachment_optimal, present_src, device_wait_idle,
}
use playground_engine.Renderer.Result
use playground_engine.Renderer.Result.{Outcome, ok, failed, M}
use playground_engine.Renderer.Transfers.{record_all, read_image_to_host}
use playground_engine.Renderer.State.{
  RendererVulkan, command_buffer_begin_error, command_buffer_end_error,
}
use playground_engine.Renderer.Step.{Running}
use playground_engine.Renderer.Drawing.{
  Surface, record_commands, scene_opening, is_drawable, mesh_commands, draw_mesh, draw_meshes,
  overlay_commands, record_command_buffer,
}
use playground_engine.Renderer.Capture.{capture_swap_chain_image, capture_when_idle}
use playground_engine.Renderer.Views.{marked-quiet, Keeps, keeps_rules, Keeps-bind, Keeps-return}
use playground_engine.Renderer.Quiet.{
  create_buffer_resource-Keeps, begin_single_time_commands-Keeps, end_single_time_commands-Keeps,
}
use playground_engine.Renderer.Fences.{is_fence_call, is_fence_call-Passes}
use playground_engine.Renderer.Invariant.{IsWellFormed}
use playground_engine.Renderer.Runs.{
  Mild, Mild-return, Mild-tell, Mild-query, Mild-index, Mild-bind, Mild-self, Mild-if,
}

record_commands-Mild :
    (buffer : ℕ) (cs : List Command) (s : Running) → Mild (record_commands buffer cs) s
unfolding record_commands
record_commands-Mild buffer [] s = Mild-return tt s
record_commands-Mild buffer (c ∷ cs) s =
    Mild-bind _ _ s (Mild-tell (record_command buffer c) s refl)
      (λ u t same. record_commands-Mild buffer cs t)

draw_mesh-Mild :
    (r : RendererVulkan) (buffer : ℕ) (m : ExtractedMesh ℕ) (s : Running)
    → Mild (draw_mesh r buffer m) s
unfolding draw_mesh
draw_mesh-Mild r buffer m s =
    Mild-if (is_drawable r m.mesh) _ _ s
      (λ drawable.
        Mild-bind _ _ s (Mild-index r.meshes (m.mesh - 1) s (ground arith))
          (λ mesh t same. record_commands-Mild buffer (mesh_commands m mesh) t))
      (λ other. Mild-return tt s)

draw_meshes-Mild :
    (r : RendererVulkan) (buffer : ℕ) (meshes : List (ExtractedMesh ℕ)) (s : Running)
    → Mild (draw_meshes r buffer meshes) s
unfolding draw_meshes
draw_meshes-Mild r buffer [] s = Mild-return tt s
draw_meshes-Mild r buffer (m ∷ meshes) s =
    Mild-bind _ _ s (draw_mesh-Mild r buffer m s) (λ u t same. draw_meshes-Mild r buffer meshes t)

pub record_command_buffer-Mild :
    (images_in : ℕ → ℕ) (device : Device) (surface : Surface) (meshes : List (ExtractedMesh ℕ))
    (image_index : ℕ) (overlay : Bool) (s : Running)
    → IsWellFormed images_in s.0
    → image_index < length s.0.swap_chain_images
    → Mild (record_command_buffer device surface meshes image_index overlay) s
unfolding record_command_buffer
record_command_buffer-Mild images_in device surface meshes image_index overlay s w h =
    let r : RendererVulkan = s.0 in
    let frame : s.0.frame_index < 2 = w.frame in
    let in_buffers : s.0.frame_index < length s.0.command_buffers =
      omega (arith, frame, w.buffers) in
    let in_sets : s.0.frame_index < length s.0.descriptor_sets = omega (arith, frame, w.sets) in
    let in_views : image_index < length s.0.swap_chain_image_views = omega (arith, h, w.views) in
    Mild-self _ s (
      Mild-bind _ _ s (Mild-index s.0.command_buffers s.0.frame_index s in_buffers) (λ buffer s1 e1.
        Mild-bind _ _ s1
          (Mild-query device (begin_commands buffer) command_buffer_begin_error s1 refl)
          (λ begun s2 e2.
            Mild-bind _ _ s2 (Mild-index s.0.swap_chain_images image_index s2 h) (λ image s3 e3.
              Mild-bind _ _ s3 (Mild-index s.0.swap_chain_image_views image_index s3 in_views)
                (λ view s4 e4.
                  Mild-bind _ _ s4 (Mild-index s.0.descriptor_sets s.0.frame_index s4 in_sets)
                    (λ set s5 e5.
                      Mild-bind _ _ s5
                        (record_commands-Mild buffer (scene_opening s.0 image view set) s5)
                        (λ u6 s6 e6.
                          Mild-bind _ _ s6 (draw_meshes-Mild s.0 buffer meshes s6) (λ u7 s7 e7.
                            Mild-bind _ _ s7 (record_commands-Mild buffer (end_rendering ∷ []) s7)
                              (λ u8 s8 e8.
                                Mild-bind _ _ s8
                                  (Mild-if (s.0.debug_ui_overlay_enabled && overlay) _ _ s8
                                    (λ shown.
                                      record_commands-Mild buffer (overlay_commands image view) s8)
                                    (λ hidden. Mild-return tt s8))
                                  (λ u9 s9 e9.
                                    Mild-bind _ _ s9
                                      (record_commands-Mild buffer
                                        (transition image color_attachment_optimal present_src 0 1
                                          ∷ [])
                                        s9)
                                      (λ u10 s10 e10.
                                        Mild-bind _ _ s10
                                          (Mild-query device (end_commands buffer)
                                            command_buffer_end_error s10 refl)
                                          (λ ended s11 e11. Mild-return tt s11))))))))))))

pub record_all-Keeps : (buffer : ℕ) (cs : List Command) → Keeps is_fence_call (record_all buffer cs)
unfolding record_all
record_all-Keeps buffer [] = Keeps-return tt
record_all-Keeps buffer (c ∷ cs) =
    Keeps-bind _ _ (told (record_command buffer c) refl) (λ u. record_all-Keeps buffer cs)
  where
    told : (call : Call) → is_fence_call call ≡ false → Keeps is_fence_call (Result.tell call)
    told call q = record { at = λ calls. marked-quiet is_fence_call calls call q }

module _ (device : Device) where
  read_image_to_host-Keeps :
      (pool image : ℕ) (layout : Layout) (extent : Extent)
      → Keeps is_fence_call (read_image_to_host device pool image layout extent)
  unfolding read_image_to_host
  read_image_to_host-Keeps pool image layout extent =
      search
        (
          keeps_rules, is_fence_call-Passes, create_buffer_resource-Keeps,
          begin_single_time_commands-Keeps, end_single_time_commands-Keeps, record_all-Keeps,
        )
        depth 14

  capture_swap_chain_image-Keeps :
      (r : RendererVulkan) (image path : ℕ)
      → Keeps is_fence_call (capture_swap_chain_image device r image path)
  unfolding capture_swap_chain_image
  capture_swap_chain_image-Keeps r image path =
      search (keeps_rules, is_fence_call-Passes, read_image_to_host-Keeps) depth 14

  pub capture_when_idle-Keeps :
      (r : RendererVulkan) (image path : ℕ)
      → Keeps is_fence_call (capture_when_idle device r image path)
  unfolding capture_when_idle
  capture_when_idle-Keeps r image path = record {
    at = λ calls.
        let waited = marked-quiet is_fence_call calls device_wait_idle refl in
        elim (Option-cases (device.answer calls device_wait_idle)) [
          | inl e ↦ rw (e, capture_when_idle) waited
          | inr (idle, e) ↦
              rw (e, capture_when_idle)
                ((capture_swap_chain_image-Keeps r image path).at (calls ++ (device_wait_idle ∷ []))
                  ∙ waited)
        ];
  }
