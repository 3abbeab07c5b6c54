-- ===== src/Renderer/Drawing.antt =====
-- A frame of PlaygroundEngine/src/Renderer/RendererVulkan.cpp: `RecordCommandBuffer`,
-- `RecreateSwapChain` and `DrawFrame`.
use playground_engine.Base.{
  ℕ, ◌-◌, List, [], ◌∷◌, Option, none, some, Bool, not, ◌&&◌, ◌||◌, ◌==◌, ltb, if◌then◌else◌,
  length,
}
use playground_engine.Render.{ExtractedMesh, invalid_index}
use playground_engine.Renderer.Device.{
  Device, Call, Command, Extent, PresentMode, undefined, color_attachment_optimal,
  depth_attachment_optimal, present_src, transition, begin_rendering, bind_pipeline,
  set_viewport_and_scissor, bind_descriptor_set, push_placement, bind_vertex_buffer,
  bind_index_buffer, draw_indexed, draw_overlay, end_rendering, begin_commands, end_commands,
  record_command, device_wait_idle,
}
use playground_engine.Renderer.Resources.{
  create_depth_resources, create_multisample_color_resources, create_semaphores,
}
use playground_engine.Renderer.SwapChain.{
  SwapChainResources, SurfaceCapabilities, create_swap_chain_resources,
}
use playground_engine.Renderer.State.{
  RendererVulkan, GpuMesh, command_buffer_begin_error, command_buffer_end_error,
  device_wait_idle_error, swap_chain_recreation_error,
}
use playground_engine.Renderer.Step.{
  N, ◌>>=◌, ◌>>◌, return, self, change, index, tell, query, attempt, ignore,
}
use playground_engine.Renderer.Capture.{capture_when_idle}

-- What `acquireNextImage` answers, with the index of the image where there is one.
pub data Acquired : Type 0 where
  acquired suboptimal : ℕ → Acquired
  out_of_date not_acquired : Acquired

pub data Presented : Type 0 where
  presented presented_suboptimal present_out_of_date not_presented : Presented

-- The answers of the surface and of the swap chain, from the calls made before.
pub record Surface : Type 0 where
  pub capabilities : List Call → Option SurfaceCapabilities
  pub present_modes : List Call → Option (List PresentMode)
  -- Of a swap chain.
  pub acquire : List Call → ℕ → Acquired
  pub present_result : List Call → Presented

unfoldable pub record_commands : ℕ → List Command → N (Unit {0})
unfolding return tell
record_commands buffer [] = return tt
record_commands buffer (c ∷ cs) = do tell (record_command buffer c); record_commands buffer cs

-- What is recorded ahead of the meshes.
unfoldable pub scene_opening : RendererVulkan → ℕ → ℕ → ℕ → List Command
scene_opening r image view set =
    transition image undefined color_attachment_optimal 0 1
    ∷ transition r.multisample_color.0.image undefined color_attachment_optimal 0 1
    ∷ transition r.depth.0.image undefined depth_attachment_optimal 0 1
    ∷ begin_rendering r.multisample_color.1 (some view) (some r.depth.1)
    ∷ bind_pipeline
    ∷ set_viewport_and_scissor
    ∷ bind_descriptor_set set
    ∷ []

abbrev pub is_drawable : RendererVulkan → ℕ → Bool
is_drawable r handle = not (handle == invalid_index || ltb (length r.meshes) handle)

unfoldable pub mesh_commands : ExtractedMesh ℕ → GpuMesh → List Command
mesh_commands m mesh =
    push_placement m.placement
    ∷ bind_vertex_buffer mesh.vertex_buffer.buffer
    ∷ bind_index_buffer mesh.index_buffer.buffer
    ∷ draw_indexed mesh.index_count
    ∷ []

unfoldable pub draw_mesh : RendererVulkan → ℕ → ExtractedMesh ℕ → N (Unit {0})
unfolding record_commands mesh_commands
draw_mesh r buffer m =
    if is_drawable r m.mesh
    then (index r.meshes (m.mesh - 1) >>= λ mesh. record_commands buffer (mesh_commands m mesh))
    else return tt

unfoldable pub draw_meshes : RendererVulkan → ℕ → List (ExtractedMesh ℕ) → N (Unit {0})
unfolding draw_mesh return
draw_meshes r buffer [] = return tt
draw_meshes r buffer (m ∷ meshes) = do draw_mesh r buffer m; draw_meshes r buffer meshes

unfoldable pub overlay_commands : ℕ → ℕ → List Command
overlay_commands image view =
    transition image color_attachment_optimal color_attachment_optimal 0 1
    ∷ begin_rendering view none none
    ∷ draw_overlay
    ∷ end_rendering
    ∷ []

module _ (device : Device) (surface : Surface) where
  -- The last argument is whether there is draw data of the overlay.
  unfoldable pub record_command_buffer : List (ExtractedMesh ℕ) → ℕ → Bool → N (Unit {0})
  unfolding record_commands draw_meshes scene_opening overlay_commands
  record_command_buffer meshes image_index overlay = do
    r ← self
    buffer ← index r.command_buffers r.frame_index
    query device (begin_commands buffer) command_buffer_begin_error
    image ← index r.swap_chain_images image_index
    view ← index r.swap_chain_image_views image_index
    set ← index r.descriptor_sets r.frame_index
    record_commands buffer (scene_opening r image view set)
    draw_meshes r buffer meshes
    record_commands buffer (end_rendering ∷ [])
    if r.debug_ui_overlay_enabled && overlay
        then record_commands buffer (overlay_commands image view)
        else return tt
    record_commands buffer (transition image color_attachment_optimal present_src 0 1 ∷ [])
    query device (end_commands buffer) command_buffer_end_error
    return tt

  -- The semaphores that a frame signals, one for each image.
  unfoldable pub match_semaphores : ℕ → ℕ → N (Unit {0})
  match_semaphores present images = if present == images then return tt else do
    semaphores ← attempt swap_chain_recreation_error (create_semaphores device images)
    change (λ r. record r { render_finished_semaphores = semaphores })

  -- What follows on a new swap chain.
  unfoldable pub adopt_swap_chain : SwapChainResources → N (Unit {0})
  unfolding match_semaphores
  adopt_swap_chain chain = do
    change (λ r. record r {
      swap_chain = chain.swap_chain;
      swap_chain_images = chain.images;
      swap_chain_image_views = chain.image_views;
      swap_chain_extent = chain.extent;
      swap_chain_supports_transfer_source = chain.supports_transfer_source;
    })
    r ← self
    multisample_color ← attempt swap_chain_recreation_error (
        create_multisample_color_resources device r.swap_chain_extent
          r.swap_chain_surface_format.format r.sample_count)
    change (λ r. record r { multisample_color = multisample_color })
    depth ←
        attempt swap_chain_recreation_error
          (create_depth_resources device r.swap_chain_extent r.depth_format r.sample_count)
    change (λ r. record r { depth = depth })
    match_semaphores (length r.render_finished_semaphores) (length r.swap_chain_images)

  unfoldable pub recreate_swap_chain : Extent → N (Unit {0})
  unfolding adopt_swap_chain
  recreate_swap_chain framebuffer_size = do
    query device device_wait_idle device_wait_idle_error
    change (λ r. record r { swap_chain = 0; swap_chain_images = []; swap_chain_image_views = [] })
    r ← self
    chain ← attempt swap_chain_recreation_error (λ calls.
        create_swap_chain_resources device (surface.capabilities calls)
          (surface.present_modes calls) framebuffer_size r.swap_chain_surface_format calls)
    adopt_swap_chain chain

  -- The request of a capture, taken if there is one.
  unfoldable pub serve_capture : RendererVulkan → ℕ → Option ℕ → N (Unit {0})
  unfolding capture_when_idle
  serve_capture r image_index none = return tt
  serve_capture r image_index (some path) = do
    change (λ r. record r { pending_capture_path = none })
    image ← index r.swap_chain_images image_index
    ignore (capture_when_idle device r image path)

  unfoldable pub service_capture : ℕ → N (Unit {0})
  unfolding serve_capture
  service_capture image_index = do r ← self; serve_capture r image_index r.pending_capture_path
