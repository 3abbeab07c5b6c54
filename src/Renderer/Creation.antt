-- ===== src/Renderer/Creation.antt =====
-- `RendererVulkan::Create` of PlaygroundEngine/src/Renderer/RendererVulkan.cpp, and the steps of
-- Renderer/VulkanUtils.cpp that it alone takes.
use playground_engine.Base.{
  ℕ, List, [], ◌∷◌, Option, none, Bool, true, false, Text, if◌then◌else◌, length, ◌&&◌,
}
use playground_engine.Renderer.Device.{
  Device, Format, r8g8b8a8_srgb, SurfaceFormat, PresentMode, Extent, color, create_instance,
  create_debug_messenger, create_surface, create_logical_device, create_descriptor_set_layout,
  create_pipeline_layout, load_shader, create_graphics_pipeline, create_command_pool,
  create_sampler, create_descriptor_pool, allocate_descriptor_sets, update_descriptor_set,
  instance_creation_error, debug_messenger_creation_error, unable_to_create_window_surface,
  logical_device_creation_error, descriptor_set_layout_create_error, pipeline_layout_create_error,
  shader_load_error, shader_module_create_error, pipeline_create_error, command_pool_create_error,
  sampler_create_error, descriptor_pool_create_error, descriptor_set_create_error,
  create_shader_module,
}
use playground_engine.Renderer.Result.{Outcome, M, ◌>>=◌, ◌>>◌, return, tell, ask, repeat}
use playground_engine.Renderer.Choices.{
  collect_required_instance_extensions, collect_required_validation_layers, Candidate,
  select_physical_device, find_graphics_present_queue_family, select_surface_format,
  find_depth_format, get_max_usable_sample_count,
}
use playground_engine.Renderer.Resources.{
  UniformBufferResource, create_view, create_uniform_buffer, create_depth_resources,
  create_multisample_color_resources, allocate_buffers, create_semaphores, create_signaled_fences,
}
use playground_engine.Renderer.Transfers.{create_texture_image}
use playground_engine.Renderer.SwapChain.{SurfaceCapabilities, create_swap_chain_resources}
use playground_engine.Renderer.State.{RendererVulkan, max_frames_in_flight}

-- What the creation reads: the specification and the build, what each query answers, the decoder of
-- images, the logarithm rounded down, and whether ImGui has a context and its backend comes up.
pub record Setup : Type 0 where
  pub debug_ui_overlay : Bool
  pub dev : Bool
  pub debug_utils_name : Text
  pub validation_name : Text
  pub window_extensions : Option (List Text)
  pub instance_extensions : Option (List Text)
  pub layers : Option (List Text)
  pub api_version_13 : ℕ
  pub physical_devices : Option (List Candidate)
  pub required_device_extensions : List Text
  pub surface_support : ℕ → Option Bool
  pub surface_formats : Option (List SurfaceFormat)
  pub capabilities : Option SurfaceCapabilities
  pub present_modes : Option (List PresentMode)
  pub framebuffer_size : Extent
  pub decode : ℕ → Option (Extent × ℕ)
  pub floor_log2 : ℕ → ℕ
  pub placeholder_texture : ℕ
  pub uniform_size : ℕ
  pub has_overlay_context : Bool
  pub overlay_backend_starts : Bool

unfoldable pub lift : {A : Type 0} → Outcome A → M A
lift outcome calls = (outcome, calls)

-- The descriptor writes of the frames, for as many buffers as sets.
unfoldable pub write_descriptor_sets : ℕ → ℕ → List UniformBufferResource → List ℕ → M (Unit {0})
unfolding return tell
write_descriptor_sets view sampler [] sets = return tt
write_descriptor_sets view sampler (b ∷ buffers) [] = return tt
write_descriptor_sets view sampler (b ∷ buffers) (s ∷ sets) = do
  tell (update_descriptor_set s b.buffer.buffer view sampler)
  write_descriptor_sets view sampler buffers sets

-- `InitializeDebugUiBackend`.
unfoldable pub initialize_debug_ui_backend : Setup → RendererVulkan → RendererVulkan
initialize_debug_ui_backend setup renderer =
    if setup.dev && (setup.has_overlay_context && setup.overlay_backend_starts)
    then record renderer { debug_ui_overlay_enabled = true }
    else renderer

module _ (device : Device) (setup : Setup) where
  unfoldable pub create_vulkan_instance : M ℕ
  unfolding lift
  create_vulkan_instance = do
    extensions ← lift (
        collect_required_instance_extensions setup.window_extensions setup.instance_extensions
          setup.dev setup.debug_utils_name)
    layers ← lift (collect_required_validation_layers setup.layers setup.dev setup.validation_name)
    ask device (create_instance extensions layers) instance_creation_error

  unfoldable pub create_messenger : M (Unit {0})
  unfolding return
  create_messenger =
      if setup.dev
      then (ask device create_debug_messenger debug_messenger_creation_error >> return tt)
      else return tt

  unfoldable pub create_pipeline : ℕ → Format → Format → ℕ → M ℕ
  create_pipeline layout color_format depth_format samples = do
    ask device load_shader shader_load_error
    ask device create_shader_module shader_module_create_error
    ask device (create_graphics_pipeline layout color_format depth_format samples)
        pipeline_create_error

  unfoldable pub allocate_sets : ℕ → ℕ → ℕ → M (List ℕ)
  allocate_sets layout pool count = do
    list ← ask device (allocate_descriptor_sets layout pool count) descriptor_set_create_error
    return (device.listed list)

  unfoldable pub create : M RendererVulkan
  unfolding lift create_vulkan_instance create_messenger create_pipeline allocate_sets
      initialize_debug_ui_backend write_descriptor_sets
  create = do
    create_vulkan_instance
    create_messenger
    ask device create_surface unable_to_create_window_surface
    physical ← lift (
        select_physical_device setup.api_version_13 setup.physical_devices
          setup.required_device_extensions)
    family ←
        lift (find_graphics_present_queue_family setup.surface_support physical.graphics_queues)
    ask device (create_logical_device family setup.required_device_extensions)
        logical_device_creation_error
    format ← lift (select_surface_format setup.surface_formats)
    swap_chain ←
        create_swap_chain_resources device setup.capabilities setup.present_modes
          setup.framebuffer_size format
    depth_format ← lift (find_depth_format device.physical)
    let samples = get_max_usable_sample_count device.physical
    multisample_color ←
        create_multisample_color_resources device swap_chain.extent format.format samples
    depth ← create_depth_resources device swap_chain.extent depth_format samples
    set_layout ← ask device create_descriptor_set_layout descriptor_set_layout_create_error
    layout ← ask device (create_pipeline_layout set_layout) pipeline_layout_create_error
    create_pipeline layout format.format depth_format samples
    pool ← ask device (create_command_pool family) command_pool_create_error
    (texture, mip_levels) ←
        create_texture_image device setup.decode setup.floor_log2 pool setup.placeholder_texture
    texture_view ← create_view device texture.image r8g8b8a8_srgb color mip_levels
    sampler ← ask device create_sampler sampler_create_error
    uniforms ← repeat max_frames_in_flight (create_uniform_buffer device setup.uniform_size)
    descriptor_pool ←
        ask device (create_descriptor_pool max_frames_in_flight) descriptor_pool_create_error
    sets ← allocate_sets set_layout descriptor_pool max_frames_in_flight
    write_descriptor_sets texture_view sampler uniforms sets
    buffers ← allocate_buffers device pool max_frames_in_flight
    render_finished ← create_semaphores device (length swap_chain.images)
    present_complete ← create_semaphores device max_frames_in_flight
    fences ← create_signaled_fences device max_frames_in_flight
    let renderer : RendererVulkan = record {
      swap_chain = swap_chain.swap_chain;
      swap_chain_images = swap_chain.images;
      swap_chain_surface_format = format;
      swap_chain_extent = swap_chain.extent;
      swap_chain_supports_transfer_source = swap_chain.supports_transfer_source;
      swap_chain_image_views = swap_chain.image_views;
      command_pool = pool;
      meshes = [];
      sample_count = samples;
      multisample_color = multisample_color;
      depth_format = depth_format;
      depth = depth;
      uniform_buffer_resources = uniforms;
      descriptor_sets = sets;
      command_buffers = buffers;
      present_complete_semaphores = present_complete;
      render_finished_semaphores = render_finished;
      in_flight_fences = fences;
      frame_index = 0;
      framebuffer_resized = false;
      debug_ui_overlay_enabled = false;
      pending_capture_path = none;
    }
    return (if setup.debug_ui_overlay then initialize_debug_ui_backend setup renderer else renderer)
