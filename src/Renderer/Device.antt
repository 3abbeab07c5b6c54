-- ===== src/Renderer/Device.antt =====
-- What the renderer asks of Vulkan, in PlaygroundEngine/src/Renderer/VulkanUtils.cpp, and the kinds
-- of error of Renderer/VulkanTypes.cppm. The device is a parameter: it answers each call from the
-- calls before it, with a handle or with an error. An error's text is left out, and so are the
-- calls that destroy, which the destructors of `vk::raii` make.
use playground_engine.Base.{ℕ, Bool, Option, List}

pub data RendererCreationErrorKind : Type 0 where
  unable_to_request_extensions extensions_enumeration_error : RendererCreationErrorKind
  validation_layers_enumeration_error extension_unavailable : RendererCreationErrorKind
  validation_layer_unavailable instance_creation_error : RendererCreationErrorKind
  debug_messenger_creation_error physical_devices_enumeration_error : RendererCreationErrorKind
  no_physical_devices no_suitable_physical_devices : RendererCreationErrorKind
  logical_device_creation_error unable_to_create_window_surface : RendererCreationErrorKind
  suitable_queue_not_found surface_capabilities_formats_error : RendererCreationErrorKind
  swap_chain_transfer_source_unsupported swap_chain_creation_error : RendererCreationErrorKind
  swap_chain_images_creation_error image_view_creation_error : RendererCreationErrorKind
  shader_load_error shader_module_create_error : RendererCreationErrorKind
  pipeline_layout_create_error descriptor_set_layout_create_error : RendererCreationErrorKind
  pipeline_create_error buffer_create_error device_memory_allocation_error :
      RendererCreationErrorKind
  device_memory_bind_error device_memory_map_error cant_find_memory_type : RendererCreationErrorKind
  image_create_error no_supported_depth_format texture_load_error : RendererCreationErrorKind
  linear_blit_unsupported model_load_error sampler_create_error : RendererCreationErrorKind
  command_pool_create_error command_buffer_create_error : RendererCreationErrorKind
  uniform_buffer_create_error descriptor_pool_create_error : RendererCreationErrorKind
  descriptor_set_create_error command_buffer_copy_error : RendererCreationErrorKind
  semaphore_create_error fence_create_error capture_format_unsupported : RendererCreationErrorKind
  capture_encode_error capture_write_error : RendererCreationErrorKind

-- The enumerators of Vulkan that the code names; a value it does not name is a number.
pub data Format : Type 0 where
  b8g8r8a8_unorm b8g8r8a8_srgb r8g8b8a8_unorm r8g8b8a8_srgb : Format
  d32_sfloat d32_sfloat_s8_uint d24_unorm_s8_uint : Format
  other_format : ℕ → Format

pub data ColorSpace : Type 0 where
  srgb_nonlinear : ColorSpace
  other_space : ℕ → ColorSpace

pub data PresentMode : Type 0 where
  mailbox fifo : PresentMode
  other_mode : ℕ → PresentMode

pub data Tiling : Type 0 where
  linear optimal : Tiling

pub data FormatFeature : Type 0 where
  depth_stencil_attachment sampled_image_filter_linear : FormatFeature

pub data MemoryProperty : Type 0 where
  host_visible host_coherent device_local : MemoryProperty

pub data BufferUsage : Type 0 where
  transfer_source transfer_destination vertex_buffer index_buffer uniform_buffer : BufferUsage

pub data ImageUsage : Type 0 where
  image_transfer_source image_transfer_destination sampled color_attachment : ImageUsage
  depth_attachment transient_attachment : ImageUsage

pub data Aspect : Type 0 where
  color depth : Aspect

pub data Layout : Type 0 where
  undefined transfer_src transfer_dst shader_read_only : Layout
  color_attachment_optimal depth_attachment_optimal present_src : Layout

pub record Extent : Type 0 where
  pub width : ℕ
  pub height : ℕ

pub record SurfaceFormat : Type 0 where
  pub format : Format
  pub color_space : ColorSpace

-- What is recorded into a command buffer. A transition has the first level and the count of levels
-- of its range; the masks of access and of stages are left out.
pub data Command : Type 0 where
  transition : ℕ → Layout → Layout → ℕ → ℕ → Command
  copy_buffer_to_image : ℕ → ℕ → Layout → Extent → Command
  copy_image_to_buffer : ℕ → Layout → ℕ → Extent → Command
  copy_buffer : ℕ → ℕ → ℕ → Command
  blit : ℕ → Layout → Layout → ℕ → Extent → ℕ → Extent → Command
  -- The view that is drawn into, and those of the resolve and of the depth.
  begin_rendering : ℕ → Option ℕ → Option ℕ → Command
  bind_pipeline set_viewport_and_scissor : Command
  bind_descriptor_set push_placement bind_vertex_buffer bind_index_buffer draw_indexed : ℕ → Command
  draw_overlay end_rendering : Command

-- What the code asks for at a call, whether it can fail or not.
pub data Call : Type 0 where
  create_buffer : ℕ → List BufferUsage → Call
  create_image : Extent → ℕ → ℕ → Format → Tiling → List ImageUsage → Call
  create_image_view : ℕ → Format → Aspect → ℕ → Call
  allocate_memory : ℕ → ℕ → Call
  bind_buffer_memory bind_image_memory : ℕ → ℕ → Call
  map_memory : ℕ → ℕ → Call
  write_memory unmap_memory : ℕ → Call
  create_swap_chain : ℕ → SurfaceFormat → Extent → List ImageUsage → PresentMode → Call
  get_images : ℕ → Call
  create_semaphore create_fence : Call
  create_command_pool : ℕ → Call
  allocate_command_buffers : ℕ → ℕ → Call
  begin_commands end_commands reset_commands submit : ℕ → Call
  record_command : ℕ → Command → Call
  queue_wait_idle device_wait_idle : Call
  wait_for_fence reset_fence : ℕ → Call
  acquire_next_image : ℕ → ℕ → Call
  -- The command buffer, the semaphores that it waits for and signals, and the fence.
  submit_frame : ℕ → ℕ → ℕ → ℕ → Call
  present : ℕ → ℕ → ℕ → Call
  encode_png : List ℕ → Extent → Call
  write_file : ℕ → ℕ → Call
  create_sampler create_descriptor_set_layout : Call
  create_pipeline_layout create_descriptor_pool : ℕ → Call
  create_graphics_pipeline : ℕ → Format → Format → ℕ → Call
  allocate_descriptor_sets : ℕ → ℕ → ℕ → Call
  update_descriptor_set : ℕ → ℕ → ℕ → ℕ → Call
  create_logical_device : ℕ → List (List ℕ) → Call
  -- The names of the extensions and of the layers.
  create_instance : List (List ℕ) → List (List ℕ) → Call
  read_executable_file : ℕ → Call
  create_debug_messenger create_surface load_shader create_shader_module : Call

-- The part of the physical device's answers that no call changes.
pub record PhysicalDevice : Type 0 where
  pub memory_types : List (MemoryProperty → Bool)
  pub format_features : Format → Tiling → FormatFeature → Bool
  pub color_sample_counts : ℕ → Bool
  pub depth_sample_counts : ℕ → Bool

pub record Device : Type 0 where
  pub answer : List Call → Call → Option ℕ
  -- The elements of an answered list, and the requirements of an answered buffer or image.
  pub listed : ℕ → List ℕ
  pub memory_size : ℕ → ℕ
  pub memory_type_bits : ℕ → ℕ
  pub physical : PhysicalDevice
