-- ===== src/Renderer/State.antt =====
-- What `RendererVulkan` keeps, from PlaygroundEngine/src/Renderer/RendererVulkan.cppm, and the
-- errors of a frame, from Renderer/VulkanTypes.cppm. A path is a number.
use playground_engine.Base.{ℕ, List, Option, Bool}
use playground_engine.Renderer.Device.{Format, Extent, SurfaceFormat}
use playground_engine.Renderer.Resources.{BufferResource, UniformBufferResource, ImageResource}

abbrev pub max_frames_in_flight : ℕ
max_frames_in_flight = 2

pub data RendererRenderErrorKind : Type 0 where
  command_buffer_begin_error command_buffer_end_error : RendererRenderErrorKind
  fence_wait_error fence_reset_error unable_to_acquire_swap_chain_image : RendererRenderErrorKind
  unable_to_reset_command_buffer queue_submit_error queue_present_error : RendererRenderErrorKind
  device_wait_idle_error swap_chain_recreation_error : RendererRenderErrorKind

pub record GpuMesh : Type 0 where
  pub vertex_buffer : BufferResource
  pub index_buffer : BufferResource
  pub index_count : ℕ

pub record RendererVulkan : Type 0 where
  pub swap_chain : ℕ
  pub swap_chain_images : List ℕ
  pub swap_chain_surface_format : SurfaceFormat
  pub swap_chain_extent : Extent
  pub swap_chain_supports_transfer_source : Bool
  pub swap_chain_image_views : List ℕ
  pub command_pool : ℕ
  pub meshes : List GpuMesh
  pub sample_count : ℕ
  pub multisample_color : ImageResource × ℕ
  pub depth_format : Format
  pub depth : ImageResource × ℕ
  pub uniform_buffer_resources : List UniformBufferResource
  pub descriptor_sets : List ℕ
  pub command_buffers : List ℕ
  pub present_complete_semaphores : List ℕ
  pub render_finished_semaphores : List ℕ
  pub in_flight_fences : List ℕ
  pub frame_index : ℕ
  pub framebuffer_resized : Bool
  pub debug_ui_overlay_enabled : Bool
  pub pending_capture_path : Option ℕ
