-- ===== src/Renderer/Resources.antt =====
-- Buffers, images, views and one-time commands of PlaygroundEngine/src/Renderer/VulkanUtils.cpp.
-- A handle is the number that the device answers; what a descriptor holds beside the arguments
-- below is the same in every call.
use playground_engine.Base.{ℕ, List, [], ◌∷◌, front, value_or}
use playground_engine.Renderer.Device.{
  Device, Format, Aspect, color, depth, Tiling, optimal, Extent, MemoryProperty, host_visible,
  host_coherent, device_local, BufferUsage, uniform_buffer, ImageUsage, depth_attachment,
  transient_attachment, color_attachment, create_buffer, create_image, create_image_view,
  allocate_memory, bind_buffer_memory, bind_image_memory, map_memory, write_memory, unmap_memory,
  create_semaphore, create_fence, allocate_command_buffers, begin_commands, end_commands, submit,
  queue_wait_idle, buffer_create_error, cant_find_memory_type, device_memory_allocation_error,
  device_memory_bind_error, device_memory_map_error, image_create_error, image_view_creation_error,
  command_buffer_create_error, command_buffer_copy_error, uniform_buffer_create_error,
  semaphore_create_error, fence_create_error,
}
use playground_engine.Renderer.Result.{
  M, ◌>>=◌, ◌>>◌, return, tell, ask, require, as_error, repeat, for_each,
}
use playground_engine.Renderer.Choices.{find_memory_type}

pub record BufferResource : Type 0 where
  pub buffer : ℕ
  pub device_memory : ℕ

pub record UniformBufferResource : Type 0 where
  pub buffer : BufferResource
  pub buffer_mapped : ℕ

pub record ImageResource : Type 0 where
  pub image : ℕ
  pub device_memory : ℕ

module _ (device : Device) where
  unfoldable pub create_buffer_resource :
      ℕ → List BufferUsage → List MemoryProperty → M BufferResource
  create_buffer_resource size usage properties = do
    buffer ← ask device (create_buffer size usage) buffer_create_error
    memory_type ←
        require (find_memory_type device.physical (device.memory_type_bits buffer) properties)
          cant_find_memory_type
    memory ←
        ask device (allocate_memory (device.memory_size buffer) memory_type)
          device_memory_allocation_error
    ask device (bind_buffer_memory buffer memory) device_memory_bind_error
    return (record { buffer = buffer; device_memory = memory })

  unfoldable pub upload_to_device_memory : ℕ → ℕ → M (Unit {0})
  upload_to_device_memory memory size = do
    ask device (map_memory memory size) device_memory_map_error
    tell (write_memory memory)
    tell (unmap_memory memory)

  unfoldable pub allocate_buffers : ℕ → ℕ → M (List ℕ)
  allocate_buffers pool count = do
    list ← ask device (allocate_command_buffers pool count) command_buffer_create_error
    return (device.listed list)

  -- `front` of the one buffer asked for.
  unfoldable pub begin_single_time_commands : ℕ → M ℕ
  unfolding allocate_buffers
  begin_single_time_commands pool = do
    buffers ← allocate_buffers pool 1
    let buffer = value_or (front buffers) 0
    ask device (begin_commands buffer) command_buffer_copy_error
    return buffer

  unfoldable pub end_single_time_commands : ℕ → M (Unit {0})
  end_single_time_commands buffer = do
    ask device (end_commands buffer) command_buffer_copy_error
    ask device (submit buffer) command_buffer_copy_error
    ask device queue_wait_idle command_buffer_copy_error
    return tt

  unfoldable pub create_uniform_buffer : ℕ → M UniformBufferResource
  unfolding create_buffer_resource
  create_uniform_buffer size = do
    buffer ←
        as_error uniform_buffer_create_error
          (create_buffer_resource size (uniform_buffer ∷ []) (host_visible ∷ host_coherent ∷ []))
    mapped ← ask device (map_memory buffer.device_memory size) device_memory_map_error
    return (record { buffer = buffer; buffer_mapped = mapped })

  unfoldable pub create_image_resource :
      Extent → ℕ → ℕ → Format → Tiling → List ImageUsage → List MemoryProperty → M ImageResource
  create_image_resource extent mip_levels samples format tiling usage properties = do
    image ←
        ask device (create_image extent mip_levels samples format tiling usage) image_create_error
    memory_type ←
        require (find_memory_type device.physical (device.memory_type_bits image) properties)
          cant_find_memory_type
    memory ←
        ask device (allocate_memory (device.memory_size image) memory_type)
          device_memory_allocation_error
    ask device (bind_image_memory image memory) device_memory_bind_error
    return (record { image = image; device_memory = memory })

  unfoldable pub create_view : ℕ → Format → Aspect → ℕ → M ℕ
  create_view image format aspect mip_levels =
      ask device (create_image_view image format aspect mip_levels) image_view_creation_error

  unfoldable pub create_image_views : Format → List ℕ → M (List ℕ)
  unfolding create_view
  create_image_views format images = for_each (λ image. create_view image format color 1) images

  unfoldable pub create_depth_resources : Extent → Format → ℕ → M (ImageResource × ℕ)
  unfolding create_image_resource create_view
  create_depth_resources extent format samples = do
    image ←
        create_image_resource extent 1 samples format optimal (depth_attachment ∷ [])
          (device_local ∷ [])
    view ← create_view image.image format depth 1
    return (image, view)

  unfoldable pub create_multisample_color_resources : Extent → Format → ℕ → M (ImageResource × ℕ)
  unfolding create_image_resource create_view
  create_multisample_color_resources extent format samples = do
    image ←
        create_image_resource extent 1 samples format optimal
          (transient_attachment ∷ color_attachment ∷ []) (device_local ∷ [])
    view ← create_view image.image format color 1
    return (image, view)

  unfoldable pub create_semaphores : ℕ → M (List ℕ)
  create_semaphores count = repeat count (ask device create_semaphore semaphore_create_error)

  unfoldable pub create_signaled_fences : ℕ → M (List ℕ)
  create_signaled_fences count = repeat count (ask device create_fence fence_create_error)
