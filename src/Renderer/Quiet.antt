-- ===== src/Renderer/Quiet.antt =====
-- The creations of PlaygroundEngine/src/Renderer/VulkanUtils.cpp make plain calls only.
use playground_engine.Base.{Option, ℕ, List, Bool}
use playground_engine.Renderer.Device.{
  SurfaceFormat, PresentMode, ImageUsage, Aspect, Tiling, Extent, Format, Device, Call, BufferUsage,
  MemoryProperty,
}
use playground_engine.Renderer.Resources.{
  create_semaphores, create_image_resource, create_signaled_fences, create_image_views,
  allocate_buffers, begin_single_time_commands, create_multisample_color_resources, create_view,
  end_single_time_commands, create_uniform_buffer, create_depth_resources, create_buffer_resource,
  upload_to_device_memory,
}
use playground_engine.Renderer.SwapChain.{SurfaceCapabilities, create_swap_chain_resources}
use playground_engine.Renderer.Views.{Passes, Keeps, keeps_rules}

module _ (device : Device) {mark : Call → Bool} (passes : Passes mark) where
  pub create_buffer_resource-Keeps :
      (size : ℕ) (usage : List BufferUsage) (properties : List MemoryProperty)
      → Keeps mark (create_buffer_resource device size usage properties)
  unfolding create_buffer_resource
  create_buffer_resource-Keeps size usage properties = search (keeps_rules)

  pub upload_to_device_memory-Keeps :
      (memory size : ℕ) → Keeps mark (upload_to_device_memory device memory size)
  unfolding upload_to_device_memory
  upload_to_device_memory-Keeps memory size = search (keeps_rules)

  pub allocate_buffers-Keeps : (pool count : ℕ) → Keeps mark (allocate_buffers device pool count)
  unfolding allocate_buffers
  allocate_buffers-Keeps pool count = search (keeps_rules)

  pub begin_single_time_commands-Keeps :
      (pool : ℕ) → Keeps mark (begin_single_time_commands device pool)
  unfolding begin_single_time_commands
  begin_single_time_commands-Keeps pool = search (keeps_rules, allocate_buffers-Keeps)

  pub end_single_time_commands-Keeps :
      (buffer : ℕ) → Keeps mark (end_single_time_commands device buffer)
  unfolding end_single_time_commands
  end_single_time_commands-Keeps buffer = search (keeps_rules)

  pub create_uniform_buffer-Keeps : (size : ℕ) → Keeps mark (create_uniform_buffer device size)
  unfolding create_uniform_buffer
  create_uniform_buffer-Keeps size = search (keeps_rules, create_buffer_resource-Keeps)

  pub create_image_resource-Keeps :
      (extent : Extent) (mip_levels samples : ℕ) (format : Format) (tiling : Tiling)
      (usage : List ImageUsage) (properties : List MemoryProperty)
      → Keeps mark
          (create_image_resource device extent mip_levels samples format tiling usage properties)
  unfolding create_image_resource
  create_image_resource-Keeps extent mip_levels samples format tiling usage properties =
      search (keeps_rules)

  pub create_view-Keeps :
      (image : ℕ) (format : Format) (aspect : Aspect) (levels : ℕ)
      → Keeps mark (create_view device image format aspect levels)
  unfolding create_view
  create_view-Keeps image format aspect levels = search (keeps_rules)

  pub create_image_views-Keeps :
      (format : Format) (images : List ℕ) → Keeps mark (create_image_views device format images)
  unfolding create_image_views
  create_image_views-Keeps format images = search (keeps_rules, create_view-Keeps)

  pub create_depth_resources-Keeps :
      (extent : Extent) (format : Format) (samples : ℕ)
      → Keeps mark (create_depth_resources device extent format samples)
  unfolding create_depth_resources
  create_depth_resources-Keeps extent format samples =
      search (keeps_rules, create_view-Keeps, create_image_resource-Keeps)

  pub create_multisample_color_resources-Keeps :
      (extent : Extent) (format : Format) (samples : ℕ)
      → Keeps mark (create_multisample_color_resources device extent format samples)
  unfolding create_multisample_color_resources
  create_multisample_color_resources-Keeps extent format samples =
      search (keeps_rules, create_view-Keeps, create_image_resource-Keeps)

  pub create_semaphores-Keeps : (count : ℕ) → Keeps mark (create_semaphores device count)
  unfolding create_semaphores
  create_semaphores-Keeps count = search (keeps_rules)

  pub create_signaled_fences-Keeps : (count : ℕ) → Keeps mark (create_signaled_fences device count)
  unfolding create_signaled_fences
  create_signaled_fences-Keeps count = search (keeps_rules)

  pub create_swap_chain_resources-Keeps :
      (capabilities : Option SurfaceCapabilities) (modes : Option (List PresentMode))
      (size : Extent) (format : SurfaceFormat)
      → Keeps mark (create_swap_chain_resources device capabilities modes size format)
  unfolding create_swap_chain_resources
  create_swap_chain_resources-Keeps capabilities modes size format =
      search (keeps_rules, create_image_views-Keeps) depth 12
