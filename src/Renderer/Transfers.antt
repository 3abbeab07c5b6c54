-- ===== src/Renderer/Transfers.antt =====
-- Commands recorded once and waited for: the transfers of
-- PlaygroundEngine/src/Renderer/VulkanUtils.cpp and the texture with its chain of levels.
use playground_engine.Base.{
  ℕ, zero, suc, ◌+◌, ◌-◌, ◌*◌, ◌/◌, List, [], ◌∷◌, ◌++◌, Option, ltb, if◌then◌else◌,
}
use playground_engine.Renderer.Device.{
  Device, Command, r8g8b8a8_srgb, optimal, Extent, Layout, host_visible, host_coherent,
  device_local, BufferUsage, transfer_source, transfer_destination, image_transfer_source,
  image_transfer_destination, sampled, undefined, transfer_src, transfer_dst, shader_read_only,
  transition, copy_buffer, copy_image_to_buffer, copy_buffer_to_image, blit,
  sampled_image_filter_linear, record_command, map_memory, unmap_memory, read_executable_file,
  device_memory_map_error, texture_load_error, linear_blit_unsupported,
}
use playground_engine.Renderer.Result.{M, ◌>>=◌, ◌>>◌, return, fail, tell, ask, require}
use playground_engine.Renderer.Resources.{
  BufferResource, ImageResource, create_buffer_resource, upload_to_device_memory,
  begin_single_time_commands, end_single_time_commands, create_image_resource,
}

-- The commands in the order they are recorded.
unfoldable pub record_all : ℕ → List Command → M (Unit {0})
unfolding return tell
record_all buffer [] = return tt
record_all buffer (c ∷ cs) = do tell (record_command buffer c); record_all buffer cs

abbrev pub half : ℕ → ℕ
half size = if ltb 1 size then size / 2 else 1

-- The loop of `GenerateMipmaps` from a level on, for the rounds that are left, and its end.
unfoldable pub mipmaps_from : ℕ → ℕ → ℕ → Extent → List Command
mipmaps_from image zero level size =
    transition image transfer_dst shader_read_only (level - 1) 1 ∷ []
mipmaps_from image (suc rounds) level size =
    let next : Extent = record { width = half size.width; height = half size.height } in
    transition image transfer_dst transfer_src (level - 1) 1
    ∷ blit image transfer_src transfer_dst (level - 1) size level next
    ∷ transition image transfer_src shader_read_only (level - 1) 1
    ∷ mipmaps_from image rounds (level + 1) next

unfoldable pub generate_mipmaps : ℕ → Extent → ℕ → List Command
unfolding mipmaps_from
generate_mipmaps image size mip_levels = mipmaps_from image (mip_levels - 1) 1 size

-- What is recorded for a texture.
unfoldable pub texture_commands : ℕ → ℕ → Extent → ℕ → List Command
unfolding generate_mipmaps
texture_commands staging image size mip_levels =
    transition image undefined transfer_dst 0 mip_levels
    ∷ copy_buffer_to_image staging image transfer_dst size
    ∷ generate_mipmaps image size mip_levels

abbrev pub longer_side : Extent → ℕ
longer_side size = if ltb size.width size.height then size.height else size.width

module _ (device : Device) where
  unfoldable pub copy_buffer_contents : ℕ → ℕ → ℕ → ℕ → M (Unit {0})
  unfolding begin_single_time_commands end_single_time_commands
  copy_buffer_contents pool source destination size = do
    buffer ← begin_single_time_commands device pool
    tell (record_command buffer (copy_buffer source destination size))
    end_single_time_commands device buffer

  unfoldable pub create_device_local_buffer : ℕ → ℕ → List BufferUsage → M BufferResource
  unfolding create_buffer_resource upload_to_device_memory copy_buffer_contents
  create_device_local_buffer pool size usage = do
    staging ←
        create_buffer_resource device size (transfer_source ∷ [])
          (host_visible ∷ host_coherent ∷ [])
    upload_to_device_memory device staging.device_memory size
    buffer ←
        create_buffer_resource device size (usage ++ (transfer_destination ∷ []))
          (device_local ∷ [])
    copy_buffer_contents pool staging.buffer buffer.buffer size
    return buffer

  -- The bytes are what the mapping that the device answers holds.
  unfoldable pub read_image_to_host : ℕ → ℕ → Layout → Extent → M ℕ
  unfolding create_buffer_resource begin_single_time_commands end_single_time_commands record_all
  read_image_to_host pool image current extent = do
    let size = extent.width * extent.height * 4
    readback ←
        create_buffer_resource device size (transfer_destination ∷ [])
          (host_visible ∷ host_coherent ∷ [])
    buffer ← begin_single_time_commands device pool
    record_all buffer (
        transition image current transfer_src 0 1
        ∷ copy_image_to_buffer image transfer_src readback.buffer extent
        ∷ transition image transfer_src current 0 1
        ∷ [])
    end_single_time_commands device buffer
    mapped ← ask device (map_memory readback.device_memory size) device_memory_map_error
    tell (unmap_memory readback.device_memory)
    return mapped

  unfoldable pub fill_texture : ℕ → ℕ → ℕ → Extent → ℕ → M (Unit {0})
  unfolding begin_single_time_commands end_single_time_commands record_all texture_commands
  fill_texture pool staging image size mip_levels = do
    buffer ← begin_single_time_commands device pool
    record_all buffer (texture_commands staging image size mip_levels)
    end_single_time_commands device buffer

  -- The decoder of images and the logarithm of the longer side, rounded down, are arguments; the
  -- path of the executable and the reading of a file are one call.
  unfoldable pub create_texture_image :
      (ℕ → Option (Extent × ℕ)) → (ℕ → ℕ) → ℕ → ℕ → M (ImageResource × ℕ)
  unfolding create_buffer_resource upload_to_device_memory create_image_resource
      begin_single_time_commands end_single_time_commands record_all texture_commands
  create_texture_image decode floor_log2 pool file = do
    encoded ← ask device (read_executable_file file) texture_load_error
    decoded ← require (decode encoded) texture_load_error
    staging ←
        create_buffer_resource device decoded.1 (transfer_source ∷ [])
          (host_visible ∷ host_coherent ∷ [])
    upload_to_device_memory device staging.device_memory decoded.1
    if device.physical.format_features r8g8b8a8_srgb optimal sampled_image_filter_linear
        then return tt
        else fail linear_blit_unsupported
    let mip_levels = floor_log2 (longer_side decoded.0) + 1
    image ←
        create_image_resource device decoded.0 mip_levels 1 r8g8b8a8_srgb optimal
          (image_transfer_source ∷ image_transfer_destination ∷ sampled ∷ []) (device_local ∷ [])
    fill_texture pool staging.buffer image.image decoded.0 mip_levels
    return (image, mip_levels)
