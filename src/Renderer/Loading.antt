-- ===== src/Renderer/Loading.antt =====
-- The creation of a renderer and the loading of a mesh, of PlaygroundEngine/src/Renderer, touch no
-- fence.
use playground_engine.Base.{ℕ, refl, List, [], ◌∷◌, Option}
use playground_engine.Renderer.Device.{Device, Extent, record_command, copy_buffer}
use playground_engine.Renderer.Result.{Outcome, tell}
use playground_engine.Renderer.State.{RendererVulkan}
use playground_engine.Renderer.Resources.{UniformBufferResource}
use playground_engine.Renderer.Transfers.{
  copy_buffer_contents, create_device_local_buffer, fill_texture, create_texture_image,
}
use playground_engine.Renderer.Creation.{
  Setup, lift, write_descriptor_sets, create_vulkan_instance, create_messenger, create_pipeline,
  allocate_sets, create,
}
use playground_engine.Renderer.Views.{
  marked-quiet, Keeps, keeps_rules, Keeps-return, Keeps-bind, Keeps-tell,
}
use playground_engine.Renderer.Quiet.{
  create_buffer_resource-Keeps, upload_to_device_memory-Keeps, allocate_buffers-Keeps,
  begin_single_time_commands-Keeps, end_single_time_commands-Keeps, create_uniform_buffer-Keeps,
  create_image_resource-Keeps, create_view-Keeps, create_depth_resources-Keeps,
  create_multisample_color_resources-Keeps, create_semaphores-Keeps, create_signaled_fences-Keeps,
  create_swap_chain_resources-Keeps,
}
use playground_engine.Renderer.Meshes.{MeshSize, load_mesh, acquire_mesh}
use playground_engine.Renderer.Fences.{is_fence_call, is_fence_call-Passes}
use playground_engine.Renderer.Recording.{record_all-Keeps}

lift-Keeps : {A : Type 0} (o : Outcome A) → Keeps is_fence_call (lift o)
unfolding lift
lift-Keeps o = record { at = λ calls. refl }

write_descriptor_sets-Keeps :
    (view sampler : ℕ) (buffers : List UniformBufferResource) (sets : List ℕ)
    → Keeps is_fence_call (write_descriptor_sets view sampler buffers sets)
unfolding write_descriptor_sets
write_descriptor_sets-Keeps view sampler [] sets = Keeps-return tt
write_descriptor_sets-Keeps view sampler (b ∷ buffers) [] = Keeps-return tt
write_descriptor_sets-Keeps view sampler (b ∷ buffers) (s ∷ sets) =
    Keeps-bind _ _ (Keeps-tell _ is_fence_call-Passes refl)
      (λ u. write_descriptor_sets-Keeps view sampler buffers sets)

module _ (device : Device) where
  fill_texture-Keeps :
      (pool staging image : ℕ) (size : Extent) (levels : ℕ)
      → Keeps is_fence_call (fill_texture device pool staging image size levels)
  unfolding fill_texture
  fill_texture-Keeps pool staging image size levels =
      search
        (
          keeps_rules, is_fence_call-Passes, begin_single_time_commands-Keeps,
          end_single_time_commands-Keeps, record_all-Keeps,
        )
        depth 10

  create_texture_image-Keeps :
      (decode : ℕ → Option (Extent × ℕ)) (floor_log2 : ℕ → ℕ) (pool file : ℕ)
      → Keeps is_fence_call (create_texture_image device decode floor_log2 pool file)
  unfolding create_texture_image
  create_texture_image-Keeps decode floor_log2 pool file =
      search
        (
          keeps_rules, is_fence_call-Passes, create_buffer_resource-Keeps,
          upload_to_device_memory-Keeps, create_image_resource-Keeps, fill_texture-Keeps,
        )
        depth 20 fits 4000

  pub create-Keeps : (setup : Setup) → Keeps is_fence_call (create device setup)
  unfolding create create_vulkan_instance create_messenger create_pipeline allocate_sets
  create-Keeps setup =
      search
        (
          keeps_rules, is_fence_call-Passes, lift-Keeps, allocate_buffers-Keeps,
          create_uniform_buffer-Keeps, create_view-Keeps, create_depth_resources-Keeps,
          create_multisample_color_resources-Keeps, create_semaphores-Keeps,
          create_signaled_fences-Keeps, create_swap_chain_resources-Keeps,
          create_texture_image-Keeps, write_descriptor_sets-Keeps,
        )
        depth 60 fits 8000

copy_buffer_contents-Keeps :
    (device : Device) (pool source destination size : ℕ)
    → Keeps is_fence_call (copy_buffer_contents device pool source destination size)
unfolding copy_buffer_contents tell
copy_buffer_contents-Keeps device pool source destination size =
    Keeps-bind _ _ (begin_single_time_commands-Keeps device is_fence_call-Passes pool) (λ buffer.
      Keeps-bind _ _
        (record {
          at = λ calls.
              marked-quiet is_fence_call calls
                (record_command buffer (copy_buffer source destination size)) refl;
        })
        (λ u. end_single_time_commands-Keeps device is_fence_call-Passes buffer))

pub acquire_mesh-Keeps :
    (device : Device) (parse : ℕ → Option MeshSize) (r : RendererVulkan) (file : ℕ)
    → Keeps is_fence_call (acquire_mesh device parse r file)
unfolding acquire_mesh load_mesh create_device_local_buffer
acquire_mesh-Keeps device parse r file =
    search
      (
        keeps_rules, is_fence_call-Passes, create_buffer_resource-Keeps,
        upload_to_device_memory-Keeps, copy_buffer_contents-Keeps,
      )
      depth 24 fits 4000
