-- ===== src/Renderer/Examples.antt =====
-- A device that answers every call: three images to a swap chain, and lists as long as asked for.
use playground_engine.Base.{
  text_eq, subst, sym, all_of, ◌∙◌, true, false, is_some, ℕ, zero, suc, ◌<◌, ◌≡◌, refl, List, [],
  ◌∷◌, Option, none, some, true, false, length, arith, ap, inl, is_some,
}
use playground_engine.Renderer.Device.{
  Device, Call, Extent, b8g8r8a8_srgb, srgb_nonlinear, SurfaceFormat, mailbox,
  allocate_command_buffers, allocate_descriptor_sets, get_images,
}
use playground_engine.Renderer.Result.{
  Outcome, ok, failed, ◌>>=◌, return, fail, tell, ask, require, as_error, repeat, for_each,
}
use playground_engine.Renderer.Choices.{
  collect_required_instance_extensions, first_missing, collect_required_validation_layers,
  select_physical_device, find_if, is_physical_device_suitable, find_graphics_present_queue_family,
  find_family, select_surface_format, find_memory_type, find_type_from, find_supported_format,
  find_depth_format, get_max_usable_sample_count,
}
use playground_engine.Renderer.Resources.{
  create_buffer_resource, upload_to_device_memory, allocate_buffers, begin_single_time_commands,
  end_single_time_commands, create_uniform_buffer, create_image_resource, create_view,
  create_image_views, create_depth_resources, create_multisample_color_resources, create_semaphores,
  create_signaled_fences,
}
use playground_engine.Renderer.Transfers.{
  record_all, mipmaps_from, generate_mipmaps, texture_commands, fill_texture, create_texture_image,
}
use playground_engine.Renderer.State.{RendererVulkan}
use playground_engine.Renderer.Creation.{
  Setup, lift, create_vulkan_instance, create_messenger, create_pipeline, allocate_sets,
  write_descriptor_sets, initialize_debug_ui_backend, create,
}
use playground_engine.Renderer.Drawing.{Surface, acquired, presented}
use playground_engine.Renderer.Views.{marked}
use playground_engine.Renderer.Ensures.{is_record, Succeeded}
use playground_engine.Renderer.Texture.{
  TextureReady, PositiveSides, create_texture_image-TextureReady,
}
use playground_engine.Renderer.Invariant.{IsWellFormed, create-IsWellFormed}
use playground_engine.Renderer.Holds.{Fine}
use playground_engine.Renderer.Waits.{AcquiresOwn, Ready}
use playground_engine.Renderer.Session.{
  FrameInput, resized, capture, mesh, draw_frames, draw_frames-live,
}
use playground_engine.Renderer.Meshes.{MeshSize}
use playground_engine.Renderer.Capture.{capture_swap_chain_image}
use playground_engine.Render.{ExtractedMesh}
use playground_engine.Renderer.Pixels.{
  Pixel, HoldsPixels, Written, capture_swap_chain_image-Written,
}
use playground_engine.Renderer.SwapChain.{
  find_present_mode, swap_chain_extent, image_count, image_usage, SurfaceCapabilities,
  create_swap_chain_resources,
}
use playground_engine.Renderer.Lengths.{
  ListsAsAsked, IsCoherent, IsWellMade, create_swap_chain_resources-IsWellMade,
}

abbrev answer_of : Call → Option ℕ
answer_of (allocate_command_buffers pool count) = some count
answer_of (allocate_descriptor_sets layout pool count) = some count
answer_of (get_images swap_chain) = some 3
answer_of _ = some 7

abbrev numbers : ℕ → List ℕ
numbers zero = []
numbers (suc n) = n ∷ numbers n

length-numbers : (n : ℕ) → length (numbers n) ≡ n
length-numbers zero = refl
length-numbers (suc n) = ap suc (length-numbers n)

abbrev pub toy : Device
toy = record {
  answer = λ calls c. answer_of c;
  listed = numbers;
  memory_size = λ handle. 64;
  memory_type_bits = λ handle. 1;
  physical = record {
    memory_types = (λ property. true) ∷ [];
    format_features = λ format tiling feature. true;
    color_sample_counts = λ count. true;
    depth_sample_counts = λ count. true;
  };
}

abbrev three : ℕ → ℕ
three swap_chain = 3

toy_lists : ListsAsAsked toy three
toy_lists = record {
  images = λ calls swap_chain list e. (let same : list ≡ 3 = cc in length-numbers list ∙ same);
  command_buffers =
      λ calls pool count list e. (let same : list ≡ count = cc in length-numbers list ∙ same);
  descriptor_sets = λ calls layout pool count list e.
      (let same : list ≡ count = cc in length-numbers list ∙ same);
}

abbrev pub square : ℕ → Extent
square side = record { width = side; height = side }

abbrev capabilities : SurfaceCapabilities
capabilities = record {
  min_image_count = 2;
  max_image_count = 0;
  min_image_extent = square 1;
  max_image_extent = square 640;
  supports_transfer_source = true;
}

capabilities-IsCoherent : IsCoherent capabilities
capabilities-IsCoherent = record { width = omega arith; height = omega arith; count = inl refl }

abbrev format : SurfaceFormat
format = record { format = b8g8r8a8_srgb; color_space = srgb_nonlinear }

create_swap_chain_resources-IsWellMade_example : Succeeded (IsWellMade toy capabilities) (
    create_swap_chain_resources toy
      (some capabilities)
      (some (mailbox ∷ []))
      (square 800)
      format
      [])
create_swap_chain_resources-IsWellMade_example =
    create_swap_chain_resources-IsWellMade toy capabilities (some (mailbox ∷ [])) (square 800)
      format [] capabilities-IsCoherent

abbrev decode : ℕ → Option (Extent × ℕ)
decode encoded = some (square 4, 64)

abbrev Positive : Extent × ℕ → Type 0
Positive image = (0 < image.0.width) × (0 < image.0.height)

decode-PositiveSides : PositiveSides decode
decode-PositiveSides = λ encoded image e.
    let same : image ≡ (square 4, 64) = cc in subst Positive (sym same) (omega arith)

abbrev floor_log2 : ℕ → ℕ
floor_log2 n = 2

create_texture_image-TextureReady_example :
    Succeeded
      (TextureReady toy decode floor_log2 1 (marked is_record []))
      (create_texture_image toy decode floor_log2 7 1 [])
create_texture_image-TextureReady_example =
    create_texture_image-TextureReady toy decode floor_log2 7 1 [] decode-PositiveSides

abbrev pub surface : Surface
surface = record {
  capabilities = λ calls. some capabilities;
  present_modes = λ calls. some (mailbox ∷ []);
  acquire = λ calls swap_chain. acquired 1;
  present_result = λ calls. presented;
}

surface_acquires : AcquiresOwn three surface
surface_acquires = record {
  fresh = λ calls swap_chain i e. (let same : i ≡ 1 = cc in omega (arith, same));
  stale = λ calls swap_chain i e. cc e;
}

abbrev setup : Setup
setup = record {
  debug_ui_overlay = true;
  dev = false;
  debug_utils_name = [];
  validation_name = [];
  window_extensions = some [];
  instance_extensions = some [];
  layers = some [];
  api_version_13 = 13;
  physical_devices = some (
      record {
        api_version = 14;
        graphics_queues = true ∷ [];
        extensions = some [];
        sampler_anisotropy = true;
        shader_draw_parameters = true;
        dynamic_rendering = true;
        extended_dynamic_state = true;
      }
      ∷ []);
  required_device_extensions = [];
  surface_support = λ family. some true;
  surface_formats = some (format ∷ []);
  capabilities = some capabilities;
  present_modes = some (mailbox ∷ []);
  framebuffer_size = square 200;
  decode = decode;
  floor_log2 = floor_log2;
  placeholder_texture = 1;
  uniform_size = 128;
  has_overlay_context = false;
  overlay_backend_starts = false;
}

create-IsWellFormed_example : Succeeded (λ r after. IsWellFormed three r) (create toy setup [])
create-IsWellFormed_example = create-IsWellFormed toy three setup [] toy_lists

-- A renderer that has nothing but a format.
abbrev blank : RendererVulkan
blank = record {
  swap_chain = 0;
  swap_chain_images = [];
  swap_chain_surface_format = format;
  swap_chain_extent = square 0;
  swap_chain_supports_transfer_source = false;
  swap_chain_image_views = [];
  command_pool = 0;
  meshes = [];
  sample_count = 0;
  multisample_color = (record { image = 0; device_memory = 0 }, 0);
  depth_format = b8g8r8a8_srgb;
  depth = (record { image = 0; device_memory = 0 }, 0);
  uniform_buffer_resources = [];
  descriptor_sets = [];
  command_buffers = [];
  present_complete_semaphores = [];
  render_finished_semaphores = [];
  in_flight_fences = [];
  frame_index = 0;
  framebuffer_resized = false;
  debug_ui_overlay_enabled = false;
  pending_capture_path = none;
}

-- The renderer of a creation.
abbrev created : Outcome RendererVulkan × List Call → RendererVulkan
created (ok r, calls) = r
created (failed e, calls) = blank

abbrev pub renderer : RendererVulkan
renderer = created (create toy setup [])

abbrev three_corners : ℕ → Option MeshSize
three_corners text = some (record { vertices = 3; indices = 3 })

abbrev first_mesh : ExtractedMesh ℕ
first_mesh = record { mesh = 1; placement = 5 }

-- A device whose mappings hold one pixel, blue first.
abbrev pixel : Pixel
pixel = record { red = 1; green = 2; blue = 3; alpha = 4 }

abbrev painted : Device
painted = record toy { listed = λ list. 3 ∷ 2 ∷ 1 ∷ 4 ∷ [] }

painted-HoldsPixels : HoldsPixels painted b8g8r8a8_srgb (λ mapped. pixel ∷ [])
painted-HoldsPixels = record { at = λ calls memory size mapped e. refl }

abbrev one_pixel : RendererVulkan
one_pixel = record blank {
  swap_chain_extent = square 1;
  swap_chain_supports_transfer_source = true;
}

capture_swap_chain_image-Written_example :
    Succeeded
      (Written painted (λ mapped. pixel ∷ []) (square 1) 9)
      (capture_swap_chain_image painted one_pixel 1 9 [])
capture_swap_chain_image-Written_example =
    capture_swap_chain_image-Written painted one_pixel (λ mapped. pixel ∷ []) 1 9 []
      painted-HoldsPixels

created_ok : create toy setup [] ≡ (ok renderer, (create toy setup []).1)
unfolding create lift create_vulkan_instance create_messenger create_pipeline allocate_sets
    write_descriptor_sets initialize_debug_ui_backend collect_required_instance_extensions
    first_missing collect_required_validation_layers select_physical_device find_if
    is_physical_device_suitable find_graphics_present_queue_family find_family select_surface_format
    find_memory_type find_type_from find_supported_format find_depth_format
    get_max_usable_sample_count create_buffer_resource upload_to_device_memory allocate_buffers
    begin_single_time_commands end_single_time_commands create_uniform_buffer create_image_resource
    create_view create_image_views create_depth_resources create_multisample_color_resources
    create_semaphores create_signaled_fences record_all mipmaps_from generate_mipmaps
    texture_commands fill_texture create_texture_image create_swap_chain_resources find_present_mode
    swap_chain_extent image_count image_usage ◌>>=◌ return fail tell ask require as_error repeat
    for_each all_of text_eq
created_ok = refl

abbrev frame : FrameInput
frame = record {
  requests = resized ∷ capture 9 ∷ mesh 1 ∷ [];
  meshes = first_mesh ∷ [];
  framebuffer_size = square 200;
  overlay = false;
}

draw_frames-live_example :
    Fine (Ready toy three toy_lists surface surface_acquires) (
      draw_frames toy surface three_corners
        (frame ∷ frame ∷ [])
        (renderer, (create toy setup []).1))
draw_frames-live_example =
    draw_frames-live toy three toy_lists surface surface_acquires three_corners setup
      (frame ∷ frame ∷ []) renderer (create toy setup []).1 created_ok
