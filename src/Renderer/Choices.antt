-- ===== src/Renderer/Choices.antt =====
-- What PlaygroundEngine/src/Renderer/VulkanUtils.cpp chooses from what a device offers.
use playground_engine.Base.{
  ℕ, ◌+◌, ◌^◌, ◌/◌, ◌%◌, Bool, true, false, not, ◌&&◌, Option, none, some, List, [], ◌∷◌, ◌++◌,
  any_of, all_of, leb, ◌==◌, if◌then◌else◌, Text, text_eq, value_or,
}
use playground_engine.Renderer.Device.{
  Format, b8g8r8a8_srgb, ColorSpace, srgb_nonlinear, Tiling, FormatFeature, MemoryProperty,
  SurfaceFormat, PhysicalDevice, optimal, depth_stencil_attachment, d32_sfloat, d32_sfloat_s8_uint,
  d24_unorm_s8_uint, unable_to_request_extensions, extensions_enumeration_error,
  extension_unavailable, validation_layers_enumeration_error, validation_layer_unavailable,
  physical_devices_enumeration_error, no_physical_devices, no_suitable_physical_devices,
  suitable_queue_not_found, surface_capabilities_formats_error, no_supported_depth_format,
}
use playground_engine.Renderer.Result.{Outcome, ok, failed}

-- A required name is among the available ones.
abbrev pub offers : List Text → Text → Bool
offers available required = any_of (λ name. text_eq required name) available

-- The first required name that is not available.
unfoldable pub first_missing : List Text → List Text → Option Text
first_missing available [] = none
first_missing available (required ∷ rest) =
    if offers available required then first_missing available rest else some required

-- The query of the window server, that of the context, and whether the build is a development
-- build, which adds the name of the debug utilities.
unfoldable pub collect_required_instance_extensions :
    Option (List Text) → Option (List Text) → Bool → Text → Outcome (List Text)
unfolding first_missing
collect_required_instance_extensions none available dev debug_utils =
    failed unable_to_request_extensions
collect_required_instance_extensions (some window) none dev debug_utils =
    failed extensions_enumeration_error
collect_required_instance_extensions (some window) (some available) dev debug_utils =
    let required = window ++ (if dev then debug_utils ∷ [] else []) in
    elim (first_missing available required) [
      | none ↦ ok required
      | some name ↦ failed extension_unavailable
    ]

unfoldable pub collect_required_validation_layers :
    Option (List Text) → Bool → Text → Outcome (List Text)
unfolding first_missing
collect_required_validation_layers none dev validation = failed validation_layers_enumeration_error
collect_required_validation_layers (some available) dev validation =
    let required : List Text = if dev then validation ∷ [] else [] in
    elim (first_missing available required) [
      | none ↦ ok required
      | some name ↦ failed validation_layer_unavailable
    ]

-- What the code reads off a physical device when it picks one.
pub record Candidate : Type 0 where
  pub api_version : ℕ
  pub graphics_queues : List Bool
  pub extensions : Option (List Text)
  pub sampler_anisotropy : Bool
  pub shader_draw_parameters : Bool
  pub dynamic_rendering : Bool
  pub extended_dynamic_state : Bool

-- `vk::ApiVersion13` is an argument.
unfoldable pub is_physical_device_suitable : ℕ → List Text → Candidate → Bool
is_physical_device_suitable api_version_13 required c =
    let supports_vulkan_13 = leb api_version_13 c.api_version in
    let supports_graphics = any_of (λ graphics. graphics) c.graphics_queues in
    let features =
      c.sampler_anisotropy
      && (c.shader_draw_parameters && (c.dynamic_rendering && c.extended_dynamic_state)) in
    elim c.extensions [
      | none ↦ false
      | some available ↦
          supports_vulkan_13
          && (supports_graphics && (all_of (offers available) required && features))
    ]

unfoldable pub find_if {ℓ} : {A : Type ℓ} → (A → Bool) → List A → Option A
find_if test [] = none
find_if test (x ∷ xs) = if test x then some x else find_if test xs

unfoldable pub select_physical_device : ℕ → Option (List Candidate) → List Text → Outcome Candidate
unfolding find_if
select_physical_device api_version_13 none required = failed physical_devices_enumeration_error
select_physical_device api_version_13 (some []) required = failed no_physical_devices
select_physical_device api_version_13 (some (d ∷ devices)) required =
    elim (find_if (is_physical_device_suitable api_version_13 required) (d ∷ devices)) [
      | none ↦ failed no_suitable_physical_devices
      | some suitable ↦ ok suitable
    ]

-- The families' graphics flags from an index on, and the surface's support for a family, none where
-- the query fails.
unfoldable pub find_family : (ℕ → Option Bool) → List Bool → ℕ → Option ℕ
find_family surface_support [] index = none
find_family surface_support (graphics ∷ families) index =
    let later = find_family surface_support families (index + 1) in
    if not graphics
    then later
    else if value_or (surface_support index) false
    then some index
    else later

unfoldable pub find_graphics_present_queue_family : (ℕ → Option Bool) → List Bool → Outcome ℕ
unfolding find_family
find_graphics_present_queue_family surface_support families =
    elim (find_family surface_support families 0) [
      | none ↦ failed suitable_queue_not_found
      | some index ↦ ok index
    ]

abbrev pub is_preferred_format : Format → Bool
is_preferred_format b8g8r8a8_srgb = true
is_preferred_format _ = false

abbrev pub is_srgb_nonlinear : ColorSpace → Bool
is_srgb_nonlinear srgb_nonlinear = true
is_srgb_nonlinear _ = false

unfoldable pub select_surface_format : Option (List SurfaceFormat) → Outcome SurfaceFormat
unfolding find_if
select_surface_format none = failed surface_capabilities_formats_error
select_surface_format (some []) = failed surface_capabilities_formats_error
select_surface_format (some (f ∷ formats)) = ok (
    value_or
      (find_if
        (λ (x : SurfaceFormat). is_preferred_format x.format && is_srgb_nonlinear x.color_space)
        (f ∷ formats))
      f)

-- The loop of `FindMemoryType` from an index on.
unfoldable pub find_type_from :
    List (MemoryProperty → Bool) → ℕ → List MemoryProperty → ℕ → Option ℕ
find_type_from [] type_filter properties index = none
find_type_from (flags ∷ types) type_filter properties index =
    let allowed_by_filter = type_filter / 2 ^ index % 2 == 1 in
    if allowed_by_filter && all_of flags properties
    then some index
    else find_type_from types type_filter properties (index + 1)

unfoldable pub find_memory_type : PhysicalDevice → ℕ → List MemoryProperty → Option ℕ
unfolding find_type_from
find_memory_type physical type_filter properties =
    find_type_from physical.memory_types type_filter properties 0

unfoldable pub find_supported_format :
    PhysicalDevice → List Format → Tiling → List FormatFeature → Option Format
find_supported_format physical [] tiling features = none
find_supported_format physical (candidate ∷ candidates) tiling features =
    if all_of (physical.format_features candidate tiling) features
    then some candidate
    else find_supported_format physical candidates tiling features

unfoldable pub find_depth_format : PhysicalDevice → Outcome Format
unfolding find_supported_format
find_depth_format physical =
    elim (find_supported_format physical (d32_sfloat ∷ d32_sfloat_s8_uint ∷ d24_unorm_s8_uint ∷ [])
      optimal (depth_stencil_attachment ∷ [])) [
        | none ↦ failed no_supported_depth_format
        | some format ↦ ok format
      ]

-- A sample count by its number of samples.
unfoldable pub get_max_usable_sample_count : PhysicalDevice → ℕ
unfolding find_if
get_max_usable_sample_count physical =
    value_or
      (find_if (λ count. physical.color_sample_counts count && physical.depth_sample_counts count)
        (64 ∷ 32 ∷ 16 ∷ 8 ∷ 4 ∷ 2 ∷ []))
      1
