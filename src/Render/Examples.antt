-- ===== src/Render/Examples.antt =====
-- A world of one entity that is both the camera and the model, with whole numbers for floats.
use playground_engine.Base.{
  ℕ, ◌+◌, ◌≤◌, ◌≡◌, refl, false, ltb, some, [], ◌∷◌, ◌==◌, All, Text, text_eq,
}
use playground_engine.OrderedMap.{find, try_emplace}
use playground_engine.OrderedMap.Nested.{assign_in}
use playground_engine.Ecs.{Ecs, new, add_entity, add_component_to_entity, try_get_component}
use playground_engine.Ecs.View.{entity}
use playground_engine.Ecs.History.{Reach, here, next, entity_added, component_added}
use playground_engine.Render.{
  FloatOperations, ExtractedView, ExtractedFrame, Scene, MeshCatalog, find_mesh, invalid_index,
  to_extracted_view, extract_frame, entry_of,
}
use playground_engine.Render.View.{extract_frame_lowest_view}
use playground_engine.Render.Meshes.{Drawn, extract_frame_draws}

abbrev one_entity : Ecs
one_entity = record new {
  last_entity_id = 1;
  components_per_entity = try_emplace 1 [] new.components_per_entity;
}

abbrev store : Ecs
store =
    (add_component_to_entity 30 102 (entity 1)
      (add_component_to_entity 20 101 (entity 1)
        (add_component_to_entity 10 100 (entity 1) one_entity).0).0).0

store_reached : Reach new store
unfolding add_entity try_emplace
store_reached =
    next
      (next (next (next here (entity_added (entity 1, one_entity) refl)) (component_added 10 100 1))
        (component_added 20 101 1))
      (component_added 30 102 1)

abbrev placeholder : Text
placeholder = 112 ∷ []

abbrev pub scene : Scene ℕ ℕ
scene = record {
  ecs = store;
  cameras = λ a. record {
    vertical_field_of_view_degrees = 45;
    near_plane_distance = 1;
    far_plane_distance = 1000;
  };
  transforms = λ a. a;
  mesh_paths = λ a. placeholder;
  camera_type = 10;
  transform_type = 20;
  mesh_type = 30;
}

abbrev pub floats : FloatOperations ℕ
floats = record {
  less = ltb;
  plus = λ a b. a + b;
  to_radians = λ a. a;
  minimum_field_of_view_degrees = 1;
  maximum_field_of_view_degrees = 179;
  minimum_near_plane_distance = 1;
  minimum_plane_separation = 1;
}

abbrev pub default_view : ExtractedView ℕ ℕ
default_view = record {
  placement = 0;
  vertical_field_of_view_radians = 45;
  near_plane_distance = 1;
  far_plane_distance = 1000;
}

abbrev pub last_frame : ExtractedFrame ℕ ℕ
last_frame = record { view = default_view; meshes = [] }

abbrev catalog : MeshCatalog
catalog = (placeholder, 7) ∷ []

has_camera : try_get_component store 10 (entity 1) ≡ some 100
unfolding try_get_component add_component_to_entity find try_emplace assign_in
has_camera = refl

has_transform : try_get_component store 20 (entity 1) ≡ some 101
unfolding try_get_component add_component_to_entity find try_emplace assign_in
has_transform = refl

has_mesh : try_get_component store 30 (entity 1) ≡ some 102
unfolding try_get_component add_component_to_entity find try_emplace assign_in
has_mesh = refl

is_loaded : (find_mesh placeholder catalog == invalid_index) ≡ false
unfolding find_mesh entry_of text_eq
is_loaded = refl

extract_frame_lowest_view_example :
    (e' : ℕ) × (c' : ℕ) × (t' : ℕ) × (e' ≤ 1)
    × (try_get_component store 10 (entity e') ≡ some c')
    × (try_get_component store 20 (entity e') ≡ some t')
    × ((extract_frame floats default_view scene catalog last_frame).view
        ≡ to_extracted_view floats default_view (scene.transforms t') (scene.cameras c'))
extract_frame_lowest_view_example =
    extract_frame_lowest_view floats default_view scene 1 100 101 catalog last_frame store_reached
      has_camera has_transform

extract_frame_draws_example :
    let meshes = (extract_frame floats default_view scene catalog last_frame).meshes in
    Drawn (record { mesh = find_mesh placeholder catalog; placement = 101 }) meshes
    × All (λ m. (m.mesh == invalid_index) ≡ false) meshes
extract_frame_draws_example =
    extract_frame_draws floats default_view scene catalog 1 102 101 last_frame store_reached
      has_mesh is_loaded has_transform
