-- ===== src/Render.antt =====
-- What a frame takes from the world: PlaygroundEngine/src/RenderExtraction.cpp and MeshCatalog.cpp.
-- The operations on `float` are arguments; a component's address leads to its value on the heap.
pub mod View
pub mod Meshes
pub mod Examples
use playground_engine.Base.{
  ℕ, Bool, Option, none, some, List, [], ◌∷◌, ◌++◌, ◌==◌, if◌then◌else◌, Text, text_eq, value_or,
  is_some,
}
use playground_engine.Ecs.{Entity, Ecs, try_get_component, get_components_with_entities}

-- A mesh handle is its index.
abbrev pub invalid_index : ℕ
invalid_index = 0

-- The `std::map` by path, which is only looked up.
abbrev pub MeshCatalog : Type 0
MeshCatalog = List (Text × ℕ)

unfoldable pub entry_of : Text → MeshCatalog → Option ℕ
entry_of path [] = none
entry_of path ((p, handle) ∷ rest) = if text_eq p path then some handle else entry_of path rest

unfoldable pub find_mesh : Text → MeshCatalog → ℕ
unfolding entry_of
find_mesh path catalog = value_or (entry_of path catalog) invalid_index

unfoldable pub contains_mesh : Text → MeshCatalog → Bool
unfolding entry_of
contains_mesh path catalog = is_some (entry_of path catalog)

unfoldable pub insert_mesh : Text → ℕ → MeshCatalog → MeshCatalog
insert_mesh path handle [] = (path, handle) ∷ []
insert_mesh path handle ((p, h) ∷ rest) =
    let later = insert_mesh path handle rest in
    if text_eq p path then (p, handle) ∷ rest else (p, h) ∷ later

pub record FloatOperations (F : Type 0) : Type 0 where
  pub less : F → F → Bool
  pub plus : F → F → F
  pub to_radians : F → F
  pub minimum_field_of_view_degrees : F
  pub maximum_field_of_view_degrees : F
  pub minimum_near_plane_distance : F
  pub minimum_plane_separation : F

pub record CameraComponent (F : Type 0) : Type 0 where
  pub vertical_field_of_view_degrees : F
  pub near_plane_distance : F
  pub far_plane_distance : F

-- `placement` is the position and the rotation.
pub record ExtractedView (F P : Type 0) : Type 0 where
  pub placement : P
  pub vertical_field_of_view_radians : F
  pub near_plane_distance : F
  pub far_plane_distance : F

pub record ExtractedMesh (P : Type 0) : Type 0 where
  pub mesh : ℕ
  pub placement : P

pub record ExtractedFrame (F P : Type 0) : Type 0 where
  pub view : ExtractedView F P
  pub meshes : List (ExtractedMesh P)

-- The store, the components on the heap and the addresses of the three `TypeInfo`s.
pub record Scene (F P : Type 0) : Type 0 where
  pub ecs : Ecs
  pub cameras : ℕ → CameraComponent F
  pub transforms : ℕ → P
  pub mesh_paths : ℕ → Text
  pub camera_type : ℕ
  pub transform_type : ℕ
  pub mesh_type : ℕ

module _ {F P : Type 0} (floats : FloatOperations F) (default_view : ExtractedView F P) where
  -- `std::max` and `std::clamp`, as the standard defines them.
  abbrev pub maximum : F → F → F
  maximum a b = if floats.less a b then b else a

  abbrev pub clamp : F → F → F → F
  clamp v low high = if floats.less v low then low else if floats.less high v then high else v

  unfoldable pub to_extracted_view : P → CameraComponent F → ExtractedView F P
  to_extracted_view placement camera =
      let near = maximum camera.near_plane_distance floats.minimum_near_plane_distance in
      record {
        placement = placement;
        vertical_field_of_view_radians = floats.to_radians (
            clamp camera.vertical_field_of_view_degrees floats.minimum_field_of_view_degrees
              floats.maximum_field_of_view_degrees);
        near_plane_distance = near;
        far_plane_distance =
            maximum camera.far_plane_distance (floats.plus near floats.minimum_plane_separation);
      }

  abbrev pub transform_of : Scene F P → Entity → Option ℕ
  transform_of world entity = try_get_component world.ecs world.transform_type entity

  -- The loop of `ExtractView`.
  unfoldable pub first_view : Scene F P → List (Entity × ℕ) → ExtractedView F P
  first_view world [] = default_view
  first_view world ((entity, camera) ∷ rest) = elim (transform_of world entity) [
    | none ↦ first_view world rest
    | some transform ↦ to_extracted_view (world.transforms transform) (world.cameras camera)
  ]

  unfoldable pub extract_view : Scene F P → ExtractedView F P
  unfolding first_view
  extract_view world = first_view world (get_components_with_entities world.ecs world.camera_type)

  abbrev pub placed : Scene F P → ℕ → Option ℕ → List (ExtractedMesh P)
  placed world handle none = []
  placed world handle (some transform) =
      (record { mesh = handle; placement = world.transforms transform }) ∷ []

  -- The loop of `ExtractMeshes`.
  unfoldable pub push_meshes : Scene F P → MeshCatalog → List (Entity × ℕ) → List (ExtractedMesh P)
  push_meshes world catalog [] = []
  push_meshes world catalog ((entity, mesh) ∷ rest) =
      let handle = find_mesh (world.mesh_paths mesh) catalog in
      let later = push_meshes world catalog rest in
      if handle == invalid_index
      then later
      else placed world handle (transform_of world entity) ++ later

  -- Whatever the frame held is overwritten.
  unfoldable pub extract_frame : Scene F P → MeshCatalog → ExtractedFrame F P → ExtractedFrame F P
  unfolding extract_view push_meshes
  extract_frame world catalog frame = record {
    view = extract_view world;
    meshes = push_meshes world catalog (get_components_with_entities world.ecs world.mesh_type);
  }
