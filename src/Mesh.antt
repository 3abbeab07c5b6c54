-- ===== src/Mesh.antt =====
-- Mesh import: PlaygroundEngine/src/Mesh/Mesh.cpp. The reader of tinyobj is an argument: its
-- attributes and shapes, or nothing where it fails to parse.
pub mod Merging
pub mod Total
mod Examples
use playground_engine.Base.{
  ℕ, ◌+◌, ◌*◌, ◌%◌, ◌^◌, Bool, ◌&&◌, Option, none, some, List, [], ◌∷◌, ◌++◌, ◌==◌, ltb,
  if◌then◌else◌, bind, length, get_elem?, is_empty,
}

pub data MeshError : Type 0 where
  parse_failed no_geometry : MeshError

-- `tinyobj::index_t` and `VertexIndexKey`: three `int`s, each by its 32-bit pattern.
pub record VertexIndexKey : Type 0 where
  pub position_index : ℕ
  pub normal_index : ℕ
  pub texture_coordinate_index : ℕ

abbrev pub same_key : VertexIndexKey → VertexIndexKey → Bool
same_key a b =
    a.position_index == b.position_index
    && (a.normal_index == b.normal_index
        && a.texture_coordinate_index == b.texture_coordinate_index)

abbrev pub is_natural : ℕ → Bool
is_natural pattern = ltb pattern (2 ^ 31)

pub record Attributes (F : Type 0) : Type 0 where
  pub vertices : List F
  pub normals : List F
  pub texcoords : List F

pub record MeshVertex (F : Type 0) : Type 0 where
  pub position : F × F × F
  pub normal : F × F × F
  pub texture_coordinate : F × F

pub record Mesh (F : Type 0) : Type 0 where
  pub vertices : List (MeshVertex F)
  pub indices : List ℕ

-- The mesh with the map from keys to vertices, which is only looked up, as an association list.
pub record Building (F : Type 0) : Type 0 where
  pub mesh : Mesh F
  pub vertex_indices : List (VertexIndexKey × ℕ)

pub data Parsing (F : Type 0) : Type 0 where
  parsed : Mesh F → Parsing F
  rejected : MeshError → Parsing F
  -- An attribute is read out of range, which C++ leaves undefined.
  undefined : Parsing F

unfoldable pub find_key : VertexIndexKey → List (VertexIndexKey × ℕ) → Option ℕ
find_key key [] = none
find_key key ((k, index) ∷ rest) = if same_key k key then some index else find_key key rest

module _ {F : Type 0} (zero_float : F) (flip : F → F) where
  -- Three, or two, floats from an offset on; `flip` is `1.0f -` of a float.
  unfoldable pub three_at : List F → ℕ → Option (F × F × F)
  three_at floats offset = bind (get_elem? floats offset) (λ x.
      bind (get_elem? floats (offset + 1))
        (λ y. bind (get_elem? floats (offset + 2)) (λ z. some (x, y, z))))

  unfoldable pub two_at : List F → ℕ → Option (F × F)
  two_at floats offset =
      bind (get_elem? floats offset)
        (λ x. bind (get_elem? floats (offset + 1)) (λ y. some (x, flip y)))

  -- `none` is a read out of range.
  unfoldable pub make_vertex : Attributes F → VertexIndexKey → Option (MeshVertex F)
  unfolding three_at two_at
  make_vertex attributes index =
      bind
        (if is_natural index.position_index
          then three_at attributes.vertices (3 * index.position_index)
          else some (zero_float, zero_float, zero_float))
        (λ position.
          bind
            (if is_natural index.normal_index
              then three_at attributes.normals (3 * index.normal_index)
              else some (zero_float, zero_float, zero_float))
            (λ normal.
              bind
                (if is_natural index.texture_coordinate_index
                  then two_at attributes.texcoords (2 * index.texture_coordinate_index)
                  else some (zero_float, zero_float))
                (λ texture_coordinate. some (record {
                  position = position;
                  normal = normal;
                  texture_coordinate = texture_coordinate;
                }))))

  abbrev pub push_index : ℕ → Mesh F → Mesh F
  push_index index mesh = record mesh { indices = mesh.indices ++ index ∷ [] }

  abbrev pub push_vertex : MeshVertex F → Mesh F → Mesh F
  push_vertex vertex mesh = record mesh { vertices = mesh.vertices ++ vertex ∷ [] }

  -- The index of the next vertex, as `uint32_t`.
  abbrev pub next_index : Mesh F → ℕ
  next_index mesh = length mesh.vertices % 2 ^ 32

  unfoldable pub insert_vertex :
      VertexIndexKey → Option (MeshVertex F) → Building F → Option (Building F)
  insert_vertex key none b = none
  insert_vertex key (some vertex) b = some (record {
    mesh = push_index (next_index b.mesh) (push_vertex vertex b.mesh);
    vertex_indices = (key, next_index b.mesh) ∷ b.vertex_indices;
  })

  -- One pass of the inner loop, after the lookup of `try_emplace`.
  unfoldable pub place_index :
      Attributes F → VertexIndexKey → Option ℕ → Building F → Option (Building F)
  unfolding insert_vertex
  place_index attributes key (some existing) b =
      some (record b { mesh = push_index existing b.mesh })
  place_index attributes key none b = insert_vertex key (make_vertex attributes key) b

  unfoldable pub fold_shape : Attributes F → List VertexIndexKey → Building F → Option (Building F)
  unfolding place_index
  fold_shape attributes [] b = some b
  fold_shape attributes (key ∷ keys) b =
      bind (place_index attributes key (find_key key b.vertex_indices) b)
        (fold_shape attributes keys)

  unfoldable pub fold_shapes :
      Attributes F → List (List VertexIndexKey) → Building F → Option (Building F)
  fold_shapes attributes [] b = some b
  fold_shapes attributes (shape ∷ shapes) b =
      bind (fold_shape attributes shape b) (fold_shapes attributes shapes)

  abbrev pub empty_building : Building F
  empty_building = record { mesh = record { vertices = []; indices = [] }; vertex_indices = [] }

  unfoldable pub finish : Option (Building F) → Parsing F
  finish none = undefined
  finish (some b) = if is_empty b.mesh.indices then rejected no_geometry else parsed b.mesh

  -- `ParseWavefrontMesh`, given what the reader answers.
  unfoldable pub parse_wavefront_mesh :
      Option (Attributes F × List (List VertexIndexKey)) → Parsing F
  unfolding finish
  parse_wavefront_mesh none = rejected parse_failed
  parse_wavefront_mesh (some (attributes, shapes)) =
      finish (fold_shapes attributes shapes empty_building)
