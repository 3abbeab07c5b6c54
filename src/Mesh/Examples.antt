-- ===== src/Mesh/Examples.antt =====
-- Two triangles that share an edge, with whole numbers for floats and no normals.
use playground_engine.Base.{
  inl, inr, ℕ, ◌≤◌, ◌^◌, ◌≡◌, refl, List, [], ◌∷◌, length, All, arith, some,
}
use playground_engine.Mesh.{
  find_key, fold_shape, VertexIndexKey, Attributes, MeshVertex, Mesh, parsed, make_vertex,
  fold_shapes, parse_wavefront_mesh,
}
use playground_engine.Mesh.Merging.{corners, Resolves, parse_wavefront_mesh-Resolves}
use playground_engine.Mesh.Total.{InRange, parse_wavefront_mesh_parses}

abbrev attributes : Attributes ℕ
attributes = record {
  vertices = 0 ∷ 0 ∷ 0 ∷ 1 ∷ 0 ∷ 0 ∷ 0 ∷ 1 ∷ 0 ∷ 1 ∷ 1 ∷ 0 ∷ [];
  normals = [];
  texcoords = [];
}

-- -1 as an `int`.
abbrev omitted : ℕ
omitted = 0xffffffff

abbrev corner : ℕ → VertexIndexKey
corner index = record {
  position_index = index;
  normal_index = omitted;
  texture_coordinate_index = omitted;
}

abbrev shapes : List (List VertexIndexKey)
shapes = (corner 0 ∷ corner 1 ∷ corner 2 ∷ []) ∷ (corner 2 ∷ corner 1 ∷ corner 3 ∷ []) ∷ []

abbrev at : ℕ → ℕ → MeshVertex ℕ
at x y = record { position = (x, y, 0); normal = (0, 0, 0); texture_coordinate = (0, 0) }

abbrev square : Mesh ℕ
square = record {
  vertices = at 0 0 ∷ at 1 0 ∷ at 0 1 ∷ at 1 1 ∷ [];
  indices = 0 ∷ 1 ∷ 2 ∷ 2 ∷ 1 ∷ 3 ∷ [];
}

abbrev flip : ℕ → ℕ
flip x = x

square_parsed : parse_wavefront_mesh 0 flip (some (attributes, shapes)) ≡ parsed square
unfolding parse_wavefront_mesh fold_shapes fold_shape find_key make_vertex
square_parsed = refl

shapes_fit : length (corners shapes) ≤ 2 ^ 32
shapes_fit = omega arith

corner-InRange : (i : ℕ) → i ≤ 3 → InRange attributes (corner i)
corner-InRange i h = (inr (omega (arith, h)), inl (omega arith), inl (omega arith))

shapes-InRange : All (All (InRange attributes)) shapes
shapes-InRange = (
  (
    corner-InRange 0 (omega arith),
    (corner-InRange 1 (omega arith), (corner-InRange 2 (omega arith), tt)),
  ),
  (
    (
      corner-InRange 2 (omega arith),
      (corner-InRange 1 (omega arith), (corner-InRange 3 (omega arith), tt)),
    ),
    tt,
  ),
)

parse_wavefront_mesh-Resolves_example :
    Resolves 0 flip attributes square.vertices square.indices (corners shapes)
    × (length square.vertices ≤ length (corners shapes))
parse_wavefront_mesh-Resolves_example =
    parse_wavefront_mesh-Resolves 0 flip attributes shapes square shapes_fit square_parsed

parse_wavefront_mesh_parses_example :
    (mesh : Mesh ℕ) × (parse_wavefront_mesh 0 flip (some (attributes, shapes)) ≡ parsed mesh)
parse_wavefront_mesh_parses_example =
    parse_wavefront_mesh_parses 0 flip attributes shapes shapes_fit refl shapes-InRange
