-- ===== src/Mesh/Total.antt =====
-- When `ParseWavefrontMesh` of Mesh/Mesh.cpp answers a mesh.
use playground_engine.Base.{
  zero, suc, ◌<◌, ◌+◌, ◌*◌, ◌⊎◌, bind, get_elem?, if◌then◌else◌, Bool-cases, ℕ, ◌≤◌, ◌^◌, ◌≡◌, refl,
  true, false, Option, none, some, List, [], ◌∷◌, inl, inr, length, All, arith, Option-cases,
  is_some, is_empty,
}
use playground_engine.Mesh.{
  VertexIndexKey, Attributes, MeshVertex, Mesh, Building, parsed, is_natural, three_at, two_at,
  find_key, make_vertex, place_index, insert_vertex, fold_shape, fold_shapes, empty_building,
  finish, parse_wavefront_mesh,
}
use playground_engine.Mesh.Merging.{corners, Resolves, fold_shapes-IsBuilt}

-- An index, as an `int`, that is negative or that names a group of floats of the list.
abbrev pub NamesGroup : {F : Type 0} → ℕ → List F → ℕ → Type 0
NamesGroup width floats pattern = (2 ^ 31 ≤ pattern) ⊎ (width * (pattern + 1) ≤ length floats)

-- The corner's indices lie within the attributes: three floats for each position and normal, two for
-- each texture coordinate.
abbrev pub InRange : {F : Type 0} → Attributes F → VertexIndexKey → Type 0
InRange attributes key =
    NamesGroup 3 attributes.vertices key.position_index
    × NamesGroup 3 attributes.normals key.normal_index
    × NamesGroup 2 attributes.texcoords key.texture_coordinate_index

get_elem?-some :
    {F : Type 0} (floats : List F) (i : ℕ) → i < length floats → is_some (get_elem? floats i) ≡ true
get_elem?-some [] i h = absurd (omega (arith, h))
get_elem?-some (x ∷ floats) zero h = refl
get_elem?-some (x ∷ floats) (suc i) h = get_elem?-some floats i (omega (arith, h))

bind-some :
    {A B : Type 0} (o : Option A) (f : A → Option B)
    → is_some o ≡ true
    → ((a : A) → is_some (f a) ≡ true)
    → is_some (bind o f) ≡ true
bind-some none f h k = h
bind-some (some a) f h k = k a

-- A group that is read only at an index that is not negative.
optional :
    {A : Type 0} (pattern : ℕ) (read omitted : Option A) {P : Type 0}
    → (2 ^ 31 ≤ pattern) ⊎ P
    → (P → is_some read ≡ true)
    → is_some omitted ≡ true
    → is_some (if is_natural pattern then read else omitted) ≡ true
optional pattern read omitted (inl negative) h e =
    let is_negative : is_natural pattern ≡ false = ground (arith, negative) in rw is_negative e
optional pattern read omitted (inr p) h e = elim (Bool-cases (is_natural pattern)) [
  | inl natural ↦ rw natural (h p)
  | inr negative ↦ rw negative e
]

module _ {F : Type 0} (zero_float : F) (flip : F → F) (attributes : Attributes F) where
  three_at-some :
      (floats : List F) (i : ℕ)
      → 3 * (i + 1) ≤ length floats
      → is_some (three_at zero_float flip floats (3 * i)) ≡ true
  unfolding three_at
  three_at-some floats i h =
      bind-some (get_elem? floats (3 * i)) _ (get_elem?-some floats _ (omega (arith, h))) (λ x.
        bind-some (get_elem? floats (3 * i + 1)) _ (get_elem?-some floats _ (omega (arith, h)))
          (λ y.
            bind-some (get_elem? floats (3 * i + 2)) _ (get_elem?-some floats _ (omega (arith, h)))
              (λ z. refl)))

  two_at-some :
      (floats : List F) (i : ℕ)
      → 2 * (i + 1) ≤ length floats
      → is_some (two_at zero_float flip floats (2 * i)) ≡ true
  unfolding two_at
  two_at-some floats i h =
      bind-some (get_elem? floats (2 * i)) _ (get_elem?-some floats _ (omega (arith, h))) (λ x.
        bind-some (get_elem? floats (2 * i + 1)) _ (get_elem?-some floats _ (omega (arith, h)))
          (λ y. refl))

  make_vertex-some :
      (key : VertexIndexKey)
      → InRange attributes key
      → is_some (make_vertex zero_float flip attributes key) ≡ true
  unfolding make_vertex
  make_vertex-some key (position, normal, texcoord) =
      bind-some _ _
        (optional key.position_index _ _ position
          (three_at-some attributes.vertices key.position_index) refl)
        (λ p.
          bind-some _ _
            (optional key.normal_index _ _ normal
              (three_at-some attributes.normals key.normal_index) refl)
            (λ n.
              bind-some _ _
                (optional key.texture_coordinate_index _ _ texcoord
                  (two_at-some attributes.texcoords key.texture_coordinate_index) refl)
                (λ t. refl)))

  insert_vertex-some :
      (key : VertexIndexKey) (o : Option (MeshVertex F)) (b : Building F)
      → is_some o ≡ true
      → is_some (insert_vertex zero_float flip key o b) ≡ true
  unfolding insert_vertex
  insert_vertex-some key none b h = cc
  insert_vertex-some key (some v) b h = refl

  place_index-some :
      (key : VertexIndexKey) (o : Option ℕ) (b : Building F)
      → InRange attributes key
      → is_some (place_index zero_float flip attributes key o b) ≡ true
  unfolding place_index
  place_index-some key none b h = insert_vertex-some key _ b (make_vertex-some key h)
  place_index-some key (some i) b h = refl

  fold_shape-some :
      (keys : List VertexIndexKey) (b : Building F)
      → All (InRange attributes) keys
      → is_some (fold_shape zero_float flip attributes keys b) ≡ true
  unfolding fold_shape
  fold_shape-some [] b h = refl
  fold_shape-some (key ∷ keys) b h =
      elim (Option-cases
        (place_index zero_float flip attributes key (find_key key b.vertex_indices) b)) [
          | inl e ↦
              absurd (ground (arith, place_index-some key (find_key key b.vertex_indices) b h.0))
          | inr (mid, e) ↦ rw e (fold_shape-some keys mid h.1)
        ]

  fold_shapes-some :
      (shapes : List (List VertexIndexKey)) (b : Building F)
      → All (All (InRange attributes)) shapes
      → is_some (fold_shapes zero_float flip attributes shapes b) ≡ true
  unfolding fold_shapes
  fold_shapes-some [] b h = refl
  fold_shapes-some (shape ∷ shapes) b h =
      elim (Option-cases (fold_shape zero_float flip attributes shape b)) [
        | inl e ↦ absurd (ground (arith, fold_shape-some shape b h.0))
        | inr (mid, e) ↦ rw e (fold_shapes-some shapes mid h.1)
      ]

  Resolves-not_empty :
      (vs : List (MeshVertex F)) (is : List ℕ) (ks : List VertexIndexKey)
      → Resolves zero_float flip attributes vs is ks
      → is_empty ks ≡ false
      → is_empty is ≡ false
  Resolves-not_empty vs [] [] r h = cc
  Resolves-not_empty vs [] (k ∷ ks) r h = absurd r
  Resolves-not_empty vs (i ∷ is) ks r h = refl

  -- Shapes of at most 2^32 corners, one at least, are parsed into a mesh where each index of each
  -- corner is negative or names a whole group of floats within its attribute.
  pub parse_wavefront_mesh_parses :
      (shapes : List (List VertexIndexKey))
      → length (corners shapes) ≤ 2 ^ 32
      → is_empty (corners shapes) ≡ false
      → All (All (InRange attributes)) shapes
      → (mesh : Mesh F) × (parse_wavefront_mesh zero_float flip (some (attributes, shapes))
          ≡ parsed mesh)
  unfolding parse_wavefront_mesh
  parse_wavefront_mesh_parses shapes fits any in_range =
      let start = empty_building zero_float flip in
      elim (Option-cases (fold_shapes zero_float flip attributes shapes start)) [
        | inl e ↦ absurd (ground (arith, fold_shapes-some shapes start in_range))
        | inr (b, e) ↦
            let built =
              fold_shapes-IsBuilt zero_float flip attributes [] shapes start b fits
                (record { entries = tt; resolves = tt; merged = omega arith }) e in
            let some_index =
              Resolves-not_empty b.mesh.vertices b.mesh.indices (corners shapes) built.resolves
                any in
            (b.mesh, rw e (unfold finish in ground arith))
      ]
