-- ===== src/Mesh/Merging.antt =====
-- The merging of vertices in `ParseWavefrontMesh` of Mesh/Mesh.cpp loses and mixes nothing.
use playground_engine.Base.{
  ℕ, ◌≤◌, ◌<◌, ◌^◌, ◌%◌, ◌≡◌, refl, sym, ap, subst, Bool-cases, true, Option, none, some, List, [],
  ◌∷◌, ◌++◌, zero, suc, inl, inr, length, length-append, get_elem?, All, arith, Option-cases,
}
use mathlib.Core.List.{append_assoc, append-nil}
use playground_engine.Mesh.{
  push_index, VertexIndexKey, same_key, Attributes, MeshVertex, Mesh, Building, parsed, find_key,
  make_vertex, place_index, insert_vertex, fold_shape, fold_shapes, empty_building, finish,
  parse_wavefront_mesh,
}

get_elem?-append {ℓ} :
    {A : Type ℓ} (xs ys : List A) (i : ℕ) (x : A)
    → get_elem? xs i ≡ some x
    → get_elem? (xs ++ ys) i ≡ some x
get_elem?-append [] ys i x h = cc
get_elem?-append (y ∷ xs) ys zero x h = h
get_elem?-append (y ∷ xs) ys (suc i) x h = get_elem?-append xs ys i x h

get_elem?-length {ℓ} :
    {A : Type ℓ} (xs : List A) (x : A) → get_elem? (xs ++ x ∷ []) (length xs) ≡ some x
get_elem?-length [] x = refl
get_elem?-length (y ∷ xs) x = get_elem?-length xs x

same_key-eq : (a b : VertexIndexKey) → same_key a b ≡ true → a ≡ b
same_key-eq a b h = ground arith

-- All the corners of the shapes, in order.
abbrev pub corners : List (List VertexIndexKey) → List VertexIndexKey
corners [] = []
corners (shape ∷ shapes) = shape ++ corners shapes

module _ {F : Type 0} (zero_float : F) (flip : F → F) (attributes : Attributes F) where
  -- The vertex at the index is the corner's own.
  abbrev pub Resolved : List (MeshVertex F) → ℕ → VertexIndexKey → Type 0
  Resolved vertices index key =
      (v : MeshVertex F) × (get_elem? vertices index ≡ some v)
      × (make_vertex zero_float flip attributes key ≡ some v)

  -- Index by index and corner by corner, and as many of the one as of the other.
  abbrev pub Resolves : List (MeshVertex F) → List ℕ → List VertexIndexKey → Type 0
  Resolves vertices [] [] = Unit
  Resolves vertices [] (key ∷ keys) = ⊥
  Resolves vertices (index ∷ indices) [] = ⊥
  Resolves vertices (index ∷ indices) (key ∷ keys) =
      Resolved vertices index key × Resolves vertices indices keys

  abbrev Entries : List (MeshVertex F) → List (VertexIndexKey × ℕ) → Type 0
  Entries vertices entries = All (λ (e : VertexIndexKey × ℕ). Resolved vertices e.1 e.0) entries

  Resolved-append :
      (vs : List (MeshVertex F)) (v : MeshVertex F) (index : ℕ) (key : VertexIndexKey)
      → Resolved vs index key
      → Resolved (vs ++ v ∷ []) index key
  Resolved-append vs v index key (w, h, m) = (w, get_elem?-append vs (v ∷ []) index w h, m)

  Resolves-append :
      (vs : List (MeshVertex F)) (v : MeshVertex F) (is : List ℕ) (ks : List VertexIndexKey)
      → Resolves vs is ks
      → Resolves (vs ++ v ∷ []) is ks
  Resolves-append vs v [] [] h = tt
  Resolves-append vs v [] (k ∷ ks) h = absurd h
  Resolves-append vs v (i ∷ is) [] h = absurd h
  Resolves-append vs v (i ∷ is) (k ∷ ks) h =
      (Resolved-append vs v i k h.0, Resolves-append vs v is ks h.1)

  Entries-append :
      (vs : List (MeshVertex F)) (v : MeshVertex F) (es : List (VertexIndexKey × ℕ))
      → Entries vs es
      → Entries (vs ++ v ∷ []) es
  Entries-append vs v [] h = tt
  Entries-append vs v (e ∷ es) h = (Resolved-append vs v e.1 e.0 h.0, Entries-append vs v es h.1)

  Resolves-snoc :
      (vs : List (MeshVertex F)) (is : List ℕ) (ks : List VertexIndexKey) (i : ℕ)
      (k : VertexIndexKey)
      → Resolves vs is ks
      → Resolved vs i k
      → Resolves vs (is ++ i ∷ []) (ks ++ k ∷ [])
  Resolves-snoc vs [] [] i k h r = (r, tt)
  Resolves-snoc vs [] (k' ∷ ks) i k h r = absurd h
  Resolves-snoc vs (i' ∷ is) [] i k h r = absurd h
  Resolves-snoc vs (i' ∷ is) (k' ∷ ks) i k h r = (h.0, Resolves-snoc vs is ks i k h.1 r)

  find_key-Resolved :
      (vs : List (MeshVertex F)) (es : List (VertexIndexKey × ℕ)) (key : VertexIndexKey) (i : ℕ)
      → Entries vs es
      → find_key key es ≡ some i
      → Resolved vs i key
  unfolding find_key
  find_key-Resolved vs [] key i h found = cc
  find_key-Resolved vs ((k, j) ∷ es) key i h found = elim (Bool-cases (same_key k key)) [
    | inl e ↦
        let same : j ≡ i = ground arith in
        subst (λ n. Resolved vs n key) same (subst (Resolved vs j) (same_key-eq k key e) h.0)
    | inr e ↦ find_key-Resolved vs es key i h.1 (ground arith)
  ]

  -- The invariant of the loops, after the corners that are done.
  pub record IsBuilt (done : List VertexIndexKey) (b : Building F) : Type 0 where
    pub entries : Entries b.mesh.vertices b.vertex_indices
    pub resolves : Resolves b.mesh.vertices b.mesh.indices done
    pub merged : length b.mesh.vertices ≤ length done

  some-carry {ℓ κ} : {A : Type ℓ} (P : A → Type κ) (a b : A) → some a ≡ some b → P a → P b
  some-carry P a b h p = let same : a ≡ b = ground arith in subst P same p

  existing-IsBuilt :
      (done : List VertexIndexKey) (key : VertexIndexKey) (existing : ℕ) (b : Building F)
      → IsBuilt done b
      → find_key key b.vertex_indices ≡ some existing
      → IsBuilt (done ++ key ∷ []) (record b { mesh = push_index zero_float flip existing b.mesh })
  existing-IsBuilt done key existing b built found = record {
    entries = built.entries;
    resolves =
        Resolves-snoc b.mesh.vertices b.mesh.indices done existing key built.resolves
          (find_key-Resolved b.mesh.vertices b.vertex_indices key existing built.entries found);
    merged = omega (arith, built.merged, length-append done (key ∷ []));
  }

  insert_vertex-IsBuilt :
      (done : List VertexIndexKey) (key : VertexIndexKey) (o : Option (MeshVertex F))
      (b after : Building F)
      → length done < 2 ^ 32
      → IsBuilt done b
      → make_vertex zero_float flip attributes key ≡ o
      → insert_vertex zero_float flip key o b ≡ some after
      → IsBuilt (done ++ key ∷ []) after
  unfolding insert_vertex
  insert_vertex-IsBuilt done key none b after fits built made h = cc
  insert_vertex-IsBuilt done key (some v) b after fits built made h =
      let vs = b.mesh.vertices in
      let index : length vs % 2 ^ 32 ≡ length vs = omega (arith, built.merged, fits) in
      let new : Resolved (vs ++ v ∷ []) (length vs % 2 ^ 32) key =
        subst (λ i. Resolved (vs ++ v ∷ []) i key) (sym index) (v, get_elem?-length vs v, made) in
      some-carry (IsBuilt (done ++ key ∷ [])) _ after h (record {
        entries = (new, Entries-append vs v b.vertex_indices built.entries);
        resolves =
            Resolves-snoc (vs ++ v ∷ []) b.mesh.indices done _ key
              (Resolves-append vs v b.mesh.indices done built.resolves) new;
        merged =
            omega (arith, built.merged, length-append done (key ∷ []), length-append vs (v ∷ []));
      })

  place_index-IsBuilt :
      (done : List VertexIndexKey) (key : VertexIndexKey) (o : Option ℕ) (b after : Building F)
      → length done < 2 ^ 32
      → IsBuilt done b
      → find_key key b.vertex_indices ≡ o
      → place_index zero_float flip attributes key o b ≡ some after
      → IsBuilt (done ++ key ∷ []) after
  unfolding place_index
  place_index-IsBuilt done key none b after fits built found h =
      insert_vertex-IsBuilt done key _ b after fits built refl h
  place_index-IsBuilt done key (some existing) b after fits built found h =
      some-carry (IsBuilt (done ++ key ∷ [])) _ after h
        (existing-IsBuilt done key existing b built found)

  fold_shape-IsBuilt :
      (done keys : List VertexIndexKey) (b after : Building F)
      → length (done ++ keys) ≤ 2 ^ 32
      → IsBuilt done b
      → fold_shape zero_float flip attributes keys b ≡ some after
      → IsBuilt (done ++ keys) after
  unfolding fold_shape
  fold_shape-IsBuilt done [] b after fits built h =
      some-carry (IsBuilt (done ++ [])) b after h
        (subst (λ d. IsBuilt d b) (sym (append-nil done)) built)
  fold_shape-IsBuilt done (key ∷ keys) b after fits built h =
      let o = find_key key b.vertex_indices in
      elim (Option-cases (place_index zero_float flip attributes key o b)) [
        | inl e ↦ absurd (ground arith)
        | inr (mid, e) ↦
            subst (λ d. IsBuilt d after) (append_assoc done (key ∷ []) keys)
              (fold_shape-IsBuilt (done ++ key ∷ []) keys mid after
                (subst (λ d. length d ≤ 2 ^ 32) (sym (append_assoc done (key ∷ []) keys)) fits)
                (place_index-IsBuilt done key o b mid
                  (omega (arith, fits, length-append done (key ∷ keys))) built refl e)
                (ground arith))
      ]

  pub fold_shapes-IsBuilt :
      (done : List VertexIndexKey) (shapes : List (List VertexIndexKey)) (b after : Building F)
      → length (done ++ corners shapes) ≤ 2 ^ 32
      → IsBuilt done b
      → fold_shapes zero_float flip attributes shapes b ≡ some after
      → IsBuilt (done ++ corners shapes) after
  unfolding fold_shapes
  fold_shapes-IsBuilt done [] b after fits built h =
      some-carry (IsBuilt (done ++ [])) b after h
        (subst (λ d. IsBuilt d b) (sym (append-nil done)) built)
  fold_shapes-IsBuilt done (shape ∷ shapes) b after fits built h =
      let same = append_assoc done shape (corners shapes) in
      elim (Option-cases (fold_shape zero_float flip attributes shape b)) [
        | inl e ↦ absurd (ground arith)
        | inr (mid, e) ↦
            subst (λ d. IsBuilt d after) same
              (fold_shapes-IsBuilt (done ++ shape) shapes mid after
                (subst (λ d. length d ≤ 2 ^ 32) (sym same) fits)
                (fold_shape-IsBuilt done shape b mid
                  (omega
                    (arith, fits, length-append (done ++ shape) (corners shapes), ap length same))
                  built e)
                (ground arith))
      ]

  finish-parsed :
      (o : Option (Building F)) (mesh : Mesh F)
      → finish zero_float flip o ≡ parsed mesh
      → (b : Building F) × (o ≡ some b) × (b.mesh ≡ mesh)
  unfolding finish
  finish-parsed none mesh h = cc
  finish-parsed (some b) mesh h = (b, refl, ground arith)

  -- In a mesh that is parsed from shapes of at most 2^32 corners, there is one index for each corner,
  -- in the order of the shapes, and the vertex at that index is the corner's own; merging never makes
  -- more vertices than there are corners.
  pub parse_wavefront_mesh-Resolves :
      (shapes : List (List VertexIndexKey)) (mesh : Mesh F)
      → length (corners shapes) ≤ 2 ^ 32
      → parse_wavefront_mesh zero_float flip (some (attributes, shapes)) ≡ parsed mesh
      → Resolves mesh.vertices mesh.indices (corners shapes)
        × (length mesh.vertices ≤ length (corners shapes))
  unfolding parse_wavefront_mesh
  parse_wavefront_mesh-Resolves shapes mesh fits h =
      let (b, e, same) =
        finish-parsed
          (fold_shapes zero_float flip attributes shapes (empty_building zero_float flip)) mesh h in
      let built =
        fold_shapes-IsBuilt [] shapes (empty_building zero_float flip) b fits
          (record { entries = tt; resolves = tt; merged = omega arith }) e in
      (
        subst (λ (m : Mesh F). Resolves m.vertices m.indices (corners shapes)) same built.resolves,
        subst (λ (m : Mesh F). length m.vertices ≤ length (corners shapes)) same built.merged,
      )
