-- ===== src/Render/View.antt =====
-- Which camera RenderExtraction.cpp sees a frame through.
use playground_engine.Base.{
  false, ap, sym, ◌∙◌, Bool-cases, ℕ, ◌≤◌, ◌<◌, ◌≡◌, none, some, List, [], ◌∷◌, ◌==◌, arith,
  Option-cases, inl, inr,
}
use playground_engine.Ecs.{Entity, new, try_get_component, get_components_with_entities}
use playground_engine.Ecs.View.{entity}
use playground_engine.Ecs.History.{Reach}
use playground_engine.Ecs.Enumeration.{
  AllAbove, Ascending, listed, owners, get_components_with_entities_exact,
}
use playground_engine.Render.{
  FloatOperations, ExtractedView, Scene, to_extracted_view, first_view, extract_view,
  ExtractedFrame, extract_frame, MeshCatalog,
}

listed-above :
    (o e c : ℕ) (xs : List (Entity × ℕ)) → AllAbove o (owners xs) → listed e xs ≡ some c → o < e
listed-above o e c [] a h = cc
listed-above o e c ((p, d) ∷ xs) a h = ground (arith, listed-above o e c xs)

module _ {F P : Type 0} (floats : FloatOperations F) (default_view : ExtractedView F P)
    (world : Scene F P) where
  -- The view through the camera of an entity that has a transform, from a listing of cameras.
  abbrev Through : ℕ → List (Entity × ℕ) → ExtractedView F P → Type 0
  Through e xs view =
      (e' : ℕ) × (c' : ℕ) × (t' : ℕ) × (e' ≤ e)
      × (listed e' xs ≡ some c')
      × (try_get_component world.ecs world.transform_type (entity e') ≡ some t')
      × (view ≡ to_extracted_view floats default_view (world.transforms t') (world.cameras c'))

  first_view-none :
      (o : Entity) (d : ℕ) (xs : List (Entity × ℕ))
      → try_get_component world.ecs world.transform_type o ≡ none
      → first_view floats default_view world ((o, d) ∷ xs) ≡ first_view floats default_view world xs
  unfolding first_view
  first_view-none o d xs e = rw (e, first_view)

  first_view-some :
      (o : Entity) (d t : ℕ) (xs : List (Entity × ℕ))
      → try_get_component world.ecs world.transform_type o ≡ some t
      → first_view floats default_view world ((o, d) ∷ xs)
        ≡ to_extracted_view floats default_view (world.transforms t) (world.cameras d)
  unfolding first_view
  first_view-some o d t xs e = rw (e, first_view)

  other_entity :
      (o : Entity) (e t : ℕ)
      → try_get_component world.ecs world.transform_type o ≡ none
      → try_get_component world.ecs world.transform_type (entity e) ≡ some t
      → (o.id == e) ≡ false
  other_entity o e t absent present = elim (Bool-cases (o.id == e)) [
    | inl same ↦
        let id : o.id ≡ e = ground arith in
        absurd (
          let both : some t ≡ none =
            sym present
            ∙ (ap (λ n. try_get_component world.ecs world.transform_type (entity n)) (sym id)
                ∙ absent) in
          cc)
    | inr differ ↦ differ
  ]

  first_view-Through :
      (e c t : ℕ) (xs : List (Entity × ℕ))
      → Ascending (owners xs)
      → listed e xs ≡ some c
      → try_get_component world.ecs world.transform_type (entity e) ≡ some t
      → Through e xs (first_view floats default_view world xs)
  first_view-Through e c t [] a h k = cc
  first_view-Through e c t ((o, d) ∷ xs) a h k =
      elim (Option-cases (try_get_component world.ecs world.transform_type o)) [
        | inl absent ↦
            let later : listed e xs ≡ some c = ground (arith, other_entity o e t absent k) in
            let (e', c', t', le, l, q, v) = first_view-Through e c t xs a.1 later k in
            (
              e',
              c',
              t',
              le,
              rw (other_entity o e' t' absent q) l,
              q,
              first_view-none o d xs absent ∙ v,
            )
        | inr (t', here) ↦ (
          o.id,
          d,
          t',
          (elim (Bool-cases (o.id == e)) [
            | inl same ↦ ground arith
            | inr differ ↦
                let later : listed e xs ≡ some c = ground arith in
                let above = listed-above o.id e c xs a.0 later in omega (arith, above)
          ]),
          ground arith,
          here,
          first_view-some o d t' xs here,
        )
      ]

  -- In every store that the operations lead to, where an entity has both a camera and a transform,
  -- the extracted view is that of the camera and the transform of one entity, whose id is at most
  -- the id of that entity; so the lowest such entity is the one that is seen through.
  pub extract_frame_lowest_view :
      (e c t : ℕ) (catalog : MeshCatalog) (frame : ExtractedFrame F P)
      → Reach new world.ecs
      → try_get_component world.ecs world.camera_type (entity e) ≡ some c
      → try_get_component world.ecs world.transform_type (entity e) ≡ some t
      → (e' : ℕ) × (c' : ℕ) × (t' : ℕ) × (e' ≤ e)
        × (try_get_component world.ecs world.camera_type (entity e') ≡ some c')
        × (try_get_component world.ecs world.transform_type (entity e') ≡ some t')
        × ((extract_frame floats default_view world catalog frame).view
            ≡ to_extracted_view floats default_view (world.transforms t') (world.cameras c'))
  unfolding extract_frame extract_view
  extract_frame_lowest_view e c t catalog frame r camera transform =
      let exact = get_components_with_entities_exact world.ecs world.camera_type r in
      let (e', c', t', le, l, q, v) =
        first_view-Through e c t (get_components_with_entities world.ecs world.camera_type) exact.1
          (exact.0 e ∙ camera) transform in
      (e', c', t', le, sym (exact.0 e') ∙ l, q, v)
