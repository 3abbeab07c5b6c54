-- ===== src/Render/Meshes.antt =====
-- Which meshes RenderExtraction.cpp draws.
use playground_engine.Base.{
  ◌∙◌, Bool-cases, ℕ, ◌≡◌, ◌⊎◌, refl, false, Option, none, some, List, [], ◌∷◌, ◌++◌, ◌==◌, arith,
  inl, inr, All,
}
use playground_engine.Ecs.{Entity, new, try_get_component, get_components_with_entities}
use playground_engine.Ecs.View.{entity}
use playground_engine.Ecs.History.{Reach}
use playground_engine.Ecs.Enumeration.{listed, get_components_with_entities_exact}
use playground_engine.Render.{
  FloatOperations, ExtractedView, ExtractedMesh, Scene, placed, transform_of, push_meshes,
  find_mesh, invalid_index, ExtractedFrame, extract_frame, MeshCatalog,
}

abbrev pub Drawn : {P : Type 0} → ExtractedMesh P → List (ExtractedMesh P) → Type 0
Drawn m [] = ⊥
Drawn m (n ∷ ms) = (n ≡ m) ⊎ Drawn m ms

Drawn-append :
    {P : Type 0} (m : ExtractedMesh P) (ms ns : List (ExtractedMesh P))
    → Drawn m ns
    → Drawn m (ms ++ ns)
Drawn-append m [] ns d = d
Drawn-append m (n ∷ ms) ns d = inr (Drawn-append m ms ns d)

module _ {F P : Type 0} (floats : FloatOperations F) (default_view : ExtractedView F P)
    (world : Scene F P) (catalog : MeshCatalog) where
  abbrev IsResolved : ExtractedMesh P → Type 0
  IsResolved m = (m.mesh == invalid_index) ≡ false

  placed-IsResolved :
      (handle : ℕ) (o : Option ℕ) (later : List (ExtractedMesh P))
      → (handle == invalid_index) ≡ false
      → All IsResolved later
      → All IsResolved (placed floats default_view world handle o ++ later)
  placed-IsResolved handle none later h a = a
  placed-IsResolved handle (some t) later h a = (h, a)

  push_meshes-IsResolved :
      (xs : List (Entity × ℕ)) → All IsResolved (push_meshes floats default_view world catalog xs)
  unfolding push_meshes
  push_meshes-IsResolved [] = tt
  push_meshes-IsResolved ((o, d) ∷ xs) =
      elim (Bool-cases (find_mesh (world.mesh_paths d) catalog == invalid_index)) [
        | inl e ↦ rw e (push_meshes-IsResolved xs)
        | inr e ↦ rw e (
            placed-IsResolved _ (transform_of floats default_view world o) _ e
              (push_meshes-IsResolved xs))
      ]

  push_meshes-Drawn :
      (e c t : ℕ) (xs : List (Entity × ℕ))
      → listed e xs ≡ some c
      → (find_mesh (world.mesh_paths c) catalog == invalid_index) ≡ false
      → try_get_component world.ecs world.transform_type (entity e) ≡ some t
      → Drawn
          (record { mesh = find_mesh (world.mesh_paths c) catalog; placement = world.transforms t })
          (push_meshes floats default_view world catalog xs)
  unfolding push_meshes
  push_meshes-Drawn e c t [] h valid k = cc
  push_meshes-Drawn e c t ((o, d) ∷ xs) h valid k =
      let drawn : ExtractedMesh P = record {
        mesh = find_mesh (world.mesh_paths c) catalog;
        placement = world.transforms t;
      } in
      elim (Bool-cases (o.id == e)) [
        | inl same ↦
            let id : o.id ≡ e = ground arith in
            let component : d ≡ c = ground arith in rw (component, id, valid, k) (inl refl)
        | inr differ ↦
            let ih = push_meshes-Drawn e c t xs (ground arith) valid k in
            elim (Bool-cases (find_mesh (world.mesh_paths d) catalog == invalid_index)) [
              | inl none_here ↦ rw none_here ih
              | inr here ↦ rw here (
                  Drawn-append drawn
                    (placed floats default_view world _ (transform_of floats default_view world o))
                    _ ih)
            ]
      ]

  -- In every store that the operations lead to, an entity whose mesh path the catalog resolved and
  -- that has a transform is drawn with that mesh at that transform, whatever the frame held before;
  -- and nothing that is drawn has the invalid handle.
  pub extract_frame_draws :
      (e c t : ℕ) (frame : ExtractedFrame F P)
      → Reach new world.ecs
      → try_get_component world.ecs world.mesh_type (entity e) ≡ some c
      → (find_mesh (world.mesh_paths c) catalog == invalid_index) ≡ false
      → try_get_component world.ecs world.transform_type (entity e) ≡ some t
      → let meshes = (extract_frame floats default_view world catalog frame).meshes in
        Drawn
          (record { mesh = find_mesh (world.mesh_paths c) catalog; placement = world.transforms t })
          meshes
        × All (λ (m : ExtractedMesh P). (m.mesh == invalid_index) ≡ false) meshes
  unfolding extract_frame
  extract_frame_draws e c t frame r mesh valid transform =
      let xs = get_components_with_entities world.ecs world.mesh_type in
      let exact = get_components_with_entities_exact world.ecs world.mesh_type r in
      (push_meshes-Drawn e c t xs (exact.0 e ∙ mesh) valid transform, push_meshes-IsResolved xs)
