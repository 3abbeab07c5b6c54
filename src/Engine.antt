-- ===== src/Engine.antt =====
-- The engine's part between the store and the renderer: `Engine::SyncMeshCatalog` of
-- PlaygroundEngine/src/Engine.cpp. The renderer is what `acquire` says it is: it answers the handle
-- of a mesh that loads.
pub mod Step
pub mod Gathering
pub mod Ending
mod Examples
use playground_engine.Base.{
  subst, ap, text_eq, text_eq_iff, text_eq_refl, All, Bool-cases, inl, inr, ◌||◌, ◌≡◌, refl, arith,
  ℕ, ◌∙◌, sym, List, [], ◌∷◌, Option, none, some, Bool, true, false, Text, if◌then◌else◌, value_or,
  is_some, ◌==◌,
}
use playground_engine.Render.{entry_of, insert_mesh, contains_mesh, invalid_index, MeshCatalog}

-- A path that is inserted is there, and no other comes or goes.
contains-insert :
    (path other : Text) (handle : ℕ) (catalog : MeshCatalog)
    → contains_mesh other (insert_mesh path handle catalog)
      ≡ text_eq path other || contains_mesh other catalog
unfolding contains_mesh entry_of insert_mesh
contains-insert path other handle [] = ground arith
contains-insert path other handle ((p, h) ∷ rest) = elim (Bool-cases (text_eq p path)) [
  | inl e ↦
      let same : p ≡ path = (text_eq_iff p path).0 e in
      let tests : text_eq p other ≡ text_eq path other = ap (λ t. text_eq t other) same in
      ground (arith, e, tests)
  | inr e ↦ ground (arith, e, contains-insert path other handle rest)
]

known :
    {R : Type 0} (path other : Text) (s : R × MeshCatalog)
    → contains_mesh path s.1 ≡ true
    → contains_mesh other s.1 ≡ text_eq path other || contains_mesh other s.1
known path other s e = elim (Bool-cases (text_eq path other)) [
  | inl t ↦
      let held : contains_mesh other s.1 ≡ true =
        subst (λ x. contains_mesh x s.1 ≡ true) ((text_eq_iff path other).0 t) e in
      rw (t, held) refl
  | inr t ↦ rw t refl
]

module _ {R : Type 0} (acquire : Text → R → Option ℕ × R) where
  abbrev pub synced : Text → Option ℕ × R → MeshCatalog → R × MeshCatalog
  synced path (acquired, renderer) catalog =
      (renderer, insert_mesh path (value_or acquired invalid_index) catalog)

  -- One path.
  unfoldable pub sync_mesh : Text → R × MeshCatalog → R × MeshCatalog
  sync_mesh path s = if contains_mesh path s.1 then s else synced path (acquire path s.0) s.1

  -- The paths of the meshes of the store, in turn.
  unfoldable pub sync_mesh_catalog : List Text → R × MeshCatalog → R × MeshCatalog
  unfolding sync_mesh
  sync_mesh_catalog [] s = s
  sync_mesh_catalog (path ∷ paths) s = sync_mesh_catalog paths (sync_mesh path s)

  sync_mesh-contains :
      (path other : Text) (s : R × MeshCatalog)
      → contains_mesh other (sync_mesh path s).1 ≡ text_eq path other || contains_mesh other s.1
  unfolding sync_mesh
  sync_mesh-contains path other s = elim (Bool-cases (contains_mesh path s.1)) [
    | inl e ↦ rw e (known path other s e)
    | inr e ↦ rw e (contains-insert path other _ s.1)
  ]

  sync-keeps :
      (paths : List Text) (other : Text) (s : R × MeshCatalog)
      → contains_mesh other s.1 ≡ true
      → contains_mesh other (sync_mesh_catalog paths s).1 ≡ true
  unfolding sync_mesh_catalog
  sync-keeps [] other s e = e
  sync-keeps (path ∷ paths) other s e =
      sync-keeps paths other (sync_mesh path s) (ground (arith, sync_mesh-contains path other s))

  sync-contains :
      (paths : List Text) (s : R × MeshCatalog)
      → All (λ path. contains_mesh path (sync_mesh_catalog paths s).1 ≡ true) paths
  unfolding sync_mesh_catalog
  sync-contains [] s = tt
  sync-contains (path ∷ paths) s = (
    sync-keeps paths path (sync_mesh path s)
        (ground (arith, sync_mesh-contains path path s, text_eq_refl path)),
    sync-contains paths (sync_mesh path s),
  )

  sync-contained :
      (paths : List Text) (s : R × MeshCatalog)
      → All (λ path. contains_mesh path s.1 ≡ true) paths
      → sync_mesh_catalog paths s ≡ s
  unfolding sync_mesh_catalog sync_mesh
  sync-contained [] s a = refl
  sync-contained (path ∷ paths) s a = rw a.0 (sync-contained paths s a.1)

  -- Whatever meshes load, and also where some do not: once the paths were synced every one of them
  -- is in the catalog, and to sync them again acquires nothing and changes nothing, so that a path
  -- that cannot load is not tried again on every frame.
  pub sync_mesh_catalog_once :
      (paths : List Text) (s : R × MeshCatalog)
      → All (λ path. contains_mesh path (sync_mesh_catalog paths s).1 ≡ true) paths
        × (sync_mesh_catalog paths (sync_mesh_catalog paths s) ≡ sync_mesh_catalog paths s)
  sync_mesh_catalog_once paths s = (
    sync-contains paths s,
    sync-contained paths (sync_mesh_catalog paths s) (sync-contains paths s),
  )
