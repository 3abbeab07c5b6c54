-- ===== src/Renderer/Handles.antt =====
-- What `RecordCommandBuffer` of PlaygroundEngine/src/Renderer/RendererVulkan.cpp draws for the handle
-- of a mesh.
use playground_engine.Base.{
  zero, suc, ◌<◌, ◌==◌, if◌then◌else◌, inl, inr, Bool, false, none, ap, sym, ◌∙◌, Bool-cases,
  Option-cases, ℕ, ◌+◌, ◌-◌, ◌≡◌, refl, List, [], ◌∷◌, ◌++◌, Option, some, true, length,
  length-append, get_elem?, arith,
}
use playground_engine.Render.{ExtractedMesh}
use playground_engine.Renderer.State.{RendererVulkan, GpuMesh}
use playground_engine.Renderer.Step.{
  Running, Drawn, drawn, out_of_range, index, go_on, return, ◌>>=◌,
}
use playground_engine.Renderer.Drawing.{is_drawable, draw_mesh, record_commands, mesh_commands}

get_elem?-last :
    (meshes : List GpuMesh) (mesh : GpuMesh)
    → get_elem? (meshes ++ (mesh ∷ [])) (length meshes) ≡ some mesh
get_elem?-last [] mesh = refl
get_elem?-last (m ∷ meshes) mesh = get_elem?-last meshes mesh

get_elem?-before :
    (meshes : List GpuMesh) (mesh : GpuMesh) (i : ℕ)
    → i < length meshes
    → get_elem? (meshes ++ (mesh ∷ [])) i ≡ get_elem? meshes i
get_elem?-before [] mesh i h = absurd (omega (arith, h))
get_elem?-before (m ∷ meshes) mesh zero h = refl
get_elem?-before (m ∷ meshes) mesh (suc i) h = get_elem?-before meshes mesh i (omega (arith, h))

-- What drawing comes to, from whether the handle is drawn and from what is at its place.
abbrev drawn_of : ℕ → ExtractedMesh ℕ → Running → Bool → Option GpuMesh → Drawn (Unit {0}) × Running
drawn_of buffer m s false o = (drawn tt, s)
drawn_of buffer m s true none = (out_of_range, s)
drawn_of buffer m s true (some mesh) = record_commands buffer (mesh_commands m mesh) s

index-none :
    (xs : List GpuMesh) (i : ℕ) (s : Running)
    → get_elem? xs i ≡ none
    → index xs i s ≡ (out_of_range, s)
unfolding index
index-none xs i s e = rw (e, index) refl

index-some :
    (xs : List GpuMesh) (i : ℕ) (s : Running) (mesh : GpuMesh)
    → get_elem? xs i ≡ some mesh
    → index xs i s ≡ (drawn mesh, s)
unfolding index
index-some xs i s mesh e = rw (e, index) refl

draw_mesh-drawn_of :
    (r : RendererVulkan) (buffer : ℕ) (m : ExtractedMesh ℕ) (s : Running)
    → draw_mesh r buffer m s
      ≡ drawn_of buffer m s (is_drawable r m.mesh) (get_elem? r.meshes (m.mesh - 1))
unfolding draw_mesh return index ◌>>=◌
draw_mesh-drawn_of r buffer m s = elim (Bool-cases (is_drawable r m.mesh)) [
  | inl e ↦ elim (Option-cases (get_elem? r.meshes (m.mesh - 1))) [
    | inl n ↦
        rw (e, n)
          (ap (λ r. go_on r (λ mesh. record_commands buffer (mesh_commands m mesh)))
            (index-none r.meshes (m.mesh - 1) s n))
    | inr (mesh, at) ↦
        rw (e, at)
          (ap (λ r. go_on r (λ mesh. record_commands buffer (mesh_commands m mesh)))
            (index-some r.meshes (m.mesh - 1) s mesh at))
  ]
  | inr e ↦ rw e refl
]

-- Of a renderer with one more mesh.
pub draw_mesh-appended :
    (r : RendererVulkan) (mesh : GpuMesh) (buffer : ℕ) (m : ExtractedMesh ℕ) (s : Running)
    → let all = r.meshes ++ (mesh ∷ []) in
      draw_mesh (record r { meshes = all }) buffer m s ≡ (
        if m.mesh == length all
        then record_commands buffer (mesh_commands m mesh) s
        else draw_mesh r buffer m s)
draw_mesh-appended r mesh buffer m s =
    let all = r.meshes ++ (mesh ∷ []) in
    let after : RendererVulkan = record r { meshes = all } in
    let size : length all ≡ length r.meshes + 1 = length-append r.meshes (mesh ∷ []) in
    let draws = draw_mesh-drawn_of after buffer m s in
    elim (Bool-cases (m.mesh == length all)) [
      | inl e ↦
          let known : is_drawable after m.mesh ≡ true = ground (arith, size, e) in
          let place : m.mesh - 1 ≡ length r.meshes = ground (arith, size, e) in
          let at : get_elem? all (m.mesh - 1) ≡ some mesh =
            rw place (get_elem?-last r.meshes mesh) in
          draws ∙ rw (e, known, at) refl
      | inr e ↦ elim (Bool-cases (is_drawable r m.mesh)) [
        | inl d ↦
            let known : is_drawable after m.mesh ≡ true = ground (arith, size, d) in
            let at : get_elem? all (m.mesh - 1) ≡ get_elem? r.meshes (m.mesh - 1) =
              get_elem?-before r.meshes mesh (m.mesh - 1) (ground (arith, d)) in
            draws ∙ rw (e, known, at) (sym (draw_mesh-drawn_of r buffer m s ∙ rw d refl))
        | inr d ↦
            let known : is_drawable after m.mesh ≡ false = ground (arith, size, d, e) in
            draws ∙ rw (e, known) (sym (draw_mesh-drawn_of r buffer m s ∙ rw d refl))
      ]
    ]
