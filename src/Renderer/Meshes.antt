-- ===== src/Renderer/Meshes.antt =====
-- The meshes of the renderer: `LoadMesh` and `AcquireMesh` of
-- PlaygroundEngine/src/Renderer/RendererVulkan.cpp. The parser of models is an argument, which
-- answers the numbers of vertices and of indices.
use playground_engine.Base.{
  ◌==◌, if◌then◌else◌, ℕ, ◌*◌, ◌≡◌, List, [], ◌∷◌, ◌++◌, Option, some, length,
}
use playground_engine.Renderer.Device.{
  BufferUsage, create_buffer, transfer_destination, Device, Call, vertex_buffer, index_buffer,
  read_executable_file, model_load_error,
}
use playground_engine.Renderer.Result.{M, ◌>>=◌, return, ask, require}
use playground_engine.Renderer.Transfers.{create_device_local_buffer}
use playground_engine.Renderer.State.{RendererVulkan, GpuMesh}
use playground_engine.Render.{ExtractedMesh}
use playground_engine.Renderer.Resources.{BufferResource}
use playground_engine.Renderer.Step.{Running}
use playground_engine.Renderer.Drawing.{draw_mesh, record_commands, mesh_commands}
use playground_engine.Renderer.Ensures.{Ensures}

-- How many vertices and indices a mesh has.
pub record MeshSize : Type 0 where
  pub vertices : ℕ
  pub indices : ℕ

module _ (device : Device) (parse : ℕ → Option MeshSize) where
  unfoldable pub load_mesh : ℕ → M MeshSize
  load_mesh file = do
    text ← ask device (read_executable_file file) model_load_error
    require (parse text) model_load_error

  -- The renderer with the mesh, and its handle. A vertex takes 32 bytes, an index 4.
  unfoldable pub acquire_mesh : RendererVulkan → ℕ → M (RendererVulkan × ℕ)
  unfolding load_mesh
  acquire_mesh renderer file = do
    mesh ← load_mesh file
    vertices ←
        create_device_local_buffer device renderer.command_pool (mesh.vertices * 32)
          (vertex_buffer ∷ [])
    indices ←
        create_device_local_buffer device renderer.command_pool (mesh.indices * 4)
          (index_buffer ∷ [])
    let gpu_mesh : GpuMesh = record {
      vertex_buffer = vertices;
      index_buffer = indices;
      index_count = mesh.indices;
    }
    return (
      record renderer { meshes = renderer.meshes ++ (gpu_mesh ∷ []) },
      length (renderer.meshes ++ (gpu_mesh ∷ [])),
    )

-- A buffer that the device answered to a call for this size and use.
abbrev pub BufferFor : Device → ℕ → List BufferUsage → BufferResource → List Call → Type 0
BufferFor device size usage buffer after =
    (asked : List Call) × (device.answer asked (create_buffer size usage) ≡ some buffer.buffer)

-- The numbers of vertices and of indices that a file's text parses into.
abbrev pub ParsedFrom : Device → (ℕ → Option MeshSize) → ℕ → MeshSize → List Call → Type 0
ParsedFrom device parse file size after =
    (read : List Call) × (text : ℕ) × (device.answer read (read_executable_file file) ≡ some text)
    × (parse text ≡ some size)

-- The mesh that a file's text parses into, in buffers of its vertices and of its indices.
abbrev pub MeshOf : Device → (ℕ → Option MeshSize) → ℕ → GpuMesh → List Call → Type 0
MeshOf device parse file mesh after =
    (size : MeshSize) × ParsedFrom device parse file size after
    × (mesh.index_count ≡ size.indices)
    × BufferFor device (size.vertices * 32) (vertex_buffer ∷ transfer_destination ∷ [])
        mesh.vertex_buffer after
    × BufferFor device (size.indices * 4) (index_buffer ∷ transfer_destination ∷ [])
        mesh.index_buffer after

-- Drawing records the mesh for its handle, and for every other handle what it did before.
abbrev pub Names :
    Device
    → (ℕ → Option MeshSize)
    → ℕ
    → RendererVulkan
    → ℕ
    → ExtractedMesh ℕ
    → Running
    → RendererVulkan × ℕ
    → List Call
    → Type 0
Names device parse file before buffer m s after calls =
    (mesh : GpuMesh) × MeshOf device parse file mesh calls
    × (draw_mesh after.0 buffer m s ≡ (
        if m.mesh == after.1
        then record_commands buffer (mesh_commands m mesh) s
        else draw_mesh before buffer m s))
