-- ===== src/Lib.antt =====
-- Playground Engine: the event path, the entity component store, the local control endpoint, the
-- reflection of constructors and members, and the renderer with what a frame hands to it.
--
-- One frame of the engine pumps the window server's pending events into a record, lets the agent
-- channel append the events that clients injected, hands the record to the debug overlay and to the
-- input system, steps the systems of the entity component store, and extracts a view and the meshes
-- for the renderer. Paths are from the repository's root; functions keep their source names in snake
-- case. Each component's tests and examples stand in its module Examples.
--
-- - Base, OrderedMap: shared types, lists, options, bytes, the checks by evaluation of a table, and
--   `std::map` as an association list in key order. Bytes are numbers below 256 in a list.
-- - Ecs: PlaygroundEngine/src/Ecs/Ecs.cppm and Ecs.cpp. The store is a record of its two maps, its
--   systems and its id counter; an operation takes the store and gives it back. A component and a
--   type are addresses, and `make_shared` gives its address as an argument. `add_entity` is `none`
--   where the `int` counter would overflow. The contracts of `Ecs`, which a release build ignores,
--   are not part of the bodies.
-- - Reflection: the enumerator table of PlaygroundEngine/src/Reflection/Builtins and the lookups by
--   name and by value of PlaygroundEngine/src/Reflection/Reflection.cppm; the choice of a constructor
--   for erased arguments, and the checks of field access and of invocation, of Reflection/Core. The
--   table is computed from the declarations; a thunk is the number of what it runs.
-- - Events: PlaygroundEngine/src/PlatformEvents. A coordinate is a value of an abstract type.
-- - WindowServer: PlaygroundEngine/src/WindowServer/Backend, the translation of GLFW's keys and the
--   callbacks up to the pump. The numbers of GLFW's macros are a function of their names, an argument;
--   what GLFW calls back in one poll is a list.
-- - InputSystem: PlaygroundEngine/src/Ecs/InputSystem, over the store and a heap of components.
-- - AgentChannel: PlaygroundEngine/src/AgentChannel/AgentChannel.cpp. Answers of the kernel are lists
--   or records; `none` says that the code still waits at the end of a list. The two threads hold the
--   mutex one at a time, so an execution is a list of turns. The loop of `tokenize` runs on as much
--   fuel as the line has bytes, which is enough as each round consumes one.
-- - DebugUi: PlaygroundEngine/src/DebugUI/DebugUIInputTranslation.cpp as the list of calls on ImGui.
-- - Mesh: PlaygroundEngine/src/Mesh/Mesh.cpp, from what the reader of tinyobj answers, an argument. A
--   read out of range is a result of its own.
-- - Render: PlaygroundEngine/src/RenderExtraction.cpp and MeshCatalog.cpp, over the store and a heap.
-- - Spawner: PlaygroundGame/src/Ecs/EntitySpawnerSystem/EntitySpawnerSystem.cpp, likewise.
-- - Renderer: PlaygroundEngine/src/Renderer/VulkanUtils.cpp and RendererVulkan.cpp. The device is a
--   parameter that answers each call from the calls before it; a creation is a function of the list
--   of calls that adds its own (Device, Result), and a frame also changes the renderer (Step). What
--   Choices decides is functions of what the device offers. A read past the end of an array is a
--   result of its own. Replay states the rules for the layouts and sizes of an image's levels, Fences
--   those for fences. The calls of destructors are left out, and so are the masks of barriers and
--   descriptors that are the same in every call.
-- - Engine: `SyncMeshCatalog`, `RunStep` and `Run` of PlaygroundEngine/src/Engine.cpp, with the key of
--   FrameCapture.cpp. A step puts the other parts together: the pump, the channel, the renderer and
--   the extraction; what the application and its systems do to the scene is an argument, and so is
--   what each frame finds outside. The loop runs over the frames to come.
--
-- Not modelled: the mathematics, which is floating point; the drawing of the overlay; the reflection
-- builders, which run at compile time; logging, files and images, which wrap libraries; creation of
-- windows; the boot and the shutdown of the engine; and the accept loop around a connection.
pub mod Base
pub mod OrderedMap
pub mod Ecs
pub mod Reflection
pub mod Events
pub mod WindowServer
pub mod InputSystem
pub mod AgentChannel
pub mod DebugUi
pub mod Mesh
pub mod Render
pub mod Spawner
pub mod Renderer
pub mod Engine
