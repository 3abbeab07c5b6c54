-- ===== src/Engine/Examples.antt =====
-- A renderer that counts what it acquires, and loads only the first path.
use playground_engine.Base.{
  ℕ, String, ◌+◌, ◌≡◌, refl, true, false, not, ◌&&◌, ◌++◌, is_some, length, List, [], ◌∷◌, Option,
  none, some, All, Text, ◌==◌, if◌then◌else◌,
}
use playground_engine.Render.{contains_mesh}
use playground_engine.Events.{
  PlatformEvent, PlatformEventRecord, event_of, has_event, pointer_button_pressed, close_requested,
}
use playground_engine.WindowServer.Backend.{Conversions, cursor_position, window_close}
use playground_engine.WindowServer.Delivery.{stamped}
use playground_engine.Render.{Scene}
use playground_engine.Render.Examples.{floats, default_view, scene, last_frame}
use playground_engine.Renderer.Step.{Drawn}
use playground_engine.Renderer.Meshes.{MeshSize}
use playground_engine.Renderer.Examples.{toy, surface, renderer, square}
use playground_engine.Engine.Step.{Engine, StepInput, run_step, run}
use playground_engine.Engine.Gathering.{staged, run_step_gathers}
use playground_engine.Engine.Ending.{IsEnded, run-IsEnded}
use playground_engine.Engine.{sync_mesh_catalog, sync_mesh_catalog_once}

abbrev acquire : Text → ℕ → Option ℕ × ℕ
acquire path count = (if count == 0 then some 1 else none, count + 1)

abbrev paths : List Text
paths = (104 ∷ []) ∷ (116 ∷ []) ∷ (104 ∷ []) ∷ []

sync_mesh_catalog_once_example :
    All (λ path. contains_mesh path (sync_mesh_catalog acquire paths (0, [])).1 ≡ true) paths
    × (sync_mesh_catalog acquire paths (sync_mesh_catalog acquire paths (0, []))
        ≡ sync_mesh_catalog acquire paths (0, []))
sync_mesh_catalog_once_example = sync_mesh_catalog_once acquire paths (0, [])

-- An engine with a window and a renderer, a press of a button pending and another staged; in the
-- frame the user moves the pointer and closes the window.
abbrev conversions : Conversions ℕ ℕ
conversions = record { zero_float = 0; of_double = λ d. d; of_int = λ i. i }

abbrev button : ℕ → PlatformEvent ℕ
button code = record (event_of 0 pointer_button_pressed) { code = code }

abbrev batch : PlatformEventRecord ℕ
batch = record { events = button 1 ∷ [] }

abbrev engine : Engine ℕ
engine = record {
  running = true;
  platform_events = record { events = button 3 ∷ [] };
  window_server = some batch;
  has_window = true;
  agent_channel = some (record { staged_events = button 2 ∷ []; drain_buffer = [] });
  renderer = some (renderer, []);
  scene = scene;
  mesh_catalog = [];
  extracted_frame = last_frame;
}

abbrev input : StepInput ℕ
input = record {
  callbacks = (7, cursor_position 3 4) ∷ (8, window_close) ∷ [];
  capture_path = some 5;
  framebuffer_size = square 200;
  draw_data = false;
}

abbrev macro_number : String → ℕ
macro_number name = 0

abbrev size_of : ℕ → Option MeshSize
size_of text = some (record { vertices = 3; indices = 3 })

abbrev unchanged : PlatformEventRecord ℕ → Scene ℕ ℕ → Scene ℕ ℕ
unchanged r s = s

abbrev example_step : Drawn (Unit {0}) × Engine ℕ
example_step =
    run_step macro_number conversions floats default_view toy surface length size_of unchanged input
      engine

run_step_gathers_example :
    (example_step.1.platform_events.events
      ≡ batch.events
        ++ (stamped macro_number conversions input.callbacks ++ staged engine.agent_channel))
    × (staged example_step.1.agent_channel ≡ [])
    × (is_some example_step.1.window_server ≡ true)
    × (example_step.1.running
        ≡ engine.running && not (has_event close_requested example_step.1.platform_events))
run_step_gathers_example =
    run_step_gathers macro_number conversions floats default_view toy surface length size_of
      unchanged input engine batch refl

run-IsEnded_example : IsEnded (
    run macro_number conversions floats default_view toy surface length size_of unchanged
      (input ∷ [])
      engine)
run-IsEnded_example =
    run-IsEnded macro_number conversions floats default_view toy surface length size_of unchanged
      (input ∷ []) engine batch refl refl
