-- ===== src/Engine/Step.antt =====
-- One step of the engine and its loop: `Engine::RunStep` and `Engine::Run` of
-- PlaygroundEngine/src/Engine.cpp and `FrameCapture::ServiceRequests` of FrameCapture.cpp. The
-- application and its systems are a function on the scene; the calls of the overlay, of the log and
-- of the cursor are left out.
use playground_engine.Base.{
  ℕ, String, Bool, true, false, not, ◌&&◌, ◌==◌, Option, none, some, is_some, List, [], ◌∷◌, Text,
  map, any_of, if◌then◌else◌,
}
use playground_engine.Events.{
  PlatformEvent, PlatformEventRecord, same_type, has_event, clear, key_pressed, window_resized,
  close_requested,
}
use playground_engine.Events.Codes.{InputCode}
use playground_engine.WindowServer.GlfwInput.{code_named}
use playground_engine.WindowServer.Backend.{Conversions, Callback, pump}
use playground_engine.AgentChannel.Channel.{AgentChannel, host_drain_into}
use playground_engine.Ecs.{get_components}
use playground_engine.Render.{
  Scene, FloatOperations, ExtractedView, ExtractedFrame, MeshCatalog, extract_frame,
}
use playground_engine.Renderer.Device.{Device, Call, Extent}
use playground_engine.Renderer.Result.{Outcome, ok, failed}
use playground_engine.Renderer.State.{RendererVulkan}
use playground_engine.Renderer.Step.{Drawn, drawn, stopped, out_of_range, Running}
use playground_engine.Renderer.Capture.{request_capture, notify_framebuffer_resized}
use playground_engine.Renderer.Drawing.{Surface}
use playground_engine.Renderer.Frames.{draw_frame}
use playground_engine.Renderer.Meshes.{MeshSize, acquire_mesh}
use playground_engine.Engine.{sync_mesh_catalog}

unfoldable pub capture_key : InputCode
unfolding code_named
capture_key = code_named "KeyF12"

-- What a frame finds outside: the callbacks of the poll, the path that `GenerateCapturePath` makes
-- where it can, the size of the framebuffer, and whether the overlay has draw data.
pub record StepInput (D : Type 0) : Type 0 where
  pub callbacks : List (ℕ × Callback D)
  pub capture_path : Option ℕ
  pub framebuffer_size : Extent
  pub draw_data : Bool

-- A window server is the batch pending in its backend, a renderer stands with the calls it made.
pub record Engine (F : Type 0) : Type 0 where
  pub running : Bool
  pub platform_events : PlatformEventRecord F
  pub window_server : Option (PlatformEventRecord F)
  pub has_window : Bool
  pub agent_channel : Option (AgentChannel F)
  pub renderer : Option Running
  pub scene : Scene F ℕ
  pub mesh_catalog : MeshCatalog
  pub extracted_frame : ExtractedFrame F ℕ

abbrev pub is_capture_request : {F : Type 0} → PlatformEvent F → Bool
is_capture_request event =
    same_type event.type key_pressed && (event.code == capture_key && not event.repeat)

unfoldable pub service_requests :
    {F : Type 0} → Option ℕ → PlatformEventRecord F → RendererVulkan → RendererVulkan
service_requests path r renderer =
    if not (any_of is_capture_request r.events)
    then renderer
    else elim path [ none ↦ renderer | some p ↦ request_capture p renderer ]

-- What the renderer is told of the events.
unfoldable pub inform :
    {F : Type 0} → Option ℕ → PlatformEventRecord F → RendererVulkan → RendererVulkan
unfolding service_requests
inform path r renderer =
    service_requests path r
      (if has_event window_resized r then notify_framebuffer_resized renderer else renderer)

abbrev pub inform_running :
    {F : Type 0} → Option ℕ → PlatformEventRecord F → Option Running → Option Running
inform_running path r none = none
inform_running path r (some s) = some (inform path r s.0, s.1)

unfoldable pub request_stop : {F : Type 0} → Engine F → Engine F
request_stop engine = record engine { running = false }

module _ {F D : Type 0} (glfw : String → ℕ) (conversions : Conversions F D) where
  unfoldable pub pump_window_server :
      List (ℕ × Callback D)
      → Option (PlatformEventRecord F)
      → PlatformEventRecord F
      → PlatformEventRecord F × Option (PlatformEventRecord F)
  pump_window_server callbacks none r = (r, none)
  pump_window_server callbacks (some pending) r =
      let (pumped, left) = pump glfw conversions true callbacks pending r in (pumped, some left)

  -- The record of the frame: cleared, pumped, and then with what the channel staged.
  unfoldable pub gather_events : List (ℕ × Callback D) → Engine F → Engine F
  unfolding pump_window_server
  gather_events callbacks engine =
      let (pumped, window_server) =
        pump_window_server callbacks engine.window_server (clear engine.platform_events) in
      let (channel, events) = host_drain_into pumped engine.agent_channel in
      record engine {
        platform_events = events;
        window_server = window_server;
        agent_channel = channel;
      }

-- What the events ask of the renderer and of the loop.
unfoldable pub heed_events : {F : Type 0} → Option ℕ → Engine F → Engine F
unfolding request_stop
heed_events path engine =
    let informed : Engine _ = record engine {
      renderer = inform_running path engine.platform_events engine.renderer;
    } in
    if has_event close_requested engine.platform_events then request_stop informed else informed

module _ {F D : Type 0} (glfw : String → ℕ) (conversions : Conversions F D)
    (floats : FloatOperations F) (default_view : ExtractedView F ℕ) (device : Device)
    (surface : Surface) (file_of : Text → ℕ) (parse : ℕ → Option MeshSize)
    (simulate : PlatformEventRecord F → Scene F ℕ → Scene F ℕ) where
  abbrev pub loaded : Outcome (RendererVulkan × ℕ) × List Call → RendererVulkan → Option ℕ × Running
  loaded (ok (renderer, handle), calls) before = (some handle, (renderer, calls))
  loaded (failed e, calls) before = (none, (before, calls))

  abbrev pub acquire : Text → Running → Option ℕ × Running
  acquire path (renderer, calls) =
      loaded (acquire_mesh device parse renderer (file_of path) calls) renderer

  -- The catalog, the extracted frame and the drawing.
  unfoldable pub draw : StepInput D → Running → Engine F → Drawn (Unit {0}) × Engine F
  draw input s engine =
      let paths =
        map engine.scene.mesh_paths (get_components engine.scene.ecs engine.scene.mesh_type) in
      let (synced, catalog) = sync_mesh_catalog acquire paths (s, engine.mesh_catalog) in
      let frame = extract_frame floats default_view engine.scene catalog engine.extracted_frame in
      let (result, after) =
        draw_frame device surface frame.meshes input.framebuffer_size input.draw_data synced in
      (
        result,
        record engine { renderer = some after; mesh_catalog = catalog; extracted_frame = frame },
      )

  unfoldable pub draw_if_presented :
      StepInput D → Option Running → Bool → Engine F → Drawn (Unit {0}) × Engine F
  unfolding draw
  draw_if_presented input none has_window engine = (drawn tt, engine)
  draw_if_presented input (some s) false engine = (drawn tt, engine)
  draw_if_presented input (some s) true engine = draw input s engine

  -- Without a window server one frame is run.
  unfoldable pub conclude_step : Drawn (Unit {0}) × Engine F → Drawn (Unit {0}) × Engine F
  unfolding request_stop
  conclude_step (drawn u, engine) =
      (drawn u, if is_some engine.window_server then engine else request_stop engine)
  conclude_step (stopped e, engine) = (stopped e, engine)
  conclude_step (out_of_range, engine) = (out_of_range, engine)

  unfoldable pub run_step : StepInput D → Engine F → Drawn (Unit {0}) × Engine F
  unfolding gather_events heed_events draw_if_presented conclude_step
  run_step input engine =
      let heeded =
        heed_events input.capture_path (gather_events glfw conversions input.callbacks engine) in
      let simulated : Engine F = record heeded {
        scene = simulate heeded.platform_events heeded.scene;
      } in
      conclude_step (draw_if_presented input simulated.renderer simulated.has_window simulated)

  -- The loop of `Run` over the frames to come; none where it still runs after them. An error of a
  -- step asks it to stop.
  abbrev pub go_round :
      (Engine F → Option (Drawn (Unit {0}) × Engine F))
      → Drawn (Unit {0}) × Engine F
      → Option (Drawn (Unit {0}) × Engine F)
  go_round rounds (drawn u, engine) = rounds engine
  go_round rounds (stopped e, engine) = some (stopped e, request_stop engine)
  go_round rounds (out_of_range, engine) = some (out_of_range, engine)

  unfoldable pub rounds : List (StepInput D) → Engine F → Option (Drawn (Unit {0}) × Engine F)
  unfolding run_step
  rounds [] engine = if engine.running then none else some (drawn tt, engine)
  rounds (input ∷ inputs) engine =
      if not engine.running
      then some (drawn tt, engine)
      else go_round (rounds inputs) (run_step input engine)

  unfoldable pub run : List (StepInput D) → Engine F → Option (Drawn (Unit {0}) × Engine F)
  unfolding rounds
  run inputs engine = rounds inputs (record engine { running = true })
