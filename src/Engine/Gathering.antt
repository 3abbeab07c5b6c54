-- ===== src/Engine/Gathering.antt =====
-- What `Engine::RunStep` of PlaygroundEngine/src/Engine.cpp gathers for a frame.
use playground_engine.Base.{
  ap, sym, ◌∙◌, ◌≡◌, refl, arith, ℕ, String, Bool, true, false, not, ◌&&◌, Option, none, some,
  is_some, List, [], ◌++◌, Text, inl, inr, Bool-cases,
}
use mathlib.Core.List.{append_assoc, append-nil}
use playground_engine.Events.{
  PlatformEvent, PlatformEventRecord, has_event, clear, append_all, close_requested,
}
use playground_engine.WindowServer.Backend.{Conversions, Callback, pump}
use playground_engine.WindowServer.Delivery.{stamped, pump_delivers}
use playground_engine.AgentChannel.Channel.{AgentChannel, host_drain_into, drain_into}
use playground_engine.Render.{Scene, FloatOperations, ExtractedView}
use playground_engine.Renderer.Device.{Device}
use playground_engine.Renderer.Step.{Drawn, drawn, stopped, out_of_range, Running}
use playground_engine.Renderer.Drawing.{Surface}
use playground_engine.Renderer.Meshes.{MeshSize}
use playground_engine.Engine.Step.{
  Engine, StepInput, pump_window_server, gather_events, heed_events, request_stop, draw,
  draw_if_presented, conclude_step, run_step,
}

module _ {F : Type 0} where
  -- What the channel holds for the next frame.
  abbrev pub staged : Option (AgentChannel F) → List (PlatformEvent F)
  staged none = []
  staged (some channel) = channel.staged_events

  host_drain_into-staged :
      (r : PlatformEventRecord F) (channel : Option (AgentChannel F))
      → ((host_drain_into r channel).1.events ≡ r.events ++ staged channel)
        × (staged (host_drain_into r channel).0 ≡ [])
  unfolding host_drain_into drain_into append_all
  host_drain_into-staged r none = (sym (append-nil r.events), refl)
  host_drain_into-staged r (some channel) = (refl, refl)

  -- What heeding the events, the simulation and the drawing leave of an engine.
  abbrev Kept : Engine F → Engine F → Type 0
  Kept before after =
      (after.platform_events ≡ before.platform_events)
      × (after.window_server ≡ before.window_server)
      × (after.agent_channel ≡ before.agent_channel)

  heed_events-Kept :
      (path : Option ℕ) (engine : Engine F)
      → Kept engine (heed_events path engine)
        × ((heed_events path engine).running
            ≡ engine.running && not (has_event close_requested engine.platform_events))
  unfolding heed_events request_stop
  heed_events-Kept path engine =
      elim (Bool-cases (has_event close_requested engine.platform_events)) [
        | inl e ↦ rw e ((refl, refl, refl), ground arith)
        | inr e ↦ rw e ((refl, refl, refl), ground arith)
      ]

module _ {F D : Type 0} (glfw : String → ℕ) (conversions : Conversions F D) where
  gather_events-gathered :
      (callbacks : List (ℕ × Callback D)) (engine : Engine F) (pending : PlatformEventRecord F)
      → engine.window_server ≡ some pending
      → ((gather_events glfw conversions callbacks engine).platform_events.events
          ≡ pending.events ++ (stamped glfw conversions callbacks ++ staged engine.agent_channel))
        × (staged (gather_events glfw conversions callbacks engine).agent_channel ≡ [])
        × (is_some (gather_events glfw conversions callbacks engine).window_server ≡ true)
  unfolding gather_events pump_window_server clear
  gather_events-gathered callbacks engine pending e =
      let pumped = pump glfw conversions true callbacks pending (clear engine.platform_events) in
      let drained = host_drain_into-staged pumped.0 engine.agent_channel in
      rw e (
        drained.0
            ∙ (ap (λ es. es ++ staged engine.agent_channel)
                  (pump_delivers glfw conversions callbacks pending
                    (clear engine.platform_events)).0
                ∙ append_assoc pending.events _ _),
        drained.1,
        refl,
      )

module _ {F D : Type 0} (glfw : String → ℕ) (conversions : Conversions F D)
    (floats : FloatOperations F) (default_view : ExtractedView F ℕ) (device : Device)
    (surface : Surface) (file_of : Text → ℕ) (parse : ℕ → Option MeshSize)
    (simulate : PlatformEventRecord F → Scene F ℕ → Scene F ℕ) where
  abbrev step : StepInput D → Engine F → Drawn (Unit {0}) × Engine F
  step = run_step glfw conversions floats default_view device surface file_of parse simulate

  abbrev presented : StepInput D → Option Running → Bool → Engine F → Drawn (Unit {0}) × Engine F
  presented =
      draw_if_presented glfw conversions floats default_view device surface file_of parse simulate

  draw_if_presented-Kept :
      (input : StepInput D) (renderer : Option Running) (has_window : Bool) (engine : Engine F)
      → Kept engine (presented input renderer has_window engine).1
        × ((presented input renderer has_window engine).1.running ≡ engine.running)
  unfolding draw_if_presented draw
  draw_if_presented-Kept input none has_window engine = ((refl, refl, refl), refl)
  draw_if_presented-Kept input (some s) false engine = ((refl, refl, refl), refl)
  draw_if_presented-Kept input (some s) true engine = ((refl, refl, refl), refl)

  conclude_step-windowed :
      (s : Drawn (Unit {0}) × Engine F)
      → is_some s.1.window_server ≡ true
      → (conclude_step glfw conversions floats default_view device surface file_of parse simulate s)
        ≡ s
  unfolding conclude_step
  conclude_step-windowed (drawn u, engine) e = rw e refl
  conclude_step-windowed (stopped k, engine) e = refl
  conclude_step-windowed (out_of_range, engine) e = refl

  abbrev simulated : StepInput D → Engine F → Engine F
  simulated input engine =
      let heeded =
        heed_events input.capture_path (gather_events glfw conversions input.callbacks engine) in
      record heeded { scene = simulate heeded.platform_events heeded.scene }

  abbrev gathered : StepInput D → Engine F → Engine F
  gathered input engine = gather_events glfw conversions input.callbacks engine

  -- After the events are gathered a step only heeds them.
  run_step-Kept :
      (input : StepInput D) (engine : Engine F)
      → is_some (gathered input engine).window_server ≡ true
      → Kept (gathered input engine) (step input engine).1
        × ((step input engine).1.running
            ≡ (gathered input engine).running
              && not (has_event close_requested (gathered input engine).platform_events))
  unfolding run_step
  run_step-Kept input engine e =
      let g = gathered input engine in
      let sim = simulated input engine in
      let shown = presented input sim.renderer sim.has_window sim in
      let (kept, ran) = draw_if_presented-Kept input sim.renderer sim.has_window sim in
      let (heeded, asked) = heed_events-Kept input.capture_path g in
      let served : shown.1.window_server ≡ g.window_server = kept.1 ∙ heeded.1 in
      let concluded : step input engine ≡ shown =
        conclude_step-windowed shown (ap is_some served ∙ e) in
      (
        (
          ap (λ s. s.1.platform_events) concluded ∙ (kept.0 ∙ heeded.0),
          ap (λ s. s.1.window_server) concluded ∙ served,
          ap (λ s. s.1.agent_channel) concluded ∙ (kept.2 ∙ heeded.2),
        ),
        ap (λ s. s.1.running) concluded ∙ (ran ∙ asked),
      )

  -- With a window server behind it a step gives the frame what was pending, then the events of the
  -- callbacks of the poll, and then what the channel had staged, each once and in this order, and
  -- leaves nothing staged; nothing of an earlier frame's record stays. It keeps the window server,
  -- and whatever the drawing comes to, the step leaves the flag that the engine is running set
  -- exactly if it was set and the frame holds no request to close.
  pub run_step_gathers :
      (input : StepInput D) (engine : Engine F) (pending : PlatformEventRecord F)
      → engine.window_server ≡ some pending
      → ((step input engine).1.platform_events.events
          ≡ pending.events
            ++ (stamped glfw conversions input.callbacks ++ staged engine.agent_channel))
        × (staged (step input engine).1.agent_channel ≡ [])
        × (is_some (step input engine).1.window_server ≡ true)
        × ((step input engine).1.running
            ≡ engine.running
              && not (has_event close_requested (step input engine).1.platform_events))
  unfolding gather_events
  run_step_gathers input engine pending e =
      let (events, empty, served) =
        gather_events-gathered glfw conversions input.callbacks engine pending e in
      let ((same_events, same_server, same_channel), ran) = run_step-Kept input engine served in
      (
        ap (λ r. r.events) same_events ∙ events,
        ap staged same_channel ∙ empty,
        ap is_some same_server ∙ served,
        ran ∙ ap (λ r. engine.running && not (has_event close_requested r)) (sym same_events),
      )
