-- ===== src/Engine/Ending.antt =====
-- How the loop of `Engine::Run` of PlaygroundEngine/src/Engine.cpp ends.
use playground_engine.Base.{
  ap, sym, subst, ◌∙◌, ◌≡◌, refl, arith, ℕ, String, Bool, true, false, ◌||◌, Option, none, some,
  is_some, List, [], ◌∷◌, any_of, any_of-append, Text, inl, inr, Bool-cases, Option-cases,
}
use playground_engine.Events.{
  PlatformEvent, PlatformEventRecord, same_type, has_event, event_of, close_requested,
}
use playground_engine.WindowServer.Backend.{
  Conversions, Callback, key_changed, character, cursor_position, pointer_button, scroll,
  window_focus, framebuffer_size, window_close, event_for,
}
use playground_engine.WindowServer.Delivery.{stamped}
use playground_engine.Render.{Scene, FloatOperations, ExtractedView}
use playground_engine.Renderer.Device.{Device}
use playground_engine.Renderer.Step.{Drawn, drawn, stopped, out_of_range}
use playground_engine.Renderer.Drawing.{Surface}
use playground_engine.Renderer.Meshes.{MeshSize}
use playground_engine.Engine.Step.{Engine, StepInput, request_stop, run_step, go_round, rounds, run}
use playground_engine.Engine.Gathering.{run_step_gathers, staged}

abbrev is_close : {D : Type 0} → Callback D → Bool
is_close window_close = true
is_close other = false

-- Whether the poll of a frame finds the window asked to close.
abbrev pub closes : {D : Type 0} → StepInput D → Bool
closes input = any_of (λ c. is_close c.1) input.callbacks

-- The loop is over and the engine stopped, unless an array was read past its end.
abbrev pub IsEnded : {F : Type 0} → Option (Drawn (Unit {0}) × Engine F) → Type 0
IsEnded none = ⊥
IsEnded (some (drawn u, engine)) = engine.running ≡ false
IsEnded (some (stopped e, engine)) = engine.running ≡ false
IsEnded (some (out_of_range, engine)) = Unit {0}

module _ {F D : Type 0} (glfw : String → ℕ) (conversions : Conversions F D) where
  is_close-event_for :
      (callback : Callback D)
      → is_close callback ≡ true
      → event_for glfw conversions callback ≡ some (event_of conversions.zero_float close_requested)
  unfolding event_for
  is_close-event_for window_close e = refl
  is_close-event_for (key_changed k s a m) e = ground (arith, e)
  is_close-event_for (character c) e = ground (arith, e)
  is_close-event_for (cursor_position x y) e = ground (arith, e)
  is_close-event_for (pointer_button b a m) e = ground (arith, e)
  is_close-event_for (scroll x y) e = ground (arith, e)
  is_close-event_for (window_focus f) e = ground (arith, e)
  is_close-event_for (framebuffer_size w h) e = ground (arith, e)

  abbrev asks_close : PlatformEvent F → Bool
  asks_close event = same_type event.type close_requested

  closes-stamped :
      (callbacks : List (ℕ × Callback D))
      → any_of (λ c. is_close c.1) callbacks ≡ true
      → any_of asks_close (stamped glfw conversions callbacks) ≡ true
  closes-stamped [] e = e
  closes-stamped ((now, callback) ∷ rest) e = elim (Bool-cases (is_close callback)) [
    | inl c ↦
        let known = is_close-event_for callback c in
        let first : stamped glfw conversions ((now, callback) ∷ rest)
            ≡ (record (event_of conversions.zero_float close_requested) { timestamp = now })
              ∷ stamped glfw conversions rest =
          rw (known, stamped) in
        ap (any_of asks_close) first
    | inr c ↦
        let later : any_of asks_close (stamped glfw conversions rest) ≡ true =
          closes-stamped rest (ground (arith, e, c)) in
        elim (Option-cases (event_for glfw conversions callback)) [
          | inl n ↦
              let dropped : stamped glfw conversions ((now, callback) ∷ rest)
                  ≡ stamped glfw conversions rest =
                rw (n, stamped) in
              ap (any_of asks_close) dropped ∙ later
          | inr (event, s) ↦
              let kept : stamped glfw conversions ((now, callback) ∷ rest)
                  ≡ (record event { timestamp = now }) ∷ stamped glfw conversions rest =
                rw (s, stamped) in
              ap (any_of asks_close) kept ∙ ground (arith, later)
        ]
  ]

module _ {F D : Type 0} (glfw : String → ℕ) (conversions : Conversions F D)
    (floats : FloatOperations F) (default_view : ExtractedView F ℕ) (device : Device)
    (surface : Surface) (file_of : Text → ℕ) (parse : ℕ → Option MeshSize)
    (simulate : PlatformEventRecord F → Scene F ℕ → Scene F ℕ) where
  abbrev step : StepInput D → Engine F → Drawn (Unit {0}) × Engine F
  step = run_step glfw conversions floats default_view device surface file_of parse simulate

  abbrev loop : List (StepInput D) → Engine F → Option (Drawn (Unit {0}) × Engine F)
  loop = rounds glfw conversions floats default_view device surface file_of parse simulate

  step-close :
      (input : StepInput D) (engine : Engine F) (pending : PlatformEventRecord F)
      → engine.window_server ≡ some pending
      → closes input ≡ true
      → (step input engine).1.running ≡ false
  unfolding has_event
  step-close input engine pending e c =
      let (events, empty, served, ran) =
        run_step_gathers glfw conversions floats default_view device surface file_of parse simulate
          input engine pending e in
      let polled = stamped glfw conversions input.callbacks in
      let asked = closes-stamped glfw conversions input.callbacks c in
      let found : has_event close_requested (step input engine).1.platform_events
          ≡ any_of (asks_close glfw conversions) pending.events
            || (any_of (asks_close glfw conversions) polled
                || any_of (asks_close glfw conversions) (staged engine.agent_channel)) =
        ap (any_of (asks_close glfw conversions)) events
        ∙ (any_of-append (asks_close glfw conversions) pending.events _
            ∙ ap (λ b. any_of (asks_close glfw conversions) pending.events || b)
                (any_of-append (asks_close glfw conversions) polled _)) in
      ground (arith, ran, found, asked)

  rounds-stopped :
      (inputs : List (StepInput D)) (engine : Engine F)
      → engine.running ≡ false
      → IsEnded (loop inputs engine)
  unfolding rounds
  rounds-stopped [] engine e =
      let over : loop [] engine ≡ some (drawn tt, engine) = rw e refl in subst IsEnded (sym over) e
  rounds-stopped (input ∷ inputs) engine e =
      let over : loop (input ∷ inputs) engine ≡ some (drawn tt, engine) = rw e refl in
      subst IsEnded (sym over) e

  go_round-IsEnded :
      (inputs : List (StepInput D)) (s : Drawn (Unit {0}) × Engine F)
      → IsEnded (loop inputs s.1)
      → IsEnded (
          go_round glfw conversions floats default_view device surface file_of parse simulate
            (loop inputs)
            s)
  unfolding request_stop
  go_round-IsEnded inputs (drawn u, engine) e = e
  go_round-IsEnded inputs (stopped k, engine) e = refl
  go_round-IsEnded inputs (out_of_range, engine) e = tt

  rounds-IsEnded :
      (inputs : List (StepInput D)) (engine : Engine F) (pending : PlatformEventRecord F)
      → engine.window_server ≡ some pending
      → any_of closes inputs ≡ true
      → IsEnded (loop inputs engine)
  unfolding rounds
  rounds-IsEnded [] engine pending e c = absurd (ground (arith, c))
  rounds-IsEnded (input ∷ inputs) engine pending e c = elim (Bool-cases engine.running) [
    | inr over ↦ rounds-stopped (input ∷ inputs) engine over
    | inl runs ↦
        let (events, empty, served, ran) =
          run_step_gathers glfw conversions floats default_view device surface file_of parse
            simulate input engine pending e in
        let after = (step input engine).1 in
        let next : loop (input ∷ inputs) engine
            ≡ go_round glfw conversions floats default_view device surface file_of parse simulate
                (loop inputs) (step input engine) =
          rw runs refl in
        let rest : IsEnded (loop inputs after) = elim (Bool-cases (closes input)) [
          | inl now ↦ rounds-stopped inputs after (step-close input engine pending e now)
          | inr later ↦ elim (Option-cases after.window_server) [
            | inl lost ↦ absurd (ground (arith, sym served ∙ ap is_some lost))
            | inr (left, s) ↦ rounds-IsEnded inputs after left s (ground (arith, c, later))
          ]
        ] in
        subst IsEnded (sym next) (go_round-IsEnded inputs (step input engine) rest)
  ]

  -- With a window server behind it the loop ends, with the engine stopped, no later than in the
  -- first frame whose poll finds the window asked to close, whatever the application, the device
  -- and the other events do and whatever the engine held; the only other end is a read past the
  -- end of an array while drawing.
  pub run-IsEnded :
      (inputs : List (StepInput D)) (engine : Engine F) (pending : PlatformEventRecord F)
      → engine.window_server ≡ some pending
      → any_of closes inputs ≡ true
      → IsEnded (
          run glfw conversions floats default_view device surface file_of parse simulate inputs
            engine)
  unfolding run
  run-IsEnded inputs engine pending e c =
      rounds-IsEnded inputs (record engine { running = true }) pending e c
