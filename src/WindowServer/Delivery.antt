-- ===== src/WindowServer/Delivery.antt =====
-- What the pump of WindowServer/Backend/WindowServerBackend.GLFW.cpp delivers.
use playground_engine.Base.{
  ap, ◌∙◌, sym, ℕ, String, true, ◌≡◌, refl, none, some, List, [], ◌∷◌, ◌++◌, inl, inr, Option-cases,
}
use mathlib.Core.List.{append_assoc, append-nil}
use playground_engine.Events.{PlatformEvent, PlatformEventRecord, append, append_all, clear}
use playground_engine.WindowServer.Backend.{
  Conversions, Callback, event_for, append_event, dispatch, poll_events, pump,
}

module _ {F D : Type 0} (glfw : String → ℕ) (floats : Conversions F D) where
  -- The events of the callbacks that have one, each stamped with its own reading of the clock.
  abbrev pub stamped : List (ℕ × Callback D) → List (PlatformEvent F)
  stamped [] = []
  stamped ((now, callback) ∷ rest) = elim (event_for glfw floats callback) [
    | none ↦ stamped rest
    | some event ↦ (record event { timestamp = now }) ∷ stamped rest
  ]

  poll_events-stamped :
      (callbacks : List (ℕ × Callback D)) (pending : PlatformEventRecord F)
      → (poll_events glfw floats true callbacks pending).events
        ≡ pending.events ++ stamped callbacks
  unfolding poll_events dispatch append_event append
  poll_events-stamped [] pending = sym (append-nil pending.events)
  poll_events-stamped ((now, callback) ∷ rest) pending =
      elim (Option-cases (event_for glfw floats callback)) [
        | inl e ↦
            let dropped : dispatch glfw floats true now callback pending ≡ pending =
              rw (e, dispatch) in
            let none_stamped : stamped ((now, callback) ∷ rest) ≡ stamped rest = rw (e, stamped) in
            ap (λ p. (poll_events glfw floats true rest p).events) dropped
            ∙ (poll_events-stamped rest pending
                ∙ ap (λ es. pending.events ++ es) (sym none_stamped))
        | inr (event, e) ↦
            let late : PlatformEvent F = record event { timestamp = now } in
            let kept : dispatch glfw floats true now callback pending ≡ append late pending =
              rw (e, dispatch) in
            let one_stamped : stamped ((now, callback) ∷ rest) ≡ late ∷ stamped rest =
              rw (e, stamped) in
            ap (λ p. (poll_events glfw floats true rest p).events) kept
            ∙ (poll_events-stamped rest (append late pending)
                ∙ (append_assoc pending.events (late ∷ []) (stamped rest)
                    ∙ ap (λ es. pending.events ++ es) (sym one_stamped)))
      ]

  -- With a backend behind the window, a pump hands over what was pending and then the event of each
  -- callback of the poll, in their order and each exactly once, after what the record already
  -- held, and leaves nothing pending.
  pub pump_delivers :
      (callbacks : List (ℕ × Callback D)) (pending r : PlatformEventRecord F)
      → ((pump glfw floats true callbacks pending r).0.events
          ≡ r.events ++ (pending.events ++ stamped callbacks))
        × ((pump glfw floats true callbacks pending r).1.events ≡ [])
  unfolding pump append_all clear
  pump_delivers callbacks pending r = (rw (poll_events-stamped callbacks pending), refl)
