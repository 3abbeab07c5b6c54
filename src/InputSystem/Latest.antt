-- ===== src/InputSystem/Latest.antt =====
-- What a frame's events do to the input state of Ecs/InputSystem.
use playground_engine.Base.{
  refl, ◌&&◌, not, ap, ◌∙◌, Bool, true, ◌≡◌, ◌==◌, ◌||◌, List, [], ◌∷◌, if◌then◌else◌, arith,
}
use playground_engine.OrderedMap.{find-insert_or_assign}
use playground_engine.Events.{PlatformEvent, key_pressed, pointer_button_pressed, same_type}
use playground_engine.Events.Codes.{InputCode, is_keyboard_code, is_pointer_code}
use playground_engine.InputSystem.Component.{
  InputStateComponent, update_component, was_released_this_frame, was_pressed_this_frame,
  is_released_state, apply_events, is_pressed, InputState, released, pressed, InputMap, state_of,
  is_pressed_state, apply_event,
}

is_released-not : (s : InputState) → is_released_state s ≡ not (is_pressed_state s)
is_released-not released = refl
is_released-not pressed = refl

module _ {F : Type 0} where
  -- Whether an event of this code is a press: of a key for a keyboard code, of a button for another.
  abbrev pub is_press : InputCode → PlatformEvent F → Bool
  is_press code event =
      if is_keyboard_code code
      then same_type event.type key_pressed
      else same_type event.type pointer_button_pressed

  -- Whether the code is down after the events: as its last event says, or as before.
  abbrev pub down_after : InputCode → List (PlatformEvent F) → Bool → Bool
  down_after code [] down = down
  down_after code (event ∷ events) down =
      down_after code events (if event.code == code then is_press code event else down)

  state_of-apply_event :
      (code : InputCode) (event : PlatformEvent F) (m : InputMap)
      → (is_keyboard_code code || is_pointer_code code) ≡ true
      → is_pressed_state (state_of (apply_event event m) code)
        ≡ (if event.code == code then is_press code event else is_pressed_state (state_of m code))
  unfolding state_of apply_event
  state_of-apply_event code event m h = ground (
    arith,
    find-insert_or_assign event.code code
        (if same_type event.type key_pressed then pressed else released) m,
    find-insert_or_assign event.code code
        (if same_type event.type pointer_button_pressed then pressed else released) m,
  )

  down-apply_events :
      (code : InputCode) (events : List (PlatformEvent F)) (m : InputMap)
      → (is_keyboard_code code || is_pointer_code code) ≡ true
      → is_pressed_state (state_of (apply_events events m) code)
        ≡ down_after code events (is_pressed_state (state_of m code))
  unfolding apply_events
  down-apply_events code [] m h = refl
  down-apply_events code (event ∷ events) m h =
      down-apply_events code events (apply_event event m) h
      ∙ ap (down_after code events) (state_of-apply_event code event m h)

  -- After a frame's events, a keyboard or pointer code is down exactly when its last event of the
  -- frame was a press, or, with no event of it, when it was down before; it counts as pressed this
  -- frame when it is down and was not, and as released this frame when it was down and is not.
  pub update_component_latest :
      (code : InputCode) (events : List (PlatformEvent F)) (c : InputStateComponent)
      → (is_keyboard_code code || is_pointer_code code) ≡ true
      → let before = is_pressed c code in
        let after = down_after code events before in
        (is_pressed (update_component events c) code ≡ after)
        × (was_pressed_this_frame (update_component events c) code ≡ (after && not before))
        × (was_released_this_frame (update_component events c) code ≡ (not after && before))
  unfolding is_pressed was_pressed_this_frame was_released_this_frame update_component
  update_component_latest code events c h =
      let same = down-apply_events code events c.current_input_map h in
      (
        same,
        rw (is_released-not (state_of c.current_input_map code), same) refl,
        rw (is_released-not (state_of (apply_events events c.current_input_map) code), same) refl,
      )
