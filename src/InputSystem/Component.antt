-- ===== src/InputSystem/Component.antt =====
-- Ecs/InputSystem/InputStateComponent.cppm, and the loop of InputSystem.cpp that updates the map.
-- The `unordered_map` is never iterated over, so an ordered map stands for it.
use playground_engine.Base.{Bool, true, false, ◌&&◌, none, some, List, [], ◌∷◌, if◌then◌else◌}
use playground_engine.OrderedMap.{OrderedMap, find, insert_or_assign}
use playground_engine.Events.{PlatformEvent, key_pressed, pointer_button_pressed, same_type}
use playground_engine.Events.Codes.{InputCode, is_keyboard_code, is_pointer_code}

pub data InputState : Type 0 where
  released pressed : InputState

abbrev pub is_pressed_state : InputState → Bool
is_pressed_state released = false
is_pressed_state pressed = true

abbrev pub is_released_state : InputState → Bool
is_released_state released = true
is_released_state pressed = false

abbrev pub InputMap : Type 0
InputMap = OrderedMap InputState

pub record InputStateComponent : Type 0 where
  pub current_input_map : InputMap
  pub previous_input_map : InputMap

abbrev pub fresh_component : InputStateComponent
fresh_component = record { current_input_map = []; previous_input_map = [] }

unfoldable pub state_of : InputMap → InputCode → InputState
state_of input_map code = elim (find code input_map) [ none ↦ released | some state ↦ state ]

unfoldable pub is_pressed : InputStateComponent → InputCode → Bool
is_pressed c code = is_pressed_state (state_of c.current_input_map code)

unfoldable pub was_pressed_this_frame : InputStateComponent → InputCode → Bool
was_pressed_this_frame c code =
    is_pressed_state (state_of c.current_input_map code)
    && is_released_state (state_of c.previous_input_map code)

unfoldable pub was_released_this_frame : InputStateComponent → InputCode → Bool
was_released_this_frame c code =
    is_released_state (state_of c.current_input_map code)
    && is_pressed_state (state_of c.previous_input_map code)

-- One pass of the loop of `InputSystem::Step`.
unfoldable pub apply_event : {F : Type 0} → PlatformEvent F → InputMap → InputMap
apply_event event m =
    if is_keyboard_code event.code
    then insert_or_assign event.code
        (if same_type event.type key_pressed then pressed else released) m
    else if is_pointer_code event.code
    then insert_or_assign event.code
        (if same_type event.type pointer_button_pressed then pressed else released) m
    else m

unfoldable pub apply_events : {F : Type 0} → List (PlatformEvent F) → InputMap → InputMap
apply_events [] m = m
apply_events (event ∷ events) m = apply_events events (apply_event event m)

-- `PreviousInputMap = CurrentInputMap`, then the loop.
unfoldable pub update_component :
    {F : Type 0} → List (PlatformEvent F) → InputStateComponent → InputStateComponent
update_component events c = record {
  current_input_map = apply_events events c.current_input_map;
  previous_input_map = c.current_input_map;
}
