-- ===== src/DebugUi/Submit.antt =====
-- DebugUI/DebugUIInputTranslation.cpp: the calls on ImGui's input that the events of a frame make,
-- in order. An ImGui key is its name; `none` stands for the button -1.
use playground_engine.Base.{
  ℕ, String, Bool, true, false, not, Option, none, some, List, [], ◌∷◌, ◌++◌, ◌==◌, if◌then◌else◌,
  Cases, find_case,
}
use text.Mathlib.Text.{◌==◌ as str_eq}
use playground_engine.Events.{
  InputModifiers, PlatformEvent, PlatformEventRecord, key_pressed, key_released, character_typed,
  pointer_moved, pointer_moved_relative, pointer_button_pressed, pointer_button_released,
  pointer_scrolled, focus_gained, focus_lost, window_resized, close_requested, PlatformEventType,
}
use playground_engine.Events.Codes.{InputCode}
use playground_engine.WindowServer.GlfwInput.{code_named}
use playground_engine.DebugUi.KeyCases.{
  letter_keys, digit_keys, symbol_keys, world_keys, navigation_keys, function_keys, numpad_keys,
  modifier_keys,
}

unfoldable pub key_cases : Cases
key_cases =
    letter_keys
    ++ (digit_keys
        ++ (symbol_keys
            ++ (world_keys
                ++ (navigation_keys ++ (function_keys ++ (numpad_keys ++ modifier_keys))))))

abbrev pub no_key : String
no_key = "ImGuiKey_None"

abbrev pub key_or_none : Option String → String
key_or_none none = no_key
key_or_none (some key) = key

unfoldable pub translate_key_code : InputCode → String
translate_key_code code = key_or_none (find_case code_named key_cases code)

-- The codes are `PointerButtonLeft` and the four after it.
unfoldable pub translate_pointer_button : InputCode → Option ℕ
translate_pointer_button code =
    if code == 256
    then some 0
    else if code == 257
    then some 1
    else if code == 258
    then some 2
    else if code == 259
    then some 3
    else if code == 260
    then some 4
    else none

-- A call on `ImGuiIO`.
pub data IoCall (F : Type 0) : Type 0 where
  add_key_event : String → Bool → IoCall F
  add_input_character : ℕ → IoCall F
  add_mouse_pos_event : F → F → IoCall F
  add_mouse_button_event : ℕ → Bool → IoCall F
  add_mouse_wheel_event : F → F → IoCall F
  add_focus_event : Bool → IoCall F

module _ {F : Type 0} where
  unfoldable pub submit_key_modifiers : InputModifiers → List (IoCall F)
  submit_key_modifiers modifiers =
      add_key_event "ImGuiMod_Ctrl" modifiers.control
      ∷ add_key_event "ImGuiMod_Shift" modifiers.shift
      ∷ add_key_event "ImGuiMod_Alt" modifiers.alt
      ∷ add_key_event "ImGuiMod_Super" modifiers.super
      ∷ []

  unfoldable pub submit_key : Bool → PlatformEvent F → List (IoCall F)
  submit_key down event =
      let key = translate_key_code event.code in
      if not (str_eq key no_key)
      then submit_key_modifiers event.modifiers ++ (add_key_event key down ∷ [])
      else []

  unfoldable pub submit_button : Bool → PlatformEvent F → List (IoCall F)
  submit_button down event = elim (translate_pointer_button event.code) [
    | none ↦ []
    | some button ↦
        submit_key_modifiers event.modifiers ++ (add_mouse_button_event button down ∷ [])
  ]

  -- The `switch` on the event's type.
  unfoldable pub submit_event : PlatformEventType → PlatformEvent F → List (IoCall F)
  unfolding submit_key submit_button
  submit_event key_pressed event = submit_key true event
  submit_event key_released event = submit_key false event
  submit_event character_typed event = add_input_character event.codepoint ∷ []
  submit_event pointer_moved event = add_mouse_pos_event event.x event.y ∷ []
  submit_event pointer_button_pressed event = submit_button true event
  submit_event pointer_button_released event = submit_button false event
  submit_event pointer_scrolled event = add_mouse_wheel_event event.x event.y ∷ []
  submit_event focus_gained event = add_focus_event true ∷ []
  submit_event focus_lost event = add_focus_event false ∷ []
  submit_event pointer_moved_relative event = []
  submit_event window_resized event = []
  submit_event close_requested event = []

  unfoldable pub submit_events : List (PlatformEvent F) → List (IoCall F)
  submit_events [] = []
  submit_events (event ∷ events) = submit_event event.type event ++ submit_events events

  unfoldable pub submit_platform_events : PlatformEventRecord F → List (IoCall F)
  unfolding submit_events
  submit_platform_events r = submit_events r.events
