-- ===== src/AgentChannel/Commands.antt =====
-- `ParseEvent` and `ParseCommand` of AgentChannel.cpp.
use playground_engine.Base.{
  true, false, not, ◌||◌, Option, none, some, List, [], ◌∷◌, if◌then◌else◌, Text, codes, text_eq,
}
use playground_engine.Reflection.Enumeration.{enum_from_name}
use playground_engine.Events.{
  PlatformEventType, PlatformEvent, event_of, same_type, key_pressed, key_released, character_typed,
  pointer_moved, pointer_moved_relative, pointer_button_pressed, pointer_button_released,
  pointer_scrolled, focus_gained, focus_lost, window_resized, close_requested,
}
use playground_engine.Events.Codes.{InputCode, input_codes, is_keyboard_code, is_pointer_code}
use playground_engine.Events.Types.{event_type_from_name}
use playground_engine.AgentChannel.Tokens.{tokenize, parse_unsigned, FloatText, parse_float}

pub data AgentCommandError : Type 0 where
  unknown_command bad_argument_count bad_argument : AgentCommandError

pub data Parsed (A : Type 0) : Type 0 where
  expected : A → Parsed A
  unexpected : AgentCommandError → Parsed A

-- `EnumFromName<InputCode>`.
unfoldable pub code_from_name : Text → Option InputCode
unfolding enum_from_name input_codes
code_from_name name = enum_from_name input_codes name

module _ {F : Type 0} (floats : FloatText F) where
  abbrev plain : PlatformEventType → PlatformEvent F
  plain type = event_of floats.zero_float type

  both_floats : PlatformEventType → Option F → Option F → Parsed (PlatformEvent F)
  both_floats type (some x) (some y) = expected (record (plain type) { x = x; y = y })
  both_floats type _ _ = unexpected bad_argument

  parse_pointer : PlatformEventType → List Text → Parsed (PlatformEvent F)
  unfolding both_floats
  parse_pointer type (x ∷ y ∷ []) = both_floats type (parse_float floats x) (parse_float floats y)
  parse_pointer type _ = unexpected bad_argument_count

  -- The key event of a keyboard code; the second argument may only be `repeat`, on a press.
  key_event : PlatformEventType → Option InputCode → List Text → Parsed (PlatformEvent F)
  key_event type none rest = unexpected bad_argument
  key_event type (some code) [] =
      if is_keyboard_code code
      then expected (record (plain type) { code = code; repeat = false })
      else unexpected bad_argument
  key_event type (some code) (flag ∷ rest) =
      if not (is_keyboard_code code)
      then unexpected bad_argument
      else if not (same_type type key_pressed) || not (text_eq flag (codes "repeat"))
      then unexpected bad_argument
      else expected (record (plain type) { code = code; repeat = true })

  parse_key : PlatformEventType → List Text → Parsed (PlatformEvent F)
  unfolding key_event
  parse_key type (name ∷ []) = key_event type (code_from_name name) []
  parse_key type (name ∷ flag ∷ []) = key_event type (code_from_name name) (flag ∷ [])
  parse_key type _ = unexpected bad_argument_count

  button_event : PlatformEventType → Option InputCode → Parsed (PlatformEvent F)
  button_event type none = unexpected bad_argument
  button_event type (some code) =
      if is_pointer_code code
      then expected (record (plain type) { code = code })
      else unexpected bad_argument

  parse_button : PlatformEventType → List Text → Parsed (PlatformEvent F)
  unfolding button_event
  parse_button type (name ∷ []) = button_event type (code_from_name name)
  parse_button type _ = unexpected bad_argument_count

  parse_character : PlatformEventType → List Text → Parsed (PlatformEvent F)
  parse_character type (text ∷ []) = elim (parse_unsigned text) [
    | none ↦ unexpected bad_argument
    | some codepoint ↦ expected (record (plain type) { codepoint = codepoint })
  ]
  parse_character type _ = unexpected bad_argument_count

  parse_bare : PlatformEventType → List Text → Parsed (PlatformEvent F)
  parse_bare type [] = expected (plain type)
  parse_bare type _ = unexpected bad_argument_count

  -- The `switch` of `ParseEvent`.
  unfoldable pub parse_event : PlatformEventType → List Text → Parsed (PlatformEvent F)
  unfolding parse_pointer parse_key parse_button parse_character parse_bare
  parse_event pointer_moved arguments = parse_pointer pointer_moved arguments
  parse_event pointer_moved_relative arguments = parse_pointer pointer_moved_relative arguments
  parse_event pointer_scrolled arguments = parse_pointer pointer_scrolled arguments
  parse_event key_pressed arguments = parse_key key_pressed arguments
  parse_event key_released arguments = parse_key key_released arguments
  parse_event pointer_button_pressed arguments = parse_button pointer_button_pressed arguments
  parse_event pointer_button_released arguments = parse_button pointer_button_released arguments
  parse_event character_typed arguments = parse_character character_typed arguments
  parse_event focus_gained arguments = parse_bare focus_gained arguments
  parse_event focus_lost arguments = parse_bare focus_lost arguments
  parse_event close_requested arguments = parse_bare close_requested arguments
  parse_event window_resized arguments = unexpected unknown_command

  unfoldable pub verb_event : Option PlatformEventType → List Text → Parsed (PlatformEvent F)
  verb_event none arguments = unexpected unknown_command
  verb_event (some type) arguments = parse_event type arguments

  unfoldable pub parse_tokens : List Text → Parsed (PlatformEvent F)
  unfolding verb_event
  parse_tokens [] = unexpected unknown_command
  parse_tokens (verb ∷ arguments) = verb_event (event_type_from_name verb) arguments

  unfoldable pub parse_command : Text → Parsed (PlatformEvent F)
  unfolding parse_tokens
  parse_command line = parse_tokens (tokenize line)
