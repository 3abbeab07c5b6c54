-- ===== src/AgentChannel/Vocabulary.antt =====
-- What `ParseCommand` of AgentChannel.cpp accepts.
use playground_engine.Base.{
  ◌==◌, not, ◌≡◌, Bool, true, false, ◌||◌, Option, none, some, List, [], ◌∷◌, Text, arith,
}
use playground_engine.Events.{
  PlatformEventType, PlatformEvent, same_type, key_pressed, key_released, character_typed,
  pointer_moved, pointer_moved_relative, pointer_button_pressed, pointer_button_released,
  pointer_scrolled, focus_gained, focus_lost, window_resized, close_requested,
}
use playground_engine.Events.Codes.{is_keyboard_code, is_pointer_code}
use playground_engine.Events.Types.{event_type_from_name}
use playground_engine.AgentChannel.Tokens.{tokenize, FloatText}
use playground_engine.AgentChannel.Commands.{
  parse_tokens, verb_event, expected, parse_event, parse_command,
}

abbrev pub is_key : PlatformEventType → Bool
is_key type = same_type type key_pressed || same_type type key_released

abbrev pub is_button : PlatformEventType → Bool
is_button type = same_type type pointer_button_pressed || same_type type pointer_button_released

-- What every consumer of the record may rely on of an injected event.
pub record IsInjectable {F : Type 0} (event : PlatformEvent F) : Type 0 where
  pub key_code : (not (is_key event.type) || is_keyboard_code event.code) ≡ true
  pub button_code : (not (is_button event.type) || is_pointer_code event.code) ≡ true
  pub no_other_code : (is_key event.type || (is_button event.type || event.code == 0)) ≡ true
  pub repeat_pressed : (not event.repeat || same_type event.type key_pressed) ≡ true
  pub no_resize : same_type event.type window_resized ≡ false
  pub unstamped : event.timestamp ≡ 0

parse_event-IsInjectable :
    {F : Type 0} (floats : FloatText F) (type : PlatformEventType) (arguments : List Text)
    (event : PlatformEvent F)
    → parse_event floats type arguments ≡ expected event
    → IsInjectable event
unfolding parse_event
parse_event-IsInjectable floats window_resized arguments event h = cc
parse_event-IsInjectable floats focus_gained [] event h = ground arith
parse_event-IsInjectable floats focus_lost [] event h = ground arith
parse_event-IsInjectable floats close_requested [] event h = ground arith
parse_event-IsInjectable floats character_typed (a ∷ []) event h = ground arith
parse_event-IsInjectable floats pointer_button_pressed (a ∷ []) event h = ground arith
parse_event-IsInjectable floats pointer_button_released (a ∷ []) event h = ground arith
parse_event-IsInjectable floats key_pressed (a ∷ []) event h = ground arith
parse_event-IsInjectable floats key_pressed (a ∷ b ∷ []) event h = ground arith
parse_event-IsInjectable floats key_released (a ∷ []) event h = ground arith
parse_event-IsInjectable floats key_released (a ∷ b ∷ []) event h = ground arith
parse_event-IsInjectable floats pointer_moved (a ∷ b ∷ []) event h = ground arith
parse_event-IsInjectable floats pointer_moved_relative (a ∷ b ∷ []) event h = ground arith
parse_event-IsInjectable floats pointer_scrolled (a ∷ b ∷ []) event h = ground arith
parse_event-IsInjectable floats _ _ event h = cc

verb_event-IsInjectable :
    {F : Type 0} (floats : FloatText F) (type : Option PlatformEventType) (arguments : List Text)
    (event : PlatformEvent F)
    → verb_event floats type arguments ≡ expected event
    → IsInjectable event
unfolding verb_event
verb_event-IsInjectable floats none arguments event h = cc
verb_event-IsInjectable floats (some type) arguments event h =
    parse_event-IsInjectable floats type arguments event h

parse_tokens-IsInjectable :
    {F : Type 0} (floats : FloatText F) (tokens : List Text) (event : PlatformEvent F)
    → parse_tokens floats tokens ≡ expected event
    → IsInjectable event
unfolding parse_tokens
parse_tokens-IsInjectable floats [] event h = cc
parse_tokens-IsInjectable floats (verb ∷ arguments) event h =
    verb_event-IsInjectable floats (event_type_from_name verb) arguments event h

-- Whatever line a client sends, an event that it parses to is one that the frame loop may take: a
-- key event has a keyboard code, a button event a pointer code and any other event no code, only a
-- key press repeats, no resize is injected, and the timestamp is left for the caller.
pub parse_command-IsInjectable :
    {F : Type 0} (floats : FloatText F) (line : Text) (event : PlatformEvent F)
    → parse_command floats line ≡ expected event
    → IsInjectable event
unfolding parse_command
parse_command-IsInjectable floats line event h =
    parse_tokens-IsInjectable floats (tokenize line) event h
