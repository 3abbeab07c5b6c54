-- ===== src/Events.antt =====
-- The platform events of PlaygroundEngine/src/PlatformEvents: the codes, the event and the record
-- that a frame's events are collected in. A coordinate is a value of an abstract type `F`.
pub mod Codes
pub mod Names
pub mod Types
mod Examples
use playground_engine.Base.{ℕ, Bool, true, false, List, [], ◌++◌, ◌∷◌, ◌==◌, any_of, is_empty}

pub record InputModifiers : Type 0 where
  pub shift : Bool
  pub control : Bool
  pub alt : Bool
  pub super : Bool

pub record InputLockState : Type 0 where
  pub caps_lock : Bool
  pub num_lock : Bool

pub data PlatformEventType : Type 0 where
  key_pressed key_released character_typed : PlatformEventType
  pointer_moved pointer_moved_relative : PlatformEventType
  pointer_button_pressed pointer_button_released pointer_scrolled : PlatformEventType
  focus_gained focus_lost window_resized close_requested : PlatformEventType

-- The underlying value, by which the `==` of an `enum class` compares.
abbrev pub to_underlying : PlatformEventType → ℕ
to_underlying key_pressed = 0
to_underlying key_released = 1
to_underlying character_typed = 2
to_underlying pointer_moved = 3
to_underlying pointer_moved_relative = 4
to_underlying pointer_button_pressed = 5
to_underlying pointer_button_released = 6
to_underlying pointer_scrolled = 7
to_underlying focus_gained = 8
to_underlying focus_lost = 9
to_underlying window_resized = 10
to_underlying close_requested = 11

abbrev pub same_type : PlatformEventType → PlatformEventType → Bool
same_type a b = to_underlying a == to_underlying b

-- `token` is the 32-bit pattern of the backend's scan code, `timestamp` counts nanoseconds.
pub record PlatformEvent (F : Type 0) : Type 0 where
  pub type : PlatformEventType
  pub code : ℕ
  pub modifiers : InputModifiers
  pub locks : InputLockState
  pub repeat : Bool
  pub token : ℕ
  pub codepoint : ℕ
  pub x : F
  pub y : F
  pub timestamp : ℕ

abbrev pub no_modifiers : InputModifiers
no_modifiers = record { shift = false; control = false; alt = false; super = false }

abbrev pub no_locks : InputLockState
no_locks = record { caps_lock = false; num_lock = false }

-- `PlatformEvent{.Type = type}`: every other field at its default.
abbrev pub event_of : {F : Type 0} → F → PlatformEventType → PlatformEvent F
event_of zero_float type = record {
  type = type;
  code = 0;
  modifiers = no_modifiers;
  locks = no_locks;
  repeat = false;
  token = 0;
  codepoint = 0;
  x = zero_float;
  y = zero_float;
  timestamp = 0;
}

pub record PlatformEventRecord (F : Type 0) : Type 0 where
  pub events : List (PlatformEvent F)

module _ {F : Type 0} where
  unfoldable pub clear : PlatformEventRecord F → PlatformEventRecord F
  clear r = record { events = [] }

  unfoldable pub append : PlatformEvent F → PlatformEventRecord F → PlatformEventRecord F
  append event r = record { events = r.events ++ event ∷ [] }

  unfoldable pub append_all : List (PlatformEvent F) → PlatformEventRecord F → PlatformEventRecord F
  append_all batch r = record { events = r.events ++ batch }

  unfoldable pub has_no_event : PlatformEventRecord F → Bool
  has_no_event r = is_empty r.events

  unfoldable pub has_event : PlatformEventType → PlatformEventRecord F → Bool
  has_event type r = any_of (λ event. same_type event.type type) r.events
