-- ===== src/Events/Types.antt =====
-- The names of the event types of PlatformEvents/PlatformEvent.cppm.
use playground_engine.Base.{
  ℕ, String, Option, none, some, List, [], ◌∷◌, ◌==◌, Text, bind, if◌then◌else◌,
}
use playground_engine.Reflection.Enumeration.{
  Initializer, implicit, EnumeratorInfo, enumerators, enum_from_name,
}
use playground_engine.Events.{
  PlatformEventType, to_underlying, key_pressed, key_released, character_typed, pointer_moved,
  pointer_moved_relative, pointer_button_pressed, pointer_button_released, pointer_scrolled,
  focus_gained, focus_lost, window_resized, close_requested,
}

unfoldable pub event_type_declarations : List (String × Initializer)
event_type_declarations =
    ("KeyPressed", implicit)
    ∷ ("KeyReleased", implicit)
    ∷ ("CharacterTyped", implicit)
    ∷ ("PointerMoved", implicit)
    ∷ ("PointerMovedRelative", implicit)
    ∷ ("PointerButtonPressed", implicit)
    ∷ ("PointerButtonReleased", implicit)
    ∷ ("PointerScrolled", implicit)
    ∷ ("FocusGained", implicit)
    ∷ ("FocusLost", implicit)
    ∷ ("WindowResized", implicit)
    ∷ ("CloseRequested", implicit)
    ∷ []

unfoldable pub event_types : List EnumeratorInfo
unfolding event_type_declarations enumerators
event_types = enumerators event_type_declarations

-- `FromEnumeratorValue`, where the number is one that an enumerator has.
abbrev pub all_types : List PlatformEventType
all_types =
    key_pressed ∷ key_released ∷ character_typed ∷ pointer_moved ∷ pointer_moved_relative
    ∷ pointer_button_pressed ∷ pointer_button_released ∷ pointer_scrolled ∷ focus_gained
    ∷ focus_lost ∷ window_resized ∷ close_requested ∷ []

abbrev pub from_underlying : List PlatformEventType → ℕ → Option PlatformEventType
from_underlying [] n = none
from_underlying (t ∷ ts) n = if to_underlying t == n then some t else from_underlying ts n

-- `EnumFromName<PlatformEventType>`.
unfoldable pub event_type_from_name : Text → Option PlatformEventType
unfolding event_types enum_from_name
event_type_from_name name = bind (enum_from_name event_types name) (from_underlying all_types)
