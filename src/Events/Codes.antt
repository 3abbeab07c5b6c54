-- ===== src/Events/Codes.antt =====
-- The code space of PlatformEvents/InputCode.cppm. A code is its 16-bit number.
use playground_engine.Base.{ℕ, String, Bool, ◌&&◌, leb, List, [], ◌∷◌}
use playground_engine.Reflection.Enumeration.{
  Initializer, implicit, literal, alias, EnumeratorInfo, enumerators,
}

abbrev pub InputCode : Type 0
InputCode = ℕ

-- The enumerators as they are declared.
unfoldable pub input_code_declarations : List (String × Initializer)
input_code_declarations =
    ("Unknown", literal 0)
    ∷ ("KeyboardRangeFirst", literal 1)
    ∷ ("KeyA", alias "KeyboardRangeFirst")
    ∷ ("KeyB", implicit)
    ∷ ("KeyC", implicit)
    ∷ ("KeyD", implicit)
    ∷ ("KeyE", implicit)
    ∷ ("KeyF", implicit)
    ∷ ("KeyG", implicit)
    ∷ ("KeyH", implicit)
    ∷ ("KeyI", implicit)
    ∷ ("KeyJ", implicit)
    ∷ ("KeyK", implicit)
    ∷ ("KeyL", implicit)
    ∷ ("KeyM", implicit)
    ∷ ("KeyN", implicit)
    ∷ ("KeyO", implicit)
    ∷ ("KeyP", implicit)
    ∷ ("KeyQ", implicit)
    ∷ ("KeyR", implicit)
    ∷ ("KeyS", implicit)
    ∷ ("KeyT", implicit)
    ∷ ("KeyU", implicit)
    ∷ ("KeyV", implicit)
    ∷ ("KeyW", implicit)
    ∷ ("KeyX", implicit)
    ∷ ("KeyY", implicit)
    ∷ ("KeyZ", implicit)
    ∷ ("Key0", implicit)
    ∷ ("Key1", implicit)
    ∷ ("Key2", implicit)
    ∷ ("Key3", implicit)
    ∷ ("Key4", implicit)
    ∷ ("Key5", implicit)
    ∷ ("Key6", implicit)
    ∷ ("Key7", implicit)
    ∷ ("Key8", implicit)
    ∷ ("Key9", implicit)
    ∷ ("KeySpace", implicit)
    ∷ ("KeyApostrophe", implicit)
    ∷ ("KeyComma", implicit)
    ∷ ("KeyMinus", implicit)
    ∷ ("KeyPeriod", implicit)
    ∷ ("KeySlash", implicit)
    ∷ ("KeySemicolon", implicit)
    ∷ ("KeyEqual", implicit)
    ∷ ("KeyLeftBracket", implicit)
    ∷ ("KeyBackslash", implicit)
    ∷ ("KeyRightBracket", implicit)
    ∷ ("KeyGraveAccent", implicit)
    ∷ ("KeyWorld1", implicit)
    ∷ ("KeyWorld2", implicit)
    ∷ ("KeyEscape", implicit)
    ∷ ("KeyEnter", implicit)
    ∷ ("KeyTab", implicit)
    ∷ ("KeyBackspace", implicit)
    ∷ ("KeyInsert", implicit)
    ∷ ("KeyDelete", implicit)
    ∷ ("KeyRight", implicit)
    ∷ ("KeyLeft", implicit)
    ∷ ("KeyDown", implicit)
    ∷ ("KeyUp", implicit)
    ∷ ("KeyPageUp", implicit)
    ∷ ("KeyPageDown", implicit)
    ∷ ("KeyHome", implicit)
    ∷ ("KeyEnd", implicit)
    ∷ ("KeyCapsLock", implicit)
    ∷ ("KeyScrollLock", implicit)
    ∷ ("KeyNumLock", implicit)
    ∷ ("KeyPrintScreen", implicit)
    ∷ ("KeyPause", implicit)
    ∷ ("KeyMenu", implicit)
    ∷ ("KeyF1", implicit)
    ∷ ("KeyF2", implicit)
    ∷ ("KeyF3", implicit)
    ∷ ("KeyF4", implicit)
    ∷ ("KeyF5", implicit)
    ∷ ("KeyF6", implicit)
    ∷ ("KeyF7", implicit)
    ∷ ("KeyF8", implicit)
    ∷ ("KeyF9", implicit)
    ∷ ("KeyF10", implicit)
    ∷ ("KeyF11", implicit)
    ∷ ("KeyF12", implicit)
    ∷ ("KeyF13", implicit)
    ∷ ("KeyF14", implicit)
    ∷ ("KeyF15", implicit)
    ∷ ("KeyF16", implicit)
    ∷ ("KeyF17", implicit)
    ∷ ("KeyF18", implicit)
    ∷ ("KeyF19", implicit)
    ∷ ("KeyF20", implicit)
    ∷ ("KeyF21", implicit)
    ∷ ("KeyF22", implicit)
    ∷ ("KeyF23", implicit)
    ∷ ("KeyF24", implicit)
    ∷ ("KeyF25", implicit)
    ∷ ("KeyNumpad0", implicit)
    ∷ ("KeyNumpad1", implicit)
    ∷ ("KeyNumpad2", implicit)
    ∷ ("KeyNumpad3", implicit)
    ∷ ("KeyNumpad4", implicit)
    ∷ ("KeyNumpad5", implicit)
    ∷ ("KeyNumpad6", implicit)
    ∷ ("KeyNumpad7", implicit)
    ∷ ("KeyNumpad8", implicit)
    ∷ ("KeyNumpad9", implicit)
    ∷ ("KeyNumpadDecimal", implicit)
    ∷ ("KeyNumpadDivide", implicit)
    ∷ ("KeyNumpadMultiply", implicit)
    ∷ ("KeyNumpadSubtract", implicit)
    ∷ ("KeyNumpadAdd", implicit)
    ∷ ("KeyNumpadEnter", implicit)
    ∷ ("KeyNumpadEqual", implicit)
    ∷ ("KeyLeftShift", implicit)
    ∷ ("KeyLeftControl", implicit)
    ∷ ("KeyLeftAlt", implicit)
    ∷ ("KeyLeftSuper", implicit)
    ∷ ("KeyRightShift", implicit)
    ∷ ("KeyRightControl", implicit)
    ∷ ("KeyRightAlt", implicit)
    ∷ ("KeyRightSuper", implicit)
    ∷ ("KeyboardRangeLast", alias "KeyRightSuper")
    ∷ ("PointerRangeFirst", literal 256)
    ∷ ("PointerButtonLeft", alias "PointerRangeFirst")
    ∷ ("PointerButtonRight", implicit)
    ∷ ("PointerButtonMiddle", implicit)
    ∷ ("PointerButtonExtra1", implicit)
    ∷ ("PointerButtonExtra2", implicit)
    ∷ ("PointerButtonExtra3", implicit)
    ∷ ("PointerButtonExtra4", implicit)
    ∷ ("PointerButtonExtra5", implicit)
    ∷ ("PointerRangeLast", alias "PointerButtonExtra5")
    ∷ ("GamepadButtonRangeFirst", literal 512)
    ∷ ("GamepadButtonRangeLast", literal 639)
    ∷ ("AnalogRangeFirst", literal 640)
    ∷ ("AnalogRangeLast", literal 767)
    ∷ []

unfoldable pub input_codes : List EnumeratorInfo
unfolding input_code_declarations enumerators
input_codes = enumerators input_code_declarations

abbrev pub unknown : InputCode
unknown = 0

abbrev pub keyboard_range_first : InputCode
keyboard_range_first = 1

abbrev pub keyboard_range_last : InputCode
keyboard_range_last = 120

abbrev pub pointer_range_first : InputCode
pointer_range_first = 256

abbrev pub pointer_range_last : InputCode
pointer_range_last = 263

abbrev pub is_keyboard_code : InputCode → Bool
is_keyboard_code code = leb keyboard_range_first code && leb code keyboard_range_last

abbrev pub is_pointer_code : InputCode → Bool
is_pointer_code code = leb pointer_range_first code && leb code pointer_range_last

abbrev pub is_gamepad_button_code : InputCode → Bool
is_gamepad_button_code code = leb 512 code && leb code 639

abbrev pub is_analog_code : InputCode → Bool
is_analog_code code = leb 640 code && leb code 767
