-- ===== src/DebugUi/KeyCases.antt =====
-- The key `switch` of DebugUI/DebugUIInputTranslation.cpp, group by group: the enumerator of
-- `InputCode` and the ImGui key of each case.
use playground_engine.Base.{[], ◌∷◌, Cases}

abbrev pub letter_keys : Cases
letter_keys =
    ("KeyA", "ImGuiKey_A")
    ∷ ("KeyB", "ImGuiKey_B")
    ∷ ("KeyC", "ImGuiKey_C")
    ∷ ("KeyD", "ImGuiKey_D")
    ∷ ("KeyE", "ImGuiKey_E")
    ∷ ("KeyF", "ImGuiKey_F")
    ∷ ("KeyG", "ImGuiKey_G")
    ∷ ("KeyH", "ImGuiKey_H")
    ∷ ("KeyI", "ImGuiKey_I")
    ∷ ("KeyJ", "ImGuiKey_J")
    ∷ ("KeyK", "ImGuiKey_K")
    ∷ ("KeyL", "ImGuiKey_L")
    ∷ ("KeyM", "ImGuiKey_M")
    ∷ ("KeyN", "ImGuiKey_N")
    ∷ ("KeyO", "ImGuiKey_O")
    ∷ ("KeyP", "ImGuiKey_P")
    ∷ ("KeyQ", "ImGuiKey_Q")
    ∷ ("KeyR", "ImGuiKey_R")
    ∷ ("KeyS", "ImGuiKey_S")
    ∷ ("KeyT", "ImGuiKey_T")
    ∷ ("KeyU", "ImGuiKey_U")
    ∷ ("KeyV", "ImGuiKey_V")
    ∷ ("KeyW", "ImGuiKey_W")
    ∷ ("KeyX", "ImGuiKey_X")
    ∷ ("KeyY", "ImGuiKey_Y")
    ∷ ("KeyZ", "ImGuiKey_Z")
    ∷ []

abbrev pub digit_keys : Cases
digit_keys =
    ("Key0", "ImGuiKey_0")
    ∷ ("Key1", "ImGuiKey_1")
    ∷ ("Key2", "ImGuiKey_2")
    ∷ ("Key3", "ImGuiKey_3")
    ∷ ("Key4", "ImGuiKey_4")
    ∷ ("Key5", "ImGuiKey_5")
    ∷ ("Key6", "ImGuiKey_6")
    ∷ ("Key7", "ImGuiKey_7")
    ∷ ("Key8", "ImGuiKey_8")
    ∷ ("Key9", "ImGuiKey_9")
    ∷ []

abbrev pub symbol_keys : Cases
symbol_keys =
    ("KeySpace", "ImGuiKey_Space")
    ∷ ("KeyApostrophe", "ImGuiKey_Apostrophe")
    ∷ ("KeyComma", "ImGuiKey_Comma")
    ∷ ("KeyMinus", "ImGuiKey_Minus")
    ∷ ("KeyPeriod", "ImGuiKey_Period")
    ∷ ("KeySlash", "ImGuiKey_Slash")
    ∷ ("KeySemicolon", "ImGuiKey_Semicolon")
    ∷ ("KeyEqual", "ImGuiKey_Equal")
    ∷ ("KeyLeftBracket", "ImGuiKey_LeftBracket")
    ∷ ("KeyBackslash", "ImGuiKey_Backslash")
    ∷ ("KeyRightBracket", "ImGuiKey_RightBracket")
    ∷ ("KeyGraveAccent", "ImGuiKey_GraveAccent")
    ∷ []

abbrev pub world_keys : Cases
world_keys = ("KeyWorld1", "ImGuiKey_Oem102") ∷ []

abbrev pub navigation_keys : Cases
navigation_keys =
    ("KeyEscape", "ImGuiKey_Escape")
    ∷ ("KeyEnter", "ImGuiKey_Enter")
    ∷ ("KeyTab", "ImGuiKey_Tab")
    ∷ ("KeyBackspace", "ImGuiKey_Backspace")
    ∷ ("KeyInsert", "ImGuiKey_Insert")
    ∷ ("KeyDelete", "ImGuiKey_Delete")
    ∷ ("KeyRight", "ImGuiKey_RightArrow")
    ∷ ("KeyLeft", "ImGuiKey_LeftArrow")
    ∷ ("KeyDown", "ImGuiKey_DownArrow")
    ∷ ("KeyUp", "ImGuiKey_UpArrow")
    ∷ ("KeyPageUp", "ImGuiKey_PageUp")
    ∷ ("KeyPageDown", "ImGuiKey_PageDown")
    ∷ ("KeyHome", "ImGuiKey_Home")
    ∷ ("KeyEnd", "ImGuiKey_End")
    ∷ ("KeyCapsLock", "ImGuiKey_CapsLock")
    ∷ ("KeyScrollLock", "ImGuiKey_ScrollLock")
    ∷ ("KeyNumLock", "ImGuiKey_NumLock")
    ∷ ("KeyPrintScreen", "ImGuiKey_PrintScreen")
    ∷ ("KeyPause", "ImGuiKey_Pause")
    ∷ ("KeyMenu", "ImGuiKey_Menu")
    ∷ []

abbrev pub function_keys : Cases
function_keys =
    ("KeyF1", "ImGuiKey_F1")
    ∷ ("KeyF2", "ImGuiKey_F2")
    ∷ ("KeyF3", "ImGuiKey_F3")
    ∷ ("KeyF4", "ImGuiKey_F4")
    ∷ ("KeyF5", "ImGuiKey_F5")
    ∷ ("KeyF6", "ImGuiKey_F6")
    ∷ ("KeyF7", "ImGuiKey_F7")
    ∷ ("KeyF8", "ImGuiKey_F8")
    ∷ ("KeyF9", "ImGuiKey_F9")
    ∷ ("KeyF10", "ImGuiKey_F10")
    ∷ ("KeyF11", "ImGuiKey_F11")
    ∷ ("KeyF12", "ImGuiKey_F12")
    ∷ ("KeyF13", "ImGuiKey_F13")
    ∷ ("KeyF14", "ImGuiKey_F14")
    ∷ ("KeyF15", "ImGuiKey_F15")
    ∷ ("KeyF16", "ImGuiKey_F16")
    ∷ ("KeyF17", "ImGuiKey_F17")
    ∷ ("KeyF18", "ImGuiKey_F18")
    ∷ ("KeyF19", "ImGuiKey_F19")
    ∷ ("KeyF20", "ImGuiKey_F20")
    ∷ ("KeyF21", "ImGuiKey_F21")
    ∷ ("KeyF22", "ImGuiKey_F22")
    ∷ ("KeyF23", "ImGuiKey_F23")
    ∷ ("KeyF24", "ImGuiKey_F24")
    ∷ []

abbrev pub numpad_keys : Cases
numpad_keys =
    ("KeyNumpad0", "ImGuiKey_Keypad0")
    ∷ ("KeyNumpad1", "ImGuiKey_Keypad1")
    ∷ ("KeyNumpad2", "ImGuiKey_Keypad2")
    ∷ ("KeyNumpad3", "ImGuiKey_Keypad3")
    ∷ ("KeyNumpad4", "ImGuiKey_Keypad4")
    ∷ ("KeyNumpad5", "ImGuiKey_Keypad5")
    ∷ ("KeyNumpad6", "ImGuiKey_Keypad6")
    ∷ ("KeyNumpad7", "ImGuiKey_Keypad7")
    ∷ ("KeyNumpad8", "ImGuiKey_Keypad8")
    ∷ ("KeyNumpad9", "ImGuiKey_Keypad9")
    ∷ ("KeyNumpadDecimal", "ImGuiKey_KeypadDecimal")
    ∷ ("KeyNumpadDivide", "ImGuiKey_KeypadDivide")
    ∷ ("KeyNumpadMultiply", "ImGuiKey_KeypadMultiply")
    ∷ ("KeyNumpadSubtract", "ImGuiKey_KeypadSubtract")
    ∷ ("KeyNumpadAdd", "ImGuiKey_KeypadAdd")
    ∷ ("KeyNumpadEnter", "ImGuiKey_KeypadEnter")
    ∷ ("KeyNumpadEqual", "ImGuiKey_KeypadEqual")
    ∷ []

abbrev pub modifier_keys : Cases
modifier_keys =
    ("KeyLeftShift", "ImGuiKey_LeftShift")
    ∷ ("KeyLeftControl", "ImGuiKey_LeftCtrl")
    ∷ ("KeyLeftAlt", "ImGuiKey_LeftAlt")
    ∷ ("KeyLeftSuper", "ImGuiKey_LeftSuper")
    ∷ ("KeyRightShift", "ImGuiKey_RightShift")
    ∷ ("KeyRightControl", "ImGuiKey_RightCtrl")
    ∷ ("KeyRightAlt", "ImGuiKey_RightAlt")
    ∷ ("KeyRightSuper", "ImGuiKey_RightSuper")
    ∷ []
