-- ===== src/WindowServer/GlfwCases.antt =====
-- The `switch` statements of WindowServer/Backend/GlfwInputTranslation.cpp, group by group.
use playground_engine.Base.{[], ◌∷◌, Cases}

abbrev pub letter_keys : Cases
letter_keys =
    ("GLFW_KEY_A", "KeyA")
    ∷ ("GLFW_KEY_B", "KeyB")
    ∷ ("GLFW_KEY_C", "KeyC")
    ∷ ("GLFW_KEY_D", "KeyD")
    ∷ ("GLFW_KEY_E", "KeyE")
    ∷ ("GLFW_KEY_F", "KeyF")
    ∷ ("GLFW_KEY_G", "KeyG")
    ∷ ("GLFW_KEY_H", "KeyH")
    ∷ ("GLFW_KEY_I", "KeyI")
    ∷ ("GLFW_KEY_J", "KeyJ")
    ∷ ("GLFW_KEY_K", "KeyK")
    ∷ ("GLFW_KEY_L", "KeyL")
    ∷ ("GLFW_KEY_M", "KeyM")
    ∷ ("GLFW_KEY_N", "KeyN")
    ∷ ("GLFW_KEY_O", "KeyO")
    ∷ ("GLFW_KEY_P", "KeyP")
    ∷ ("GLFW_KEY_Q", "KeyQ")
    ∷ ("GLFW_KEY_R", "KeyR")
    ∷ ("GLFW_KEY_S", "KeyS")
    ∷ ("GLFW_KEY_T", "KeyT")
    ∷ ("GLFW_KEY_U", "KeyU")
    ∷ ("GLFW_KEY_V", "KeyV")
    ∷ ("GLFW_KEY_W", "KeyW")
    ∷ ("GLFW_KEY_X", "KeyX")
    ∷ ("GLFW_KEY_Y", "KeyY")
    ∷ ("GLFW_KEY_Z", "KeyZ")
    ∷ []

abbrev pub digit_keys : Cases
digit_keys =
    ("GLFW_KEY_0", "Key0")
    ∷ ("GLFW_KEY_1", "Key1")
    ∷ ("GLFW_KEY_2", "Key2")
    ∷ ("GLFW_KEY_3", "Key3")
    ∷ ("GLFW_KEY_4", "Key4")
    ∷ ("GLFW_KEY_5", "Key5")
    ∷ ("GLFW_KEY_6", "Key6")
    ∷ ("GLFW_KEY_7", "Key7")
    ∷ ("GLFW_KEY_8", "Key8")
    ∷ ("GLFW_KEY_9", "Key9")
    ∷ []

abbrev pub symbol_keys : Cases
symbol_keys =
    ("GLFW_KEY_SPACE", "KeySpace")
    ∷ ("GLFW_KEY_APOSTROPHE", "KeyApostrophe")
    ∷ ("GLFW_KEY_COMMA", "KeyComma")
    ∷ ("GLFW_KEY_MINUS", "KeyMinus")
    ∷ ("GLFW_KEY_PERIOD", "KeyPeriod")
    ∷ ("GLFW_KEY_SLASH", "KeySlash")
    ∷ ("GLFW_KEY_SEMICOLON", "KeySemicolon")
    ∷ ("GLFW_KEY_EQUAL", "KeyEqual")
    ∷ ("GLFW_KEY_LEFT_BRACKET", "KeyLeftBracket")
    ∷ ("GLFW_KEY_BACKSLASH", "KeyBackslash")
    ∷ ("GLFW_KEY_RIGHT_BRACKET", "KeyRightBracket")
    ∷ ("GLFW_KEY_GRAVE_ACCENT", "KeyGraveAccent")
    ∷ ("GLFW_KEY_WORLD_1", "KeyWorld1")
    ∷ ("GLFW_KEY_WORLD_2", "KeyWorld2")
    ∷ []

abbrev pub navigation_keys : Cases
navigation_keys =
    ("GLFW_KEY_ESCAPE", "KeyEscape")
    ∷ ("GLFW_KEY_ENTER", "KeyEnter")
    ∷ ("GLFW_KEY_TAB", "KeyTab")
    ∷ ("GLFW_KEY_BACKSPACE", "KeyBackspace")
    ∷ ("GLFW_KEY_INSERT", "KeyInsert")
    ∷ ("GLFW_KEY_DELETE", "KeyDelete")
    ∷ ("GLFW_KEY_RIGHT", "KeyRight")
    ∷ ("GLFW_KEY_LEFT", "KeyLeft")
    ∷ ("GLFW_KEY_DOWN", "KeyDown")
    ∷ ("GLFW_KEY_UP", "KeyUp")
    ∷ ("GLFW_KEY_PAGE_UP", "KeyPageUp")
    ∷ ("GLFW_KEY_PAGE_DOWN", "KeyPageDown")
    ∷ ("GLFW_KEY_HOME", "KeyHome")
    ∷ ("GLFW_KEY_END", "KeyEnd")
    ∷ ("GLFW_KEY_CAPS_LOCK", "KeyCapsLock")
    ∷ ("GLFW_KEY_SCROLL_LOCK", "KeyScrollLock")
    ∷ ("GLFW_KEY_NUM_LOCK", "KeyNumLock")
    ∷ ("GLFW_KEY_PRINT_SCREEN", "KeyPrintScreen")
    ∷ ("GLFW_KEY_PAUSE", "KeyPause")
    ∷ ("GLFW_KEY_MENU", "KeyMenu")
    ∷ []

abbrev pub function_keys : Cases
function_keys =
    ("GLFW_KEY_F1", "KeyF1")
    ∷ ("GLFW_KEY_F2", "KeyF2")
    ∷ ("GLFW_KEY_F3", "KeyF3")
    ∷ ("GLFW_KEY_F4", "KeyF4")
    ∷ ("GLFW_KEY_F5", "KeyF5")
    ∷ ("GLFW_KEY_F6", "KeyF6")
    ∷ ("GLFW_KEY_F7", "KeyF7")
    ∷ ("GLFW_KEY_F8", "KeyF8")
    ∷ ("GLFW_KEY_F9", "KeyF9")
    ∷ ("GLFW_KEY_F10", "KeyF10")
    ∷ ("GLFW_KEY_F11", "KeyF11")
    ∷ ("GLFW_KEY_F12", "KeyF12")
    ∷ ("GLFW_KEY_F13", "KeyF13")
    ∷ ("GLFW_KEY_F14", "KeyF14")
    ∷ ("GLFW_KEY_F15", "KeyF15")
    ∷ ("GLFW_KEY_F16", "KeyF16")
    ∷ ("GLFW_KEY_F17", "KeyF17")
    ∷ ("GLFW_KEY_F18", "KeyF18")
    ∷ ("GLFW_KEY_F19", "KeyF19")
    ∷ ("GLFW_KEY_F20", "KeyF20")
    ∷ ("GLFW_KEY_F21", "KeyF21")
    ∷ ("GLFW_KEY_F22", "KeyF22")
    ∷ ("GLFW_KEY_F23", "KeyF23")
    ∷ ("GLFW_KEY_F24", "KeyF24")
    ∷ ("GLFW_KEY_F25", "KeyF25")
    ∷ []

abbrev pub numpad_keys : Cases
numpad_keys =
    ("GLFW_KEY_KP_0", "KeyNumpad0")
    ∷ ("GLFW_KEY_KP_1", "KeyNumpad1")
    ∷ ("GLFW_KEY_KP_2", "KeyNumpad2")
    ∷ ("GLFW_KEY_KP_3", "KeyNumpad3")
    ∷ ("GLFW_KEY_KP_4", "KeyNumpad4")
    ∷ ("GLFW_KEY_KP_5", "KeyNumpad5")
    ∷ ("GLFW_KEY_KP_6", "KeyNumpad6")
    ∷ ("GLFW_KEY_KP_7", "KeyNumpad7")
    ∷ ("GLFW_KEY_KP_8", "KeyNumpad8")
    ∷ ("GLFW_KEY_KP_9", "KeyNumpad9")
    ∷ ("GLFW_KEY_KP_DECIMAL", "KeyNumpadDecimal")
    ∷ ("GLFW_KEY_KP_DIVIDE", "KeyNumpadDivide")
    ∷ ("GLFW_KEY_KP_MULTIPLY", "KeyNumpadMultiply")
    ∷ ("GLFW_KEY_KP_SUBTRACT", "KeyNumpadSubtract")
    ∷ ("GLFW_KEY_KP_ADD", "KeyNumpadAdd")
    ∷ ("GLFW_KEY_KP_ENTER", "KeyNumpadEnter")
    ∷ ("GLFW_KEY_KP_EQUAL", "KeyNumpadEqual")
    ∷ []

abbrev pub modifier_keys : Cases
modifier_keys =
    ("GLFW_KEY_LEFT_SHIFT", "KeyLeftShift")
    ∷ ("GLFW_KEY_LEFT_CONTROL", "KeyLeftControl")
    ∷ ("GLFW_KEY_LEFT_ALT", "KeyLeftAlt")
    ∷ ("GLFW_KEY_LEFT_SUPER", "KeyLeftSuper")
    ∷ ("GLFW_KEY_RIGHT_SHIFT", "KeyRightShift")
    ∷ ("GLFW_KEY_RIGHT_CONTROL", "KeyRightControl")
    ∷ ("GLFW_KEY_RIGHT_ALT", "KeyRightAlt")
    ∷ ("GLFW_KEY_RIGHT_SUPER", "KeyRightSuper")
    ∷ []

abbrev pub pointer_button_cases : Cases
pointer_button_cases =
    ("GLFW_MOUSE_BUTTON_LEFT", "PointerButtonLeft")
    ∷ ("GLFW_MOUSE_BUTTON_RIGHT", "PointerButtonRight")
    ∷ ("GLFW_MOUSE_BUTTON_MIDDLE", "PointerButtonMiddle")
    ∷ ("GLFW_MOUSE_BUTTON_4", "PointerButtonExtra1")
    ∷ ("GLFW_MOUSE_BUTTON_5", "PointerButtonExtra2")
    ∷ ("GLFW_MOUSE_BUTTON_6", "PointerButtonExtra3")
    ∷ ("GLFW_MOUSE_BUTTON_7", "PointerButtonExtra4")
    ∷ ("GLFW_MOUSE_BUTTON_8", "PointerButtonExtra5")
    ∷ []
