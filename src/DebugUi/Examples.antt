-- ===== src/DebugUi/Examples.antt =====
-- The key table of DebugUI/DebugUIInputTranslation.cpp at two codes.
use playground_engine.Base.{◌≡◌, not, ◌&&◌, ◌||◌, ◌==◌}
use text.Mathlib.Text.{◌==◌ as str_eq}
use playground_engine.Events.Codes.{is_keyboard_code}
use playground_engine.DebugUi.Submit.{translate_key_code, no_key}
use playground_engine.DebugUi.Keys.{key_world_2, key_f25, translate_key_code_exact}

translate_key_code_exact_example :
    not (str_eq (translate_key_code 50) no_key)
    ≡ (is_keyboard_code 50 && not (50 == key_world_2 || 50 == key_f25))
translate_key_code_exact_example = translate_key_code_exact 50
