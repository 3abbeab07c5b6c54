-- ===== src/WindowServer/GlfwInput.antt =====
-- WindowServer/Backend/GlfwInputTranslation.cpp. The numbers of the GLFW macros are the argument
-- `glfw`, a function of the macro's name; an `int` is its 32-bit pattern.
use Prim.Native.Nat.{bit_and}
use playground_engine.Base.{
  ℕ, String, Bool, not, ◌==◌, ◌++◌, none, some, codes, value_or, Cases, find_case,
}
use playground_engine.Reflection.Enumeration.{enum_from_name}
use playground_engine.Events.{InputModifiers, InputLockState}
use playground_engine.Events.Codes.{InputCode, input_codes, unknown}
use playground_engine.WindowServer.GlfwCases.{
  letter_keys, digit_keys, symbol_keys, navigation_keys, function_keys, numpad_keys, modifier_keys,
  pointer_button_cases,
}

-- `InputCode::name`.
unfoldable pub code_named : String → InputCode
unfolding enum_from_name input_codes
code_named name = value_or (enum_from_name input_codes (codes name)) unknown

unfoldable pub key_cases : Cases
key_cases =
    letter_keys
    ++ (digit_keys
        ++ (symbol_keys ++ (navigation_keys ++ (function_keys ++ (numpad_keys ++ modifier_keys)))))

abbrev pub translate : (String → ℕ) → Cases → ℕ → InputCode
translate value cases n = elim (find_case value cases n) [
  | none ↦ unknown
  | some name ↦ code_named name
]

unfoldable pub translate_glfw_key : (String → ℕ) → ℕ → InputCode
translate_glfw_key glfw key = translate glfw key_cases key

unfoldable pub translate_glfw_pointer_button : (String → ℕ) → ℕ → InputCode
translate_glfw_pointer_button glfw button = translate glfw pointer_button_cases button

abbrev pub has_bit : ℕ → ℕ → Bool
has_bit modifiers bit = not (bit_and modifiers bit == 0)

unfoldable pub translate_glfw_modifiers : (String → ℕ) → ℕ → InputModifiers
translate_glfw_modifiers glfw modifiers = record {
  shift = has_bit modifiers (glfw "GLFW_MOD_SHIFT");
  control = has_bit modifiers (glfw "GLFW_MOD_CONTROL");
  alt = has_bit modifiers (glfw "GLFW_MOD_ALT");
  super = has_bit modifiers (glfw "GLFW_MOD_SUPER");
}

unfoldable pub translate_glfw_lock_state : (String → ℕ) → ℕ → InputLockState
translate_glfw_lock_state glfw modifiers = record {
  caps_lock = has_bit modifiers (glfw "GLFW_MOD_CAPS_LOCK");
  num_lock = has_bit modifiers (glfw "GLFW_MOD_NUM_LOCK");
}
