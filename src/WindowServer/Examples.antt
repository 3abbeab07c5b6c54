-- ===== src/WindowServer/Examples.antt =====
-- The GLFW macros numbered by their places in the switch.
use playground_engine.Base.{
  All, arith, find_case, ℕ, String, ◌≡◌, ◌≢◌, refl, Bool, true, ◌+◌, ◌==◌, zero, suc, if◌then◌else◌,
  [], ◌∷◌, Cases, HasDistinctLabels, all_of, all_of_sound,
}
use text.Mathlib.Text.{◌==◌ as str_eq}
use text.Mathlib.TextEquality.{eq_iff}
use playground_engine.Events.Codes.{InputCode, unknown, is_keyboard_code}
use playground_engine.WindowServer.GlfwInput.{code_named, key_cases, translate_glfw_key}
use playground_engine.WindowServer.GlfwKeys.{
  translate_glfw_key_injective, translate_glfw_key_covers,
}

-- The place of a label, from 1; 0 for a name that is no label.
place_of : Cases → String → ℕ
place_of [] name = 0
place_of ((label, result) ∷ rest) name =
    let later = place_of rest name in
    if str_eq label name then 1 else if later == 0 then 0 else later + 1

label_at : Cases → ℕ → String
label_at [] n = ""
label_at ((label, result) ∷ rest) zero = ""
label_at ((label, result) ∷ rest) (suc zero) = label
label_at ((label, result) ∷ rest) (suc (suc n)) = label_at rest (suc n)

unfoldable macro_number : String → ℕ
unfolding place_of
macro_number = place_of key_cases

unfoldable macro_of : ℕ → String
unfolding label_at
macro_of = label_at key_cases

abbrev distinct : String × String → Bool
distinct c = str_eq (macro_of (macro_number c.0)) c.0

distinct_table : all_of distinct key_cases ≡ true
unfolding all_of macro_of macro_number key_cases
distinct_table = refl

eq_labels :
    (cases : Cases)
    → All (λ c. distinct c ≡ true) cases
    → HasDistinctLabels macro_number macro_of cases
eq_labels [] a = tt
eq_labels (c ∷ rest) a = ((eq_iff (macro_of (macro_number c.0)) c.0).0 a.0, eq_labels rest a.1)

distinct_labels : HasDistinctLabels macro_number macro_of key_cases
distinct_labels = eq_labels key_cases (all_of_sound distinct key_cases distinct_table)

translate_glfw_key_covers_example : (key : ℕ) × (translate_glfw_key macro_number key ≡ 23)
translate_glfw_key_covers_example =
    translate_glfw_key_covers macro_number macro_of 23 distinct_labels refl

abbrev first_macro : ℕ
first_macro = 1

abbrev key_a : InputCode
key_a = 1

first_macro-known : translate_glfw_key macro_number first_macro ≡ key_a
unfolding translate_glfw_key macro_number key_cases find_case code_named
first_macro-known = refl

first_macro-has_code : translate_glfw_key macro_number first_macro ≢ unknown
first_macro-has_code same = ground (arith, first_macro-known)

translate_glfw_key_injective_example :
    (is_keyboard_code (translate_glfw_key macro_number first_macro) ≡ true)
    × (first_macro ≡ first_macro)
translate_glfw_key_injective_example =
    translate_glfw_key_injective macro_number first_macro first_macro refl first_macro-has_code
