-- ===== src/WindowServer/GlfwKeys.antt =====
-- The key switch of WindowServer/Backend/GlfwInputTranslation.cpp is a correspondence between the
-- GLFW keys that it names and the keyboard codes.
use text.Mathlib.Text.{◌==◌ as str_eq}
use text.Mathlib.TextEquality.{eq_iff}
use playground_engine.Base.{
  sym, ap, ◌∙◌, subst, Bool-cases, ℕ, String, ◌≡◌, ◌≢◌, refl, Bool, true, false, ◌&&◌, ◌⊎◌, inl,
  inr, Option, none, some, [], ◌∷◌, ◌==◌, if◌then◌else◌, arith, All, all_of, all_of_sound,
  passes_below, passes_below-at, Cases, find_case, result_of, find_case-value, HasDistinctLabels,
  Option-cases,
}
use playground_engine.Events.Codes.{InputCode, unknown, is_keyboard_code}
use playground_engine.WindowServer.GlfwInput.{code_named, key_cases, translate, translate_glfw_key}

-- The label of the case that returns a code.
label_for : Cases → InputCode → Option String
label_for [] code = none
label_for ((label, result) ∷ rest) code =
    if code_named result == code then some label else label_for rest code

abbrev is_label : Option String → String → Bool
is_label none l = false
is_label (some m) l = str_eq m l

-- A case's code is a keyboard code that no other case returns.
abbrev proper : String × String → Bool
proper c = is_label (label_for key_cases (code_named c.1)) c.0 && is_keyboard_code (code_named c.1)

proper_table : all_of proper key_cases ≡ true
unfolding all_of label_for code_named key_cases
proper_table = refl

-- A code of the switch: `Unknown`, or a keyboard code whose only label stands for the key.
abbrev Through : (String → ℕ) → ℕ → InputCode → Type 0
Through glfw key code =
    (code ≡ unknown)
    ⊎ ((is_keyboard_code code ≡ true)
        × ((l : String) × (label_for key_cases code ≡ some l) × (glfw l ≡ key)))

translate-cons :
    (glfw : String → ℕ) (label result : String) (rest : Cases) (key : ℕ)
    → translate glfw ((label, result) ∷ rest) key
      ≡ (if glfw label == key then code_named result else translate glfw rest key)
unfolding find_case
translate-cons glfw label result rest key = ground arith

is_label-eq : (o : Option String) (l : String) → is_label o l ≡ true → o ≡ some l
is_label-eq none l h = cc
is_label-eq (some m) l h = ap some ((eq_iff m l).0 h)

translate_back :
    (glfw : String → ℕ) (cases : Cases) (key : ℕ)
    → All (λ c. proper c ≡ true) cases
    → Through glfw key (translate glfw cases key)
unfolding find_case
translate_back glfw [] key a = inl refl
translate_back glfw ((label, result) ∷ rest) key a =
    subst (Through glfw key) (sym (translate-cons glfw label result rest key))
      (elim (Bool-cases (glfw label == key)) [
        | inl e ↦ rw e (
            inr (
              ground (arith, a.0),
              (
                label,
                is_label-eq (label_for key_cases (code_named result)) label (ground (arith, a.0)),
                ground arith,
              ),
            ))
        | inr e ↦ rw e (translate_back glfw rest key a.1)
      ])

-- Whatever numbers the GLFW macros stand for, two keys that `TranslateGlfwKey` gives one code other
-- than `Unknown` are the same key, and the code is a keyboard code.
pub translate_glfw_key_injective :
    (glfw : String → ℕ) (key other : ℕ)
    → translate_glfw_key glfw key ≡ translate_glfw_key glfw other
    → translate_glfw_key glfw key ≢ unknown
    → (is_keyboard_code (translate_glfw_key glfw key) ≡ true) × (key ≡ other)
unfolding translate_glfw_key
translate_glfw_key_injective glfw key other same known =
    let table : All (λ c. proper c ≡ true) key_cases = all_of_sound proper key_cases proper_table in
    let a : Through glfw key (translate glfw key_cases key) =
      translate_back glfw key_cases key table in
    let b : Through glfw other (translate glfw key_cases other) =
      translate_back glfw key_cases other table in
    elim a [
      | inl e ↦ absurd (known e)
      | inr (k, (l, le, lk)) ↦ elim b [
        | inl e ↦ absurd (known (same ∙ e))
        | inr (k', (l', le', lk')) ↦ (k, cc)
      ]
    ]

-- The macro whose case returns a code, and its number.
abbrev number_for : (String → ℕ) → Option String → ℕ
number_for glfw none = 0
number_for glfw (some l) = glfw l

abbrev returns : Option String → InputCode → Bool
returns none code = false
returns (some result) code = code_named result == code

-- The label of the code's case selects a case that returns the code.
abbrev covered : InputCode → Bool
covered code =
    if is_keyboard_code code
    then (elim (label_for key_cases code) [
      | none ↦ false
      | some l ↦ returns (result_of key_cases l) code
    ])
    else true

covered_table : passes_below covered 121 ≡ true
unfolding passes_below label_for code_named key_cases result_of
covered_table = refl

HasDistinctLabels-label :
    (glfw : String → ℕ) (macro_of : ℕ → String) (cases : Cases) (code : InputCode) (l : String)
    → HasDistinctLabels glfw macro_of cases
    → label_for cases code ≡ some l
    → macro_of (glfw l) ≡ l
unfolding label_for
HasDistinctLabels-label glfw macro_of [] code l d e = cc
HasDistinctLabels-label glfw macro_of ((label, result) ∷ rest) code l d e =
    ground (arith, d.0, HasDistinctLabels-label glfw macro_of rest code l d.1)

translate_of_result :
    (glfw : String → ℕ) (key : ℕ) (code : InputCode) (o : Option String)
    → find_case glfw key_cases key ≡ o
    → returns o code ≡ true
    → translate glfw key_cases key ≡ code
translate_of_result glfw key code none e h = cc
translate_of_result glfw key code (some r) e h = rw (e, translate) (ground arith)

-- Where the macros of the switch stand for distinct numbers, every keyboard code is the code of
-- some GLFW key: the number of the macro whose case returns it.
pub translate_glfw_key_covers :
    (glfw : String → ℕ) (macro_of : ℕ → String) (code : InputCode)
    → HasDistinctLabels glfw macro_of key_cases
    → is_keyboard_code code ≡ true
    → (key : ℕ) × (translate_glfw_key glfw key ≡ code)
unfolding translate_glfw_key
translate_glfw_key_covers glfw macro_of code distinct h =
    let row : covered code ≡ true = passes_below-at covered 121 code (ground arith) covered_table in
    elim (Option-cases (label_for key_cases code)) [
      | inl e ↦ absurd (ground (arith, row))
      | inr (l, e) ↦ (
        glfw l,
        translate_of_result glfw (glfw l) code (result_of key_cases l)
            (find_case-value glfw macro_of key_cases l distinct
              (HasDistinctLabels-label glfw macro_of key_cases code l distinct e))
            ground (arith, row),
      )
    ]
