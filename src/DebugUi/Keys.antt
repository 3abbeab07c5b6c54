-- ===== src/DebugUi/Keys.antt =====
-- Which codes DebugUI/DebugUIInputTranslation.cpp hands on, and as what.
use text.Mathlib.Text.{◌==◌ as str_eq}
use playground_engine.Base.{
  sym, subst, String, ◌≡◌, refl, Bool, true, false, not, ◌&&◌, ◌||◌, inl, inr, Option, none, some,
  [], ◌∷◌, ◌==◌, if◌then◌else◌, arith, All, all_of, all_of_sound, passes_below, passes_below-at,
  Cases, find_case, Bool-cases,
}
use playground_engine.Events.Codes.{InputCode, is_keyboard_code}
use playground_engine.WindowServer.GlfwInput.{code_named}
use playground_engine.DebugUi.Submit.{key_cases, no_key, translate_key_code, key_or_none}

abbrev pub key_world_2 : InputCode
key_world_2 = 50

abbrev pub key_f25 : InputCode
key_f25 = 95

-- The code of the case that returns a key.
code_for : Cases → String → Option InputCode
code_for [] key = none
code_for ((name, result) ∷ rest) key =
    if str_eq result key then some (code_named name) else code_for rest key

abbrev is_code : Option InputCode → InputCode → Bool
is_code none c = false
is_code (some d) c = d == c

-- A case's code is a keyboard code, its key is one, and no other case returns it.
abbrev proper : String × String → Bool
proper c =
    is_keyboard_code (code_named c.0)
    && (not (str_eq c.1 no_key) && is_code (code_for key_cases c.1) (code_named c.0))

proper_table : all_of proper key_cases ≡ true
unfolding all_of code_for code_named key_cases
proper_table = refl

-- Every keyboard code but those two has a case.
abbrev has_case : InputCode → Bool
has_case code =
    if is_keyboard_code code
    then not (str_eq (translate_key_code code) no_key) || (code == key_world_2 || code == key_f25)
    else true

has_case_table : passes_below has_case 121 ≡ true
unfolding passes_below translate_key_code find_case code_named key_cases
has_case_table = refl

without_case :
    (str_eq (translate_key_code key_world_2) no_key ≡ true)
    × (str_eq (translate_key_code key_f25) no_key ≡ true)
unfolding translate_key_code find_case code_named key_cases
without_case = (refl, refl)

names_two : (code_named "KeyWorld2" ≡ key_world_2) × (code_named "KeyF25" ≡ key_f25)
unfolding code_named
names_two = (refl, refl)

abbrev From : InputCode → Option String → Type 0
From code none = Unit
From code (some key) =
    (is_keyboard_code code ≡ true)
    × (str_eq key no_key ≡ false)
    × (code_for key_cases key ≡ some code)

find_case-cons :
    (name key : String) (rest : Cases) (code : InputCode)
    → find_case code_named ((name, key) ∷ rest) code
      ≡ (if code_named name == code then some key else find_case code_named rest code)
unfolding find_case
find_case-cons name key rest code = refl

is_code-eq : (o : Option InputCode) (c : InputCode) → is_code o c ≡ true → o ≡ some c
is_code-eq none c h = cc
is_code-eq (some d) c h = ground arith

find_case-From :
    (cases : Cases) (code : InputCode)
    → All (λ c. proper c ≡ true) cases
    → From code (find_case code_named cases code)
unfolding find_case
find_case-From [] code a = tt
find_case-From ((name, key) ∷ rest) code a =
    subst (From code) (sym (find_case-cons name key rest code))
      (elim (Bool-cases (code_named name == code)) [
        | inl e ↦ rw e (
          ground (arith, a.0),
          ground (arith, a.0),
          is_code-eq (code_for key_cases key) code (ground (arith, a.0)),
        )
        | inr e ↦ rw e (find_case-From rest code a.1)
      ])

-- What the key of a code says of the code.
abbrev Keyed : InputCode → String → Type 0
Keyed code key = (is_keyboard_code code ≡ true) × (code_for key_cases key ≡ some code)

key_or_none-Keyed :
    (code : InputCode) (o : Option String)
    → From code o
    → str_eq (key_or_none o) no_key ≡ false
    → Keyed code (key_or_none o)
key_or_none-Keyed code none f h = absurd (ground arith)
key_or_none-Keyed code (some key) f h = (f.0, f.2)

translate_key_code-Keyed :
    (code : InputCode)
    → str_eq (translate_key_code code) no_key ≡ false
    → Keyed code (translate_key_code code)
unfolding translate_key_code
translate_key_code-Keyed code h =
    key_or_none-Keyed code (find_case code_named key_cases code)
      (find_case-From key_cases code (all_of_sound proper key_cases proper_table)) h

keyless :
    (code : InputCode) (n : InputCode)
    → str_eq (translate_key_code n) no_key ≡ true
    → (code == n) ≡ true
    → str_eq (translate_key_code code) no_key ≡ true
keyless code n h e = ground arith

-- A code is translated to a key of ImGui exactly if it is a keyboard code other than `KeyWorld2` and
-- `KeyF25`.
pub translate_key_code_exact :
    (code : InputCode)
    → not (str_eq (translate_key_code code) no_key)
      ≡ (is_keyboard_code code && not (code == key_world_2 || code == key_f25))
translate_key_code_exact code = elim (Bool-cases (str_eq (translate_key_code code) no_key)) [
  | inl e ↦ elim (Bool-cases (is_keyboard_code code)) [
    | inl k ↦
        (let row : has_case code ≡ true =
            passes_below-at has_case 121 code (ground arith) has_case_table in
          ground (arith, row))
    | inr k ↦ ground arith
  ]
  | inr e ↦ ground (
    arith,
    translate_key_code-Keyed code e,
    keyless code key_world_2 without_case.0,
    keyless code key_f25 without_case.1,
  )
]
