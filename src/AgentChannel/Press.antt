-- ===== src/AgentChannel/Press.antt =====
-- Every key can be pressed through the channel of AgentChannel.cpp, by the name it has.
use playground_engine.Base.{
  subst, subst, ap, ◌∙◌, ◌≡◌, refl, Bool, true, false, not, ◌&&◌, Option, none, some, [], ◌∷◌, Text,
  codes, is_empty, All, all_of, all_of_sound, passes_below, passes_below-at, if◌then◌else◌, arith,
}
use playground_engine.Reflection.Enumeration.{enum_to_name}
use playground_engine.Events.{event_of, key_pressed}
use playground_engine.Events.Codes.{InputCode, input_codes, is_keyboard_code}
use playground_engine.Events.Names.{enum_from_name-enum_to_name}
use playground_engine.Events.Types.{event_type_from_name}
use playground_engine.AgentChannel.Tokens.{FloatText, is_separator}
use playground_engine.AgentChannel.Words.{IsWord, spaced, tokenize-words}
use playground_engine.AgentChannel.Commands.{
  parse_command, parse_tokens, verb_event, parse_event, code_from_name, expected,
}

abbrev is_word : Option Text → Bool
is_word none = false
is_word (some name) = not (is_empty name) && all_of (λ c. not (is_separator c)) name

abbrev word_named : InputCode → Bool
word_named c = if is_keyboard_code c then is_word (enum_to_name input_codes c) else true

word_table : passes_below word_named 121 ≡ true
unfolding passes_below enum_to_name input_codes all_of is_separator
word_table = refl

no_separator :
    (name : Text)
    → All (λ c. not (is_separator c) ≡ true) name
    → All (λ c. is_separator c ≡ false) name
no_separator [] a = tt
no_separator (c ∷ name) a = (ground (arith, a.0), no_separator name a.1)

is_word-IsWord : (o : Option Text) (name : Text) → o ≡ some name → is_word o ≡ true → IsWord name
is_word-IsWord none name e h = cc
is_word-IsWord (some n) name e h =
    let same : n ≡ name = ground arith in
    let word : IsWord n =
      (ground arith, no_separator n (all_of_sound (λ c. not (is_separator c)) n (ground arith))) in
    subst IsWord same word

verb_press : event_type_from_name (codes "KeyPressed") ≡ some key_pressed
unfolding event_type_from_name
verb_press = refl

verb_table : all_of (λ c. not (is_separator c)) (codes "KeyPressed") ≡ true
unfolding all_of is_separator
verb_table = refl

press_tokens :
    {F : Type 0} (floats : FloatText F) (name : Text) (code : InputCode)
    → code_from_name name ≡ some code
    → is_keyboard_code code ≡ true
    → parse_tokens floats (codes "KeyPressed" ∷ name ∷ [])
      ≡ expected (record (event_of floats.zero_float key_pressed) { code = code })
unfolding parse_tokens parse_event
press_tokens floats name code e h =
    ap (λ v. verb_event floats v (name ∷ [])) verb_press ∙ unfold verb_event in ground arith

verb-IsWord : IsWord (codes "KeyPressed")
unfolding is_separator
verb-IsWord = (
  refl,
  no_separator (codes "KeyPressed")
      (all_of_sound (λ c. not (is_separator c)) (codes "KeyPressed") verb_table),
)

-- For every keyboard code there is a name, the one that the reflection gives it, such that the line
-- `KeyPressed` and that name, a space behind each, parses to the press of that key.
pub parse_command-press :
    {F : Type 0} (floats : FloatText F) (code : InputCode)
    → is_keyboard_code code ≡ true
    → (name : Text) × (enum_to_name input_codes code ≡ some name)
      × (parse_command floats (spaced (codes "KeyPressed" ∷ name ∷ []))
          ≡ expected (record (event_of floats.zero_float key_pressed) { code = code }))
unfolding parse_command
parse_command-press floats code h =
    let (name, to_name, from_name) = enum_from_name-enum_to_name code (ground arith) in
    let word : IsWord name = is_word-IsWord (enum_to_name input_codes code) name to_name (
      let row : word_named code ≡ true =
        passes_below-at word_named 121 code (ground arith) word_table in
      ground arith) in
    let split = (tokenize-words [] (codes "KeyPressed" ∷ name ∷ []) (verb-IsWord, (word, tt))).1 in
    (
      name,
      to_name,
      ap (parse_tokens floats) split
          ∙ press_tokens floats name code (unfold code_from_name in from_name) h,
    )
