-- ===== src/AgentChannel/Tokens.antt =====
-- `Tokenize`, `ParseUnsigned` and `ParseFloat` of AgentChannel.cpp. A position in the line is the
-- rest of the line from there.
use playground_engine.Base.{
  ℕ, zero, suc, ◌+◌, ◌-◌, ◌*◌, ◌^◌, Bool, false, ◌&&◌, ◌||◌, Option, none, some, List, [], ◌∷◌,
  ◌==◌, leb, ltb, if◌then◌else◌, length, Text, is_empty,
}

-- " \t\r\n"
unfoldable pub is_separator : ℕ → Bool
is_separator c = c == 32 || (c == 9 || (c == 13 || c == 10))

-- `find_first_not_of(separators)`: the rest of the line from there, empty for npos.
unfoldable pub skip_separators : Text → Text
skip_separators [] = []
skip_separators (c ∷ rest) =
    let skipped = skip_separators rest in if is_separator c then skipped else c ∷ rest

-- `find_first_of(separators)`: what lies before it, and the rest of the line from there.
unfoldable pub token : Text → Text
token [] = []
token (c ∷ rest) = let more = token rest in if is_separator c then [] else c ∷ more

unfoldable pub after_token : Text → Text
after_token [] = []
after_token (c ∷ rest) = let more = after_token rest in if is_separator c then c ∷ rest else more

-- Each round of the loop consumes a byte at least, so the line's length is fuel enough.
unfoldable pub tokenize_loop : ℕ → Text → List Text
tokenize_loop zero rest = []
tokenize_loop (suc fuel) rest = elim (skip_separators rest) [
  | [] ↦ []
  | c ∷ s ↦ token (c ∷ s) ∷ tokenize_loop fuel (after_token (c ∷ s))
]

unfoldable pub tokenize : Text → List Text
unfolding tokenize_loop
tokenize line = tokenize_loop (length line) line

abbrev pub uint32_limit : ℕ
uint32_limit = 2 ^ 32

unfoldable pub is_digit : ℕ → Bool
is_digit c = leb 48 c && leb c 57

-- `from_chars` into a `uint32_t`: the value of the digits up to the first other byte, and what
-- follows them. `none` is an error, for no digit or a value out of range.
digits_from : ℕ → Text → ℕ × Text
unfolding is_digit
digits_from n [] = (n, [])
digits_from n (c ∷ rest) =
    let more = digits_from (n * 10 + (c - 48)) rest in if is_digit c then more else (n, c ∷ rest)

starts_with_digit : Text → Bool
unfolding is_digit
starts_with_digit [] = false
starts_with_digit (c ∷ rest) = is_digit c

unfoldable pub from_chars_unsigned : Text → Option (ℕ × Text)
unfolding digits_from starts_with_digit
from_chars_unsigned text =
    let read = digits_from 0 text in
    if starts_with_digit text && ltb read.0 uint32_limit then some read else none

unfoldable pub parse_unsigned : Text → Option ℕ
unfolding from_chars_unsigned
parse_unsigned text = elim (from_chars_unsigned text) [
  | none ↦ none
  | some (value, rest) ↦ if is_empty rest then some value else none
]

-- `from_chars` into a `float` and `isfinite`, which the standard library implements.
pub record FloatText (F : Type 0) : Type 0 where
  pub zero_float : F
  pub from_chars : Text → Option (F × Text)
  pub is_finite : F → Bool

unfoldable pub parse_float : {F : Type 0} → FloatText F → Text → Option F
parse_float floats text = elim (floats.from_chars text) [
  | none ↦ none
  | some (value, rest) ↦
      if is_empty rest then (if floats.is_finite value then some value else none) else none
]
