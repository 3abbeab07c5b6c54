-- ===== src/AgentChannel/Words.antt =====
-- `Tokenize` of AgentChannel.cpp against a description of the words of a line.
use playground_engine.Base.{
  subst, ◌∙◌, ℕ, zero, suc, ◌≤◌, ◌≡◌, refl, ap, Bool, false, not, List, [], ◌∷◌, ◌++◌,
  if◌then◌else◌, length, Text, arith, Bool-cases, inl, inr, All, is_empty,
}
use playground_engine.AgentChannel.Tokens.{
  is_separator, skip_separators, token, after_token, tokenize_loop, tokenize,
}

abbrev pub begins_word : Text → Bool
begins_word [] = false
begins_word (c ∷ rest) = not (is_separator c)

abbrev pub extend_first : ℕ → List Text → List Text
extend_first c [] = (c ∷ []) ∷ []
extend_first c (w ∷ ws) = (c ∷ w) ∷ ws

-- The words of a line, read byte by byte: a separator ends a word, any other byte belongs to the
-- word that it stands in.
unfoldable pub words : Text → List Text
words [] = []
words (c ∷ rest) =
    let later = words rest in
    if is_separator c
    then later
    else if begins_word rest
    then extend_first c later
    else (c ∷ []) ∷ later

words-skip : (s : Text) → words (skip_separators s) ≡ words s
unfolding words skip_separators
words-skip [] = refl
words-skip (c ∷ rest) = ground (arith, words-skip rest)

words-token :
    (c : ℕ) (s : Text)
    → is_separator c ≡ false
    → words (c ∷ s) ≡ token (c ∷ s) ∷ words (after_token (c ∷ s))
unfolding words token after_token
words-token c [] h = ground arith
words-token c (d ∷ s) h = elim (Bool-cases (is_separator d)) [
  | inl e ↦ ground arith
  | inr e ↦ ground (arith, words-token d s e)
]

length-after_token : (s : Text) → length (after_token s) ≤ length s
unfolding after_token
length-after_token [] = omega arith
length-after_token (c ∷ s) = ground (arith, length-after_token s)

length-skip_separators : (s : Text) → length (skip_separators s) ≤ length s
unfolding skip_separators
length-skip_separators [] = omega arith
length-skip_separators (c ∷ s) = ground (arith, length-skip_separators s)

skip_separators-begins :
    (s : Text) (c : ℕ) (r : Text) → skip_separators s ≡ c ∷ r → is_separator c ≡ false
unfolding skip_separators
skip_separators-begins [] c r h = cc
skip_separators-begins (d ∷ s) c r h = ground (arith, skip_separators-begins s c r)

after_token-shorter :
    (c : ℕ) (s : Text) → is_separator c ≡ false → length (after_token (c ∷ s)) ≤ length s
unfolding after_token
after_token-shorter c s h = ground (arith, length-after_token s)

-- One round of the loop from a rest whose separators are skipped.
abbrev round : (fuel : ℕ) (skipped : Text) → List Text
round fuel [] = []
round fuel (c ∷ s) = token (c ∷ s) ∷ tokenize_loop fuel (after_token (c ∷ s))

tokenize_loop-round :
    (fuel : ℕ) (rest : Text) → tokenize_loop (suc fuel) rest ≡ round fuel (skip_separators rest)
unfolding tokenize_loop
tokenize_loop-round fuel rest = ground arith

tokenize_loop-words :
    (fuel : ℕ) (rest : Text) → length rest ≤ fuel → tokenize_loop fuel rest ≡ words rest
tokenize_loop-words zero [] h = unfold tokenize_loop words in refl
tokenize_loop-words zero (c ∷ rest) h = absurd (omega arith)
tokenize_loop-words (suc fuel) rest h =
    tokenize_loop-round fuel rest
    ∙ (go (skip_separators rest) refl (tokenize_loop-words fuel) ∙ words-skip rest)
  where
    go :
        (s : Text)
        → skip_separators rest ≡ s
        → ((r : Text) → length r ≤ fuel → tokenize_loop fuel r ≡ words r)
        → round fuel s ≡ words s
    go [] e ih = unfold words in refl
    go (c ∷ s) e ih =
        let n = skip_separators-begins rest c s e in
        let shorter = after_token-shorter c s n in
        let within : length (c ∷ s) ≤ length rest =
          subst (λ r. length r ≤ length rest) e (length-skip_separators rest) in
        rw (words-token c s n)
          (ap (λ ws. token (c ∷ s) ∷ ws) (ih (after_token (c ∷ s)) (omega arith)))

-- A word: at least one byte, and no separator.
abbrev pub IsWord : Text → Type 0
IsWord w = (is_empty w ≡ false) × All (λ c. is_separator c ≡ false) w

-- The words one after another, a space behind each.
abbrev pub spaced : List Text → Text
spaced [] = []
spaced (w ∷ ws) = w ++ (32 ∷ spaced ws)

words-word : (w rest : Text) → IsWord w → words (w ++ (32 ∷ rest)) ≡ w ∷ words rest
unfolding words is_separator
words-word [] rest h = cc (h.0)
words-word (c ∷ []) rest h = ground (arith, h.1.0)
words-word (c ∷ d ∷ w) rest h =
    ground (arith, h.1.0, h.1.1.0, words-word (d ∷ w) rest (refl, h.1.1))

words-spaced : (ws : List Text) → All IsWord ws → words (spaced ws) ≡ ws
words-spaced [] h = unfold words in refl
words-spaced (w ∷ ws) h = words-word w (spaced ws) h.0 ∙ ap (λ r. w ∷ r) (words-spaced ws h.1)

-- `Tokenize` answers the words of any line, which its loop finds within as many rounds as the line
-- has bytes; and words written one after another with a space behind each are read back.
pub tokenize-words :
    (line : Text) (ws : List Text)
    → All IsWord ws
    → (tokenize line ≡ words line) × (tokenize (spaced ws) ≡ ws)
unfolding tokenize
tokenize-words line ws h = (
  tokenize_loop-words (length line) line (omega arith),
  tokenize_loop-words (length (spaced ws)) (spaced ws) (omega arith) ∙ words-spaced ws h,
)
