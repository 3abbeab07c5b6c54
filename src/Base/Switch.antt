-- ===== src/Base/Switch.antt =====
-- A `switch` over constants that each `case` returns a constant from: the labels and the results
-- by name, and the numbers that the labels stand for as a function of the name.
use Prim.Native.Nat.{ℕ}
use Prim.Native.String.{String}
use mathlib.Core.Path.{◌≡◌, refl, ap}
use mathlib.Core.Option.{Option, none, some}
use mathlib.Core.List.{List, [], ◌∷◌}
use native.Mathlib.Omega.{arith}
use text.Mathlib.Text.{◌==◌ as str_eq}
use text.Mathlib.TextEquality.{eq_iff}
use playground_engine.Base.Tests.{◌==◌, if◌then◌else◌}
use playground_engine.Base.Lists.{All}

abbrev pub Cases : Type 0
Cases = List (String × String)

-- The result of the case whose label stands for the number; `none` is `default`.
unfoldable pub find_case : (String → ℕ) → Cases → ℕ → Option String
find_case value [] n = none
find_case value ((label, result) ∷ rest) n =
    if value label == n then some result else find_case value rest n

-- The result of the case with this label.
unfoldable pub result_of : Cases → String → Option String
result_of [] l = none
result_of ((label, result) ∷ rest) l = if str_eq label l then some result else result_of rest l

-- No two labels stand for one number, which C++ demands of a `switch`: the number names its label.
abbrev pub HasDistinctLabels : (String → ℕ) → (ℕ → String) → Cases → Type 0
HasDistinctLabels value label_of cases =
    All (λ (c : String × String). label_of (value c.0) ≡ c.0) cases

-- Where the labels are distinct, the number of a label selects that label's case.
pub find_case-value :
    (value : String → ℕ) (label_of : ℕ → String) (cases : Cases) (l : String)
    → HasDistinctLabels value label_of cases
    → label_of (value l) ≡ l
    → find_case value cases (value l) ≡ result_of cases l
unfolding find_case result_of
find_case-value value label_of [] l d e = refl
find_case-value value label_of ((label, result) ∷ rest) l d e = ground (
  arith,
  find_case-value value label_of rest l,
  eq_iff label l,
  λ (p : value label ≡ value l). ap label_of p,
)
