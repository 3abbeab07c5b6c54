-- ===== src/Base/Tables.antt =====
-- Checks by evaluation: over the numbers below a bound, and over the elements of a list.
use Prim.Native.Nat.{ℕ, zero, suc, ◌<◌}
use mathlib.Core.Path.{◌≡◌}
use mathlib.Core.Bool.{false, Bool, true, ◌&&◌}
use mathlib.Core.List.{List, [], ◌∷◌}
use native.Mathlib.Omega.{arith}
use playground_engine.Base.Lists.{All}
use playground_engine.Base.Tests.{if◌then◌else◌}

module _ (test : ℕ → Bool) where
  unfoldable pub passes_below : ℕ → Bool
  passes_below zero = true
  passes_below (suc bound) = if test bound then passes_below bound else false

  pub passes_below-at : (bound k : ℕ) → k < bound → passes_below bound ≡ true → test k ≡ true
  unfolding passes_below
  passes_below-at zero k within table = absurd (omega arith)
  passes_below-at (suc bound) k within table = ground (arith, passes_below-at bound k)

module _ {ℓ} {A : Type ℓ} where
  unfoldable pub all_of : (A → Bool) → List A → Bool
  all_of p [] = true
  all_of p (x ∷ xs) = p x && all_of p xs

  pub all_of_sound : (p : A → Bool) (xs : List A) → all_of p xs ≡ true → All (λ x. p x ≡ true) xs
  unfolding all_of
  all_of_sound p [] h = tt
  all_of_sound p (x ∷ xs) h = (ground arith, all_of_sound p xs (ground arith))
