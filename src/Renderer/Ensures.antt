-- ===== src/Renderer/Ensures.antt =====
-- What a creation that succeeds has done: one rule for each first step.
use playground_engine.Base.{
  ℕ, ◌≡◌, refl, ap, sym, ◌∙◌, List, [], ◌∷◌, ◌++◌, Option, none, some, Bool, true, false, map,
}
use playground_engine.Renderer.Device.{
  Device, Call, Command, record_command, RendererCreationErrorKind,
}
use playground_engine.Renderer.Result.{
  ask, ◌>>=◌, Outcome, ok, failed, M, continue, return, tell, require,
}
use playground_engine.Renderer.Transfers.{record_all}
use playground_engine.Renderer.Views.{Keeps, append_nil, marked, marked-append, append_nil}

-- The value and the calls of a success satisfy the predicate.
abbrev pub Succeeded : {A : Type 0} → (A → List Call → Type 0) → Outcome A × List Call → Type 0
Succeeded Q (ok a, calls) = Q a calls
Succeeded Q (failed e, calls) = Unit

pub Succeeded-calls :
    {A : Type 0} (P : List Call → Type 0) (r : Outcome A × List Call)
    → P r.1
    → Succeeded (λ a after. P after) r
Succeeded-calls P (ok a, after) h = h
Succeeded-calls P (failed e, after) h = tt

pub Succeeded-both :
    {A : Type 0} (P Q : A → List Call → Type 0) (r : Outcome A × List Call)
    → Succeeded P r
    → Succeeded Q r
    → Succeeded (λ a after. P a after × Q a after) r
Succeeded-both P Q (ok a, after) p q = (p, q)
Succeeded-both P Q (failed e, after) p q = tt

pub record Ensures {A : Type 0} (Q : A → List Call → Type 0) (m : M A) (calls : List Call)
    : Type 0 where
  pub at : Succeeded Q (m calls)

module _ {A B : Type 0} {Q : B → List Call → Type 0} where
  pub Ensures-bind :
      (P : A → List Call → Type 0) (m : M A) (f : A → M B) (calls : List Call)
      → Succeeded P (m calls)
      → ((a : A) (after : List Call) → P a after → Ensures Q (f a) after)
      → Ensures Q (m >>= f) calls
  unfolding ◌>>=◌
  Ensures-bind P m f calls p k = record { at = step (m calls) p }
    where
      step : (r : Outcome A × List Call) → Succeeded P r → Succeeded Q (continue r f)
      step (ok a, after) h = (k a after h).at
      step (failed e, after) h = tt

  -- A step after which the marked calls are what they were.
  pub Ensures-Keeps :
      (mark : Call → Bool) (before : List Call) (m : M A) (f : A → M B) (calls : List Call)
      → Keeps mark m
      → marked mark calls ≡ before
      → ((a : A) (after : List Call) → marked mark after ≡ before → Ensures Q (f a) after)
      → Ensures Q (m >>= f) calls
  unfolding ◌>>=◌
  Ensures-Keeps mark before m f calls k e later = record { at = step (m calls) (k.at calls ∙ e) }
    where
      step : (r : Outcome A × List Call) → marked mark r.1 ≡ before → Succeeded Q (continue r f)
      step (ok a, after) same = (later a after same).at
      step (failed x, after) same = tt

  -- A step about which nothing is used.
  pub Ensures-any :
      (m : M A) (f : A → M B) (calls : List Call)
      → ((a : A) (after : List Call) → Ensures Q (f a) after)
      → Ensures Q (m >>= f) calls
  Ensures-any m f calls later =
      Ensures-bind (λ a after. Unit {0}) m f calls (any (m calls)) (λ a after h. later a after)
    where
      any : (r : Outcome A × List Call) → Succeeded (λ a after. Unit {0}) r
      any (ok a, after) = tt
      any (failed x, after) = tt

  pub Ensures-require :
      (o : Option A) (e : RendererCreationErrorKind) (f : A → M B) (calls : List Call)
      → ((a : A) → o ≡ some a → Ensures Q (f a) calls)
      → Ensures Q (require o e >>= f) calls
  unfolding require ◌>>=◌
  Ensures-require none e f calls later = record { at = tt }
  Ensures-require (some a) e f calls later = record { at = (later a refl).at }

module _ {B : Type 0} {Q : B → List Call → Type 0} where
  answered :
      (o : Option ℕ) (e : RendererCreationErrorKind) (f : ℕ → M B) (after : List Call)
      → ((handle : ℕ) → o ≡ some handle → Ensures Q (f handle) after)
      → Succeeded Q
          (continue (elim o [ none ↦ (failed e, after) | some handle ↦ (ok handle, after) ]) f)
  answered none e f after later = tt
  answered (some handle) e f after later = (later handle refl).at

  pub Ensures-ask :
      (device : Device) (call : Call) (e : RendererCreationErrorKind) (f : ℕ → M B)
      (calls : List Call)
      → ((handle : ℕ)
          → device.answer calls call ≡ some handle
          → Ensures Q (f handle) (calls ++ (call ∷ [])))
      → Ensures Q (ask device call e >>= f) calls
  unfolding ask ◌>>=◌
  Ensures-ask device call e f calls later = record {
    at = answered (device.answer calls call) e f (calls ++ (call ∷ [])) later;
  }

pub Ensures-return :
    {A : Type 0} {Q : A → List Call → Type 0} (a : A) (calls : List Call)
    → Q a calls
    → Ensures Q (return a) calls
unfolding return
Ensures-return a calls q = record { at = q }

abbrev pub is_record : Call → Bool
is_record (record_command buffer c) = true
is_record _ = false

append_assoc : (xs ys zs : List Call) → (xs ++ ys) ++ zs ≡ xs ++ (ys ++ zs)
append_assoc [] ys zs = refl
append_assoc (x ∷ xs) ys zs = ap (λ cs. x ∷ cs) (append_assoc xs ys zs)

-- The recording of a list adds it.
pub marked-record_all :
    (buffer : ℕ) (commands : List Command) (calls : List Call)
    → marked is_record (record_all buffer commands calls).1
      ≡ marked is_record calls ++ map (record_command buffer) commands
unfolding record_all tell return marked ◌>>=◌
marked-record_all buffer [] calls = sym (append_nil (marked is_record calls))
marked-record_all buffer (c ∷ commands) calls =
    marked-record_all buffer commands (calls ++ (record_command buffer c ∷ []))
    ∙ ap (λ (cs : List Call). cs ++ map (record_command buffer) commands)
        (marked-append is_record calls (record_command buffer c ∷ []))
    ∙ append_assoc (marked is_record calls) (record_command buffer c ∷ [])
        (map (record_command buffer) commands)
