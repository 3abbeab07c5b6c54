-- ===== src/Renderer/Views.antt =====
-- Which calls a creation makes: one rule for each way to build it. A view of the calls keeps those
-- that it marks.
use playground_engine.Base.{
  ℕ, zero, suc, ◌≡◌, refl, ap, ◌∙◌, List, [], ◌∷◌, ◌++◌, Option, none, some, Bool, true, false,
  if◌then◌else◌, arith,
}
use playground_engine.Renderer.Device.{
  Device, Call, record_command, wait_for_fence, reset_fence, submit_frame,
  RendererCreationErrorKind,
}
use playground_engine.Renderer.Result.{
  Outcome, ok, failed, M, continue, ◌>>=◌, return, fail, tell, ask, require, as_error, repeat,
  for_each,
}

unfoldable pub marked : (Call → Bool) → List Call → List Call
marked mark [] = []
marked mark (c ∷ calls) = if mark c then c ∷ marked mark calls else marked mark calls

pub marked-append :
    (mark : Call → Bool) (calls more : List Call)
    → marked mark (calls ++ more) ≡ marked mark calls ++ marked mark more
unfolding marked
marked-append mark [] more = refl
marked-append mark (c ∷ calls) more = ground (arith, marked-append mark calls more)

pub append_nil : (calls : List Call) → calls ++ [] ≡ calls
append_nil [] = refl
append_nil (c ∷ calls) = ap (λ cs. c ∷ cs) (append_nil calls)

pub marked-quiet :
    (mark : Call → Bool) (calls : List Call) (c : Call)
    → mark c ≡ false
    → marked mark (calls ++ (c ∷ [])) ≡ marked mark calls
unfolding marked
marked-quiet mark calls c q =
    rw (marked-append mark calls (c ∷ []), q) (append_nil (marked mark calls))

-- The calls that make and fill resources: all but the recording and those about fences.
abbrev pub is_plain : Call → Bool
is_plain (record_command buffer c) = false
is_plain (wait_for_fence fence) = false
is_plain (reset_fence fence) = false
is_plain (submit_frame buffer wait signal fence) = false
is_plain _ = true

-- A mark of none of the plain calls.
pub record Passes (mark : Call → Bool) : Type 0 where
  pub at : (c : Call) → is_plain c ≡ true → mark c ≡ false

pub record Keeps {A : Type 0} (mark : Call → Bool) (m : M A) : Type 0 where
  pub at : (calls : List Call) → marked mark (m calls).1 ≡ marked mark calls

ask-after :
    (device : Device) (c : Call) (e : RendererCreationErrorKind) (calls : List Call)
    → (ask device c e calls).1 ≡ calls ++ (c ∷ [])
unfolding ask
ask-after device c e calls = ground arith

module _ {mark : Call → Bool} where
  pub Keeps-return : {A : Type 0} (a : A) → Keeps mark (return a)
  unfolding return
  Keeps-return a = record { at = λ calls. refl }

  pub Keeps-fail : {A : Type 0} (e : RendererCreationErrorKind) → Keeps mark (fail {A = A} e)
  unfolding fail
  Keeps-fail e = record { at = λ calls. refl }

  pub Keeps-tell : (c : Call) → Passes mark → is_plain c ≡ true → Keeps mark (tell c)
  unfolding tell
  Keeps-tell c p q = record { at = λ calls. marked-quiet mark calls c (p.at c q) }

  pub Keeps-ask :
      (device : Device) (c : Call) (e : RendererCreationErrorKind)
      → Passes mark
      → is_plain c ≡ true
      → Keeps mark (ask device c e)
  Keeps-ask device c e p q = record {
    at = λ calls. rw (ask-after device c e calls) (marked-quiet mark calls c (p.at c q));
  }

  pub Keeps-require :
      {A : Type 0} (o : Option A) (e : RendererCreationErrorKind) → Keeps mark (require o e)
  unfolding require
  Keeps-require none e = record { at = λ calls. refl }
  Keeps-require (some a) e = record { at = λ calls. refl }

  pub Keeps-as_error :
      {A : Type 0} (e : RendererCreationErrorKind) (m : M A)
      → Keeps mark m
      → Keeps mark (as_error e m)
  unfolding as_error
  Keeps-as_error e m k = record { at = λ calls. ground (arith, k.at calls) }

  continue-Keeps :
      {A B : Type 0} (r : Outcome A × List Call) (f : A → M B)
      → ((a : A) → Keeps mark (f a))
      → marked mark (continue r f).1 ≡ marked mark r.1
  continue-Keeps (ok a, calls) f k = (k a).at calls
  continue-Keeps (failed e, calls) f k = refl

  pub Keeps-bind :
      {A B : Type 0} (m : M A) (f : A → M B)
      → Keeps mark m
      → ((a : A) → Keeps mark (f a))
      → Keeps mark (m >>= f)
  unfolding ◌>>=◌
  Keeps-bind m f km kf = record { at = λ calls. continue-Keeps (m calls) f kf ∙ km.at calls }

  pub Keeps-if :
      {A : Type 0} (b : Bool) (m n : M A)
      → Keeps mark m
      → Keeps mark n
      → Keeps mark (if b then m else n)
  Keeps-if true m n km kn = km
  Keeps-if false m n km kn = kn

  pub Keeps-repeat : {A : Type 0} (n : ℕ) (m : M A) → Keeps mark m → Keeps mark (repeat n m)
  unfolding repeat
  Keeps-repeat zero m k = Keeps-return []
  Keeps-repeat (suc n) m k =
      Keeps-bind m (λ a. repeat n m >>= λ rest. return (a ∷ rest)) k
        (λ a.
          Keeps-bind (repeat n m) (λ rest. return (a ∷ rest)) (Keeps-repeat n m k)
            (λ rest. Keeps-return (a ∷ rest)))

  pub Keeps-for_each :
      {A B : Type 0} (f : A → M B) (xs : List A)
      → ((a : A) → Keeps mark (f a))
      → Keeps mark (for_each f xs)
  unfolding for_each
  Keeps-for_each f [] k = Keeps-return []
  Keeps-for_each f (x ∷ xs) k =
      Keeps-bind (f x) (λ b. for_each f xs >>= λ rest. return (b ∷ rest)) (k x)
        (λ b.
          Keeps-bind (for_each f xs) (λ rest. return (b ∷ rest)) (Keeps-for_each f xs k)
            (λ rest. Keeps-return (b ∷ rest)))

pub ruleset keeps_rules = (
  Keeps-return, Keeps-fail, Keeps-tell, Keeps-ask, Keeps-require, Keeps-as_error, Keeps-bind,
  Keeps-if, Keeps-repeat, Keeps-for_each,
)
