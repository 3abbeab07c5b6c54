-- ===== src/Renderer/Fences.antt =====
-- The fences of a frame, as a reading of the calls: a fence that was reset is signalled by nothing
-- until a submission names it, and a wait for one of those never ends.
use playground_engine.Base.{
  ℕ, ◌≡◌, refl, sym, ap, ◌∙◌, List, [], ◌∷◌, ◌++◌, Option, none, some, Bool, true, false,
  if◌then◌else◌, bind, any_of, ◌==◌, arith, ==_refl,
}
use playground_engine.Renderer.Device.{Call, wait_for_fence, reset_fence, submit_frame}
use playground_engine.Renderer.Views.{marked, Passes, is_plain}

abbrev pub is_fence_call : Call → Bool
is_fence_call (wait_for_fence fence) = true
is_fence_call (reset_fence fence) = true
is_fence_call (submit_frame buffer wait signal fence) = true
is_fence_call _ = false

abbrev pub fence_calls : List Call → List Call
fence_calls calls = marked is_fence_call calls

unfoldable pub without : ℕ → List ℕ → List ℕ
without fence [] = []
without fence (f ∷ fences) = if f == fence then without fence fences else f ∷ without fence fences

-- The fences that nothing will signal, after the calls; none once one of those was waited for.
unfoldable pub fences_after : List ℕ → List Call → Option (List ℕ)
unfolding without
fences_after dead [] = some dead
fences_after dead (wait_for_fence fence ∷ calls) =
    let later = fences_after dead calls in if any_of (λ f. f == fence) dead then none else later
fences_after dead (reset_fence fence ∷ calls) = fences_after (fence ∷ dead) calls
fences_after dead (submit_frame buffer wait signal fence ∷ calls) =
    fences_after (without fence dead) calls
fences_after dead (_ ∷ calls) = fences_after dead calls

pub fences_after-marked :
    (dead : List ℕ) (calls : List Call)
    → fences_after dead (fence_calls calls) ≡ fences_after dead calls
unfolding fences_after marked
fences_after-marked dead [] = refl
fences_after-marked dead (wait_for_fence fence ∷ calls) = rw (fences_after-marked dead calls) refl
fences_after-marked dead (reset_fence fence ∷ calls) = fences_after-marked (fence ∷ dead) calls
fences_after-marked dead (submit_frame buffer wait signal fence ∷ calls) =
    fences_after-marked (without fence dead) calls
fences_after-marked dead (_ ∷ calls) = fences_after-marked dead calls

pub fences_after-append :
    (dead : List ℕ) (calls more : List Call)
    → fences_after dead (calls ++ more) ≡ bind (fences_after dead calls) (λ d. fences_after d more)
unfolding fences_after
fences_after-append dead [] more = refl
fences_after-append dead (wait_for_fence fence ∷ calls) more =
    ground (arith, fences_after-append dead calls more)
fences_after-append dead (reset_fence fence ∷ calls) more =
    fences_after-append (fence ∷ dead) calls more
fences_after-append dead (submit_frame buffer wait signal fence ∷ calls) more =
    fences_after-append (without fence dead) calls more
fences_after-append dead (_ ∷ calls) more = fences_after-append dead calls more

-- Calls about no fence change nothing.
pub same-fences_after :
    (calls after : List Call)
    → fence_calls after ≡ fence_calls calls
    → fences_after [] after ≡ fences_after [] calls
same-fences_after calls after e =
    sym (fences_after-marked [] after) ∙ ap (fences_after []) e ∙ fences_after-marked [] calls

abbrev pub Settled : List Call → Type 0
Settled calls = fences_after [] calls ≡ some []

abbrev pub Unsignalled : ℕ → List Call → Type 0
Unsignalled fence calls = fences_after [] calls ≡ some (fence ∷ [])

pub wait-Settled :
    (fence : ℕ) (calls : List Call) → Settled calls → Settled (calls ++ (wait_for_fence fence ∷ []))
unfolding fences_after
wait-Settled fence calls e = rw (fences_after-append [] calls (wait_for_fence fence ∷ []), e) refl

pub reset-Unsignalled :
    (fence : ℕ) (calls : List Call)
    → Settled calls
    → Unsignalled fence (calls ++ (reset_fence fence ∷ []))
unfolding fences_after
reset-Unsignalled fence calls e = rw (fences_after-append [] calls (reset_fence fence ∷ []), e) refl

pub submit-Settled :
    (buffer wait signal fence : ℕ) (calls : List Call)
    → Unsignalled fence calls
    → Settled (calls ++ (submit_frame buffer wait signal fence ∷ []))
unfolding fences_after without
submit-Settled buffer wait signal fence calls e =
    rw (fences_after-append [] calls (submit_frame buffer wait signal fence ∷ []), e, ==_refl fence)
      refl

pub is_fence_call-Passes : Passes is_fence_call
is_fence_call-Passes = record { at = passes }
  where
    passes : (c : Call) → is_plain c ≡ true → is_fence_call c ≡ false
    passes (wait_for_fence fence) h = cc
    passes (reset_fence fence) h = cc
    passes (submit_frame buffer wait signal fence) h = cc
    passes _ h = refl
