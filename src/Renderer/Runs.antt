-- ===== src/Renderer/Runs.antt =====
-- What a step of a frame leaves: one rule for each way to build it.
use playground_engine.Base.{
  ℕ, zero, suc, ◌<◌, ◌≡◌, refl, sym, ◌∙◌, subst, List, [], ◌∷◌, ◌++◌, Option, none, some, Bool,
  true, false, if◌then◌else◌, length, get_elem?, arith,
}
use playground_engine.Renderer.Device.{Device, Call}
use playground_engine.Renderer.Result.{M}
use playground_engine.Renderer.State.{RendererVulkan, RendererRenderErrorKind}
use playground_engine.Renderer.Step.{
  Drawn, drawn, stopped, out_of_range, Running, N, go_on, ◌>>=◌, return, self, index, tell, query,
  ignore,
}
use playground_engine.Renderer.Views.{marked-quiet, Keeps}
use playground_engine.Renderer.Fences.{is_fence_call, fence_calls}

-- The renderer is the same, and no call was about a fence.
abbrev pub Same : Running → Running → Type 0
Same s t = (t.0 ≡ s.0) × (fence_calls t.1 ≡ fence_calls s.1)

abbrev pub Still : {A : Type 0} → Running → Drawn A × Running → Type 0
Still s (drawn a, t) = Same s t
Still s (stopped e, t) = Same s t
Still s (out_of_range, t) = ⊥

-- A step that stays in range and changes neither.
pub record Mild {A : Type 0} (m : N A) (s : Running) : Type 0 where
  pub at : Still s (m s)

pub Same-trans : (s t u : Running) → Same s t → Same t u → Same s u
Same-trans s t u a b = (b.0 ∙ a.0, b.1 ∙ a.1)

pub Mild-return : {A : Type 0} (a : A) (s : Running) → Mild (return a) s
unfolding return
Mild-return a s = record { at = (refl, refl) }

pub Mild-tell : (c : Call) (s : Running) → is_fence_call c ≡ false → Mild (tell c) s
unfolding tell
Mild-tell c s q = record { at = (refl, marked-quiet is_fence_call s.1 c q) }

pub Mild-query :
    (device : Device) (c : Call) (e : RendererRenderErrorKind) (s : Running)
    → is_fence_call c ≡ false
    → Mild (query device c e) s
unfolding query
Mild-query device c e s q = record { at = answered (device.answer s.1 c) }
  where
    answered :
        (o : Option ℕ)
        → Still {A = ℕ} s (elim o [
          | none ↦ (stopped e, (s.0, s.1 ++ (c ∷ [])))
          | some handle ↦ (drawn handle, (s.0, s.1 ++ (c ∷ [])))
        ])
    answered none = (refl, marked-quiet is_fence_call s.1 c q)
    answered (some handle) = (refl, marked-quiet is_fence_call s.1 c q)

pub get_elem?-in :
    {A : Type 0} (xs : List A) (i : ℕ) → i < length xs → (x : A) × (get_elem? xs i ≡ some x)
get_elem?-in [] i h = absurd (omega arith)
get_elem?-in (x ∷ xs) zero h = (x, refl)
get_elem?-in (x ∷ xs) (suc i) h = get_elem?-in xs i (omega arith)

pub index-in :
    {A : Type 0} (xs : List A) (i : ℕ) (s : Running)
    → i < length xs
    → (x : A) × (index xs i s ≡ (drawn x, s))
unfolding index
index-in xs i s h = let (x, e) = get_elem?-in xs i h in (x, rw (e, index) refl)

pub Mild-index :
    {A : Type 0} (xs : List A) (i : ℕ) (s : Running) → i < length xs → Mild (index xs i) s
Mild-index xs i s h =
    let (x, e) = index-in xs i s h in record { at = subst (Still s) (sym e) (refl, refl) }

pub Mild-bind :
    {A B : Type 0} (m : N A) (f : A → N B) (s : Running)
    → Mild m s
    → ((a : A) (t : Running) → Same s t → Mild (f a) t)
    → Mild (m >>= f) s
unfolding ◌>>=◌
Mild-bind {A = A} m f s k later = record { at = step (m s) k.at }
  where
    carry : {B : Type 0} (t : Running) (r : Drawn B × Running) → Same s t → Still t r → Still s r
    carry t (drawn b, u) a h = Same-trans s t u a h
    carry t (stopped e, u) a h = Same-trans s t u a h
    carry t (out_of_range, u) a h = h

    step : (r : Drawn A × Running) → Still s r → Still s (go_on r f)
    step (drawn a, t) h = carry t (f a t) h (later a t h).at
    step (stopped e, t) h = h
    step (out_of_range, t) h = h

pub Mild-self :
    {B : Type 0} (f : RendererVulkan → N B) (s : Running) → Mild (f s.0) s → Mild (self >>= f) s
unfolding self ◌>>=◌
Mild-self f s k = record { at = k.at }

pub Mild-if :
    {A : Type 0} (b : Bool) (m n : N A) (s : Running)
    → (b ≡ true → Mild m s)
    → (b ≡ false → Mild n s)
    → Mild (if b then m else n) s
Mild-if true m n s km kn = km refl
Mild-if false m n s km kn = kn refl

pub Mild-ignore : {A : Type 0} (m : M A) (s : Running) → Keeps is_fence_call m → Mild (ignore m) s
unfolding ignore
Mild-ignore m s k = record { at = (refl, k.at s.1) }
