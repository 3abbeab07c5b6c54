-- ===== src/Renderer/Holds.antt =====
-- What a step of a frame that goes on has done, while it stays in range and waits for no fence that
-- nothing will signal: one rule for each first step.
use playground_engine.Base.{
  ℕ, ◌<◌, ◌≡◌, refl, sym, subst, List, [], ◌∷◌, ◌++◌, Option, none, some, Bool, true, false,
  if◌then◌else◌, length, is_some,
}
use playground_engine.Renderer.Device.{Device, Call}
use playground_engine.Renderer.Result.{Outcome, ok, failed, M}
use playground_engine.Renderer.State.{RendererVulkan, RendererRenderErrorKind}
use playground_engine.Renderer.Step.{
  Drawn, drawn, stopped, out_of_range, Running, N, go_on, ◌>>=◌, return, stop, self, change, index,
  tell, query, attempt, reported,
}
use playground_engine.Renderer.Ensures.{Succeeded}
use playground_engine.Renderer.Fences.{fence_calls, fences_after, same-fences_after, Settled}
use playground_engine.Renderer.Runs.{Mild, Same, Still, index-in}

-- No wait so far was for a fence that nothing will signal.
abbrev pub Wakes : List Call → Type 0
Wakes calls = is_some (fences_after [] calls) ≡ true

pub Settled-Wakes : (calls : List Call) → Settled calls → Wakes calls
Settled-Wakes calls e = rw e refl

pub same-Wakes :
    (calls after : List Call) → Wakes calls → fence_calls after ≡ fence_calls calls → Wakes after
same-Wakes calls after w e = rw (same-fences_after calls after e) w

abbrev pub Fine : {A : Type 0} → (A → Running → Type 0) → Drawn A × Running → Type 0
Fine Q (drawn a, t) = Q a t
Fine Q (stopped e, t) = Wakes t.1
Fine Q (out_of_range, t) = ⊥

pub record Holds {A : Type 0} (Q : A → Running → Type 0) (m : N A) (s : Running) : Type 0 where
  pub at : Fine Q (m s)

pub Holds-return :
    {A : Type 0} {Q : A → Running → Type 0} (a : A) (s : Running) → Q a s → Holds Q (return a) s
unfolding return
Holds-return a s q = record { at = q }

pub Holds-stop :
    {A : Type 0} {Q : A → Running → Type 0} (e : RendererRenderErrorKind) (s : Running)
    → Wakes s.1
    → Holds Q (stop e) s
unfolding stop
Holds-stop e s w = record { at = w }

pub Holds-if :
    {A : Type 0} {Q : A → Running → Type 0} (b : Bool) (m n : N A) (s : Running)
    → (b ≡ true → Holds Q m s)
    → (b ≡ false → Holds Q n s)
    → Holds Q (if b then m else n) s
Holds-if true m n s hm hn = hm refl
Holds-if false m n s hm hn = hn refl

pub Holds-change :
    {Q : Unit {0} → Running → Type 0} (g : RendererVulkan → RendererVulkan) (s : Running)
    → Q tt (g s.0, s.1)
    → Holds Q (change g) s
unfolding change
Holds-change g s q = record { at = q }

module _ {A B : Type 0} {Q : B → Running → Type 0} where
  pub Holds-bind :
      (P : A → Running → Type 0) (m : N A) (f : A → N B) (s : Running)
      → Fine P (m s)
      → ((a : A) (t : Running) → P a t → Holds Q (f a) t)
      → Holds Q (m >>= f) s
  unfolding ◌>>=◌
  Holds-bind P m f s h later = record { at = step (m s) h }
    where
      step : (r : Drawn A × Running) → Fine P r → Fine Q (go_on r f)
      step (drawn a, t) p = (later a t p).at
      step (stopped e, t) p = p
      step (out_of_range, t) p = p

  pub Holds-Mild :
      (m : N A) (f : A → N B) (s : Running)
      → Mild m s
      → Wakes s.1
      → ((a : A) (t : Running) → Same s t → Holds Q (f a) t)
      → Holds Q (m >>= f) s
  Holds-Mild m f s k w later = Holds-bind (λ a t. Same s t) m f s (step (m s) k.at) later
    where
      step : (r : Drawn A × Running) → Still s r → Fine (λ a t. Same s t) r
      step (drawn a, t) h = h
      step (stopped e, t) h = same-Wakes s.1 t.1 w h.1
      step (out_of_range, t) h = h

  pub Holds-index :
      (xs : List A) (i : ℕ) (f : A → N B) (s : Running)
      → i < length xs
      → ((x : A) → Holds Q (f x) s)
      → Holds Q (index xs i >>= f) s
  unfolding ◌>>=◌
  Holds-index xs i f s h later =
      let (x, e) = index-in xs i s h in
      record { at = subst (λ r. Fine Q (go_on r f)) (sym e) (later x).at }

  -- A creation: what it ensures, and that it touched no fence.
  pub Holds-attempt :
      (P : A → List Call → Type 0) (e : RendererRenderErrorKind) (m : M A) (f : A → N B)
      (s : Running)
      → Succeeded P (m s.1)
      → fence_calls (m s.1).1 ≡ fence_calls s.1
      → Wakes s.1
      → ((a : A) (calls : List Call)
          → P a calls
          → fence_calls calls ≡ fence_calls s.1
          → Holds Q (f a) (s.0, calls))
      → Holds Q (attempt e m >>= f) s
  unfolding attempt
  Holds-attempt P e m f s p k w later =
      Holds-bind (λ a t. (t.0 ≡ s.0) × P a t.1 × (fence_calls t.1 ≡ fence_calls s.1)) _ f s
        (step (m s.1) p k)
        (λ a t h. subst (λ r. Holds Q (f a) (r, t.1)) (sym h.0) (later a t.1 h.1 h.2))
    where
      step :
          (r : Outcome A × List Call)
          → Succeeded P r
          → fence_calls r.1 ≡ fence_calls s.1
          → Fine
              (λ a t. (t.0 ≡ s.0) × P a t.1 × (fence_calls t.1 ≡ fence_calls s.1))
              (reported e s.0 r)
      step (ok a, calls) h same = (refl, h, same)
      step (failed x, calls) h same = same-Wakes s.1 calls w same

module _ {B : Type 0} {Q : B → Running → Type 0} where
  pub Holds-self :
      (f : RendererVulkan → N B) (s : Running) → Holds Q (f s.0) s → Holds Q (self >>= f) s
  unfolding self ◌>>=◌
  Holds-self f s h = record { at = h.at }

  pub Holds-changed :
      (g : RendererVulkan → RendererVulkan) (f : Unit {0} → N B) (s : Running)
      → Holds Q (f tt) (g s.0, s.1)
      → Holds Q (change g >>= f) s
  unfolding change ◌>>=◌
  Holds-changed g f s h = record { at = h.at }

  pub Holds-told :
      (c : Call) (f : Unit {0} → N B) (s : Running)
      → Holds Q (f tt) (s.0, s.1 ++ (c ∷ []))
      → Holds Q (tell c >>= f) s
  unfolding tell ◌>>=◌
  Holds-told c f s h = record { at = h.at }

  pub Holds-queried :
      (device : Device) (c : Call) (e : RendererRenderErrorKind) (f : ℕ → N B) (s : Running)
      → Wakes (s.1 ++ (c ∷ []))
      → ((handle : ℕ) → Holds Q (f handle) (s.0, s.1 ++ (c ∷ [])))
      → Holds Q (query device c e >>= f) s
  unfolding query ◌>>=◌
  Holds-queried device c e f s w later = record { at = answered (device.answer s.1 c) }
    where
      answered :
          (o : Option ℕ)
          → Fine Q (
              go_on {A = ℕ}
                (elim o [
                  | none ↦ (stopped e, (s.0, s.1 ++ (c ∷ [])))
                  | some handle ↦ (drawn handle, (s.0, s.1 ++ (c ∷ [])))
                ])
                f)
      answered none = w
      answered (some handle) = (later handle).at
