-- ===== src/Renderer/Step.antt =====
-- The steps of a frame: each reads and changes the renderer, calls the device, and either goes on,
-- stops with an error of Renderer/VulkanTypes.cppm, or reads past the end of an array, which C++
-- leaves undefined.
use playground_engine.Base.{ℕ, List, [], ◌∷◌, ◌++◌, none, some, get_elem?}
use playground_engine.Renderer.Device.{Device, Call}
use playground_engine.Renderer.Result.{Outcome, ok, failed, M}
use playground_engine.Renderer.State.{RendererVulkan, RendererRenderErrorKind}

pub data Drawn (A : Type 0) : Type 0 where
  drawn : A → Drawn A
  stopped : RendererRenderErrorKind → Drawn A
  out_of_range : Drawn A

-- The renderer with the calls made so far.
abbrev pub Running : Type 0
Running = RendererVulkan × List Call

abbrev pub N : Type 0 → Type 0
N A = Running → Drawn A × Running

abbrev pub go_on : {A B : Type 0} → Drawn A × Running → (A → N B) → Drawn B × Running
go_on (drawn a, s) f = f a s
go_on (stopped e, s) f = (stopped e, s)
go_on (out_of_range, s) f = (out_of_range, s)

infixl 5 ◌>>=◌ ◌>>◌
unfoldable pub ◌>>=◌ : {A B : Type 0} → N A → (A → N B) → N B
◌>>=◌ m f s = go_on (m s) f

abbrev pub ◌>>◌ : {A B : Type 0} → N A → N B → N B
◌>>◌ m f = m >>= λ _. f

unfoldable pub return : {A : Type 0} → A → N A
return a s = (drawn a, s)

unfoldable pub stop : {A : Type 0} → RendererRenderErrorKind → N A
stop e s = (stopped e, s)

unfoldable pub self : N RendererVulkan
self s = (drawn s.0, s)

unfoldable pub change : (RendererVulkan → RendererVulkan) → N (Unit {0})
change f s = (drawn tt, (f s.0, s.1))

-- The element of an array.
unfoldable pub index : {A : Type 0} → List A → ℕ → N A
index xs i s = elim (get_elem? xs i) [ none ↦ (out_of_range, s) | some x ↦ (drawn x, s) ]

unfoldable pub tell : Call → N (Unit {0})
tell call s = (drawn tt, (s.0, s.1 ++ (call ∷ [])))

unfoldable pub query : Device → Call → RendererRenderErrorKind → N ℕ
query device call e s =
    let after : Running = (s.0, s.1 ++ (call ∷ [])) in
    elim (device.answer s.1 call) [
      | none ↦ (stopped e, after)
      | some handle ↦ (drawn handle, after)
    ]

abbrev pub reported :
    {A : Type 0}
    → RendererRenderErrorKind
    → RendererVulkan
    → Outcome A × List Call
    → Drawn A × Running
reported e r (ok a, calls) = (drawn a, (r, calls))
reported e r (failed k, calls) = (stopped e, (r, calls))

-- A creation, whose errors become this one.
unfoldable pub attempt : {A : Type 0} → RendererRenderErrorKind → M A → N A
attempt e m s = reported e s.0 (m s.1)

-- A creation whose outcome is only logged.
unfoldable pub ignore : {A : Type 0} → M A → N (Unit {0})
ignore m s = (drawn tt, (s.0, (m s.1).1))
