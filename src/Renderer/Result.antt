-- ===== src/Renderer/Result.antt =====
-- `CreationResult` of PlaygroundEngine/src/Renderer/VulkanTypes.cppm: a value, or an error that the
-- caller returns at once, with the calls made up to then.
use playground_engine.Base.{ℕ, zero, suc, Option, none, some, List, [], ◌∷◌, ◌++◌}
use playground_engine.Renderer.Device.{RendererCreationErrorKind, Call, Device}

pub data Outcome (A : Type 0) : Type 0 where
  ok : A → Outcome A
  failed : RendererCreationErrorKind → Outcome A

abbrev pub M : Type 0 → Type 0
M A = List Call → Outcome A × List Call

abbrev pub continue : {A B : Type 0} → Outcome A × List Call → (A → M B) → Outcome B × List Call
continue (ok a, calls) f = f a calls
continue (failed e, calls) f = (failed e, calls)

infixl 5 ◌>>=◌ ◌>>◌
unfoldable pub ◌>>=◌ : {A B : Type 0} → M A → (A → M B) → M B
◌>>=◌ m f calls = continue (m calls) f

abbrev pub ◌>>◌ : {A B : Type 0} → M A → M B → M B
◌>>◌ m f = m >>= λ _. f

unfoldable pub return : {A : Type 0} → A → M A
return a calls = (ok a, calls)

unfoldable pub fail : {A : Type 0} → RendererCreationErrorKind → M A
fail e calls = (failed e, calls)

-- A call that cannot fail.
unfoldable pub tell : Call → M (Unit {0})
tell call calls = (ok tt, calls ++ (call ∷ []))

-- A call of the device, whose failure is this error.
unfoldable pub ask : Device → Call → RendererCreationErrorKind → M ℕ
ask device call e calls = elim (device.answer calls call) [
  | none ↦ (failed e, calls ++ (call ∷ []))
  | some handle ↦ (ok handle, calls ++ (call ∷ []))
]

unfoldable pub require : {A : Type 0} → Option A → RendererCreationErrorKind → M A
require none e calls = (failed e, calls)
require (some a) e calls = (ok a, calls)

-- A result that the caller reports as another error.
unfoldable pub as_error : {A : Type 0} → RendererCreationErrorKind → M A → M A
as_error e m calls =
    let (result, after) = m calls in
    elim result [ ok a ↦ (ok a, after) | failed k ↦ (failed e, after) ]

-- As many values as rounds, each from a run.
unfoldable pub repeat : {A : Type 0} → ℕ → M A → M (List A)
unfolding return
repeat zero m = return []
repeat (suc rounds) m = do a ← m; rest ← repeat rounds m; return (a ∷ rest)

unfoldable pub for_each : {A B : Type 0} → (A → M B) → List A → M (List B)
unfolding return
for_each f [] = return []
for_each f (x ∷ xs) = do b ← f x; rest ← for_each f xs; return (b ∷ rest)
