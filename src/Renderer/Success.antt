-- ===== src/Renderer/Success.antt =====
-- A device that answers every call creates what it is asked for: one rule for each way to build a
-- creation of PlaygroundEngine/src/Renderer/VulkanUtils.cpp.
use playground_engine.Base.{
  zero, suc, subst, get_elem?, all_of, ◌+◌, ◌/◌, ◌%◌, ◌^◌, ℕ, ◌≡◌, refl, List, [], ◌∷◌, Option,
  none, some, Bool, true, false, is_some, arith,
}
use playground_engine.Renderer.Device.{
  Device, Call, host_visible, host_coherent, device_local, MemoryProperty,
  RendererCreationErrorKind,
}
use playground_engine.Renderer.Result.{
  Outcome, ok, failed, M, continue, ◌>>=◌, return, tell, ask, require,
}
use playground_engine.Renderer.Choices.{find_type_from, find_memory_type}

abbrev pub is_ok : {A : Type 0} → Outcome A → Bool
is_ok (ok a) = true
is_ok (failed e) = false

pub record Succeeds {A : Type 0} (m : M A) : Type 0 where
  pub at : (calls : List Call) → is_ok (m calls).0 ≡ true

-- The memory types that Vulkan promises for each buffer and image: one that the requirements of
-- the handle allow by its bit, with the properties.
abbrev pub HasType : Device → ℕ → List MemoryProperty → Type 0
HasType device handle properties =
    (index : ℕ) × (flags : MemoryProperty → Bool) × (get_elem? device.physical.memory_types index
      ≡ some flags)
    × (device.memory_type_bits handle / 2 ^ index % 2 ≡ 1)
    × (all_of flags properties ≡ true)

-- Every call is answered, and each handle may be in memory that the host sees and in the device's.
pub record IsObliging (device : Device) : Type 0 where
  pub answers : (calls : List Call) (c : Call) → is_some (device.answer calls c) ≡ true
  pub host : (handle : ℕ) → HasType device handle (host_visible ∷ host_coherent ∷ [])
  pub local : (handle : ℕ) → HasType device handle (device_local ∷ [])

-- The search from an index on finds the type `ahead` places further, or an earlier one.
find_type_from-some :
    (types : List (MemoryProperty → Bool)) (type_filter index ahead : ℕ)
    (properties : List MemoryProperty) (flags : MemoryProperty → Bool)
    → get_elem? types ahead ≡ some flags
    → type_filter / 2 ^ (index + ahead) % 2 ≡ 1
    → all_of flags properties ≡ true
    → is_some (find_type_from types type_filter properties index) ≡ true
unfolding find_type_from
find_type_from-some [] type_filter index ahead properties flags at bit suits = cc
find_type_from-some (f ∷ types) type_filter index zero properties flags at bit suits =
    let same : f ≡ flags = cc in
    let here : index + 0 ≡ index = omega arith in
    let own : type_filter / 2 ^ index % 2 ≡ 1 = subst (λ i. type_filter / 2 ^ i % 2 ≡ 1) here bit in
    rw (same, suits, own) refl
find_type_from-some (f ∷ types) type_filter index (suc ahead) properties flags at bit suits =
    let further : index + suc ahead ≡ index + 1 + ahead = omega arith in
    ground (
      arith,
      find_type_from-some types type_filter (index + 1) ahead properties flags at
          (subst (λ i. type_filter / 2 ^ i % 2 ≡ 1) further bit) suits,
    )

find_memory_type-some :
    (device : Device) (handle : ℕ) (properties : List MemoryProperty)
    → HasType device handle properties
    → is_some (find_memory_type device.physical (device.memory_type_bits handle) properties) ≡ true
unfolding find_memory_type
find_memory_type-some device handle properties (index, flags, at, bit, suits) =
    let start : index ≡ 0 + index = omega arith in
    find_type_from-some device.physical.memory_types (device.memory_type_bits handle) 0 index
      properties flags at (subst (λ i. device.memory_type_bits handle / 2 ^ i % 2 ≡ 1) start bit)
      suits

Succeeds-return : {A : Type 0} (a : A) → Succeeds (return a)
unfolding return
Succeeds-return a = record { at = λ calls. refl }

Succeeds-tell : (c : Call) → Succeeds (tell c)
unfolding tell
Succeeds-tell c = record { at = λ calls. refl }

Succeeds-require :
    {A : Type 0} (o : Option A) (e : RendererCreationErrorKind)
    → is_some o ≡ true
    → Succeeds (require o e)
unfolding require
Succeeds-require none e h = record { at = λ calls. h }
Succeeds-require (some a) e h = record { at = λ calls. refl }

Succeeds-ask :
    (device : Device) (c : Call) (e : RendererCreationErrorKind)
    → IsObliging device
    → Succeeds (ask device c e)
unfolding ask
Succeeds-ask device c e o = record { at = λ calls. ground (arith, o.answers calls c) }

Succeeds-host :
    (device : Device) (handle : ℕ) (e : RendererCreationErrorKind)
    → IsObliging device
    → Succeeds (
        require
          (find_memory_type device.physical
            (device.memory_type_bits handle)
            (host_visible ∷ host_coherent ∷ []))
          e)
Succeeds-host device handle e o =
    Succeeds-require _ e (find_memory_type-some device handle _ (o.host handle))

Succeeds-local :
    (device : Device) (handle : ℕ) (e : RendererCreationErrorKind)
    → IsObliging device
    → Succeeds (
        require
          (find_memory_type device.physical (device.memory_type_bits handle) (device_local ∷ []))
          e)
Succeeds-local device handle e o =
    Succeeds-require _ e (find_memory_type-some device handle _ (o.local handle))

Succeeds-bind :
    {A B : Type 0} (m : M A) (f : A → M B)
    → Succeeds m
    → ((a : A) → Succeeds (f a))
    → Succeeds (m >>= f)
unfolding ◌>>=◌
Succeeds-bind {A = A} m f sm sf = record { at = λ calls. step (m calls) (sm.at calls) }
  where
    step : (r : Outcome A × List Call) → is_ok r.0 ≡ true → is_ok (continue r f).0 ≡ true
    step (ok a, calls) h = (sf a).at calls
    step (failed e, calls) h = cc

ruleset success_rules =
    (Succeeds-return, Succeeds-tell, Succeeds-ask, Succeeds-host, Succeeds-local, Succeeds-bind)

-- The value and the calls of a success that is known.
abbrev pub Yields : {A : Type 0} → (A → List Call → Type 0) → Outcome A × List Call → Type 0
Yields {A = A} Q r = (a : A) × (after : List Call) × (r ≡ (ok a, after)) × Q a after
