-- ===== src/Ecs/Enumeration.antt =====
-- What `GetEntities` and `GetComponentsWithEntities` of Ecs/Ecs.cppm and Ecs.cpp enumerate.
use playground_engine.Base.{
  ◌∙◌, ℕ, ◌<◌, ◌≡◌, refl, Option, none, some, List, [], ◌∷◌, map, arith, ◌==◌, any_of,
  if◌then◌else◌, value_or, Option-cases, inl, inr,
}
use playground_engine.OrderedMap.{OrderedMap, find, keys, any_of-keys}
use playground_engine.OrderedMap.Order.{Above, IsOrdered}
use playground_engine.Ecs.{
  Entity, Ecs, ComponentRecord, ComponentsByEntity, new, get_entities, get_components_with_entities,
  is_entity_alive, try_get_component,
}
use playground_engine.Ecs.View.{entity, instance_of}
use playground_engine.Ecs.History.{Reach}
use playground_engine.Ecs.Ordering.{Reach-HasOrder}

-- Each id lies above all those before it, so none is listed twice.
abbrev pub AllAbove : ℕ → List ℕ → Type 0
AllAbove i [] = Unit
AllAbove i (j ∷ ids) = (i < j) × AllAbove i ids

abbrev pub Ascending : List ℕ → Type 0
Ascending [] = Unit
Ascending (i ∷ ids) = AllAbove i ids × Ascending ids

-- The component that a listing pairs with an entity.
abbrev pub listed : ℕ → List (Entity × ℕ) → Option ℕ
listed e [] = none
listed e ((owner, c) ∷ rest) = if owner.id == e then some c else listed e rest

abbrev pub ids : List Entity → List ℕ
ids [] = []
ids (e ∷ es) = e.id ∷ ids es

abbrev pub owners : List (Entity × ℕ) → List ℕ
owners [] = []
owners ((e, c) ∷ rest) = e.id ∷ owners rest

abbrev pair : ℕ × ComponentRecord → Entity × ℕ
pair e = (record { id = e.0 }, e.1.instance_ptr)

AllAbove-owners : (i : ℕ) (m : ComponentsByEntity) → Above i m → AllAbove i (owners (map pair m))
AllAbove-owners i [] a = tt
AllAbove-owners i (x ∷ m) a = (a.0, AllAbove-owners i m a.1)

Ascending-owners : (m : ComponentsByEntity) → IsOrdered m → Ascending (owners (map pair m))
Ascending-owners [] o = tt
Ascending-owners (x ∷ m) o = (AllAbove-owners x.0 m o.0, Ascending-owners m o.1)

listed-map : (e : ℕ) (m : ComponentsByEntity) → listed e (map pair m) ≡ instance_of (find e m)
unfolding find
listed-map e [] = refl
listed-map e ((j, c) ∷ m) = ground (arith, listed-map e m)

-- In every store that the operations lead to, `GetComponentsWithEntities` lists an entity exactly
-- when `TryGetComponent` finds a component of that type on it, pairs it with that component, and
-- lists the entities in ascending id order, each once.
pub get_components_with_entities_exact :
    (ecs : Ecs) (t : ℕ)
    → Reach new ecs
    → ((e : ℕ) → listed e (get_components_with_entities ecs t) ≡ try_get_component ecs t (entity e))
      × Ascending (owners (get_components_with_entities ecs t))
unfolding get_components_with_entities try_get_component
get_components_with_entities_exact ecs t r = (
  λ e. ground (arith, listed-map e (value_or (find t ecs.components_per_type) [])),
  elim (Option-cases (find t ecs.components_per_type)) [
    | inl q ↦ rw q tt
    | inr (m, q) ↦ rw q (Ascending-owners m ((Reach-HasOrder r).types t m q))
  ],
)

abbrev handle : ℕ → Entity
handle id = record { id = id }

AllAbove-keys {ℓ} :
    {V : Type ℓ} (i : ℕ) (m : OrderedMap V) → Above i m → AllAbove i (ids (map handle (keys m)))
unfolding keys
AllAbove-keys i [] a = tt
AllAbove-keys i ((j, v) ∷ m) a = (a.0, AllAbove-keys i m a.1)

Ascending-keys {ℓ} :
    {V : Type ℓ} (m : OrderedMap V) → IsOrdered m → Ascending (ids (map handle (keys m)))
unfolding keys
Ascending-keys [] o = tt
Ascending-keys ((j, v) ∷ m) o = (AllAbove-keys j m o.0, Ascending-keys m o.1)

any_of-ids :
    (e : ℕ) (ks : List ℕ) → any_of (λ i. i == e) (ids (map handle ks)) ≡ any_of (λ i. i == e) ks
any_of-ids e [] = refl
any_of-ids e (k ∷ ks) = rw (any_of-ids e ks)

-- In every store that the operations lead to, `GetEntities` lists exactly the living entities, in
-- ascending id order, each once.
pub get_entities_exact :
    (ecs : Ecs)
    → Reach new ecs
    → ((e : ℕ) → any_of (λ i. i == e) (ids (get_entities ecs)) ≡ is_entity_alive ecs (entity e))
      × Ascending (ids (get_entities ecs))
unfolding get_entities is_entity_alive
get_entities_exact ecs r = (
  λ e. any_of-ids e (keys ecs.components_per_entity) ∙ any_of-keys e ecs.components_per_entity,
  Ascending-keys ecs.components_per_entity (Reach-HasOrder r).entities,
)
