-- ===== src/Ecs/View.antt =====
-- What the two indices of an `Ecs` say of a pair of a component type and an entity, and how each
-- operation of Ecs/Ecs.cppm and Ecs.cpp changes it.
use playground_engine.Base.{
  true, ◌+◌, ℕ, ◌≡◌, refl, Bool, false, ◌&&◌, Option, none, some, List, [], ◌∷◌, arith, ◌==◌,
  is_some, any_of, if◌then◌else◌, Option-cases, inl, inr,
}
use playground_engine.OrderedMap.{
  try_emplace, find-try_emplace, OrderedMap, find, contains, insert_or_assign, keys,
  find-insert_or_assign, find-erase, any_of-keys,
}
use playground_engine.OrderedMap.Nested.{
  find_in, erase_in, find_in-assign_in, find_in-erase_in, find-erase_in,
}
use playground_engine.Ecs.{
  add_entity, Entity, Ecs, ComponentRecord, typed_ref_of, ComponentsByEntity,
  add_component_to_entity, try_get_component, erase_from_types, destroy_entity, destroy_component,
}

-- The record that the index by type has, and the one that the index by entity has.
abbrev pub by_type : Ecs → ℕ → ℕ → Option ComponentRecord
by_type ecs t e = find_in t e ecs.components_per_type

abbrev pub by_entity : Ecs → ℕ → ℕ → Option ComponentRecord
by_entity ecs t e = find_in e t ecs.components_per_entity

abbrev pub alive : Ecs → ℕ → Bool
alive ecs e = contains e ecs.components_per_entity

abbrev pub instance_of : Option ComponentRecord → Option ℕ
instance_of none = none
instance_of (some c) = some c.instance_ptr

abbrev pub entity : ℕ → Entity
entity id = record { id = id }

find-empty : (e : ℕ) → find {V = ComponentRecord} e [] ≡ none
unfolding find
find-empty e = refl

-- `TryGetComponent` answers from the index by type.
pub try_get_component-by_type :
    (ecs : Ecs) (t e : ℕ) → try_get_component ecs t (entity e) ≡ instance_of (by_type ecs t e)
unfolding try_get_component
try_get_component-by_type ecs t e = ground (arith, find-empty e)

module _ (t c e : ℕ) (ecs : Ecs) where
  abbrev added : Ecs
  added = (add_component_to_entity t c (entity e) ecs).0

  abbrev fresh_record : ComponentRecord
  fresh_record = record { instance_ptr = c; ref = typed_ref_of t c }

  pub by_type-add_component :
      (t' e' : ℕ)
      → by_type added t' e'
        ≡ (if (alive ecs e && (t == t')) && (e == e') then some fresh_record else by_type ecs t' e')
  unfolding add_component_to_entity
  by_type-add_component t' e' =
      ground (arith, find_in-assign_in t e t' e' fresh_record ecs.components_per_type)

  pub by_entity-add_component :
      (t' e' : ℕ)
      → by_entity added t' e' ≡ (
          if (alive ecs e && (t == t')) && (e == e')
          then some fresh_record
          else by_entity ecs t' e')
  unfolding add_component_to_entity
  by_entity-add_component t' e' = elim (Option-cases (find e ecs.components_per_entity)) [
    | inl p ↦ ground (arith, p)
    | inr (m, p) ↦ ground (
      arith,
      p,
      find-insert_or_assign e e' (insert_or_assign t fresh_record m) ecs.components_per_entity,
      find-insert_or_assign t t' fresh_record m,
    )
  ]

  pub alive-add_component : (e' : ℕ) → alive added e' ≡ alive ecs e'
  unfolding add_component_to_entity
  alive-add_component e' = elim (Option-cases (find e ecs.components_per_entity)) [
    | inl p ↦ ground (arith, p)
    | inr (m, p) ↦ ground (
      arith,
      p,
      find-insert_or_assign e e' (insert_or_assign t fresh_record m) ecs.components_per_entity,
    )
  ]

module _ (t e : ℕ) (ecs : Ecs) (t' e' : ℕ) where
  pub by_type-destroy_component :
      by_type (destroy_component t (entity e) ecs) t' e'
      ≡ (if (t == t') && (e == e') then none else by_type ecs t' e')
  unfolding destroy_component
  by_type-destroy_component = find_in-erase_in t e t' e' ecs.components_per_type

  pub by_entity-destroy_component :
      by_entity (destroy_component t (entity e) ecs) t' e'
      ≡ (if (e == e') && (t == t') then none else by_entity ecs t' e')
  unfolding destroy_component
  by_entity-destroy_component = find_in-erase_in e t e' t' ecs.components_per_entity

pub alive-destroy_component :
    (t e : ℕ) (ecs : Ecs) (e' : ℕ) → alive (destroy_component t (entity e) ecs) e' ≡ alive ecs e'
unfolding destroy_component
alive-destroy_component t e ecs e' = ground (arith, find-erase_in e t e' ecs.components_per_entity)

-- The loop of `DestroyEntity` removes the entity from the types that it walks, and from no other.
pub find_in-erase_from_types :
    (id : ℕ) (types : List ℕ) (per_type : OrderedMap ComponentsByEntity) (t e : ℕ)
    → find_in t e (erase_from_types id types per_type)
      ≡ (if any_of (λ type. type == t) types && (id == e) then none else find_in t e per_type)
unfolding erase_from_types
find_in-erase_from_types id [] per_type t e = refl
find_in-erase_from_types id (type ∷ types) per_type t e = ground (
  arith,
  find_in-erase_from_types id types (erase_in type id per_type) t e,
  find_in-erase_in type id t e per_type,
)

module _ (e : ℕ) (ecs : Ecs) where
  abbrev destroyed : Ecs
  destroyed = destroy_entity (entity e) ecs

  -- The index by type loses the cells that the index by entity names for this entity.
  pub by_type-destroy_entity :
      (t e' : ℕ)
      → by_type destroyed t e'
        ≡ (if is_some (by_entity ecs t e) && (e == e') then none else by_type ecs t e')
  unfolding destroy_entity
  by_type-destroy_entity t e' = elim (Option-cases (find e ecs.components_per_entity)) [
    | inl p ↦ ground (arith, p)
    | inr (m, p) ↦ ground (
      arith,
      p,
      any_of-keys t m,
      find_in-erase_from_types e (keys m) ecs.components_per_type t e',
    )
  ]

  pub alive-destroy_entity :
      (e' : ℕ) → alive destroyed e' ≡ (if e == e' then false else alive ecs e')
  unfolding destroy_entity
  alive-destroy_entity e' =
      ground (arith, find-erase e e' ecs.components_per_entity, (find e ecs.components_per_entity))

  pub by_entity-destroy_entity :
      (t e' : ℕ) → by_entity destroyed t e' ≡ (if e == e' then none else by_entity ecs t e')
  unfolding destroy_entity
  by_entity-destroy_entity t e' = elim (Option-cases (find e ecs.components_per_entity)) [
    | inl p ↦ ground (arith, p)
    | inr (m, p) ↦ ground (arith, p, find-erase e e' ecs.components_per_entity)
  ]

module _ (t c e : ℕ) (ecs : Ecs) where
  pub last-add_component :
      (add_component_to_entity t c (entity e) ecs).0.last_entity_id ≡ ecs.last_entity_id
  unfolding add_component_to_entity
  last-add_component = ground arith

pub last-destroy_component :
    (t e : ℕ) (ecs : Ecs) → (destroy_component t (entity e) ecs).last_entity_id ≡ ecs.last_entity_id
unfolding destroy_component
last-destroy_component t e ecs = refl

pub last-destroy_entity :
    (e : ℕ) (ecs : Ecs) → (destroy_entity (entity e) ecs).last_entity_id ≡ ecs.last_entity_id
unfolding destroy_entity
last-destroy_entity e ecs = ground arith

-- A new entity is alive with no component, and no other pair changes.
module _ (ecs : Ecs) (r : Entity × Ecs) (ok : add_entity ecs ≡ some r) where
  pub id-add_entity : (r.0.id ≡ ecs.last_entity_id + 1) × (r.1.last_entity_id ≡ r.0.id)
  unfolding add_entity
  id-add_entity = ground arith

  pub by_type-add_entity : (t e : ℕ) → by_type r.1 t e ≡ by_type ecs t e
  unfolding add_entity
  by_type-add_entity t e = ground arith

  pub types-add_entity : r.1.components_per_type ≡ ecs.components_per_type
  unfolding add_entity
  types-add_entity = ground arith

  pub entities-add_entity :
      r.1.components_per_entity ≡ try_emplace (ecs.last_entity_id + 1) [] ecs.components_per_entity
  unfolding add_entity
  entities-add_entity = ground arith

  pub by_entity-add_entity : (t e : ℕ) → by_entity r.1 t e ≡ by_entity ecs t e
  by_entity-add_entity t e = rw entities-add_entity (
      ground (
        arith,
        find-empty t,
        find-try_emplace (ecs.last_entity_id + 1) e [] ecs.components_per_entity,
      ))

  pub alive-add_entity :
      (e : ℕ) → alive r.1 e ≡ (if ecs.last_entity_id + 1 == e then true else alive ecs e)
  alive-add_entity e =
      rw entities-add_entity
        (ground (arith, find-try_emplace (ecs.last_entity_id + 1) e [] ecs.components_per_entity))
