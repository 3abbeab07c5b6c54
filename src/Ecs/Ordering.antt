-- ===== src/Ecs/Ordering.antt =====
-- The order in which Ecs/Ecs.cppm and Ecs.cpp enumerate entities and components.
use playground_engine.Base.{
  ◌+◌, subst, Bool-cases, ℕ, ◌≡◌, some, List, [], ◌∷◌, arith, ◌==◌, value_or, Option-cases, inl,
  inr,
}
use playground_engine.OrderedMap.{
  OrderedMap, find, insert_or_assign, erase, keys, find-insert_or_assign,
}
use playground_engine.OrderedMap.Nested.{assign_in, erase_in}
use playground_engine.OrderedMap.Order.{
  IsOrdered, insert_or_assign-IsOrdered, try_emplace-IsOrdered, erase-IsOrdered,
}
use playground_engine.Ecs.{
  Entity, Ecs, ComponentRecord, ComponentsByEntity, new, add_system, add_entity,
  add_component_to_entity, destroy_entity, destroy_component, erase_from_types,
}
use playground_engine.Ecs.View.{types-add_entity, entities-add_entity, entity}
use playground_engine.Ecs.History.{
  Step, Reach, system_added, entity_added, component_added, component_destroyed, entity_destroyed,
  here, next,
}

-- Every inner map of an index is in key order.
abbrev InnerOrdered : OrderedMap ComponentsByEntity → Type 0
InnerOrdered outer = (t : ℕ) (m : ComponentsByEntity) → find t outer ≡ some m → IsOrdered m

pub record HasOrder (ecs : Ecs) : Type 0 where
  pub entities : IsOrdered ecs.components_per_entity
  pub types : InnerOrdered ecs.components_per_type

insert-InnerOrdered :
    (t : ℕ) (inner : ComponentsByEntity) (outer : OrderedMap ComponentsByEntity)
    → IsOrdered inner
    → InnerOrdered outer
    → InnerOrdered (insert_or_assign t inner outer)
insert-InnerOrdered t inner outer ordered h t' m p = elim (Bool-cases (t == t')) [
  | inl same ↦
      let e : inner ≡ m = ground (arith, find-insert_or_assign t t' inner outer) in
      subst IsOrdered e ordered
  | inr other ↦ h t' m (ground (arith, find-insert_or_assign t t' inner outer))
]

assign_in-InnerOrdered :
    (t e : ℕ) (c : ComponentRecord) (outer : OrderedMap ComponentsByEntity)
    → InnerOrdered outer
    → InnerOrdered (assign_in t e c outer)
unfolding assign_in
assign_in-InnerOrdered t e c outer h =
    insert-InnerOrdered t _ outer
      (insert_or_assign-IsOrdered e c (value_or (find t outer) [])
        (elim (Option-cases (find t outer)) [ inl q ↦ rw q tt | inr (m, q) ↦ rw q (h t m q) ]))
      h

erase_in-InnerOrdered :
    (t e : ℕ) (outer : OrderedMap ComponentsByEntity)
    → InnerOrdered outer
    → InnerOrdered (erase_in t e outer)
unfolding erase_in
erase_in-InnerOrdered t e outer h = elim (Option-cases (find t outer)) [
  | inl q ↦ rw (q, erase_in) h
  | inr (m, q) ↦
      rw (q, erase_in) (insert-InnerOrdered t (erase e m) outer (erase-IsOrdered e m (h t m q)) h)
]

erase_from_types-InnerOrdered :
    (id : ℕ) (types : List ℕ) (outer : OrderedMap ComponentsByEntity)
    → InnerOrdered outer
    → InnerOrdered (erase_from_types id types outer)
unfolding erase_from_types
erase_from_types-InnerOrdered id [] outer h = h
erase_from_types-InnerOrdered id (t ∷ types) outer h =
    erase_from_types-InnerOrdered id types (erase_in t id outer)
      (erase_in-InnerOrdered t id outer h)

add_entity-HasOrder :
    (ecs : Ecs) (r : Entity × Ecs) → add_entity ecs ≡ some r → HasOrder ecs → HasOrder r.1
add_entity-HasOrder ecs r ok h = record {
  entities =
      rw (entities-add_entity ecs r ok)
        (try_emplace-IsOrdered (ecs.last_entity_id + 1) [] ecs.components_per_entity h.entities);
  types = rw (types-add_entity ecs r ok) h.types;
}

add_component-HasOrder :
    (t c e : ℕ) (ecs : Ecs) → HasOrder ecs → HasOrder (add_component_to_entity t c (entity e) ecs).0
unfolding add_component_to_entity
add_component-HasOrder t c e ecs h = elim (Option-cases (find e ecs.components_per_entity)) [
  | inl q ↦ rw (q, add_component_to_entity) h
  | inr (m, q) ↦
      rw (q, add_component_to_entity)
        (record {
          entities = insert_or_assign-IsOrdered e _ ecs.components_per_entity h.entities;
          types = assign_in-InnerOrdered t e _ ecs.components_per_type h.types;
        })
]

erase_in-IsOrdered :
    (e t : ℕ) (outer : OrderedMap ComponentsByEntity)
    → IsOrdered outer
    → IsOrdered (erase_in e t outer)
unfolding erase_in
erase_in-IsOrdered e t outer h = elim (Option-cases (find e outer)) [
  | inl q ↦ rw (q, erase_in) h
  | inr (m, q) ↦ rw (q, erase_in) (insert_or_assign-IsOrdered e (erase t m) outer h)
]

destroy_component-HasOrder :
    (t e : ℕ) (ecs : Ecs) → HasOrder ecs → HasOrder (destroy_component t (entity e) ecs)
unfolding destroy_component
destroy_component-HasOrder t e ecs h = record {
  entities = erase_in-IsOrdered e t ecs.components_per_entity h.entities;
  types = erase_in-InnerOrdered t e ecs.components_per_type h.types;
}

destroy_entity-HasOrder :
    (e : ℕ) (ecs : Ecs) → HasOrder ecs → HasOrder (destroy_entity (entity e) ecs)
unfolding destroy_entity
destroy_entity-HasOrder e ecs h = elim (Option-cases (find e ecs.components_per_entity)) [
  | inl q ↦ rw (q, destroy_entity) h
  | inr (m, q) ↦
      rw (q, destroy_entity)
        (record {
          entities = erase-IsOrdered e ecs.components_per_entity h.entities;
          types = erase_from_types-InnerOrdered e (keys m) ecs.components_per_type h.types;
        })
]

Step-HasOrder : {a b : Ecs} → Step a b → HasOrder a → HasOrder b
unfolding add_system
Step-HasOrder (system_added s) h = record { entities = h.entities; types = h.types }
Step-HasOrder {a} (entity_added r ok) h = add_entity-HasOrder a r ok h
Step-HasOrder {a} (component_added t c e) h = add_component-HasOrder t c e a h
Step-HasOrder {a} (component_destroyed t e) h = destroy_component-HasOrder t e a h
Step-HasOrder {a} (entity_destroyed e) h = destroy_entity-HasOrder e a h

new-HasOrder : HasOrder new
unfolding find
new-HasOrder = record { entities = tt; types = λ t m p. cc }

pub Reach-HasOrder : {ecs : Ecs} → Reach new ecs → HasOrder ecs
Reach-HasOrder here = new-HasOrder
Reach-HasOrder (next r s) = Step-HasOrder s (Reach-HasOrder r)
