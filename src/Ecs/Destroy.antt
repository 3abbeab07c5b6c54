-- ===== src/Ecs/Destroy.antt =====
-- What `AddComponentToEntity`, `DestroyComponent` and `DestroyEntity` of Ecs/Ecs.cppm and Ecs.cpp
-- do, as `TryGetComponent` and `IsEntityAlive` show it.
use playground_engine.Base.{
  suc, length, ℕ, ◌≡◌, false, true, ◌&&◌, none, some, arith, ◌==◌, if◌then◌else◌,
}
use playground_engine.Ecs.{
  get_components, Ecs, is_entity_alive, try_get_component, add_component_to_entity,
  destroy_component, destroy_entity,
}
use playground_engine.Ecs.View.{
  entity, try_get_component-by_type, by_type-add_component, alive-add_component,
  by_type-destroy_component, alive-destroy_component, by_type-destroy_entity, alive-destroy_entity,
}
use playground_engine.Ecs.Adding.{length-get_components-add_component}
use playground_engine.Ecs.Consistency.{IsConsistent}

-- On a living entity that has no component of the type yet, as the call demands: it returns the new
-- component, and after it the entity has that one of the type, of which there is one more; every
-- other pair, and who is alive, stays.
pub add_component_to_entity_effect :
    (t c e : ℕ) (ecs : Ecs) (t' e' : ℕ)
    → is_entity_alive ecs (entity e) ≡ true
    → try_get_component ecs t (entity e) ≡ none
    → let (after, returned) = add_component_to_entity t c (entity e) ecs in
      (returned ≡ some c)
      × (length (get_components after t) ≡ suc (length (get_components ecs t)))
      × (try_get_component after t' (entity e')
          ≡ (if (t == t') && (e == e') then some c else try_get_component ecs t' (entity e')))
      × (is_entity_alive after (entity e') ≡ is_entity_alive ecs (entity e'))
unfolding is_entity_alive
add_component_to_entity_effect t c e ecs t' e' living first = (
  unfold add_component_to_entity in ground (arith, living),
  length-get_components-add_component t c e ecs living first,
  rw
      (
        try_get_component-by_type (add_component_to_entity t c (entity e) ecs).0 t' e',
        try_get_component-by_type ecs t' e',
      )
      (ground (arith, living, by_type-add_component t c e ecs t' e')),
  alive-add_component t c e ecs e',
)

-- Exactly the named component goes; every other pair, and who is alive, stays.
pub destroy_component_effect :
    (t e : ℕ) (ecs : Ecs) (t' e' : ℕ)
    → (try_get_component (destroy_component t (entity e) ecs) t' (entity e')
        ≡ (if (t == t') && (e == e') then none else try_get_component ecs t' (entity e')))
      × (is_entity_alive (destroy_component t (entity e) ecs) (entity e')
          ≡ is_entity_alive ecs (entity e'))
unfolding is_entity_alive
destroy_component_effect t e ecs t' e' = (
  rw
      (
        try_get_component-by_type (destroy_component t (entity e) ecs) t' e',
        try_get_component-by_type ecs t' e',
      )
      (ground (arith, by_type-destroy_component t e ecs t' e')),
  alive-destroy_component t e ecs e',
)

-- In a consistent store, destroying an entity ends its life and takes every component of it, of
-- whatever type, out of reach; no other entity's component or life changes.
pub destroy_entity_effect :
    (e : ℕ) (ecs : Ecs)
    → IsConsistent ecs
    → (t' e' : ℕ)
    → (try_get_component (destroy_entity (entity e) ecs) t' (entity e')
        ≡ (if e == e' then none else try_get_component ecs t' (entity e')))
      × (is_entity_alive (destroy_entity (entity e) ecs) (entity e')
          ≡ (if e == e' then false else is_entity_alive ecs (entity e')))
unfolding is_entity_alive
destroy_entity_effect e ecs h t' e' = (
  rw
      (
        try_get_component-by_type (destroy_entity (entity e) ecs) t' e',
        try_get_component-by_type ecs t' e',
      )
      (ground (arith, by_type-destroy_entity e ecs t' e', h.agree t' e, h.agree t' e')),
  alive-destroy_entity e ecs e',
)
