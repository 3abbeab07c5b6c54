-- ===== src/Ecs/Examples.antt =====
-- A short life of a store, and the theorems on Ecs/Ecs.cppm and Ecs.cpp at it.
use playground_engine.OrderedMap.Nested.{assign_in}
use playground_engine.Base.{
  suc, length, ◌&&◌, if◌then◌else◌, ◌∷◌, ◌≢◌, arith, ◌==◌, some, any_of, false, none, ◌≤◌, [], true,
  ℕ, ◌≡◌, refl,
}
use playground_engine.Ecs.{
  find_component, components_of_type, get_components, get_entities, Ecs, new, add_entity,
  add_component_to_entity, destroy_entity, destroy_component, try_get_component, is_entity_alive,
  get_components_with_entities,
}
use playground_engine.OrderedMap.{insert_or_assign, find, try_emplace, erase, keys}
use playground_engine.Ecs.View.{entity, alive}
use playground_engine.Ecs.History.{
  next_id, Reach, here, next, entity_added, component_added, Reach-IsConsistent, dead_forever,
}
use playground_engine.Ecs.Consistency.{IsConsistent}
use playground_engine.Ecs.Destroy.{
  destroy_entity_effect, destroy_component_effect, add_component_to_entity_effect,
}
use playground_engine.Ecs.Enumeration.{
  listed, owners, ids, Ascending, get_components_with_entities_exact, get_entities_exact,
}

abbrev with_id : ℕ → Ecs → Ecs
with_id n ecs = record ecs {
  last_entity_id = n;
  components_per_entity = try_emplace n [] ecs.components_per_entity;
}

abbrev one_entity : Ecs
one_entity = with_id 1 new

abbrev two_entities : Ecs
two_entities = with_id 2 one_entity

-- Type 10 on both entities, type 20 on the second.
abbrev populated : Ecs
populated =
    (add_component_to_entity 20 102 (entity 2)
      (add_component_to_entity 10 101 (entity 2)
        (add_component_to_entity 10 100 (entity 1) two_entities).0).0).0

two_entities_reached : Reach new two_entities
unfolding add_entity try_emplace
two_entities_reached =
    next (next here (entity_added (entity 1, one_entity) refl))
      (entity_added (entity 2, two_entities) refl)

populated_reached : Reach new populated
populated_reached =
    next (next (next two_entities_reached (component_added 10 100 1)) (component_added 10 101 2))
      (component_added 20 102 2)

lists_both : get_components_with_entities populated 10 ≡ (entity 1, 100) ∷ (entity 2, 101) ∷ []
unfolding get_components_with_entities add_component_to_entity find try_emplace assign_in
lists_both = refl

Reach-IsConsistent_example : IsConsistent populated
Reach-IsConsistent_example = Reach-IsConsistent populated_reached

destroy_entity_effect_example :
    (try_get_component (destroy_entity (entity 2) populated) 10 (entity 2) ≡ none)
    × (is_entity_alive (destroy_entity (entity 2) populated) (entity 2) ≡ false)
destroy_entity_effect_example =
    destroy_entity_effect 2 populated (Reach-IsConsistent populated_reached) 10 2

destroy_component_effect_example :
    (try_get_component (destroy_component 10 (entity 2) populated) 20 (entity 2)
      ≡ try_get_component populated 20 (entity 2))
    × (is_entity_alive (destroy_component 10 (entity 2) populated) (entity 2)
        ≡ is_entity_alive populated (entity 2))
destroy_component_effect_example = destroy_component_effect 10 2 populated 20 2

entity_1-living : is_entity_alive populated (entity 1) ≡ true
unfolding is_entity_alive add_component_to_entity find try_emplace assign_in insert_or_assign
entity_1-living = refl

entity_1-lacks_30 : try_get_component populated 30 (entity 1) ≡ none
unfolding try_get_component find_component components_of_type add_component_to_entity find
    try_emplace assign_in insert_or_assign
entity_1-lacks_30 = refl

add_component_to_entity_effect_example :
    let (after, returned) = add_component_to_entity 30 103 (entity 1) populated in
    (returned ≡ some 103)
    × (length (get_components after 30) ≡ suc (length (get_components populated 30)))
    × (try_get_component after 30 (entity 1)
        ≡ (if (30 == 30) && (1 == 1) then some 103 else try_get_component populated 30 (entity 1)))
    × (is_entity_alive after (entity 1) ≡ is_entity_alive populated (entity 1))
add_component_to_entity_effect_example =
    add_component_to_entity_effect 30 103 1 populated 30 1 entity_1-living entity_1-lacks_30

get_components_with_entities_exact_example :
    ((e : ℕ)
      → listed e (get_components_with_entities populated 10)
        ≡ try_get_component populated 10 (entity e))
    × Ascending (owners (get_components_with_entities populated 10))
get_components_with_entities_exact_example =
    get_components_with_entities_exact populated 10 populated_reached

get_entities_exact_example :
    ((e : ℕ)
      → any_of (λ i. i == e) (ids (get_entities populated)) ≡ is_entity_alive populated (entity e))
    × Ascending (ids (get_entities populated))
get_entities_exact_example = get_entities_exact populated populated_reached

destroyed_is_dead : alive (destroy_entity (entity 2) populated) 2 ≡ false
unfolding destroy_entity add_component_to_entity find try_emplace erase keys
destroyed_is_dead = refl

after_destroyed : 2 ≤ (destroy_entity (entity 2) populated).last_entity_id
unfolding destroy_entity add_component_to_entity find try_emplace erase keys
after_destroyed = omega arith

dead_forever_example :
    (alive (destroy_entity (entity 2) populated) 2 ≡ false)
    × (next_id (destroy_entity (entity 2) populated) ≢ some 2)
dead_forever_example =
    dead_forever {a = destroy_entity (entity 2) populated} 2 here after_destroyed destroyed_is_dead
