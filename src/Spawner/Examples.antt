-- ===== src/Spawner/Examples.antt =====
-- A press that spawns in an empty world, and one that destroys beside a player.
use playground_engine.Base.{ℕ, ◌≡◌, refl, true, some, [], ◌∷◌, ◌++◌}
use playground_engine.OrderedMap.{try_emplace}
use playground_engine.Ecs.{Ecs, new, add_entity, is_entity_alive, try_get_component}
use playground_engine.Ecs.View.{entity}
use playground_engine.Ecs.Consistency.{new-IsConsistent, add_entity-IsConsistent}
use playground_engine.Spawner.{
  EntitySpawnerSystem, GameWorld, Addresses, Spawning, spawn_entity, destroy_first_spawned_entity,
}
use playground_engine.Spawner.Targets.{destroy_first_spawned_entity_spares}
use playground_engine.Spawner.Spawns.{spawn_entity_alive}

abbrev addresses : Addresses
addresses = record {
  name_type = 10;
  transform_type = 20;
  mesh_type = 30;
  input_type = 40;
  new_name = 100;
  new_transform = 101;
  new_mesh = 102;
}

abbrev spawning : Spawning ℕ
spawning = record { name_for = λ n. 49 ∷ []; position_for = λ n. n }

abbrev with_store : Ecs → GameWorld ℕ
with_store ecs = record { ecs = ecs; names = λ a. []; positions = λ a. 0 }

abbrev nothing_spawned : EntitySpawnerSystem
nothing_spawned = record { spawned_entities = []; spawn_count = 0 }

abbrev with_player : Ecs
with_player = record new {
  last_entity_id = 1;
  components_per_entity = try_emplace 1 [] new.components_per_entity;
}

player_added : add_entity new ≡ some (entity 1, with_player)
unfolding add_entity try_emplace
player_added = refl

spawn_entity_alive_example :
    (after : EntitySpawnerSystem × GameWorld ℕ) × (spawn_entity addresses spawning nothing_spawned
        (with_store new)
      ≡ some after)
    × (is_entity_alive after.1.ecs (entity 1) ≡ true)
    × (after.0.spawned_entities ≡ [] ++ entity 1 ∷ [])
spawn_entity_alive_example =
    spawn_entity_alive addresses spawning nothing_spawned (with_store new) (entity 1, with_player)
      player_added refl

abbrev one_spawned : EntitySpawnerSystem
one_spawned = record { spawned_entities = entity 2 ∷ []; spawn_count = 1 }

abbrev with_spawned : Ecs
with_spawned = record with_player {
  last_entity_id = 2;
  components_per_entity = try_emplace 2 [] with_player.components_per_entity;
}

spawned_added : add_entity with_player ≡ some (entity 2, with_spawned)
unfolding add_entity try_emplace
spawned_added = refl

destroy_first_spawned_entity_spares_example :
    let after = (destroy_first_spawned_entity addresses one_spawned (with_store with_spawned)).1 in
    (is_entity_alive after.ecs (entity 1) ≡ is_entity_alive with_spawned (entity 1))
    × (try_get_component after.ecs 10 (entity 1) ≡ try_get_component with_spawned 10 (entity 1))
destroy_first_spawned_entity_spares_example =
    destroy_first_spawned_entity_spares addresses one_spawned (with_store with_spawned) 10 1
      (add_entity-IsConsistent with_player (entity 2, with_spawned) spawned_added
        (add_entity-IsConsistent new (entity 1, with_player) player_added new-IsConsistent))
      refl
