-- ===== src/Spawner.antt =====
-- The game's spawner: PlaygroundGame/src/Ecs/EntitySpawnerSystem/EntitySpawnerSystem.cpp, over the
-- store and a heap. `none` is undefined behaviour: a null pointer or an `int` overflow.
pub mod Targets
pub mod Spawns
mod Examples
use playground_engine.Base.{
  ℕ, ◌+◌, Option, none, some, List, [], ◌∷◌, ◌++◌, ◌==◌, ltb, if◌then◌else◌, bind, Text,
}
use playground_engine.Base.{front}
use playground_engine.Ecs.{
  get_components, Entity, Ecs, invalid_id, int_max, add_entity, add_component_to_entity,
  is_entity_alive, destroy_entity, destroy_component,
}
use playground_engine.Events.Codes.{InputCode}
use playground_engine.InputSystem.Component.{InputStateComponent, was_pressed_this_frame}

abbrev key_l : InputCode
key_l = 12

abbrev key_m : InputCode
key_m = 13

abbrev key_p : InputCode
key_p = 16

pub record EntitySpawnerSystem : Type 0 where
  pub spawned_entities : List Entity
  pub spawn_count : ℕ

-- `P` is a position.
pub record GameWorld (P : Type 0) : Type 0 where
  pub ecs : Ecs
  pub names : ℕ → Text
  pub positions : ℕ → P

-- The addresses of the four `TypeInfo`s, and those that `make_shared` gives.
pub record Addresses : Type 0 where
  pub name_type : ℕ
  pub transform_type : ℕ
  pub mesh_type : ℕ
  pub input_type : ℕ
  pub new_name : ℕ
  pub new_transform : ℕ
  pub new_mesh : ℕ

-- `std::format("PlaygroundGame {}", n)` and the position of the n-th spawn.
pub record Spawning (P : Type 0) : Type 0 where
  pub name_for : ℕ → Text
  pub position_for : ℕ → P

-- `TakeFirstSpawnedEntity`: the entity, and those that are left.
unfoldable pub take_first_spawned_entity : Ecs → List Entity → Entity × List Entity
take_first_spawned_entity ecs [] = (record { id = invalid_id }, [])
take_first_spawned_entity ecs (entity ∷ rest) =
    let later = take_first_spawned_entity ecs rest in
    if is_entity_alive ecs entity then (entity, rest) else later

module _ {P : Type 0} (a : Addresses) where
  abbrev pub with_ecs : Ecs → GameWorld P → GameWorld P
  with_ecs ecs world = record world { ecs = ecs }

  -- `DestroyFirstSpawnedEntity` and `DestroyFirstSpawnedEntityName`.
  unfoldable pub destroy_first_spawned_entity :
      EntitySpawnerSystem → GameWorld P → EntitySpawnerSystem × GameWorld P
  destroy_first_spawned_entity system world =
      let (entity, rest) = take_first_spawned_entity world.ecs system.spawned_entities in
      (
        record system { spawned_entities = rest },
        if entity.id == invalid_id then world else with_ecs (destroy_entity entity world.ecs) world,
      )

  unfoldable pub destroy_first_spawned_entity_name :
      EntitySpawnerSystem → GameWorld P → EntitySpawnerSystem × GameWorld P
  destroy_first_spawned_entity_name system world =
      let (entity, rest) = take_first_spawned_entity world.ecs system.spawned_entities in
      (
        record system { spawned_entities = rest },
        if entity.id == invalid_id
            then world
            else with_ecs (destroy_component a.name_type entity world.ecs) world,
      )

  module _ (spawning : Spawning P) where
    unfoldable pub write_transform : ℕ → Ecs × Option ℕ → GameWorld P → Option (GameWorld P)
    write_transform ordinal (ecs, none) world = none
    write_transform ordinal (ecs, some address) world = some (record world {
      ecs = ecs;
      positions = λ p. if p == address then spawning.position_for ordinal else world.positions p;
    })

    unfoldable pub write_name : ℕ → Ecs × Option ℕ → GameWorld P → Option (GameWorld P)
    write_name ordinal (ecs, none) world = none
    write_name ordinal (ecs, some address) world = some (record world {
      ecs = ecs;
      names = λ p. if p == address then spawning.name_for ordinal else world.names p;
    })

    -- The body of `SpawnEntity` from the ordinal on.
    unfoldable pub fill_entity : ℕ → Entity → GameWorld P → Option (GameWorld P)
    unfolding write_name write_transform
    fill_entity ordinal entity world =
        bind
          (write_name ordinal (add_component_to_entity a.name_type a.new_name entity world.ecs)
            world)
          (λ named.
            bind
              (write_transform ordinal
                (add_component_to_entity a.transform_type a.new_transform entity named.ecs) named)
              (λ placed. some (
                with_ecs (add_component_to_entity a.mesh_type a.new_mesh entity placed.ecs).0
                  placed)))

    unfoldable pub spawn_entity :
        EntitySpawnerSystem → GameWorld P → Option (EntitySpawnerSystem × GameWorld P)
    unfolding fill_entity
    spawn_entity system world = bind (add_entity world.ecs) (λ (r : Entity × Ecs).
        if ltb system.spawn_count int_max
        then bind (fill_entity (system.spawn_count + 1) r.0 (with_ecs r.1 world)) (λ filled. some (
          record {
            spawned_entities = system.spawned_entities ++ r.0 ∷ [];
            spawn_count = system.spawn_count + 1;
          },
          filled,
        ))
        else none)

    abbrev after_presses :
        InputStateComponent
        → EntitySpawnerSystem
        → GameWorld P
        → Option (EntitySpawnerSystem × GameWorld P)
    after_presses input_state system world =
        bind
          (if was_pressed_this_frame input_state key_p
            then spawn_entity system world
            else some (system, world))
          (λ spawned.
            let destroyed =
              if was_pressed_this_frame input_state key_l
              then destroy_first_spawned_entity spawned.0 spawned.1
              else spawned in
            some (
              if was_pressed_this_frame input_state key_m
              then destroy_first_spawned_entity_name destroyed.0 destroyed.1
              else destroyed))

    -- `Step`; `input_states` is what the addresses of input components hold.
    unfoldable pub step :
        (ℕ → InputStateComponent)
        → EntitySpawnerSystem
        → GameWorld P
        → Option (EntitySpawnerSystem × GameWorld P)
    step input_states system world = elim (front (get_components world.ecs a.input_type)) [
      | none ↦ some (system, world)
      | some address ↦ after_presses (input_states address) system world
    ]
