-- ===== src/Spawner/Spawns.antt =====
-- That EntitySpawnerSystem.cpp of the game never writes through a null component.
use playground_engine.Base.{
  ℕ, ◌+◌, ◌∙◌, ap, ◌≡◌, refl, true, Option, none, some, [], ◌∷◌, ◌++◌, arith, ltb,
}
use playground_engine.Ecs.{
  Entity, Ecs, int_max, is_entity_alive, add_entity, add_component_to_entity,
}
use playground_engine.Ecs.View.{entity, alive-add_component, alive-add_entity, id-add_entity}
use playground_engine.Spawner.{
  with_ecs, EntitySpawnerSystem, GameWorld, Addresses, Spawning, write_name, write_transform,
  fill_entity, spawn_entity,
}

module _ {P : Type 0} (a : Addresses) (spawning : Spawning P) where
  written_name :
      (ordinal c : ℕ) (x : Ecs × Option ℕ) (world : GameWorld P)
      → x.1 ≡ some c
      → (w : GameWorld P) × (write_name a spawning ordinal x world ≡ some w) × (w.ecs ≡ x.0)
  unfolding write_name
  written_name ordinal c (ecs, none) world h = cc
  written_name ordinal c (ecs, some d) world h = (_, refl, refl)

  written_transform :
      (ordinal c : ℕ) (x : Ecs × Option ℕ) (world : GameWorld P)
      → x.1 ≡ some c
      → (w : GameWorld P) × (write_transform a spawning ordinal x world ≡ some w) × (w.ecs ≡ x.0)
  unfolding write_transform
  written_transform ordinal c (ecs, none) world h = cc
  written_transform ordinal c (ecs, some d) world h = (_, refl, refl)

  added :
      (t c e : ℕ) (ecs : Ecs)
      → is_entity_alive ecs (entity e) ≡ true
      → ((add_component_to_entity t c (entity e) ecs).1 ≡ some c)
        × (is_entity_alive (add_component_to_entity t c (entity e) ecs).0 (entity e) ≡ true)
  added t c e ecs living = (
    unfold is_entity_alive in unfold add_component_to_entity in ground (arith, living),
    unfold is_entity_alive in (alive-add_component t c e ecs e ∙ living),
  )

  fill_entity-alive :
      (ordinal e : ℕ) (world : GameWorld P)
      → is_entity_alive world.ecs (entity e) ≡ true
      → (w : GameWorld P) × (fill_entity a spawning ordinal (entity e) world ≡ some w)
        × (is_entity_alive w.ecs (entity e) ≡ true)
  unfolding fill_entity
  fill_entity-alive ordinal e world living =
      let first = added a.name_type a.new_name e world.ecs living in
      let (named, made, same) =
        written_name ordinal a.new_name
          (add_component_to_entity a.name_type a.new_name (entity e) world.ecs) world first.0 in
      let still : is_entity_alive named.ecs (entity e) ≡ true =
        ap (λ s. is_entity_alive s (entity e)) same ∙ first.1 in
      let second = added a.transform_type a.new_transform e named.ecs still in
      let (placed, put, same') =
        written_transform ordinal a.new_transform
          (add_component_to_entity a.transform_type a.new_transform (entity e) named.ecs) named
          second.0 in
      let still' : is_entity_alive placed.ecs (entity e) ≡ true =
        ap (λ s. is_entity_alive s (entity e)) same' ∙ second.1 in
      (
        with_ecs a (add_component_to_entity a.mesh_type a.new_mesh (entity e) placed.ecs).0 placed,
        rw (made, put) refl,
        (added a.mesh_type a.new_mesh e placed.ecs still').1,
      )

  -- While neither the ids nor the spawn count overflow an `int`, a spawn is defined: both components
  -- that it writes to are there. The new entity is alive and the last of those that are listed.
  pub spawn_entity_alive :
      (system : EntitySpawnerSystem) (world : GameWorld P) (r : Entity × Ecs)
      → add_entity world.ecs ≡ some r
      → ltb system.spawn_count int_max ≡ true
      → (after : EntitySpawnerSystem × GameWorld P) × (spawn_entity a spawning system world
          ≡ some after)
        × (is_entity_alive after.1.ecs r.0 ≡ true)
        × (after.0.spawned_entities ≡ system.spawned_entities ++ r.0 ∷ [])
  unfolding spawn_entity
  spawn_entity_alive system world r ok room =
      let living : is_entity_alive r.1 r.0 ≡ true =
        unfold is_entity_alive in
        ground (arith, alive-add_entity world.ecs r ok r.0.id, id-add_entity world.ecs r ok) in
      let (w, filled, still) =
        fill_entity-alive (system.spawn_count + 1) r.0.id (record world { ecs = r.1 }) living in
      (
        (
          record {
            spawned_entities = system.spawned_entities ++ r.0 ∷ [];
            spawn_count = system.spawn_count + 1;
          },
          w,
        ),
        rw (ok, room, filled) refl,
        still,
        refl,
      )
