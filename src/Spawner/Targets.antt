-- ===== src/Spawner/Targets.antt =====
-- What EntitySpawnerSystem.cpp of the game may destroy.
use playground_engine.Base.{
  Bool, ℕ, ◌≡◌, refl, false, List, [], ◌∷◌, ◌==◌, arith, any_of, Bool-cases, inl, inr,
}
use playground_engine.Ecs.{Entity, Ecs, invalid_id, is_entity_alive, try_get_component}
use playground_engine.Ecs.View.{entity}
use playground_engine.Ecs.Consistency.{IsConsistent}
use playground_engine.Ecs.Destroy.{destroy_entity_effect}
use playground_engine.Spawner.{
  EntitySpawnerSystem, GameWorld, Addresses, take_first_spawned_entity,
  destroy_first_spawned_entity,
}

abbrev pub names_entity : ℕ → List Entity → Bool
names_entity e = any_of (λ (s : Entity). s.id == e)

taken-other :
    (ecs : Ecs) (xs : List Entity) (e : ℕ)
    → names_entity e xs ≡ false
    → ((take_first_spawned_entity ecs xs).0.id == invalid_id) ≡ false
    → ((take_first_spawned_entity ecs xs).0.id == e) ≡ false
unfolding take_first_spawned_entity
taken-other ecs [] e h k = cc
taken-other ecs (x ∷ xs) e h k = ground (arith, taken-other ecs xs e)

-- In a consistent store, the press that destroys leaves every entity alone that the spawner does not
-- list: its life and all its components stay.
pub destroy_first_spawned_entity_spares :
    {P : Type 0} (a : Addresses) (system : EntitySpawnerSystem) (world : GameWorld P) (t e : ℕ)
    → IsConsistent world.ecs
    → names_entity e system.spawned_entities ≡ false
    → let after = (destroy_first_spawned_entity a system world).1 in
      (is_entity_alive after.ecs (entity e) ≡ is_entity_alive world.ecs (entity e))
      × (try_get_component after.ecs t (entity e) ≡ try_get_component world.ecs t (entity e))
unfolding destroy_first_spawned_entity
destroy_first_spawned_entity_spares a system world t e consistent unlisted =
    let taken = (take_first_spawned_entity world.ecs system.spawned_entities).0 in
    elim (Bool-cases (taken.id == invalid_id)) [
      | inl none_left ↦ rw none_left (refl, refl)
      | inr found ↦
          let other = taken-other world.ecs system.spawned_entities e unlisted found in
          let effect = destroy_entity_effect taken.id world.ecs consistent t e in
          rw found (ground (arith, effect, other))
    ]
