-- ===== src/Ecs.antt =====
-- The entity component store: PlaygroundEngine/src/Ecs/Ecs.cppm, Ecs.cpp, Entity.cppm and the
-- forwarding methods of System.cppm and System.cpp. A `shared_ptr` to a component and a `TypeInfo*`
-- are addresses, with 0 for null; `make_shared` gives its address as an argument.
pub mod View
pub mod Consistency
pub mod Adding
pub mod Destroy
pub mod Ordering
pub mod Enumeration
pub mod History
mod Examples
use playground_engine.Base.{
  ℕ, ◌+◌, ◌-◌, ◌^◌, Bool, false, Option, none, some, List, [], ◌∷◌, ◌++◌, map, ltb, value_or,
  if◌then◌else◌,
}
use playground_engine.OrderedMap.{
  OrderedMap, find, contains, insert_or_assign, try_emplace, erase, keys, values,
}
use playground_engine.OrderedMap.Nested.{assign_in, erase_in}

pub record Entity : Type 0 where
  pub id : ℕ

abbrev pub invalid_id : ℕ
invalid_id = 0

pub record TypedRef : Type 0 where
  pub type : ℕ
  pub object : ℕ
  pub is_const : Bool
  pub movable : Bool

-- `TypedRefOf` of an lvalue that is not const.
abbrev pub typed_ref_of : ℕ → ℕ → TypedRef
typed_ref_of type object = record {
  type = type;
  object = object;
  is_const = false;
  movable = false;
}

pub record ComponentRecord : Type 0 where
  pub instance_ptr : ℕ
  pub ref : TypedRef

abbrev pub ComponentsByEntity : Type 0
ComponentsByEntity = OrderedMap ComponentRecord

abbrev pub ComponentsByType : Type 0
ComponentsByType = OrderedMap ComponentRecord

pub record Ecs : Type 0 where
  pub systems : List ℕ
  pub components_per_type : OrderedMap ComponentsByEntity
  pub components_per_entity : OrderedMap ComponentsByType
  pub last_entity_id : ℕ

abbrev pub new : Ecs
new = record {
  systems = [];
  components_per_type = [];
  components_per_entity = [];
  last_entity_id = invalid_id;
}

abbrev pub int_max : ℕ
int_max = 2 ^ 31 - 1

unfoldable pub add_system : ℕ → Ecs → Ecs
add_system system ecs = record ecs { systems = ecs.systems ++ system ∷ [] }

-- `++_lastEntityId` on an `int`: `none` is the overflow, which C++ leaves undefined.
unfoldable pub add_entity : Ecs → Option (Entity × Ecs)
add_entity ecs =
    let id = ecs.last_entity_id + 1 in
    if ltb ecs.last_entity_id int_max
    then some (
      record { id = id },
      record ecs {
        last_entity_id = id;
        components_per_entity = try_emplace id [] ecs.components_per_entity;
      },
    )
    else none

unfoldable pub is_entity_alive : Ecs → Entity → Bool
is_entity_alive ecs entity = contains entity.id ecs.components_per_entity

unfoldable pub get_entities : Ecs → List Entity
get_entities ecs = map (λ (id : ℕ). record { id = id }) (keys ecs.components_per_entity)

-- A type that nothing was added for reads as empty.
unfoldable pub components_of_type : Ecs → ℕ → ComponentsByEntity
components_of_type ecs type = value_or (find type ecs.components_per_type) []

unfoldable pub find_component : Ecs → ℕ → Entity → Option ComponentRecord
unfolding components_of_type
find_component ecs type entity = find entity.id (components_of_type ecs type)

-- The body, as it runs where contracts are ignored; null is the answer for an entity not alive.
unfoldable pub add_component_to_entity : ℕ → ℕ → Entity → Ecs → Ecs × Option ℕ
add_component_to_entity type component entity ecs =
    elim (find entity.id ecs.components_per_entity) [
      | none ↦ (ecs, none)
      | some components_of_entity ↦
          let added : ComponentRecord = record {
            instance_ptr = component;
            ref = typed_ref_of type component;
          } in
          (
            record ecs {
              components_per_type = assign_in type entity.id added ecs.components_per_type;
              components_per_entity =
                  insert_or_assign entity.id (insert_or_assign type added components_of_entity)
                    ecs.components_per_entity;
            },
            some component,
          )
    ]

unfoldable pub try_get_component : Ecs → ℕ → Entity → Option ℕ
unfolding find_component
try_get_component ecs type entity = elim (find_component ecs type entity) [
  | none ↦ none
  | some found ↦ some found.instance_ptr
]

unfoldable pub get_components : Ecs → ℕ → List ℕ
unfolding components_of_type
get_components ecs type =
    map (λ (c : ComponentRecord). c.instance_ptr) (values (components_of_type ecs type))

unfoldable pub get_components_with_entities : Ecs → ℕ → List (Entity × ℕ)
unfolding components_of_type
get_components_with_entities ecs type =
    map (λ (e : ℕ × ComponentRecord). (record { id = e.0 }, e.1.instance_ptr))
      (components_of_type ecs type)

unfoldable pub get_entity_components : Ecs → Entity → List TypedRef
get_entity_components ecs entity = elim (find entity.id ecs.components_per_entity) [
  | none ↦ []
  | some components_of_entity ↦ map (λ (c : ComponentRecord). c.ref) (values components_of_entity)
]

-- The loop of `DestroyEntity` over the types of the entity's components.
unfoldable pub erase_from_types :
    ℕ → List ℕ → OrderedMap ComponentsByEntity → OrderedMap ComponentsByEntity
erase_from_types id [] per_type = per_type
erase_from_types id (type ∷ types) per_type = erase_from_types id types (erase_in type id per_type)

unfoldable pub destroy_entity : Entity → Ecs → Ecs
destroy_entity entity ecs = elim (find entity.id ecs.components_per_entity) [
  | none ↦ ecs
  | some components_of_entity ↦ record ecs {
    components_per_type =
        erase_from_types entity.id (keys components_of_entity) ecs.components_per_type;
    components_per_entity = erase entity.id ecs.components_per_entity;
  }
]

unfoldable pub destroy_component : ℕ → Entity → Ecs → Ecs
destroy_component type entity ecs = record ecs {
  components_per_type = erase_in type entity.id ecs.components_per_type;
  components_per_entity = erase_in entity.id type ecs.components_per_entity;
}

-- `Step` calls each system in the order of addition. What a system does to the world is `run`.
pub run_systems {ℓ κ} : {F : Type ℓ} {W : Type κ} → (ℕ → F → W → W) → F → List ℕ → W → W
run_systems run delta_time [] world = world
run_systems run delta_time (system ∷ systems) world =
    run_systems run delta_time systems (run system delta_time world)

unfoldable pub step {ℓ κ} : {F : Type ℓ} {W : Type κ} → (ℕ → F → W → W) → F → Ecs → W → W
unfolding run_systems
step run delta_time ecs world = run_systems run delta_time ecs.systems world
