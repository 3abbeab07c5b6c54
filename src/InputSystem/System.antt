-- ===== src/InputSystem/System.antt =====
-- Ecs/InputSystem/InputSystem.cpp over the world: the store of Ecs/Ecs.cppm, the heap that holds
-- the input components, and the system's own record of the frame's events.
use playground_engine.Base.{ℕ, ◌==◌, Option, none, some, if◌then◌else◌, front, bind}
use playground_engine.Ecs.{Entity, Ecs, get_components, add_entity, add_component_to_entity}
use playground_engine.Events.{PlatformEventRecord}
use playground_engine.InputSystem.Component.{InputStateComponent, fresh_component, update_component}

-- The heap: what an input component's address holds.
pub record World : Type 0 where
  pub ecs : Ecs
  pub input_states : ℕ → InputStateComponent

abbrev pub write : ℕ → InputStateComponent → World → World
write address value world = record world {
  input_states = λ a. if a == address then value else world.input_states a;
}

pub record InputSystem (F : Type 0) : Type 0 where
  pub current_platform_event_record : PlatformEventRecord F

unfoldable pub update_platform_input :
    {F : Type 0} → PlatformEventRecord F → InputSystem F → InputSystem F
update_platform_input platform_event_record system = record {
  current_platform_event_record = platform_event_record;
}

-- `input_type` is the address of the component type's `TypeInfo`, `fresh` the address that
-- `make_shared` gives. `none` is the overflow of the entity ids.
module _ (input_type fresh : ℕ) where
  unfoldable pub create_input_state : Option (Entity × Ecs) → World → Option (ℕ × World)
  create_input_state none world = none
  create_input_state (some (entity, ecs)) world = some (
    fresh,
    write fresh fresh_component
        (record world { ecs = (add_component_to_entity input_type fresh entity ecs).0 }),
  )

  unfoldable pub get_or_create_input_state : World → Option (ℕ × World)
  unfolding create_input_state
  get_or_create_input_state world = elim (front (get_components world.ecs input_type)) [
    | some component ↦ some (component, world)
    | none ↦ create_input_state (add_entity world.ecs) world
  ]

  unfoldable pub step : {F : Type 0} → InputSystem F → World → Option World
  step system world = bind (get_or_create_input_state world) (λ (r : ℕ × World). some (
      write r.0
        (update_component system.current_platform_event_record.events (r.1.input_states r.0)) r.1))
