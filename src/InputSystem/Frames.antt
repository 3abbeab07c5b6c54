-- ===== src/InputSystem/Frames.antt =====
-- The component that Ecs/InputSystem/InputSystem.cpp keeps from frame to frame.
use playground_engine.Base.{
  ==_refl, ℕ, sym, ap, ◌∙◌, ◌≡◌, refl, true, Option, some, List, [], ◌∷◌, map, value_or, arith,
}
use playground_engine.OrderedMap.{find, values, insert_or_assign}
use playground_engine.Ecs.{
  Entity, Ecs, ComponentRecord, ComponentsByEntity, typed_ref_of, get_components,
  get_components_with_entities, components_of_type, add_entity, add_component_to_entity,
}
use playground_engine.Ecs.View.{entity, alive, alive-add_entity, id-add_entity, types-add_entity}
use playground_engine.Ecs.Adding.{
  instances, get_components-instances, types-add_component, find-assign_in,
}
use playground_engine.InputSystem.Component.{fresh_component, update_component, InputStateComponent}
use playground_engine.InputSystem.System.{
  World, write, InputSystem, create_input_state, get_or_create_input_state, step,
}

no_record :
    (m : ComponentsByEntity)
    → map (λ (c : ComponentRecord). c.instance_ptr) (values m) ≡ []
    → m ≡ []
unfolding values
no_record [] h = refl
no_record (x ∷ m) h = cc

instances-one :
    (e : ℕ) (r : ComponentRecord) → instances (some (insert_or_assign e r [])) ≡ r.instance_ptr ∷ []
unfolding insert_or_assign values
instances-one e r = refl

get_components-add_component :
    (t c e : ℕ) (ecs : Ecs)
    → alive ecs e ≡ true
    → get_components ecs t ≡ []
    → get_components (add_component_to_entity t c (entity e) ecs).0 t ≡ c ∷ []
get_components-add_component t c e ecs living nothing =
    let added : ComponentRecord = record { instance_ptr = c; ref = typed_ref_of t c } in
    let inner =
      no_record (value_or (find t ecs.components_per_type) [])
        (sym (get_components-instances ecs t) ∙ nothing) in
    get_components-instances (add_component_to_entity t c (entity e) ecs).0 t
    ∙ (ap (λ p. instances (find t p)) (types-add_component t c e ecs living)
        ∙ (ap instances (find-assign_in t e added ecs.components_per_type)
            ∙ (ap (λ m. instances (some (insert_or_assign e added m))) inner
                ∙ instances-one e added)))

-- The components of a type with their entities.
abbrev owned : Option ComponentsByEntity → List (Entity × ℕ)
owned o = map (λ (p : ℕ × ComponentRecord). (entity p.0, p.1.instance_ptr)) (value_or o [])

get_components_with_entities-owned :
    (ecs : Ecs) (t : ℕ)
    → get_components_with_entities ecs t ≡ owned (find t ecs.components_per_type)
unfolding get_components_with_entities components_of_type
get_components_with_entities-owned ecs t = refl

owned-one :
    (e : ℕ) (r : ComponentRecord)
    → owned (some (insert_or_assign e r [])) ≡ (entity e, r.instance_ptr) ∷ []
unfolding insert_or_assign
owned-one e r = refl

get_components_with_entities-add_component :
    (t c e : ℕ) (ecs : Ecs)
    → alive ecs e ≡ true
    → get_components ecs t ≡ []
    → get_components_with_entities (add_component_to_entity t c (entity e) ecs).0 t
      ≡ (entity e, c) ∷ []
get_components_with_entities-add_component t c e ecs living nothing =
    let added : ComponentRecord = record { instance_ptr = c; ref = typed_ref_of t c } in
    let inner =
      no_record (value_or (find t ecs.components_per_type) [])
        (sym (get_components-instances ecs t) ∙ nothing) in
    get_components_with_entities-owned (add_component_to_entity t c (entity e) ecs).0 t
    ∙ (ap (λ p. owned (find t p)) (types-add_component t c e ecs living)
        ∙ (ap owned (find-assign_in t e added ecs.components_per_type)
            ∙ (ap (λ m. owned (some (insert_or_assign e added m))) inner ∙ owned-one e added)))

get_components-add_entity :
    (t : ℕ) (ecs : Ecs) (r : Entity × Ecs)
    → add_entity ecs ≡ some r
    → get_components r.1 t ≡ get_components ecs t
get_components-add_entity t ecs r ok =
    get_components-instances r.1 t
    ∙ (ap (λ p. instances (find t p)) (types-add_entity ecs r ok)
        ∙ sym (get_components-instances ecs t))

module _ (input_type fresh : ℕ) where
  get_or_create-kept :
      (world : World)
      → get_components world.ecs input_type ≡ fresh ∷ []
      → get_or_create_input_state input_type fresh world ≡ some (fresh, world)
  unfolding get_or_create_input_state
  get_or_create-kept world one = rw (one, get_or_create_input_state)

  get_or_create-created :
      (world : World)
      → get_components world.ecs input_type ≡ []
      → get_or_create_input_state input_type fresh world
        ≡ create_input_state input_type fresh (add_entity world.ecs) world
  unfolding get_or_create_input_state
  get_or_create-created world nothing = rw (nothing, get_or_create_input_state)

  -- The world after the component is made on the new entity.
  abbrev created : Entity × Ecs → World → World
  created r world =
      write fresh fresh_component
        (record world { ecs = (add_component_to_entity input_type fresh r.0 r.1).0 })

  created-found :
      (world : World) (r : Entity × Ecs)
      → add_entity world.ecs ≡ some r
      → get_components world.ecs input_type ≡ []
      → get_or_create_input_state input_type fresh world ≡ some (fresh, created r world)
  created-found world r ok nothing =
      get_or_create-created world nothing ∙ rw ok (unfold create_input_state in refl)

  -- A frame's update of the component.
  abbrev pub updated : {F : Type 0} → InputSystem F → World → World
  updated system world =
      write fresh
        (update_component system.current_platform_event_record.events (world.input_states fresh))
        world

  step-found :
      {F : Type 0} (system : InputSystem F) (world found : World)
      → get_or_create_input_state input_type fresh world ≡ some (fresh, found)
      → step input_type fresh system world ≡ some (updated system found)
  unfolding step
  step-found system world found e = rw e refl

  written : (v : InputStateComponent) (world : World) → (write fresh v world).input_states fresh ≡ v
  written v world = ground (arith, ==_refl fresh)

  -- In a world without an input component, the first step makes one, on the entity that `AddEntity`
  -- gives it, which alone has one then, and gives it the frame's events; the next step, of whatever
  -- events, goes on from that component and leaves the store as it is.
  pub step_keeps_component :
      {F : Type 0} (system later : InputSystem F) (world : World) (r : Entity × Ecs)
      → add_entity world.ecs ≡ some r
      → get_components world.ecs input_type ≡ []
      → (first : World) × (second : World) × (step input_type fresh system world ≡ some first)
        × (step input_type fresh later first ≡ some second)
        × (get_components first.ecs input_type ≡ fresh ∷ [])
        × (get_components_with_entities first.ecs input_type ≡ (r.0, fresh) ∷ [])
        × (second.ecs ≡ first.ecs)
        × (second.input_states fresh
            ≡ update_component later.current_platform_event_record.events
                (update_component system.current_platform_event_record.events fresh_component))
  step_keeps_component system later world r ok nothing =
      let living : alive r.1 r.0.id ≡ true =
        ground (arith, alive-add_entity world.ecs r ok r.0.id, id-add_entity world.ecs r ok) in
      let one : get_components (created r world).ecs input_type ≡ fresh ∷ [] =
        get_components-add_component input_type fresh r.0.id r.1 living
          (get_components-add_entity input_type world.ecs r ok ∙ nothing) in
      let owner : get_components_with_entities (created r world).ecs input_type
          ≡ (r.0, fresh) ∷ [] =
        get_components_with_entities-add_component input_type fresh r.0.id r.1 living
          (get_components-add_entity input_type world.ecs r ok ∙ nothing) in
      let first = updated system (created r world) in
      (
        first,
        updated later first,
        step-found system world (created r world) (created-found world r ok nothing),
        step-found later first first (get_or_create-kept first one),
        one,
        owner,
        refl,
        written _ first
            ∙ ap (update_component later.current_platform_event_record.events) (
                written _ (created r world)
                ∙ ap (update_component system.current_platform_event_record.events) (
                    written fresh_component (record world {
                      ecs = (add_component_to_entity input_type fresh r.0 r.1).0;
                    }))),
      )
