-- ===== src/InputSystem/Examples.antt =====
-- A frame in which a held key is let go, and two frames from an empty world.
use playground_engine.Base.{ℕ, ◌≡◌, refl, true, not, ◌&&◌, List, [], ◌∷◌}
use playground_engine.Events.{PlatformEvent, event_of, key_pressed, key_released}
use playground_engine.InputSystem.Component.{
  InputStateComponent, pressed, update_component, is_pressed, was_pressed_this_frame,
  was_released_this_frame,
}
use playground_engine.Base.{some}
use playground_engine.OrderedMap.{find, values, try_emplace}
use playground_engine.Ecs.{get_components_with_entities, Ecs, new, add_entity, get_components}
use playground_engine.Ecs.View.{entity}
use playground_engine.InputSystem.Component.{fresh_component}
use playground_engine.InputSystem.System.{World, InputSystem, step}
use playground_engine.InputSystem.Frames.{step_keeps_component}
use playground_engine.InputSystem.Latest.{down_after, update_component_latest}

abbrev key_w : ℕ
key_w = 23

abbrev held : InputStateComponent
held = record { current_input_map = (key_w, pressed) ∷ []; previous_input_map = [] }

abbrev frame : List (PlatformEvent ℕ)
frame =
    (record (event_of 0 key_pressed) { code = key_w; repeat = true })
    ∷ (record (event_of 0 key_released) { code = key_w })
    ∷ []

update_component_latest_example :
    let before = is_pressed held key_w in
    let after = down_after key_w frame before in
    (is_pressed (update_component frame held) key_w ≡ after)
    × (was_pressed_this_frame (update_component frame held) key_w ≡ (after && not before))
    × (was_released_this_frame (update_component frame held) key_w ≡ (not after && before))
update_component_latest_example = update_component_latest key_w frame held refl

abbrev frame_of : List (PlatformEvent ℕ) → InputSystem ℕ
frame_of events = record { current_platform_event_record = record { events = events } }

abbrev empty_world : World
empty_world = record { ecs = new; input_states = λ a. fresh_component }

abbrev with_entity : Ecs
with_entity = record new {
  last_entity_id = 1;
  components_per_entity = try_emplace 1 [] new.components_per_entity;
}

entity_added : add_entity new ≡ some (entity 1, with_entity)
unfolding add_entity try_emplace
entity_added = refl

none_yet : get_components new 40 ≡ []
unfolding get_components find values
none_yet = refl

step_keeps_component_example :
    (first : World) × (second : World) × (step 40 100 (frame_of frame) empty_world ≡ some first)
    × (step 40 100 (frame_of []) first ≡ some second)
    × (get_components first.ecs 40 ≡ 100 ∷ [])
    × (get_components_with_entities first.ecs 40 ≡ (entity 1, 100) ∷ [])
    × (second.ecs ≡ first.ecs)
    × (second.input_states 100
        ≡ update_component (frame_of []).current_platform_event_record.events (
            update_component (frame_of frame).current_platform_event_record.events fresh_component))
step_keeps_component_example =
    step_keeps_component 40 100 (frame_of frame) (frame_of []) empty_world (entity 1, with_entity)
      entity_added none_yet
