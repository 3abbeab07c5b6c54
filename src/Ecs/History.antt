-- ===== src/Ecs/History.antt =====
-- Every store that the operations of Ecs/Ecs.cppm and Ecs.cpp can lead to.
use playground_engine.Base.{
  inr, inl, bind, Option-cases, Option, ◌∙◌, ℕ, ◌≤◌, ◌≡◌, ◌≢◌, false, some, arith,
}
use playground_engine.Ecs.{
  Entity, Ecs, new, add_system, add_entity, add_component_to_entity, destroy_entity,
  destroy_component,
}
use playground_engine.Ecs.View.{
  alive, entity, id-add_entity, alive-add_entity, alive-add_component, last-add_component,
  last-destroy_component, last-destroy_entity, alive-destroy_component, alive-destroy_entity,
}
use playground_engine.Ecs.Consistency.{
  IsConsistent, new-IsConsistent, add_system-IsConsistent, add_entity-IsConsistent,
  add_component_to_entity-IsConsistent, destroy_component-IsConsistent, destroy_entity-IsConsistent,
}

-- One call of an operation that changes the store.
pub data Step (ecs : Ecs) : Ecs → Type 0 where
  system_added : (s : ℕ) → Step ecs (add_system s ecs)
  entity_added : (r : Entity × Ecs) → add_entity ecs ≡ some r → Step ecs r.1
  component_added : (t c e : ℕ) → Step ecs (add_component_to_entity t c (entity e) ecs).0
  component_destroyed : (t e : ℕ) → Step ecs (destroy_component t (entity e) ecs)
  entity_destroyed : (e : ℕ) → Step ecs (destroy_entity (entity e) ecs)

pub data Reach (ecs : Ecs) : Ecs → Type 0 where
  here : Reach ecs ecs
  next : {mid later : Ecs} → Reach ecs mid → Step mid later → Reach ecs later

Step-IsConsistent : {a b : Ecs} → Step a b → IsConsistent a → IsConsistent b
Step-IsConsistent {a} (system_added s) h = add_system-IsConsistent s a h
Step-IsConsistent {a} (entity_added r ok) h = add_entity-IsConsistent a r ok h
Step-IsConsistent {a} (component_added t c e) h = add_component_to_entity-IsConsistent t c e a h
Step-IsConsistent {a} (component_destroyed t e) h = destroy_component-IsConsistent t e a h
Step-IsConsistent {a} (entity_destroyed e) h = destroy_entity-IsConsistent e a h

Reach-keeps : {a b : Ecs} → IsConsistent a → Reach a b → IsConsistent b
Reach-keeps h here = h
Reach-keeps h (next r s) = Step-IsConsistent s (Reach-keeps h r)

-- In every store that the operations lead to from an empty one, in any order, the index by type and
-- the index by entity answer the same record for every type and entity, each record's reference
-- names its type and object, and each living entity has an id from 1 to the last one issued.
pub Reach-IsConsistent : {ecs : Ecs} → Reach new ecs → IsConsistent ecs
Reach-IsConsistent = Reach-keeps new-IsConsistent

last-Step : {a b : Ecs} → Step a b → a.last_entity_id ≤ b.last_entity_id
unfolding add_system
last-Step (system_added s) = omega arith
last-Step {a} (entity_added r ok) = omega (arith, id-add_entity a r ok)
last-Step {a} (component_added t c e) = omega (arith, last-add_component t c e a)
last-Step {a} (component_destroyed t e) = omega (arith, last-destroy_component t e a)
last-Step {a} (entity_destroyed e) = omega (arith, last-destroy_entity e a)

last-Reach : {a b : Ecs} → Reach a b → a.last_entity_id ≤ b.last_entity_id
last-Reach here = omega arith
last-Reach (next r s) = omega (arith, last-Reach r, last-Step s)

-- An id that was issued and is dead stays dead through one operation.
dead-Step :
    {a b : Ecs} (e : ℕ) → Step a b → e ≤ a.last_entity_id → alive a e ≡ false → alive b e ≡ false
unfolding add_system
dead-Step e (system_added s) h d = d
dead-Step {a} e (entity_added r ok) h d = ground (arith, alive-add_entity a r ok e)
dead-Step {a} e (component_added t c e') h d = alive-add_component t c e' a e ∙ d
dead-Step {a} e (component_destroyed t e') h d = alive-destroy_component t e' a e ∙ d
dead-Step {a} e (entity_destroyed e') h d = ground (arith, alive-destroy_entity e' a e)

-- The id that `AddEntity` would issue.
abbrev pub next_id : Ecs → Option ℕ
next_id ecs = bind (add_entity ecs) (λ (r : Entity × Ecs). some r.0.id)

not_issued : (ecs : Ecs) (e : ℕ) → e ≤ ecs.last_entity_id → next_id ecs ≢ some e
not_issued ecs e h same = elim (Option-cases (add_entity ecs)) [
  | inl none_left ↦ absurd (unfold add_entity in ground arith)
  | inr (r, ok) ↦ (let id : r.0.id ≡ e = ground arith in omega (arith, id-add_entity ecs r ok))
]

-- Once an issued entity is dead it stays dead whatever operations follow, and `AddEntity` never
-- issues its id again: the handles that `EntitySpawnerSystem` keeps cannot come to name another
-- entity.
pub dead_forever :
    {a b : Ecs} (e : ℕ)
    → Reach a b
    → e ≤ a.last_entity_id
    → alive a e ≡ false
    → (alive b e ≡ false) × (next_id b ≢ some e)
dead_forever {a} e here h d = (d, not_issued a e h)
dead_forever {a} {b} e (next {mid} {later} r s) h d =
    let still = (dead_forever e r h d).0 in
    (
      dead-Step e s (omega (arith, last-Reach r)) still,
      not_issued b e (omega (arith, last-Reach r, last-Step s)),
    )
