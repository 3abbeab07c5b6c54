-- ===== src/Ecs/Consistency.antt =====
-- The two indices of Ecs/Ecs.cppm agree: the invariant of the store, and that every operation of
-- Ecs.cppm and Ecs.cpp keeps it.
use playground_engine.Base.{ℕ, ◌≤◌, ◌<◌, ◌≡◌, refl, true, some, arith}
use playground_engine.Ecs.{
  Entity, Ecs, ComponentRecord, typed_ref_of, new, add_system, add_entity, add_component_to_entity,
  destroy_entity, destroy_component,
}
use playground_engine.OrderedMap.{find}
use playground_engine.Ecs.View.{
  last-add_component, last-destroy_component, last-destroy_entity, by_type, by_entity, alive,
  entity, by_type-add_entity, by_entity-add_entity, alive-add_entity, id-add_entity,
  by_type-add_component, by_entity-add_component, alive-add_component, by_type-destroy_component,
  by_entity-destroy_component, alive-destroy_component, by_type-destroy_entity,
  by_entity-destroy_entity, alive-destroy_entity,
}

pub record IsConsistent (ecs : Ecs) : Type 0 where
  -- (type, entity) is one key: both indices answer the same for it.
  pub agree : (t e : ℕ) → by_type ecs t e ≡ by_entity ecs t e
  -- The erased reference names the type and the object that it is filed under.
  pub typed :
      (t e : ℕ) (c : ComponentRecord)
      → by_type ecs t e ≡ some c
      → c.ref ≡ typed_ref_of t c.instance_ptr
  -- The living were issued by this store.
  pub issued : (e : ℕ) → alive ecs e ≡ true → (0 < e) × (e ≤ ecs.last_entity_id)

pub new-IsConsistent : IsConsistent new
unfolding find
new-IsConsistent = record { agree = λ t e. refl; typed = λ t e c p. cc; issued = λ e p. cc }

pub add_system-IsConsistent :
    (s : ℕ) (ecs : Ecs) → IsConsistent ecs → IsConsistent (add_system s ecs)
unfolding add_system
add_system-IsConsistent s ecs h = record { agree = h.agree; typed = h.typed; issued = h.issued }

pub add_entity-IsConsistent :
    (ecs : Ecs) (r : Entity × Ecs) → add_entity ecs ≡ some r → IsConsistent ecs → IsConsistent r.1
add_entity-IsConsistent ecs r ok h = record {
  agree =
      λ t e. cc (by_type-add_entity ecs r ok t e, by_entity-add_entity ecs r ok t e, h.agree t e);
  typed = λ t e c p. h.typed t e c (cc (by_type-add_entity ecs r ok t e));
  issued = λ e p. ground (arith, alive-add_entity ecs r ok e, id-add_entity ecs r ok, h.issued e);
}

pub add_component_to_entity-IsConsistent :
    (t c e : ℕ) (ecs : Ecs)
    → IsConsistent ecs
    → IsConsistent (add_component_to_entity t c (entity e) ecs).0
add_component_to_entity-IsConsistent t c e ecs h = record {
  agree = λ t' e'. cc (
    by_type-add_component t c e ecs t' e',
    by_entity-add_component t c e ecs t' e',
    h.agree t' e',
  );
  typed = λ t' e' c' p. ground (arith, by_type-add_component t c e ecs t' e', h.typed t' e' c');
  issued = λ e' p.
      ground (arith, alive-add_component t c e ecs e', last-add_component t c e ecs, h.issued e');
}

pub destroy_component-IsConsistent :
    (t e : ℕ) (ecs : Ecs) → IsConsistent ecs → IsConsistent (destroy_component t (entity e) ecs)
destroy_component-IsConsistent t e ecs h = record {
  agree = λ t' e'. ground (
    arith,
    by_type-destroy_component t e ecs t' e',
    by_entity-destroy_component t e ecs t' e',
    h.agree t' e',
  );
  typed = λ t' e' c' p. ground (arith, by_type-destroy_component t e ecs t' e', h.typed t' e' c');
  issued = λ e' p.
      ground
        (arith, alive-destroy_component t e ecs e', last-destroy_component t e ecs, h.issued e');
}

pub destroy_entity-IsConsistent :
    (e : ℕ) (ecs : Ecs) → IsConsistent ecs → IsConsistent (destroy_entity (entity e) ecs)
destroy_entity-IsConsistent e ecs h = record {
  agree = λ t' e'. ground (
    arith,
    by_type-destroy_entity e ecs t' e',
    by_entity-destroy_entity e ecs t' e',
    h.agree t' e',
    h.agree t' e,
  );
  typed = λ t' e' c' p. ground (arith, by_type-destroy_entity e ecs t' e', h.typed t' e' c');
  issued =
      λ e' p. ground (arith, alive-destroy_entity e ecs e', last-destroy_entity e ecs, h.issued e');
}
