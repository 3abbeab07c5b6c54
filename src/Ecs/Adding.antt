-- ===== src/Ecs/Adding.antt =====
-- The components of a type after `AddComponentToEntity` of Ecs/Ecs.cppm.
use playground_engine.Base.{
  ℕ, suc, ap, sym, ◌∙◌, ◌≡◌, refl, true, none, Option, some, List, [], ◌∷◌, map, value_or, bind,
  length, inl, inr, Option-cases, arith,
}
use playground_engine.OrderedMap.{OrderedMap, find, values, insert_or_assign, find-insert_or_assign}
use playground_engine.OrderedMap.Nested.{assign_in}
use playground_engine.Ecs.{
  Ecs, ComponentRecord, ComponentsByEntity, typed_ref_of, get_components, try_get_component,
  components_of_type, add_component_to_entity,
}
use playground_engine.Ecs.View.{entity, alive, by_type, instance_of, try_get_component-by_type}

abbrev pub instances : Option ComponentsByEntity → List ℕ
instances o = map (λ (c : ComponentRecord). c.instance_ptr) (values (value_or o []))

pub get_components-instances :
    (ecs : Ecs) (t : ℕ) → get_components ecs t ≡ instances (find t ecs.components_per_type)
unfolding get_components components_of_type
get_components-instances ecs t = refl

pub types-add_component :
    (t c e : ℕ) (ecs : Ecs)
    → alive ecs e ≡ true
    → (add_component_to_entity t c (entity e) ecs).0.components_per_type
      ≡ assign_in t e (record { instance_ptr = c; ref = typed_ref_of t c }) ecs.components_per_type
unfolding add_component_to_entity
types-add_component t c e ecs living = ground arith

pub find-assign_in :
    (t e : ℕ) (r : ComponentRecord) (outer : OrderedMap ComponentsByEntity)
    → find t (assign_in t e r outer) ≡ some (insert_or_assign e r (value_or (find t outer) []))
unfolding assign_in
find-assign_in t e r outer =
    ground
      (arith, find-insert_or_assign t t (insert_or_assign e r (value_or (find t outer) [])) outer)

-- A key that is not there adds an element.
length-insert_or_assign :
    (k : ℕ) (r : ComponentRecord) (m : ComponentsByEntity)
    → find k m ≡ none
    → length (instances (some (insert_or_assign k r m))) ≡ suc (length (instances (some m)))
unfolding find insert_or_assign values
length-insert_or_assign k r [] e = refl
length-insert_or_assign k r ((j, w) ∷ m) e = ground (arith, e, length-insert_or_assign k r m)

find-empty : (e : ℕ) → find {V = ComponentRecord} e [] ≡ none
unfolding find
find-empty e = refl

no_instance : (o : Option ComponentRecord) → instance_of o ≡ none → o ≡ none
no_instance none h = refl
no_instance (some r) h = cc

missing :
    (t e : ℕ) (ecs : Ecs)
    → try_get_component ecs t (entity e) ≡ none
    → find e (value_or (find t ecs.components_per_type) []) ≡ none
missing t e ecs h =
    let none_there : instance_of (by_type ecs t e) ≡ none =
      sym (try_get_component-by_type ecs t e) ∙ h in
    elim (Option-cases (find t ecs.components_per_type)) [
      | inl n ↦ rw n (find-empty e)
      | inr (inner, i) ↦ rw i (
          no_instance (find e inner) (ap (λ o. instance_of (bind o (find e))) (sym i) ∙ none_there))
    ]

pub length-get_components-add_component :
    (t c e : ℕ) (ecs : Ecs)
    → alive ecs e ≡ true
    → try_get_component ecs t (entity e) ≡ none
    → length (get_components (add_component_to_entity t c (entity e) ecs).0 t)
      ≡ suc (length (get_components ecs t))
length-get_components-add_component t c e ecs living first =
    let added : ComponentRecord = record { instance_ptr = c; ref = typed_ref_of t c } in
    let inner = value_or (find t ecs.components_per_type) [] in
    ap length (
      get_components-instances (add_component_to_entity t c (entity e) ecs).0 t
      ∙ (ap (λ p. instances (find t p)) (types-add_component t c e ecs living)
          ∙ ap instances (find-assign_in t e added ecs.components_per_type)))
    ∙ (length-insert_or_assign e added inner (missing t e ecs first)
        ∙ ap (λ xs. suc (length xs)) (sym (get_components-instances ecs t)))
