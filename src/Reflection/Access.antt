-- ===== src/Reflection/Access.antt =====
-- The checks of erased access: PlaygroundEngine/src/Reflection/Core/FieldInfo.cpp and FunctionInfo.cpp.
-- A `TypeInfo*` is its address; a thunk is the number of what it runs, absent where it is null, and
-- what it answers is not looked into, but for a reference, which it makes of the object's address.
pub mod Checks
use playground_engine.Base.{
  ℕ, ◌≡◌, ◌≢◌, refl, Bool, true, false, not, ◌&&◌, ◌||◌, Option, none, some, List, ◌==◌,
  if◌then◌else◌, is_some, arith,
}
use playground_engine.Ecs.{TypedRef}

pub data FieldError : Type 0 where
  null_object object_type_mismatch not_readable not_writable not_addressable const_violation :
      FieldError

pub record FieldInfo : Type 0 where
  pub declaring_type : ℕ
  pub is_mutable : Bool
  pub is_lvalue_reference : Bool
  pub is_rvalue_reference : Bool
  pub getter : Option ℕ
  pub setter : Option ℕ
  pub referencer : Option (ℕ → TypedRef)

-- What an access comes to: an error, or a thunk's run on the object's address and a value.
pub data Access : Type 0 where
  refused : FieldError → Access
  runs : ℕ → ℕ → TypedRef → Access

pub data Reference : Type 0 where
  no_reference : FieldError → Reference
  refers : TypedRef → Reference

abbrev pub writable_through_const_object : FieldInfo → Bool
writable_through_const_object field =
    field.is_mutable || (field.is_lvalue_reference || field.is_rvalue_reference)

unfoldable pub check_declaring_instance : FieldInfo → TypedRef → Option FieldError
check_declaring_instance field object =
    if object.object == 0
    then some null_object
    else if object.type == field.declaring_type
    then none
    else some object_type_mismatch

abbrev pub run_thunk : Option ℕ → FieldError → ℕ → TypedRef → Access
run_thunk none e object value = refused e
run_thunk (some thunk) e object value = runs thunk object value

unfoldable pub get_value : FieldInfo → TypedRef → TypedRef → Access
unfolding check_declaring_instance
get_value field object out = elim (check_declaring_instance field object) [
  | some e ↦ refused e
  | none ↦
      if is_some field.getter && out.is_const
      then refused const_violation
      else run_thunk field.getter not_readable object.object out
]

unfoldable pub set_value : FieldInfo → TypedRef → TypedRef → Access
unfolding check_declaring_instance
set_value field object value = elim (check_declaring_instance field object) [
  | some e ↦ refused e
  | none ↦
      if object.is_const && not (writable_through_const_object field)
      then refused const_violation
      else run_thunk field.setter not_writable object.object value
]

abbrev pub reference_of : FieldInfo → TypedRef → Option (ℕ → TypedRef) → Reference
reference_of field object none = no_reference not_addressable
reference_of field object (some referencer) =
    let ref : TypedRef = referencer object.object in
    refers (record ref {
      is_const = ref.is_const || (object.is_const && not (writable_through_const_object field));
    })

unfoldable pub get_ref : FieldInfo → TypedRef → Reference
unfolding check_declaring_instance
get_ref field object = elim (check_declaring_instance field object) [
  | some e ↦ no_reference e
  | none ↦ reference_of field object field.referencer
]

pub data InvokeError : Type 0 where
  not_invocable object_required mismatched_object invoke_const_violation : InvokeError

pub record FunctionInfo : Type 0 where
  pub is_const : Bool
  pub is_static : Bool
  pub is_free_function : Bool
  pub function_declaring_type : ℕ
  pub invoker : Option ℕ

pub data Invocation : Type 0 where
  rejected : InvokeError → Invocation
  invokes : ℕ → ℕ → List TypedRef → TypedRef → Invocation

abbrev pub invoke_thunk : Option ℕ → ℕ → List TypedRef → TypedRef → Invocation
invoke_thunk none object args ret = rejected not_invocable
invoke_thunk (some thunk) object args ret = invokes thunk object args ret

abbrev pub calls_without_object : FunctionInfo → Bool
calls_without_object function = function.is_static || function.is_free_function

abbrev pub is_const_callable : FunctionInfo → Bool
is_const_callable function = function.is_const || (function.is_static || function.is_free_function)

-- The checks of the object, of a function that takes one.
unfoldable pub check_object : FunctionInfo → TypedRef → Option InvokeError
check_object function object =
    if calls_without_object function
    then none
    else if object.object == 0
    then some object_required
    else if not (object.type == function.function_declaring_type)
    then some mismatched_object
    else if object.is_const && not (is_const_callable function)
    then some invoke_const_violation
    else none

unfoldable pub invoke : FunctionInfo → TypedRef → List TypedRef → TypedRef → Invocation
unfolding check_object
invoke function object args ret =
    if not (is_some function.invoker)
    then rejected not_invocable
    else elim (check_object function object) [
      | some e ↦ rejected e
      | none ↦
          if ret.is_const
          then rejected invoke_const_violation
          else invoke_thunk function.invoker object.object args ret
    ]

-- `Invoke` with no object: that of an empty reference.
unfoldable pub invoke_without_object : FunctionInfo → List TypedRef → TypedRef → Invocation
unfolding invoke
invoke_without_object function args ret =
    if calls_without_object function
    then invoke function (record { type = 0; object = 0; is_const = false; movable = false }) args
        ret
    else rejected object_required
