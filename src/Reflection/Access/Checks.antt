-- ===== src/Reflection/Access/Checks.antt =====
-- What the checks of FieldInfo.cpp and FunctionInfo.cpp let through, and what each error means.
use playground_engine.Base.{
  List, ◌≡◌, ◌≢◌, ◌⊎◌, Bool, true, false, not, ◌&&◌, none, some, is_some, arith,
}
use playground_engine.Ecs.{TypedRef}
use playground_engine.Reflection.Access.{
  FieldError, null_object, object_type_mismatch, not_readable, not_writable, not_addressable,
  const_violation, FieldInfo, Access, refused, runs, Reference, no_reference, refers,
  writable_through_const_object, check_declaring_instance, get_value, set_value, get_ref,
  not_invocable, object_required, mismatched_object, invoke_const_violation, FunctionInfo,
  Invocation, rejected, invokes, calls_without_object, is_const_callable, check_object, invoke,
}

-- The object is there, and of the type that declares the field.
abbrev pub IsInstance : FieldInfo → TypedRef → Type 0
IsInstance field object = (object.object ≢ 0) × (object.type ≡ field.declaring_type)

-- Why the object is refused.
abbrev pub NoInstance : FieldInfo → TypedRef → FieldError → Type 0
NoInstance field object null_object = object.object ≡ 0
NoInstance field object object_type_mismatch =
    (object.object ≢ 0) × (object.type ≢ field.declaring_type)
NoInstance field object _ = ⊥

-- Whether the object's constness reaches the field.
abbrev pub reaches : FieldInfo → TypedRef → Bool
reaches field object = object.is_const && not (writable_through_const_object field)

abbrev pub Read : FieldInfo → TypedRef → TypedRef → Access → Type 0
Read field object out (refused not_readable) = IsInstance field object × (field.getter ≡ none)
Read field object out (refused const_violation) =
    IsInstance field object × (is_some field.getter ≡ true) × (out.is_const ≡ true)
Read field object out (refused e) = NoInstance field object e
Read field object out (runs thunk address value) =
    IsInstance field object
    × (field.getter ≡ some thunk)
    × (address ≡ object.object)
    × (value ≡ out)
    × (out.is_const ≡ false)

abbrev pub Written : FieldInfo → TypedRef → TypedRef → Access → Type 0
Written field object input (refused const_violation) =
    IsInstance field object × (reaches field object ≡ true)
Written field object input (refused not_writable) =
    IsInstance field object × (reaches field object ≡ false) × (field.setter ≡ none)
Written field object input (refused e) = NoInstance field object e
Written field object input (runs thunk address value) =
    IsInstance field object
    × (field.setter ≡ some thunk)
    × (address ≡ object.object)
    × (value ≡ input)
    × (reaches field object ≡ false)

abbrev pub Referred : FieldInfo → TypedRef → Reference → Type 0
Referred field object (no_reference not_addressable) =
    IsInstance field object × (field.referencer ≡ none)
Referred field object (no_reference e) = NoInstance field object e
Referred field object (refers ref) =
    IsInstance field object × ((reaches field object ≡ false) ⊎ (ref.is_const ≡ true))

get_value-Read :
    (field : FieldInfo) (object out : TypedRef) → Read field object out (get_value field object out)
unfolding get_value check_declaring_instance
get_value-Read field object out = ground arith

set_value-Written :
    (field : FieldInfo) (object input : TypedRef)
    → Written field object input (set_value field object input)
unfolding set_value check_declaring_instance
set_value-Written field object input = ground arith

get_ref-Referred :
    (field : FieldInfo) (object : TypedRef) → Referred field object (get_ref field object)
unfolding get_ref check_declaring_instance
get_ref-Referred field object = ground arith

-- Each access of a field either runs a thunk on an object that is there and of the declaring type,
-- a read only into a destination that is not const, a write only where the object's constness
-- does not reach the field, and a reference that is const where it does; or it is refused with an
-- error that holds: no object, another type, a missing thunk, or the constness.
pub field_access_checked :
    (field : FieldInfo) (object other : TypedRef)
    → Read field object other (get_value field object other)
      × Written field object other (set_value field object other)
      × Referred field object (get_ref field object)
field_access_checked field object other = (
  get_value-Read field object other,
  set_value-Written field object other,
  get_ref-Referred field object,
)

-- The object suits the function, which may take none.
abbrev pub Suits : FunctionInfo → TypedRef → Type 0
Suits function object =
    (calls_without_object function ≡ true)
    ⊎ ((object.object ≢ 0)
        × (object.type ≡ function.function_declaring_type)
        × (object.is_const && not (is_const_callable function) ≡ false))

abbrev pub Invoked : FunctionInfo → TypedRef → List TypedRef → TypedRef → Invocation → Type 0
Invoked function object args ret (rejected not_invocable) = function.invoker ≡ none
Invoked function object args ret (rejected object_required) =
    (calls_without_object function ≡ false) × (object.object ≡ 0)
Invoked function object args ret (rejected mismatched_object) =
    (calls_without_object function ≡ false) × (object.type ≢ function.function_declaring_type)
Invoked function object args ret (rejected invoke_const_violation) =
    ((calls_without_object function ≡ false)
      × (object.is_const && not (is_const_callable function) ≡ true))
    ⊎ (ret.is_const ≡ true)
Invoked function object args ret (invokes thunk address given result) =
    Suits function object
    × (function.invoker ≡ some thunk)
    × (address ≡ object.object)
    × (given ≡ args)
    × (result ≡ ret)
    × (ret.is_const ≡ false)

-- An invocation runs the function's thunk only with an object that suits it and into a result that
-- is not const, and passes the arguments on; otherwise it is refused with an error that holds.
pub invoke-Invoked :
    (function : FunctionInfo) (object : TypedRef) (args : List TypedRef) (ret : TypedRef)
    → Invoked function object args ret (invoke function object args ret)
unfolding invoke check_object
invoke-Invoked function object args ret = ground arith
