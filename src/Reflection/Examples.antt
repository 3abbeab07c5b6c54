-- ===== src/Reflection/Examples.antt =====
-- A type of two constructors, and a field and a function of it.
use playground_engine.Base.{Bool, true, false, none, some, List, [], ◌∷◌}
use playground_engine.Ecs.{TypedRef}
use playground_engine.Reflection.Constructors.{
  ParameterInfo, ConstructorInfo, copy, move, numbered, viable, select_constructor,
}
use playground_engine.Reflection.Constructors.Selection.{Resolved, select_constructor-Resolved}
use playground_engine.Reflection.Access.{
  FieldInfo, FunctionInfo, get_value, set_value, get_ref, invoke,
}
use playground_engine.Reflection.Access.Checks.{
  Read, Written, Referred, field_access_checked, Invoked, invoke-Invoked,
}

abbrev parameter : Bool → ParameterInfo
parameter by_move = record { type_info = 5; binds_by_move = by_move }

abbrev constructors : List ConstructorInfo
constructors =
    (record { params = parameter false ∷ []; kind = copy; thunk = some 1 })
    ∷ (record { params = parameter true ∷ []; kind = move; thunk = some 2 })
    ∷ []

abbrev moved : TypedRef
moved = record { type = 5; object = 40; is_const = false; movable = true }

select_constructor-Resolved_example :
    Resolved
      (moved ∷ [])
      (viable (moved ∷ []) (numbered 0 constructors))
      (select_constructor constructors (moved ∷ []))
select_constructor-Resolved_example = select_constructor-Resolved (moved ∷ []) constructors

abbrev health : FieldInfo
health = record {
  declaring_type = 5;
  is_mutable = false;
  is_lvalue_reference = false;
  is_rvalue_reference = false;
  getter = some 3;
  setter = none;
  referencer = none;
}

field_access_checked_example :
    Read health moved moved (get_value health moved moved)
    × Written health moved moved (set_value health moved moved)
    × Referred health moved (get_ref health moved)
field_access_checked_example = field_access_checked health moved moved

abbrev heal : FunctionInfo
heal = record {
  is_const = false;
  is_static = false;
  is_free_function = false;
  function_declaring_type = 5;
  invoker = some 4;
}

invoke-Invoked_example : Invoked heal moved [] moved (invoke heal moved [] moved)
invoke-Invoked_example = invoke-Invoked heal moved [] moved
