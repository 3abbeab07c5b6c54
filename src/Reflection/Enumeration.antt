-- ===== src/Reflection/Enumeration.antt =====
-- The enumerator table of an enumeration: PlaygroundEngine/src/Reflection/Builtins/EnumerationFacet.cppm
-- and .cpp, and the typed lookups of Reflection/Reflection.cppm. The table is what the builder
-- reads off an `enum` declaration, in declaration order.
use playground_engine.Base.{
  ℕ, ◌+◌, Option, none, some, List, [], ◌∷◌, String, Text, codes, text_eq, ◌==◌, if◌then◌else◌,
  bind,
}

-- How an enumerator is declared: with no value, with a number, or with an earlier enumerator.
pub data Initializer : Type 0 where
  implicit : Initializer
  literal : ℕ → Initializer
  alias : String → Initializer

pub record EnumeratorInfo : Type 0 where
  pub identifier : Text
  pub value : ℕ

unfoldable pub find_by_identifier : List EnumeratorInfo → Text → Option EnumeratorInfo
find_by_identifier [] identifier = none
find_by_identifier (enumerator ∷ rest) identifier =
    if text_eq enumerator.identifier identifier
    then some enumerator
    else find_by_identifier rest identifier

unfoldable pub find_by_value : List EnumeratorInfo → ℕ → Option EnumeratorInfo
find_by_value [] value = none
find_by_value (enumerator ∷ rest) value =
    if enumerator.value == value then some enumerator else find_by_value rest value

abbrev value_of : Option EnumeratorInfo → ℕ
value_of none = 0
value_of (some enumerator) = enumerator.value

-- The value that C++ gives a declared enumerator, after those `seen`.
initial_value : Initializer → ℕ → List EnumeratorInfo → ℕ
unfolding find_by_identifier text_eq
initial_value implicit next seen = next
initial_value (literal n) next seen = n
initial_value (alias name) next seen = value_of (find_by_identifier seen (codes name))

number_from : ℕ → List EnumeratorInfo → List (String × Initializer) → List EnumeratorInfo
unfolding initial_value
number_from next seen [] = []
number_from next seen ((name, init) ∷ rest) =
    let enumerator : EnumeratorInfo = record {
      identifier = codes name;
      value = initial_value init next seen;
    } in
    enumerator ∷ number_from (enumerator.value + 1) (enumerator ∷ seen) rest

unfoldable pub enumerators : List (String × Initializer) → List EnumeratorInfo
unfolding number_from
enumerators declarations = number_from 0 [] declarations

-- `EnumToName` and `EnumFromName`, over the enumerator table of the enumeration.
unfoldable pub enum_to_name : List EnumeratorInfo → ℕ → Option Text
unfolding find_by_value
enum_to_name table value = bind (find_by_value table value) (λ e. some e.identifier)

unfoldable pub enum_from_name : List EnumeratorInfo → Text → Option ℕ
unfolding find_by_identifier
enum_from_name table identifier = bind (find_by_identifier table identifier) (λ e. some e.value)
