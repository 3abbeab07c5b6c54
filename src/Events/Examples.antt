-- ===== src/Events/Examples.antt =====
-- A key's name and back.
use playground_engine.Base.{◌≡◌, refl, some, Text}
use playground_engine.Reflection.Enumeration.{enum_to_name, enum_from_name}
use playground_engine.Events.Codes.{input_codes}
use playground_engine.Events.Names.{enum_from_name-enum_to_name}

enum_from_name-enum_to_name_example :
    (name : Text) × (enum_to_name input_codes 23 ≡ some name)
    × (enum_from_name input_codes name ≡ some 23)
enum_from_name-enum_to_name_example = enum_from_name-enum_to_name 23 refl
