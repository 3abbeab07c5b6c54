-- ===== src/Events/Names.antt =====
-- The names of the codes of PlatformEvents/InputCode.cppm, as the reflection answers them.
use playground_engine.Base.{
  ◌≡◌, refl, Bool, true, false, ◌||◌, Option, none, some, ◌==◌, if◌then◌else◌, Text, passes_below,
  passes_below-at, arith,
}
use playground_engine.Reflection.Enumeration.{enum_to_name, enum_from_name}
use playground_engine.Events.Codes.{InputCode, input_codes, is_keyboard_code, is_pointer_code}

-- `EnumFromName` of the name is the code.
abbrev leads_back : Option Text → InputCode → Bool
leads_back none c = false
leads_back (some name) c = elim (enum_from_name input_codes name) [ none ↦ false | some d ↦ d == c ]

abbrev named : InputCode → Bool
named c =
    if is_keyboard_code c || is_pointer_code c
    then leads_back (enum_to_name input_codes c) c
    else true

named_table : passes_below named 264 ≡ true
unfolding passes_below enum_to_name enum_from_name input_codes
named_table = refl

leads_back_sound :
    (o : Option Text) (c : InputCode)
    → leads_back o c ≡ true
    → (name : Text) × (o ≡ some name) × (enum_from_name input_codes name ≡ some c)
leads_back_sound none c h = cc
leads_back_sound (some name) c h = (name, refl, ground arith)

-- Every keyboard code and every pointer code has a name, and `EnumFromName` takes that name back to
-- the code.
pub enum_from_name-enum_to_name :
    (c : InputCode)
    → (is_keyboard_code c || is_pointer_code c) ≡ true
    → (name : Text) × (enum_to_name input_codes c ≡ some name)
      × (enum_from_name input_codes name ≡ some c)
enum_from_name-enum_to_name c h =
    leads_back_sound (enum_to_name input_codes c) c
      (ground (arith, passes_below-at named 264 c, named_table))
