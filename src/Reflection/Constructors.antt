-- ===== src/Reflection/Constructors.antt =====
-- Construction from erased arguments: the selection of PlaygroundEngine/src/Reflection/Core/TypeInfo.cpp
-- and the constructors of ConstructorInfo.cppm. A `TypeInfo*` is its address; a `ConstructorInfo*`
-- is its place in the type's array; a thunk is the number of what it runs, absent where it is null.
pub mod Selection
use playground_engine.Base.{
  ℕ, ◌+◌, Bool, true, false, not, ◌&&◌, ◌||◌, Option, none, some, List, [], ◌∷◌, ◌==◌,
  if◌then◌else◌, is_some, all_of,
}
use playground_engine.Ecs.{TypedRef}

pub data ConstructorKind : Type 0 where
  default copy move converting other : ConstructorKind

abbrev pub kind_number : ConstructorKind → ℕ
kind_number default = 0
kind_number copy = 1
kind_number move = 2
kind_number converting = 3
kind_number other = 4

pub record ParameterInfo : Type 0 where
  pub type_info : ℕ
  pub binds_by_move : Bool

pub record ConstructorInfo : Type 0 where
  pub params : List ParameterInfo
  pub kind : ConstructorKind
  pub thunk : Option ℕ

-- A constructor with its place.
abbrev pub Candidate : Type 0
Candidate = ℕ × ConstructorInfo

abbrev pub same_place : Candidate → Candidate → Bool
same_place a b = a.0 == b.0

abbrev pub can_construct : ConstructorInfo → Bool
can_construct constructor = is_some constructor.thunk

abbrev pub boolean_eq : Bool → Bool → Bool
boolean_eq true b = b
boolean_eq false b = not b

unfoldable pub suits_argument : ParameterInfo → TypedRef → Bool
suits_argument param arg = boolean_eq param.binds_by_move (arg.movable && not arg.is_const)

-- The loop of `BindsBetterThan` from a parameter on. Sizes that differ, which its contract rules
-- out, end it.
unfoldable pub binds_better_from :
    List ParameterInfo → List ParameterInfo → List TypedRef → Bool → Bool
binds_better_from (l ∷ left) (r ∷ right) (arg ∷ args) better_somewhere =
    let left_suits = suits_argument l arg in
    let right_suits = suits_argument r arg in
    let later =
      binds_better_from left right args (better_somewhere || (left_suits && not right_suits)) in
    if right_suits && not left_suits then false else later
binds_better_from [] right args better_somewhere = better_somewhere
binds_better_from (l ∷ left) [] args better_somewhere = better_somewhere
binds_better_from (l ∷ left) (r ∷ right) [] better_somewhere = better_somewhere

abbrev pub binds_better_than : List TypedRef → Candidate → Candidate → Bool
binds_better_than args left right = binds_better_from left.1.params right.1.params args false

unfoldable pub matches_params : List ParameterInfo → List TypedRef → Bool
matches_params [] [] = true
matches_params [] (arg ∷ args) = false
matches_params (param ∷ params) [] = false
matches_params (param ∷ params) (arg ∷ args) =
    let later = matches_params params args in param.type_info == arg.type && later

abbrev pub matches_arguments : ConstructorInfo → List TypedRef → Bool
matches_arguments constructor args = matches_params constructor.params args

abbrev pub is_viable : List TypedRef → Candidate → Bool
is_viable args c = can_construct c.1 && matches_arguments c.1 args

pub data SelectError : Type 0 where
  no_matching_constructor ambiguous_constructor : SelectError

pub data Selected : Type 0 where
  selected : Candidate → Selected
  failed : SelectError → Selected

-- The elements with their places, from a place on.
unfoldable pub numbered : ℕ → List ConstructorInfo → List Candidate
numbered place [] = []
numbered place (c ∷ constructors) = (place, c) ∷ numbered (place + 1) constructors

unfoldable pub viable : List TypedRef → List Candidate → List Candidate
viable args [] = []
viable args (c ∷ cs) = let later = viable args cs in if is_viable args c then c ∷ later else later

-- The pairwise sweep.
unfoldable pub sweep : List TypedRef → Candidate → List Candidate → Candidate
sweep args best [] = best
sweep args best (c ∷ cs) = sweep args (if binds_better_than args c best then c else best) cs

abbrev pub beaten_by : List TypedRef → Candidate → Candidate → Bool
beaten_by args best c = same_place c best || binds_better_than args best c

unfoldable pub confirm : List TypedRef → Candidate → List Candidate → Selected
confirm args best candidates =
    if all_of (beaten_by args best) candidates then selected best else failed ambiguous_constructor

unfoldable pub select_among : List TypedRef → List Candidate → Selected
unfolding sweep confirm
select_among args [] = failed no_matching_constructor
select_among args (front ∷ rest) = confirm args (sweep args front (front ∷ rest)) (front ∷ rest)

unfoldable pub select_constructor : List ConstructorInfo → List TypedRef → Selected
unfolding select_among
select_constructor constructors args = select_among args (viable args (numbered 0 constructors))

-- `FindConstructor` of a kind.
unfoldable pub find_kind : ConstructorKind → List Candidate → Option Candidate
find_kind kind [] = none
find_kind kind (c ∷ cs) =
    if kind_number c.1.kind == kind_number kind then some c else find_kind kind cs

unfoldable pub find_constructor : List ConstructorInfo → List TypedRef → Option Candidate
find_constructor constructors args = elim (select_constructor constructors args) [
  | selected c ↦ some c
  | failed e ↦ none
]

-- What a construction comes to: an error of the selection, `NotConstructible`, or a thunk's run on
-- the arguments and the slot.
pub data Construction : Type 0 where
  rejected : SelectError → Construction
  not_constructible : Construction
  runs : ℕ → List TypedRef → TypedRef → Construction

unfoldable pub construct_with : ConstructorInfo → List TypedRef → TypedRef → Construction
construct_with constructor args slot = elim constructor.thunk [
  | none ↦ not_constructible
  | some thunk ↦ runs thunk args slot
]

unfoldable pub construct : List ConstructorInfo → List TypedRef → TypedRef → Construction
construct constructors args slot = elim (select_constructor constructors args) [
  | selected c ↦ construct_with c.1 args slot
  | failed e ↦ rejected e
]
