-- ===== src/OrderedMap.antt =====
-- `std::map` from natural-number keys: an association list in key order. `find`, `try_emplace`,
-- `insert_or_assign` (also the write through `operator[]`), `erase` and the two views that the
-- program iterates over.
pub mod Order
pub mod Nested
use playground_engine.Base.{
  ℕ, ◌≡◌, refl, Bool, ◌||◌, Option, none, some, List, [], ◌∷◌, map, arith, ltb, ◌==◌, ==_refl,
  is_some, any_of, if◌then◌else◌,
}

abbrev pub OrderedMap {ℓ} : Type ℓ → Type ℓ
OrderedMap V = List (ℕ × V)

module _ {ℓ} {V : Type ℓ} where
  unfoldable pub find : ℕ → OrderedMap V → Option V
  find k [] = none
  find k ((j, v) ∷ m) = if j == k then some v else find k m

  abbrev pub contains : ℕ → OrderedMap V → Bool
  contains k m = is_some (find k m)

  unfoldable pub insert_or_assign : ℕ → V → OrderedMap V → OrderedMap V
  insert_or_assign k v [] = (k, v) ∷ []
  insert_or_assign k v ((j, w) ∷ m) =
      let rest = insert_or_assign k v m in
      if k == j then (k, v) ∷ m else if ltb k j then (k, v) ∷ (j, w) ∷ m else (j, w) ∷ rest

  unfoldable pub try_emplace : ℕ → V → OrderedMap V → OrderedMap V
  unfolding insert_or_assign find
  try_emplace k v m = if contains k m then m else insert_or_assign k v m

  unfoldable pub erase : ℕ → OrderedMap V → OrderedMap V
  erase k [] = []
  erase k ((j, v) ∷ m) = let rest = erase k m in if j == k then rest else (j, v) ∷ rest

  unfoldable pub keys : OrderedMap V → List ℕ
  keys = map (λ (e : ℕ × V). e.0)

  unfoldable pub values : OrderedMap V → List V
  values = map (λ (e : ℕ × V). e.1)

  pub find-insert_or_assign :
      (k j : ℕ) (v : V) (m : OrderedMap V)
      → find j (insert_or_assign k v m) ≡ (if k == j then some v else find j m)
  unfolding find insert_or_assign
  find-insert_or_assign k j v [] = refl
  find-insert_or_assign k j v ((i, w) ∷ m) = ground (arith, find-insert_or_assign k j v m)

  pub find-try_emplace :
      (k j : ℕ) (v : V) (m : OrderedMap V)
      → find j (try_emplace k v m)
        ≡ (if contains k m then find j m else if k == j then some v else find j m)
  unfolding try_emplace
  find-try_emplace k j v m = ground (arith, find-insert_or_assign k j v m)

  pub find-erase :
      (k j : ℕ) (m : OrderedMap V) → find j (erase k m) ≡ (if k == j then none else find j m)
  unfolding find erase
  find-erase k j [] = ground arith
  find-erase k j ((i, w) ∷ m) = ground (arith, find-erase k j m)

  -- The keys iterated over are those that `find` answers.
  pub any_of-keys : (k : ℕ) (m : OrderedMap V) → any_of (λ j. j == k) (keys m) ≡ contains k m
  unfolding find keys
  any_of-keys k [] = refl
  any_of-keys k ((j, v) ∷ m) = ground (arith, any_of-keys k m)

pub ruleset map_laws = (find-insert_or_assign, find-try_emplace, find-erase, ==_refl)
