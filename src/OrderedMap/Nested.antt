-- ===== src/OrderedMap/Nested.antt =====
-- A map of maps: the cell that a pair of keys names, and how writes and removals change it.
use playground_engine.Base.{
  ℕ, ◌≡◌, refl, ◌&&◌, Option, none, some, [], arith, ◌==◌, bind, value_or, if◌then◌else◌,
  Option-cases, inl, inr,
}
use playground_engine.OrderedMap.{
  OrderedMap, find, insert_or_assign, erase, find-insert_or_assign, find-erase,
}

module _ {ℓ} {V : Type ℓ} where
  abbrev pub find_in : ℕ → ℕ → OrderedMap (OrderedMap V) → Option V
  find_in i j outer = bind (find i outer) (find j)

  -- `outer[i][j] = v`, where `operator[]` inserts an empty inner map for a missing `i`.
  unfoldable pub assign_in : ℕ → ℕ → V → OrderedMap (OrderedMap V) → OrderedMap (OrderedMap V)
  assign_in i j v outer =
      insert_or_assign i (insert_or_assign j v (value_or (find i outer) [])) outer

  -- `if (entry = outer.find(i); entry != end) entry->second.erase(j)`.
  unfoldable pub erase_in : ℕ → ℕ → OrderedMap (OrderedMap V) → OrderedMap (OrderedMap V)
  erase_in i j outer = elim (find i outer) [
    | none ↦ outer
    | some inner ↦ insert_or_assign i (erase j inner) outer
  ]

  find-empty : (j : ℕ) → find {V = V} j [] ≡ none
  unfolding find
  find-empty j = refl

  pub find_in-assign_in :
      (i j i' j' : ℕ) (v : V) (outer : OrderedMap (OrderedMap V))
      → find_in i' j' (assign_in i j v outer)
        ≡ (if (i == i') && (j == j') then some v else find_in i' j' outer)
  unfolding assign_in
  find_in-assign_in i j i' j' v outer = ground (
    arith,
    find-empty j',
    find-insert_or_assign i i' (insert_or_assign j v (value_or (find i outer) [])) outer,
    find-insert_or_assign j j' v (value_or (find i outer) []),
  )

  pub find-erase_in :
      (i j k : ℕ) (outer : OrderedMap (OrderedMap V))
      → find k (erase_in i j outer)
        ≡ (if i == k then bind (find i outer) (λ inner. some (erase j inner)) else find k outer)
  unfolding erase_in
  find-erase_in i j k outer = elim (Option-cases (find i outer)) [
    | inl e ↦ rw e (ground arith)
    | inr (inner, e) ↦ rw (e, erase_in) (find-insert_or_assign i k (erase j inner) outer)
  ]

  pub find_in-erase_in :
      (i j i' j' : ℕ) (outer : OrderedMap (OrderedMap V))
      → find_in i' j' (erase_in i j outer)
        ≡ (if (i == i') && (j == j') then none else find_in i' j' outer)
  find_in-erase_in i j i' j' outer = elim (Option-cases (find i outer)) [
    | inl e ↦ rw (find-erase_in i j i' outer) (ground arith)
    | inr (inner, e) ↦ rw (find-erase_in i j i' outer) (ground (arith, find-erase j j' inner))
  ]
