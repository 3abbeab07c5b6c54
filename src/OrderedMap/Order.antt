-- ===== src/OrderedMap/Order.antt =====
-- The keys of an ordered map are strictly increasing, and every operation keeps them so.
use playground_engine.Base.{ℕ, ◌<◌, [], ◌∷◌, arith}
use playground_engine.OrderedMap.{OrderedMap, insert_or_assign, try_emplace, erase}

module _ {ℓ} {V : Type ℓ} where
  -- Every key lies above `k`.
  abbrev pub Above : ℕ → OrderedMap V → Type 0
  Above k [] = Unit
  Above k ((j, v) ∷ m) = (k < j) × Above k m

  abbrev pub IsOrdered : OrderedMap V → Type 0
  IsOrdered [] = Unit
  IsOrdered ((j, v) ∷ m) = Above j m × IsOrdered m

  Above-trans : (i j : ℕ) (m : OrderedMap V) → i < j → Above j m → Above i m
  Above-trans i j [] h a = tt
  Above-trans i j ((l, v) ∷ m) h a = (omega arith, Above-trans i j m h a.1)

  Above-insert_or_assign :
      (i k : ℕ) (v : V) (m : OrderedMap V) → i < k → Above i m → Above i (insert_or_assign k v m)
  unfolding insert_or_assign
  Above-insert_or_assign i k v [] h a = (h, tt)
  Above-insert_or_assign i k v ((j, w) ∷ m) h a =
      ground (arith, Above-insert_or_assign i k v m h a.1)

  pub insert_or_assign-IsOrdered :
      (k : ℕ) (v : V) (m : OrderedMap V) → IsOrdered m → IsOrdered (insert_or_assign k v m)
  unfolding insert_or_assign
  insert_or_assign-IsOrdered k v [] o = (tt, tt)
  insert_or_assign-IsOrdered k v ((j, w) ∷ m) o = ground (
    arith,
    insert_or_assign-IsOrdered k v m o.1,
    Above-insert_or_assign j k v m,
    Above-trans k j m,
  )

  pub try_emplace-IsOrdered :
      (k : ℕ) (v : V) (m : OrderedMap V) → IsOrdered m → IsOrdered (try_emplace k v m)
  unfolding try_emplace
  try_emplace-IsOrdered k v m o = ground (arith, insert_or_assign-IsOrdered k v m o)

  Above-erase : (i k : ℕ) (m : OrderedMap V) → Above i m → Above i (erase k m)
  unfolding erase
  Above-erase i k [] a = tt
  Above-erase i k ((j, v) ∷ m) a = ground (arith, Above-erase i k m a.1)

  pub erase-IsOrdered : (k : ℕ) (m : OrderedMap V) → IsOrdered m → IsOrdered (erase k m)
  unfolding erase
  erase-IsOrdered k [] o = tt
  erase-IsOrdered k ((j, v) ∷ m) o = ground (arith, erase-IsOrdered k m o.1, Above-erase j k m o.0)
