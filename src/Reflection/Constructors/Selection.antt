-- ===== src/Reflection/Constructors/Selection.antt =====
-- `SelectConstructor` of TypeInfo.cpp against the rule of overload resolution.
use playground_engine.Base.{
  ℕ, suc, ◌+◌, ◌-◌, ◌≤◌, ◌≡◌, refl, sym, ap, ◌∙◌, subst, Bool, true, false, ◌⊎◌, inl, inr, some,
  List, [], ◌∷◌, if◌then◌else◌, arith, Bool-cases, All, all_of, all_of_sound, get_elem?, is_empty,
}
use playground_engine.Ecs.{TypedRef}
use playground_engine.Reflection.Constructors.{
  ParameterInfo, ConstructorInfo, Candidate, same_place, binds_better_from, binds_better_than,
  is_viable, no_matching_constructor, ambiguous_constructor, Selected, selected, failed, numbered,
  viable, sweep, beaten_by, confirm, select_among, select_constructor,
}

-- Of two constructors, at most one binds better.
binds_better_from-asym :
    (left right : List ParameterInfo) (args : List TypedRef) (b : Bool)
    → binds_better_from left right args false ≡ true
    → binds_better_from right left args b ≡ false
unfolding binds_better_from
binds_better_from-asym [] right args b h = cc
binds_better_from-asym (l ∷ left) [] args b h = cc
binds_better_from-asym (l ∷ left) (r ∷ right) [] b h = cc
binds_better_from-asym (l ∷ left) (r ∷ right) (arg ∷ args) b h =
    ground (arith, binds_better_from-asym left right args b)

-- A member of a list, an element that a predicate on all holds of, and back.
abbrev pub In : Candidate → List Candidate → Type 0
In c [] = ⊥
In c (d ∷ ds) = (d ≡ c) ⊎ In c ds

All-at : (P : Candidate → Type 0) (c : Candidate) (cs : List Candidate) → All P cs → In c cs → P c
All-at P c [] a m = absurd m
All-at P c (d ∷ ds) a (inl e) = subst P e a.0
All-at P c (d ∷ ds) a (inr m) = All-at P c ds a.1 m

All-tabulate :
    (P : Candidate → Type 0) (cs : List Candidate) → ((c : Candidate) → In c cs → P c) → All P cs
All-tabulate P [] f = tt
All-tabulate P (d ∷ ds) f = (f d (inl refl), All-tabulate P ds (λ c m. f c (inr m)))

-- An element of the array stands at its place.
abbrev Placed : List ConstructorInfo → ℕ → Candidate → Type 0
Placed constructors first c = (first ≤ c.0) × (get_elem? constructors (c.0 - first) ≡ some c.1)

Placed-later :
    (x : ConstructorInfo) (constructors : List ConstructorInfo) (first : ℕ) (c : Candidate)
    → Placed constructors (first + 1) c
    → Placed (x ∷ constructors) first c
Placed-later x constructors first c (le, at) =
    let step : c.0 - first ≡ suc (c.0 - (first + 1)) = omega (arith, le) in
    (omega (arith, le), rw step at)

numbered-Placed :
    (first : ℕ) (constructors : List ConstructorInfo) (c : Candidate)
    → In c (numbered first constructors)
    → Placed constructors first c
unfolding numbered
numbered-Placed first [] c m = absurd m
numbered-Placed first (x ∷ constructors) c (inl e) =
    subst (Placed (x ∷ constructors) first) e
      (omega arith, (let zero_offset : first - first ≡ 0 = omega arith in rw zero_offset refl))
numbered-Placed first (x ∷ constructors) c (inr m) =
    Placed-later x constructors first c (numbered-Placed (first + 1) constructors c m)

viable-In :
    (args : List TypedRef) (cs : List Candidate) (c : Candidate) → In c (viable args cs) → In c cs
unfolding viable
viable-In args [] c m = absurd m
viable-In args (d ∷ ds) c m =
    let later = viable-In args ds c in
    elim (Bool-cases (is_viable args d)) [
      | inl e ↦
          let kept : viable args (d ∷ ds) ≡ (d ∷ viable args ds) = ground arith in
          elim (subst (In c) kept m) [ inl p ↦ inl p | inr n ↦ inr (later n) ]
      | inr e ↦
          let passed : viable args (d ∷ ds) ≡ viable args ds = ground arith in
          inr (later (subst (In c) passed m))
    ]

-- Two elements at one place are one.
abbrev Unique : Candidate → Candidate → Type 0
Unique w d = same_place d w ≡ true → d ≡ w

Placed-Unique :
    (constructors : List ConstructorInfo) (w d : Candidate)
    → Placed constructors 0 w
    → Placed constructors 0 d
    → Unique w d
Placed-Unique constructors w d a b same =
    let place : d.0 ≡ w.0 = ground arith in
    let held : some d.1 ≡ some w.1 =
      sym b.1 ∙ ap (λ (n : ℕ). get_elem? constructors (n - 0)) place ∙ a.1 in
    let constructor : d.1 ≡ w.1 = cc in λ i. (place i, constructor i)

module _ (args : List TypedRef) where
  -- No other constructor binds as well.
  abbrev pub beats_all : Candidate → List Candidate → Bool
  beats_all c cs = all_of (beaten_by args c) cs

  abbrev Beaten : Candidate → Candidate → Type 0
  Beaten w d = beaten_by args w d ≡ true

  asym : (c d : Candidate) → binds_better_than args c d ≡ true → binds_better_than args d c ≡ false
  asym c d h = binds_better_from-asym c.1.params d.1.params args false h

  reach :
      (w best : Candidate)
      → Beaten w best
      → Unique w best
      → (if binds_better_than args w best then w else best) ≡ w
  reach w best h u = elim (Bool-cases (binds_better_than args w best)) [
    | inl e ↦ rw e refl
    | inr e ↦ rw e (u (ground arith))
  ]

  stay :
      (w c : Candidate)
      → Beaten w c
      → Unique w c
      → (if binds_better_than args c w then c else w) ≡ w
  stay w c h u = elim (Bool-cases (binds_better_than args c w)) [
    | inl e ↦ rw e (u (ground (arith, asym c w e)))
    | inr e ↦ rw e refl
  ]

  sweep-stays :
      (w : Candidate) (cs : List Candidate)
      → All (Beaten w) cs
      → All (Unique w) cs
      → sweep args w cs ≡ w
  unfolding sweep
  sweep-stays w [] a u = refl
  sweep-stays w (c ∷ cs) a u = rw (stay w c a.0 u.0) (sweep-stays w cs a.1 u.1)

  sweep-reaches :
      (w best : Candidate) (cs : List Candidate)
      → Beaten w best
      → Unique w best
      → All (Beaten w) cs
      → All (Unique w) cs
      → In w cs
      → sweep args best cs ≡ w
  unfolding sweep
  sweep-reaches w best [] b n a u m = absurd m
  sweep-reaches w best (c ∷ cs) b n a u (inl e) =
      subst (λ x. sweep args (if binds_better_than args x best then x else best) cs ≡ w) (sym e)
        (rw (reach w best b n) (sweep-stays w cs a.1 u.1))
  sweep-reaches w best (c ∷ cs) b n a u (inr m) =
      elim (Bool-cases (binds_better_than args c best)) [
        | inl e ↦ rw e (sweep-reaches w c cs a.0 u.0 a.1 u.1 m)
        | inr e ↦ rw e (sweep-reaches w best cs b n a.1 u.1 m)
      ]

  sweep-In :
      (best : Candidate) (cs all : List Candidate)
      → In best all
      → All (λ c. In c all) cs
      → In (sweep args best cs) all
  unfolding sweep
  sweep-In best [] all m a = m
  sweep-In best (c ∷ cs) all m a = elim (Bool-cases (binds_better_than args c best)) [
    | inl e ↦ rw e (sweep-In c cs all a.0 a.1)
    | inr e ↦ rw e (sweep-In best cs all m a.1)
  ]

  -- What a selection among the viable constructors answers.
  abbrev pub Resolved : List Candidate → Selected → Type 0
  Resolved cs (selected c) = In c cs × (beats_all c cs ≡ true)
  Resolved cs (failed no_matching_constructor) = is_empty cs ≡ true
  Resolved cs (failed ambiguous_constructor) =
      (is_empty cs ≡ false) × All (λ c. beats_all c cs ≡ false) cs

  -- One that binds better than every other is where the sweep ends.
  sweep_best :
      (front : Candidate) (rest : List Candidate) (c : Candidate)
      → In c (front ∷ rest)
      → ((w d : Candidate) → In w (front ∷ rest) → In d (front ∷ rest) → Unique w d)
      → beats_all c (front ∷ rest) ≡ true
      → sweep args front (front ∷ rest) ≡ c
  sweep_best front rest c m unique h =
      let beaten : All (Beaten c) (front ∷ rest) =
        all_of_sound (beaten_by args c) (front ∷ rest) h in
      let one : All (Unique c) (front ∷ rest) =
        All-tabulate (Unique c) (front ∷ rest) (λ d n. unique c d m n) in
      sweep-reaches c front (front ∷ rest) beaten.0 one.0 beaten one m

  none_better :
      (front : Candidate) (rest : List Candidate) (c : Candidate)
      → In c (front ∷ rest)
      → ((w d : Candidate) → In w (front ∷ rest) → In d (front ∷ rest) → Unique w d)
      → beats_all (sweep args front (front ∷ rest)) (front ∷ rest) ≡ false
      → beats_all c (front ∷ rest) ≡ false
  none_better front rest c m unique e = elim (Bool-cases (beats_all c (front ∷ rest))) [
    | inl h ↦ subst (λ w. beats_all w (front ∷ rest) ≡ false) (sweep_best front rest c m unique h) e
    | inr h ↦ h
  ]

  confirm-Resolved :
      (front : Candidate) (rest : List Candidate)
      → ((w d : Candidate) → In w (front ∷ rest) → In d (front ∷ rest) → Unique w d)
      → Resolved (front ∷ rest) (confirm args (sweep args front (front ∷ rest)) (front ∷ rest))
  unfolding confirm
  confirm-Resolved front rest unique =
      let best : Candidate = sweep args front (front ∷ rest) in
      elim (Bool-cases (beats_all best (front ∷ rest))) [
        | inl e ↦ rw e (
          sweep-In front (front ∷ rest) (front ∷ rest) (inl refl)
              (All-tabulate (λ c. In c (front ∷ rest)) (front ∷ rest) (λ c m. m)),
          e,
        )
        | inr e ↦ rw e (
          refl,
          All-tabulate (λ c. beats_all c (front ∷ rest) ≡ false) (front ∷ rest)
              (λ c m. none_better front rest c m unique e),
        )
      ]

  select_among-Resolved :
      (cs : List Candidate)
      → ((w d : Candidate) → In w cs → In d cs → Unique w d)
      → Resolved cs (select_among args cs)
  unfolding select_among
  select_among-Resolved [] unique = refl
  select_among-Resolved (front ∷ rest) unique = confirm-Resolved front rest unique

  -- The viable constructors of the type's array, those that construct and whose parameters have the
  -- types of the arguments, decide the selection: with none it answers NoMatchingConstructor; it
  -- answers a constructor only if that one is viable and binds better than each other viable one,
  -- and AmbiguousConstructor only if no viable one does. The order of the array plays no part.
  pub select_constructor-Resolved :
      (constructors : List ConstructorInfo)
      → Resolved (viable args (numbered 0 constructors)) (select_constructor constructors args)
  unfolding select_constructor select_among
  select_constructor-Resolved constructors =
      select_among-Resolved (viable args (numbered 0 constructors)) (λ w d m n.
        Placed-Unique constructors w d
          (numbered-Placed 0 constructors w (viable-In args (numbered 0 constructors) w m))
          (numbered-Placed 0 constructors d (viable-In args (numbered 0 constructors) d n)))
