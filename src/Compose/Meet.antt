-- ===== src/Compose/Meet.antt =====
-- src/compose.ts, `composeConstraints`: the loop over the constraints of two types, for any table of pair
-- handlers, and what it keeps of their meaning.
use mathlib.Core.Option
use sequence.Prelude.{
  Bool, true, false, ◌&&◌, ◌≡◌, refl, sym, ◌∙◌, ap, List, [], ◌∷◌, Option, none, some, arith, every,
  map, subst, if◌then◌else◌,
}

-- What a pair handler says of two constraints: `null`, a constraint, or `undefined`.
pub data Meet (C : Type 0) : Type 0 where
  contradiction : Meet C
  merged : C → Meet C
  independent : Meet C

module _ {C : Type 0} (meet : C → C → Meet C) where
  -- the first constraint that is not handled and that the handler merges; `none` is a contradiction
  unfoldable pub absorb : C → List (C × Bool) → Option (Option (C × List (C × Bool)))
  absorb a [] = some none
  absorb a ((b, handled) ∷ bs) =
      let rest = absorb a bs in
      let later = Option.map (Option.map (λ r. (r.0, (b, handled) ∷ r.1))) rest in
      if handled then later else elim (meet a b) [
        | contradiction ↦ none
        | merged m ↦ some (some (m, (b, true) ∷ bs))
        | independent ↦ later
      ]

  unfoldable pub unhandled : List (C × Bool) → List C
  unhandled [] = []
  unhandled ((b, handled) ∷ bs) = let rest = unhandled bs in if handled then rest else b ∷ rest

  unfoldable pub merge_all : List C → List (C × Bool) → Option (List C)
  unfolding absorb unhandled
  merge_all [] bs = some (unhandled bs)
  merge_all (a ∷ xs) bs = elim (absorb a bs) [
    | none ↦ none
    | some o ↦ elim o [
      | none ↦ Option.map (λ cs. a ∷ cs) (merge_all xs bs)
      | some r ↦ Option.map (λ cs. r.0 ∷ cs) (merge_all xs r.1)
    ]
  ]

  -- `none` is the type `never`
  unfoldable pub compose_constraints : (List C → Bool) → List C → List C → Option (List C)
  unfolding merge_all
  compose_constraints contradictory xs bs = elim (merge_all xs (map (λ b. (b, false)) bs)) [
    | none ↦ none
    | some cs ↦ if contradictory cs then none else some cs
  ]

-- A list of constraints, or `never`, that holds exactly where the test does.
abbrev pub Denotes : {C : Type 0} → (C → Bool) → Bool → Option (List C) → Type 0
Denotes holds total none = total ≡ false
Denotes holds total (some cs) = every holds cs ≡ total

-- What a handler may say of two constraints, by what they hold of.
abbrev pub Agrees : {C : Type 0} → (C → Bool) → C → C → Meet C → Type 0
Agrees holds a b contradiction = (holds a && holds b) ≡ false
Agrees holds a b (merged m) = holds m ≡ (holds a && holds b)
Agrees holds a b independent = Unit

module _ {C : Type 0} (meet : C → C → Meet C) (holds : C → Bool)
    (agrees : (a b : C) → Agrees holds a b (meet a b)) where
  abbrev Absorbs : C → List (C × Bool) → Option (Option (C × List (C × Bool))) → Type 0
  Absorbs a bs none = (holds a && every holds (unhandled meet bs)) ≡ false
  Absorbs a bs (some none) = Unit
  Absorbs a bs (some (some r)) =
      (holds r.0 && every holds (unhandled meet r.1)) ≡ (holds a && every holds (unhandled meet bs))

  later-Absorbs :
      (a b : C) (handled : Bool) (bs : List (C × Bool)) (o : Option (Option (C × List (C × Bool))))
      → Absorbs a bs o
      → Absorbs a ((b, handled) ∷ bs) (Option.map (Option.map (λ r. (r.0, (b, handled) ∷ r.1))) o)
  unfolding unhandled
  later-Absorbs a b true bs none h = h
  later-Absorbs a b false bs none h = ground arith
  later-Absorbs a b handled bs (some none) h = tt
  later-Absorbs a b true bs (some (some r)) h = h
  later-Absorbs a b false bs (some (some r)) h = ground arith

  absorb-Absorbs : (a : C) (bs : List (C × Bool)) → Absorbs a bs (absorb meet a bs)
  unfolding absorb
  absorb-Absorbs a [] = tt
  absorb-Absorbs a ((b, true) ∷ bs) =
      later-Absorbs a b true bs (absorb meet a bs) (absorb-Absorbs a bs)
  absorb-Absorbs a ((b, false) ∷ bs) =
      by_meet (meet a b) (agrees a b)
        (later-Absorbs a b false bs (absorb meet a bs) (absorb-Absorbs a bs))
    where
      by_meet :
          (m : Meet C)
          → Agrees holds a b m
          → Absorbs a
              ((b, false) ∷ bs)
              (Option.map (Option.map (λ r. (r.0, (b, false) ∷ r.1))) (absorb meet a bs))
          → Absorbs a ((b, false) ∷ bs) (elim m [
            | contradiction ↦ none
            | merged m ↦ some (some (m, (b, true) ∷ bs))
            | independent ↦
                Option.map (Option.map (λ r. (r.0, (b, false) ∷ r.1))) (absorb meet a bs)
          ])
      by_meet contradiction g h = unfold unhandled in ground arith
      by_meet (merged m) g h = unfold unhandled in ground arith
      by_meet independent g h = h

  map-Denotes :
      (c : C) (total : Bool) (o : Option (List C))
      → Denotes holds total o
      → Denotes holds (holds c && total) (Option.map (λ cs. c ∷ cs) o)
  map-Denotes c total none h = ground arith
  map-Denotes c total (some cs) h = ground arith

  merge_all-Denotes :
      (xs : List C) (bs : List (C × Bool))
      → Denotes holds (every holds xs && every holds (unhandled meet bs)) (merge_all meet xs bs)
  unfolding merge_all
  merge_all-Denotes [] bs = refl
  merge_all-Denotes (a ∷ xs) bs =
      by_absorb (absorb meet a bs) (absorb-Absorbs a bs) (λ cs. merge_all-Denotes xs cs)
    where
      by_absorb :
          (o : Option (Option (C × List (C × Bool))))
          → Absorbs a bs o
          → ((cs : List (C × Bool))
              → Denotes holds
                  (every holds xs && every holds (unhandled meet cs))
                  (merge_all meet xs cs))
          → Denotes holds ((holds a && every holds xs) && every holds (unhandled meet bs)) (elim o [
            | none ↦ none
            | some o ↦ elim o [
              | none ↦ Option.map (λ cs. a ∷ cs) (merge_all meet xs bs)
              | some r ↦ Option.map (λ cs. r.0 ∷ cs) (merge_all meet xs r.1)
            ]
          ])
      by_absorb none g ih = ground arith
      by_absorb (some none) g ih =
          subst (λ t. Denotes holds t (Option.map (λ cs. a ∷ cs) (merge_all meet xs bs)))
            (ground arith) (map-Denotes a _ (merge_all meet xs bs) (ih bs))
      by_absorb (some (some r)) g ih =
          subst (λ t. Denotes holds t (Option.map (λ cs. r.0 ∷ cs) (merge_all meet xs r.1)))
            (ground arith) (map-Denotes r.0 _ (merge_all meet xs r.1) (ih r.1))

  unhandled-fresh : (bs : List C) → unhandled meet (map (λ b. (b, false)) bs) ≡ bs
  unfolding unhandled
  unhandled-fresh [] = refl
  unhandled-fresh (b ∷ bs) = ap (λ cs. b ∷ cs) (unhandled-fresh bs)

  -- Where each pair handler agrees with what its constraints hold of, and the check for contradictions
  -- only finds lists that hold nowhere, the composition of two lists holds exactly where both hold,
  -- and is `never` only where they hold nowhere together.
  pub compose_constraints-Denotes :
      (contradictory : List C → Bool)
      → ((cs : List C) → contradictory cs ≡ true → every holds cs ≡ false)
      → (xs bs : List C)
      → Denotes holds
          (every holds xs && every holds bs)
          (compose_constraints meet contradictory xs bs)
  unfolding compose_constraints
  compose_constraints-Denotes contradictory refuted xs bs =
      by_list (merge_all meet xs (map (λ b. (b, false)) bs)) (
        subst
          (λ cs.
            Denotes holds (every holds xs && every holds cs)
              (merge_all meet xs (map (λ b. (b, false)) bs)))
          (unhandled-fresh bs) (merge_all-Denotes xs (map (λ b. (b, false)) bs)))
    where
      by_test :
          (cs : List C) (t : Bool)
          → contradictory cs ≡ t
          → Denotes holds (every holds xs && every holds bs) (some cs)
          → Denotes holds (every holds xs && every holds bs) (if t then none else some cs)
      by_test cs true e h = sym h ∙ refuted cs e
      by_test cs false e h = h

      by_list :
          (o : Option (List C))
          → Denotes holds (every holds xs && every holds bs) o
          → Denotes holds
              (every holds xs && every holds bs)
              (elim o [ none ↦ none | some cs ↦ if contradictory cs then none else some cs ])
      by_list none h = h
      by_list (some cs) h = by_test cs (contradictory cs) refl h
