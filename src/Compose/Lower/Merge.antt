-- ===== src/Compose/Lower/Merge.antt =====
-- src/compose.ts, `composeConstraints`: where each merge holds of less than the two constraints that it
-- stands for, so does the merged list.
use mathlib.Core.Option
use sequence.Prelude.{
  Bool, true, false, ◌≡◌, refl, ap, subst, List, [], ◌∷◌, Option, none, some, arith, every, map,
  All, if◌then◌else◌,
}
use sequence.Compose.Meet.{
  Meet, contradiction, merged, independent, absorb, unhandled, merge_all, compose_constraints,
}

-- What a handler makes of two constraints keeps `P`, and holds only where both hold.
pub data Below {C : Type 0} (P : C → Type 0) (holds : C → Bool) (a b : C) : Meet C → Type 0 where
  clash : Below P holds a b contradiction
  apart : Below P holds a b independent
  tight :
      {m : C}
      → P m
      → (holds m ≡ true → (holds a ≡ true) × (holds b ≡ true))
      → Below P holds a b (merged m)

module _ {C : Type 0} (meet : C → C → Meet C) (S P : C → Type 0) (holds : C → Bool)
    (weak : (c : C) → S c → P c)
    (below : (a b : C) → S a → S b → Below P holds a b (meet a b)) where
  abbrev Firsts : List (C × Bool) → Type 0
  Firsts bs = All (λ b. S b.0) bs

  abbrev Absorbed : C → List (C × Bool) → Option (Option (C × List (C × Bool))) → Type 0
  Absorbed a bs none = Unit
  Absorbed a bs (some none) = Unit
  Absorbed a bs (some (some r)) =
      P r.0
      × Firsts r.1
      × (holds r.0 ≡ true
          → every holds (unhandled meet r.1) ≡ true
          → (holds a ≡ true) × (every holds (unhandled meet bs) ≡ true))

  later-Absorbed :
      (a b : C) (handled : Bool) (bs : List (C × Bool)) (o : Option (Option (C × List (C × Bool))))
      → S b
      → Absorbed a bs o
      → Absorbed a ((b, handled) ∷ bs) (Option.map (Option.map (λ r. (r.0, (b, handled) ∷ r.1))) o)
  unfolding unhandled
  later-Absorbed a b handled bs none s h = tt
  later-Absorbed a b handled bs (some none) s h = tt
  later-Absorbed a b true bs (some (some r)) s (p, f, h) = (p, (s, f), h)
  later-Absorbed a b false bs (some (some r)) s (p, f, h) =
      (p, (s, f), λ x y. (let all = h x (ground arith) in (all.0, ground arith)))

  absorb-Absorbed :
      (a : C) (bs : List (C × Bool)) → S a → Firsts bs → Absorbed a bs (absorb meet a bs)
  unfolding absorb
  absorb-Absorbed a [] s f = tt
  absorb-Absorbed a ((b, true) ∷ bs) s (sb, f) =
      later-Absorbed a b true bs (absorb meet a bs) sb (absorb-Absorbed a bs s f)
  absorb-Absorbed a ((b, false) ∷ bs) s (sb, f) =
      by_meet (meet a b) (below a b s sb)
        (later-Absorbed a b false bs (absorb meet a bs) sb (absorb-Absorbed a bs s f))
    where
      by_meet :
          (m : Meet C)
          → Below P holds a b m
          → Absorbed a
              ((b, false) ∷ bs)
              (Option.map (Option.map (λ r. (r.0, (b, false) ∷ r.1))) (absorb meet a bs))
          → Absorbed a ((b, false) ∷ bs) (elim m [
            | contradiction ↦ none
            | merged m ↦ some (some (m, (b, true) ∷ bs))
            | independent ↦
                Option.map (Option.map (λ r. (r.0, (b, false) ∷ r.1))) (absorb meet a bs)
          ])
      by_meet _ clash h = tt
      by_meet _ apart h = h
      by_meet _ (tight p k) h =
          (p, (sb, f), λ x y. (let both = k x in (both.0, unfold unhandled in ground arith)))

  -- What the loop returns keeps `P`, and holds only where both lists hold.
  abbrev pub Merged : List C → List C → Option (List C) → Type 0
  Merged xs bs none = Unit
  Merged xs bs (some cs) =
      All P cs × (every holds cs ≡ true → (every holds xs ≡ true) × (every holds bs ≡ true))

  unhandled-All : (bs : List (C × Bool)) → Firsts bs → All P (unhandled meet bs)
  unfolding unhandled
  unhandled-All [] f = tt
  unhandled-All ((b, true) ∷ bs) (s, f) = unhandled-All bs f
  unhandled-All ((b, false) ∷ bs) (s, f) = (weak b s, unhandled-All bs f)

  keep-Merged :
      (c a : C) (xs ys bs : List C) (o : Option (List C))
      → P c
      → (holds c ≡ true → every holds ys ≡ true → (holds a ≡ true) × (every holds bs ≡ true))
      → Merged xs ys o
      → Merged (a ∷ xs) bs (Option.map (λ cs. c ∷ cs) o)
  keep-Merged c a xs ys bs none p k h = tt
  keep-Merged c a xs ys bs (some cs) p k (q, h) = (
    (p, q),
    λ e.
        (let rest = h (ground arith) in
          let parts = k (ground arith) rest.1 in (ground arith, parts.1)),
  )

  merge_all-Merged :
      (xs : List C) (bs : List (C × Bool))
      → All S xs
      → Firsts bs
      → Merged xs (unhandled meet bs) (merge_all meet xs bs)
  unfolding merge_all
  merge_all-Merged [] bs s f = (unhandled-All bs f, λ e. (refl, e))
  merge_all-Merged (a ∷ xs) bs (s, ss) f =
      by_absorb (absorb meet a bs) (absorb-Absorbed a bs s f) (λ cs g. merge_all-Merged xs cs ss g)
    where
      by_absorb :
          (o : Option (Option (C × List (C × Bool))))
          → Absorbed a bs o
          → ((cs : List (C × Bool))
              → Firsts cs
              → Merged xs (unhandled meet cs) (merge_all meet xs cs))
          → Merged (a ∷ xs) (unhandled meet bs) (elim o [
            | none ↦ none
            | some o ↦ elim o [
              | none ↦ Option.map (λ cs. a ∷ cs) (merge_all meet xs bs)
              | some r ↦ Option.map (λ cs. r.0 ∷ cs) (merge_all meet xs r.1)
            ]
          ])
      by_absorb none g ih = tt
      by_absorb (some none) g ih =
          keep-Merged a a xs (unhandled meet bs) (unhandled meet bs) (merge_all meet xs bs)
            (weak a s) (λ x y. (x, y)) (ih bs f)
      by_absorb (some (some r)) (p, f', k) ih =
          keep-Merged r.0 a xs (unhandled meet r.1) (unhandled meet bs) (merge_all meet xs r.1) p k
            (ih r.1 f')

  Firsts-fresh : (bs : List C) → All S bs → Firsts (map (λ b. (b, false)) bs)
  Firsts-fresh [] h = tt
  Firsts-fresh (b ∷ bs) (s, h) = (s, Firsts-fresh bs h)

  unhandled-fresh : (bs : List C) → unhandled meet (map (λ b. (b, false)) bs) ≡ bs
  unfolding unhandled
  unhandled-fresh [] = refl
  unhandled-fresh (b ∷ bs) = ap (λ cs. b ∷ cs) (unhandled-fresh bs)

  pub compose_constraints-Merged :
      (contradictory : List C → Bool) (xs bs : List C)
      → All S xs
      → All S bs
      → Merged xs bs (compose_constraints meet contradictory xs bs)
  unfolding compose_constraints
  compose_constraints-Merged contradictory xs bs s f =
      by_list (merge_all meet xs (map (λ b. (b, false)) bs)) (
        subst (λ cs. Merged xs cs (merge_all meet xs (map (λ b. (b, false)) bs)))
          (unhandled-fresh bs)
          (merge_all-Merged xs (map (λ b. (b, false)) bs) s (Firsts-fresh bs f)))
    where
      by_list :
          (o : Option (List C))
          → Merged xs bs o
          → Merged xs bs
              (elim o [ none ↦ none | some cs ↦ if contradictory cs then none else some cs ])
      by_list none h = tt
      by_list (some cs) h = by_test (contradictory cs) h
        where
          by_test : (b : Bool) → Merged xs bs (some cs) → Merged xs bs (if b then none else some cs)
          by_test true h = tt
          by_test false h = h
