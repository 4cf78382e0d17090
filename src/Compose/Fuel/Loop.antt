-- ===== src/Compose/Fuel/Loop.antt =====
-- src/compose.ts, `composeConstraints`: the loop asks its table for pairs of the two lists only.
use mathlib.Core.Option
use sequence.Prelude.{
  Bool, true, false, ◌≡◌, refl, ◌∙◌, ap, List, [], ◌∷◌, Option, none, some, All, map, if◌then◌else◌,
  keep, any, every,
}
use sequence.Compose.Meet.{
  Meet, contradiction, merged, independent, absorb, unhandled, merge_all, compose_constraints,
}

module _ {A B : Type 0} where
  pub map_ext : (f g : A → B) (xs : List A) → All (λ x. f x ≡ g x) xs → map f xs ≡ map g xs
  map_ext f g [] h = refl
  map_ext f g (x ∷ xs) (h, hs) = rw (h, map_ext f g xs hs)

module _ {A : Type 0} (p q : A → Bool) where
  pub keep_ext : (xs : List A) → All (λ x. p x ≡ q x) xs → keep p xs ≡ keep q xs
  keep_ext [] h = refl
  keep_ext (x ∷ xs) (h, hs) = rw (h, keep_ext xs hs)

  pub any_ext : (xs : List A) → All (λ x. p x ≡ q x) xs → any p xs ≡ any q xs
  any_ext [] h = refl
  any_ext (x ∷ xs) (h, hs) = rw (h, any_ext xs hs)

  pub every_ext : (xs : List A) → All (λ x. p x ≡ q x) xs → every p xs ≡ every q xs
  every_ext [] h = refl
  every_ext (x ∷ xs) (h, hs) = rw (h, every_ext xs hs)

pub All_weaken :
    {A : Type 0} {P Q : A → Type 0} (xs : List A) → ((x : A) → P x → Q x) → All P xs → All Q xs
All_weaken [] f h = tt
All_weaken (x ∷ xs) f (h, hs) = (f x h, All_weaken xs f hs)

module _ {C : Type 0} (f g : C → C → Meet C) (S T : C → Type 0)
    (alike : (a b : C) → S a → T b → f a b ≡ g a b) where
  abbrev Rest : List (C × Bool) → Type 0
  Rest bs = All (λ b. T b.0) bs

  abbrev Left : Option (Option (C × List (C × Bool))) → Type 0
  Left none = Unit
  Left (some none) = Unit
  Left (some (some r)) = Rest r.1

  later_Left :
      (b : C) (handled : Bool) (o : Option (Option (C × List (C × Bool))))
      → T b
      → Left o
      → Left (Option.map (Option.map (λ r. (r.0, (b, handled) ∷ r.1))) o)
  later_Left b handled none t h = tt
  later_Left b handled (some none) t h = tt
  later_Left b handled (some (some r)) t h = (t, h)

  absorb-Left : (a : C) (bs : List (C × Bool)) → Rest bs → Left (absorb f a bs)
  unfolding absorb
  absorb-Left a [] h = tt
  absorb-Left a ((b, true) ∷ bs) (t, h) = later_Left b true (absorb f a bs) t (absorb-Left a bs h)
  absorb-Left a ((b, false) ∷ bs) (t, h) =
      by_meet (f a b) (later_Left b false (absorb f a bs) t (absorb-Left a bs h))
    where
      by_meet :
          (m : Meet C)
          → Left (Option.map (Option.map (λ r. (r.0, (b, false) ∷ r.1))) (absorb f a bs))
          → Left (elim m [
            | contradiction ↦ none
            | merged m ↦ some (some (m, (b, true) ∷ bs))
            | independent ↦ Option.map (Option.map (λ r. (r.0, (b, false) ∷ r.1))) (absorb f a bs)
          ])
      by_meet contradiction k = tt
      by_meet (merged m) k = (t, h)
      by_meet independent k = k

  absorb_ext : (a : C) (bs : List (C × Bool)) → S a → Rest bs → absorb f a bs ≡ absorb g a bs
  unfolding absorb
  absorb_ext a [] s h = refl
  absorb_ext a ((b, true) ∷ bs) s (t, h) =
      ap (Option.map (Option.map (λ r. (r.0, (b, true) ∷ r.1)))) (absorb_ext a bs s h)
  absorb_ext a ((b, false) ∷ bs) s (t, h) =
      ap (chosen (absorb f a bs)) (alike a b s t) ∙ ap (λ o. chosen o (g a b)) (absorb_ext a bs s h)
    where
      chosen :
          Option (Option (C × List (C × Bool))) → Meet C → Option (Option (C × List (C × Bool)))
      chosen o m = elim m [
        | contradiction ↦ none
        | merged m ↦ some (some (m, (b, true) ∷ bs))
        | independent ↦ Option.map (Option.map (λ r. (r.0, (b, false) ∷ r.1))) o
      ]

  unhandled_ext : (bs : List (C × Bool)) → unhandled f bs ≡ unhandled g bs
  unfolding unhandled
  unhandled_ext [] = refl
  unhandled_ext ((b, true) ∷ bs) = unhandled_ext bs
  unhandled_ext ((b, false) ∷ bs) = ap (λ cs. b ∷ cs) (unhandled_ext bs)

  merge_all_ext :
      (xs : List C) (bs : List (C × Bool))
      → All S xs
      → Rest bs
      → merge_all f xs bs ≡ merge_all g xs bs
  unfolding merge_all
  merge_all_ext [] bs s h = ap some (unhandled_ext bs)
  merge_all_ext (a ∷ xs) bs (s, ss) h =
      by_absorb (absorb f a bs) (absorb-Left a bs h) (λ cs k. merge_all_ext xs cs ss k)
      ∙ ap
          (λ o. elim o [
            | none ↦ none
            | some o ↦ elim o [
              | none ↦ Option.map (λ cs. a ∷ cs) (merge_all g xs bs)
              | some r ↦ Option.map (λ cs. r.0 ∷ cs) (merge_all g xs r.1)
            ]
          ])
          (absorb_ext a bs s h)
    where
      by_absorb :
          (o : Option (Option (C × List (C × Bool))))
          → Left o
          → ((cs : List (C × Bool)) → Rest cs → merge_all f xs cs ≡ merge_all g xs cs)
          → (elim o [
            | none ↦ none
            | some o ↦ elim o [
              | none ↦ Option.map (λ cs. a ∷ cs) (merge_all f xs bs)
              | some r ↦ Option.map (λ cs. r.0 ∷ cs) (merge_all f xs r.1)
            ]
          ])
            ≡ (elim o [
              | none ↦ none
              | some o ↦ elim o [
                | none ↦ Option.map (λ cs. a ∷ cs) (merge_all g xs bs)
                | some r ↦ Option.map (λ cs. r.0 ∷ cs) (merge_all g xs r.1)
              ]
            ])
      by_absorb none k ih = refl
      by_absorb (some none) k ih = ap (Option.map (λ cs. a ∷ cs)) (ih bs h)
      by_absorb (some (some r)) k ih = ap (Option.map (λ cs. r.0 ∷ cs)) (ih r.1 k)

  Rest-fresh : (bs : List C) → All T bs → Rest (map (λ b. (b, false)) bs)
  Rest-fresh [] h = tt
  Rest-fresh (b ∷ bs) (t, h) = (t, Rest-fresh bs h)

  pub compose_constraints_ext :
      (contradictory : List C → Bool) (xs bs : List C)
      → All S xs
      → All T bs
      → compose_constraints f contradictory xs bs ≡ compose_constraints g contradictory xs bs
  unfolding compose_constraints
  compose_constraints_ext contradictory xs bs s t =
      ap (λ o. elim o [ none ↦ none | some cs ↦ if contradictory cs then none else some cs ])
        (merge_all_ext xs (map (λ b. (b, false)) bs) s (Rest-fresh bs t))
