-- ===== src/Compose/Lower/Base.antt =====
-- src/compose.ts, `composeSameKind`: two types of one kind of plain data, composed.
use sequence.Prelude.{
  ◌==◌, ℕ, String, Bool, true, false, ◌&&◌, ◌≡◌, refl, sym, ◌∙◌, ap, List, [], ◌∷◌, Option, none,
  some, arith, every, All, eqb, if◌then◌else◌,
}
use sequence.Lang.{
  op_of, Kind, string, number, boolean, null, object, array, fn, never, or, Value, Constraint, con,
  Constraints, none_left, one_more, Ty, ty, Fields, constraints, from_list, cons, str, ref, type_of,
}
use sequence.Compose.Meet.{compose_constraints}
use sequence.Compose.Pairs.{meet_pair}
use sequence.Compose.Check.{check, check_each, check_one, some_branch, kind_ok, has_op}
use sequence.Compose.Contradiction.{Deadline, detect_contradiction}
use sequence.Compose.Lattice.{
  Calls, compose_same, same_kind, kind_number, contradicted, spread_meta,
}
use sequence.Compose.Lower.{
  nothing, base, Plain, PlainOne, PlainEach, none_left_over, also, property, element, flat, bounded,
  is_base,
}
use sequence.Compose.Lower.Merge.{Merged, compose_constraints-Merged}
use sequence.Compose.Lower.Pair.{holds}
use sequence.Compose.Lower.Row.{Lower, Parts}
use sequence.Compose.Lower.Table.{pair-Below, is_length-unspecial}

unfoldable kind_at : ℕ → Kind
kind_at n =
    if eqb n 0
    then string
    else if eqb n 1
    then number
    else if eqb n 2
    then boolean
    else if eqb n 3
    then null
    else if eqb n 4
    then object
    else if eqb n 5
    then array
    else if eqb n 6
    then fn
    else if eqb n 7
    then Kind.any
    else if eqb n 8
    then never
    else or

kind_at-number : (k : Kind) → kind_at (kind_number k) ≡ k
unfolding kind_at
kind_at-number string = refl
kind_at-number number = refl
kind_at-number boolean = refl
kind_at-number null = refl
kind_at-number object = refl
kind_at-number array = refl
kind_at-number fn = refl
kind_at-number Kind.any = refl
kind_at-number never = refl
kind_at-number or = refl

pub same_kind_eq : (k l : Kind) → same_kind k l ≡ true → k ≡ l
same_kind_eq k l h = sym (kind_at-number k) ∙ ap kind_at (ground arith) ∙ kind_at-number l

pub plain_each : (cs : Constraints) → PlainEach cs → All PlainOne (constraints cs)
plain_each _ none_left_over = tt
plain_each _ (also p ps) = (p, plain_each _ ps)

pub each_plain : (cs : List Constraint) → All PlainOne cs → PlainEach (from_list cs)
each_plain [] h = none_left_over
each_plain (c ∷ cs) (h, hs) = also h (each_plain cs hs)

module _ (matches : String → String → Bool) (v : Value) where
  -- neither a segment nor a branch
  abbrev Simple : Constraint → Type 0
  Simple c = ((op_of c == "segment") ≡ false) × ((op_of c == "branch") ≡ false)

  weak : (c : Constraint) → PlainOne c → Simple c
  weak _ (property p) = (refl, refl)
  weak _ (element p) = (refl, refl)
  weak _ (flat h l) = (ground arith, ground arith)
  weak _ (bounded {op} l b) = let plain = is_length-unspecial op l in (ground arith, ground arith)

  pub unbranched :
      (b : Bool) (c : Constraint) → Simple c → check_one matches false b c v ≡ holds matches v c
  unfolding check_one
  unbranched b (con op (cons (str k) (cons (ref i (type_of t)) rest))) h = ground arith
  unbranched b (con op (cons (ref i (type_of t)) rest)) h = ground arith
  unbranched b (con op args) h = ground arith

  has_op-Simple : (cs : List Constraint) → All Simple cs → has_op "segment" (from_list cs) ≡ false
  has_op-Simple [] h = refl
  has_op-Simple (con op args ∷ cs) (h, hs) = let rest = has_op-Simple cs hs in ground arith

  each-Simple :
      (b : Bool) (cs : List Constraint)
      → All Simple cs
      → check_each matches false b (from_list cs) v ≡ every (holds matches v) cs
  unfolding check_each
  each-Simple b [] h = refl
  each-Simple b (c ∷ cs) (h, hs) =
      let here = unbranched b c h in let rest = each-Simple b cs hs in ground arith

  check-Simple :
      (k : Kind) (cs : List Constraint) (m : Fields)
      → is_base k ≡ true
      → All Simple cs
      → check matches (ty k (from_list cs) m) v ≡ (kind_ok k v && every (holds matches v) cs)
  unfolding check
  check-Simple k cs m h s =
      by_kind k h
      ∙ ap
          (λ b.
            kind_ok k v
            && check_each matches b (some_branch matches (from_list cs) v) (from_list cs) v)
          (has_op-Simple cs s)
      ∙ ap (λ b. kind_ok k v && b) (each-Simple (some_branch matches (from_list cs) v) cs s)
    where
      by_kind :
          (k : Kind)
          → is_base k ≡ true
          → check matches (ty k (from_list cs) m) v ≡ (
              kind_ok k v
              && check_each matches
                  (has_op "segment" (from_list cs))
                  (some_branch matches (from_list cs) v)
                  (from_list cs)
                  v)
      by_kind string h = refl
      by_kind number h = refl
      by_kind boolean h = refl
      by_kind null h = refl
      by_kind object h = refl
      by_kind array h = refl
      by_kind k h = absurd (ground arith)

  all_weak : (cs : List Constraint) → All PlainOne cs → All Simple cs
  all_weak [] h = tt
  all_weak (c ∷ cs) (h, hs) = (weak c h, all_weak cs hs)

  from_constraints : (cs : Constraints) → from_list (constraints cs) ≡ cs
  from_constraints none_left = refl
  from_constraints (one_more c cs) = ap (λ ds. one_more c ds) (from_constraints cs)

  -- a type of plain data accepts what all its constraints accept
  check-base :
      (k : Kind) (cs : Constraints) (m : Fields)
      → is_base k ≡ true
      → PlainEach cs
      → check matches (ty k cs m) v ≡ (kind_ok k v && every (holds matches v) (constraints cs))
  check-base k cs m h p =
      ap (λ ds. check matches (ty k ds m) v) (sym (from_constraints cs))
      ∙ check-Simple k (constraints cs) m h (all_weak (constraints cs) (plain_each cs p))

  module _ (misses : Deadline) (calls : Calls)
      (ih : (t u : Ty) → Plain t → Plain u → Lower matches v calls.compose t u) where
    pub same-Lower :
        (k : Kind) (cs ds : Constraints) (m n : Fields)
        → is_base k ≡ true
        → PlainEach cs
        → PlainEach ds
        → Parts matches v
            (ty k cs m)
            (ty k ds n)
            (compose_same misses calls (ty k cs m) (ty k ds n))
    unfolding compose_same check
    same-Lower k cs ds m n h p q =
        by_list
          (compose_constraints (meet_pair calls.compose) (detect_contradiction misses k)
            (constraints cs) (constraints ds))
          (compose_constraints-Merged (meet_pair calls.compose) PlainOne PlainOne (holds matches v)
            (λ c p. p) (pair-Below matches v calls.compose ih) (detect_contradiction misses k)
            (constraints cs) (constraints ds) (plain_each cs p) (plain_each ds q))
      where
        by_list :
            (o : Option (List Constraint))
            → Merged
                (meet_pair calls.compose)
                PlainOne
                PlainOne
                (holds matches v)
                (λ c p. p)
                (pair-Below matches v calls.compose ih)
                (constraints cs)
                (constraints ds)
                o
            → Parts matches v
                (ty k cs m)
                (ty k ds n)
                (elim o [ none ↦ contradicted | some es ↦ ty k (from_list es) (spread_meta n m) ])
        by_list none g = (nothing, λ e. absurd (ground arith))
        by_list (some es) (s, f) = (
          base h (each_plain es s),
          λ e.
              (let whole = sym (check-Simple k es (spread_meta n m) h (all_weak es s)) ∙ e in
                let parts = f (ground arith) in
                (check-base k cs m h p ∙ (ground arith), check-base k ds n h q ∙ (ground arith))),
        )
