-- ===== src/Space/Case/Search.antt =====
-- src-v2/case.ts: `push` of `caseWalk`, for any kind of node, and a plain search in breadth that pushes so.
pub mod Once
pub mod Pushes
use sequence.Prelude.{
  ℕ, zero, suc, ◌+◌, ◌≤◌, eq_iff, eq_refl, ◌||◌, inl, inr, Bool-cases, subst, length-append,
  All-append, String, Bool, true, false, not, ◌≡◌, refl, sym, ◌∙◌, ap, Option, none, some, List, [],
  ◌∷◌, ◌++◌, map, if◌then◌else◌, arith, has, keep, length, All, ◌==◌,
}
use sequence.Prelude.Bools.{or_true, clash}
use sequence.Prelude.Fallible.{◌>>=◌, Returns, Returns-bind}

-- those keys of a list that were not seen
abbrev pub unseen : List String → List String → ℕ
unseen all seen = length (keep (λ k. not (has k seen)) all)

counted :
    (x : String) (xs seen : List String) (b : Bool)
    → has x seen ≡ b
    → unseen (x ∷ xs) seen ≡ (if b then unseen xs seen else suc (unseen xs seen))
counted x xs seen true h =
    ap
      (λ b.
        length
          (if not b then x ∷ keep (λ k. not (has k seen)) xs else keep (λ k. not (has k seen)) xs))
      h
counted x xs seen false h =
    ap
      (λ b.
        length
          (if not b then x ∷ keep (λ k. not (has k seen)) xs else keep (λ k. not (has k seen)) xs))
      h

either : (a b c d : Bool) → a ≡ c → b ≡ d → (a || b) ≡ (c || d)
either a b c d h g = ap (λ x. x || b) h ∙ ap (λ x. c || x) g

unseen_head :
    (k x : String) (xs seen : List String) (a b : Bool)
    → (k == x) ≡ a
    → has x seen ≡ b
    → unseen xs (k ∷ seen) ≤ unseen xs seen
    → unseen (x ∷ xs) (k ∷ seen) ≤ unseen (x ∷ xs) seen
unseen_head k x xs seen a true e h l =
    let first =
      counted x xs (k ∷ seen) true (either (k == x) (has x seen) a true e h ∙ or_true a) in
    let second = counted x xs seen true h in omega (arith, first, second, l)
unseen_head k x xs seen true false e h l =
    let first = counted x xs (k ∷ seen) true (either (k == x) (has x seen) true false e h) in
    let second = counted x xs seen false h in omega (arith, first, second, l)
unseen_head k x xs seen false false e h l =
    let first = counted x xs (k ∷ seen) false (either (k == x) (has x seen) false false e h) in
    let second = counted x xs seen false h in omega (arith, first, second, l)

unseen_le : (k : String) (all seen : List String) → unseen all (k ∷ seen) ≤ unseen all seen
unseen_le k [] seen = omega arith
unseen_le k (x ∷ xs) seen =
    unseen_head k x xs seen (k == x) (has x seen) refl refl (unseen_le k xs seen)

unseen_new :
    (k : String) (xs seen : List String)
    → has k seen ≡ false
    → suc (unseen (k ∷ xs) (k ∷ seen)) ≤ unseen (k ∷ xs) seen
unseen_new k xs seen h =
    let first =
      counted k xs (k ∷ seen) true (either (k == k) (has k seen) true false (eq_refl k) h) in
    let second = counted k xs seen false h in
    let rest = unseen_le k xs seen in omega (arith, first, second, rest)

unseen_tail :
    (k x : String) (xs seen : List String) (a b : Bool)
    → (k == x) ≡ a
    → has x seen ≡ b
    → a ≡ false
    → suc (unseen xs (k ∷ seen)) ≤ unseen xs seen
    → suc (unseen (x ∷ xs) (k ∷ seen)) ≤ unseen (x ∷ xs) seen
unseen_tail k x xs seen true b e h n l = absurd (ground arith)
unseen_tail k x xs seen false true e h n l =
    let first = counted x xs (k ∷ seen) true (either (k == x) (has x seen) false true e h) in
    let second = counted x xs seen true h in omega (arith, first, second, l)
unseen_tail k x xs seen false false e h n l =
    let first = counted x xs (k ∷ seen) false (either (k == x) (has x seen) false false e h) in
    let second = counted x xs seen false h in omega (arith, first, second, l)

pub differs : (k x : String) → (k == x) ≡ false → (x == k) ≡ false
differs k x e = elim (Bool-cases (x == k)) [
  | inl same ↦ absurd (clash (eq_refl k) (subst (λ y. (k == y) ≡ false) ((eq_iff x k).0 same) e))
  | inr other ↦ other
]

pub unseen_less :
    (k : String) (all seen : List String)
    → has k seen ≡ false
    → has k all ≡ true
    → suc (unseen all (k ∷ seen)) ≤ unseen all seen
unseen_less k [] seen h g = absurd (ground arith)
unseen_less k (x ∷ xs) seen h g = elim (Bool-cases (k == x)) [
  | inl here ↦
      subst (λ x. suc (unseen (x ∷ xs) (k ∷ seen)) ≤ unseen (x ∷ xs) seen) ((eq_iff k x).0 here)
        (unseen_new k xs seen h)
  | inr there ↦
      unseen_tail k x xs seen (k == x) (has x seen) refl refl there
        (unseen_less k xs seen h (in_tail (x == k) (has k xs) (differs k x there) g))
]
  where
    in_tail : (a b : Bool) → a ≡ false → (a || b) ≡ true → b ≡ true
    in_tail a b h g = ground arith

module _ {N : Type 0} (key : N → String) (next : N → List N) where
  -- `push`: the queue and the keys that were seen
  unfoldable pub push : N → List N × List String → List N × List String
  push n s = if has (key n) s.1 then s else (s.0 ++ (n ∷ []), key n ∷ s.1)

  unfoldable pub push_all : List N → List N × List String → List N × List String
  unfolding push
  push_all [] s = s
  push_all (n ∷ ns) s = push_all ns (push n s)

  -- the nodes in the order in which they leave the queue; `none` where the fuel is out
  unfoldable pub search : ℕ → List N × List String → Option (List N)
  unfolding push_all
  search fuel ([], seen) = some []
  search zero (n ∷ queue, seen) = none
  search (suc fuel) (n ∷ queue, seen) = do
    later ← search fuel (push_all (next n) (queue, seen))
    some (n ∷ later)

  module _ (all : List String) (Good : N → Type 0)
      (known : (n : N) → Good n → has (key n) all ≡ true)
      (stays : (n : N) → Good n → All Good (next n)) where
    -- what is left to do, which never grows
    abbrev pub left : List N × List String → ℕ
    left s = length s.0 + unseen all s.1

    push-left :
        (n : N) (s : List N × List String)
        → Good n
        → All Good s.0
        → (left (push n s) ≤ left s) × All Good (push n s).0
    unfolding push
    push-left n s h g = by_test (has (key n) s.1) refl
      where
        by_test :
            (b : Bool)
            → has (key n) s.1 ≡ b
            → (left (if b then s else (s.0 ++ (n ∷ []), key n ∷ s.1)) ≤ left s)
              × All Good (if b then s else (s.0 ++ (n ∷ []), key n ∷ s.1)).0
        by_test true e = (omega arith, g)
        by_test false e =
            let less = unseen_less (key n) all s.1 e (known n h) in
            let longer = length-append s.0 (n ∷ []) in
            (omega (arith, less, longer), All-append Good s.0 (n ∷ []) g (h, tt))

    pub push_all-left :
        (ns : List N) (s : List N × List String)
        → All Good ns
        → All Good s.0
        → (left (push_all ns s) ≤ left s) × All Good (push_all ns s).0
    unfolding push_all
    push_all-left [] s h g = (omega arith, g)
    push_all-left (n ∷ ns) s (h, hs) g =
        let first = push-left n s h g in
        let rest = push_all-left ns (push n s) hs first.1 in
        (omega (arith, first.0, rest.0), rest.1)

    -- With fuel for the queue and for what was not seen, the search ends.
    pub search_ends :
        (fuel : ℕ) (queue : List N) (seen : List String)
        → All Good queue
        → length queue + unseen all seen ≤ fuel
        → (out : List N) × (search fuel (queue, seen) ≡ some out)
    unfolding search
    search_ends fuel [] seen h g = ([], refl)
    search_ends zero (n ∷ queue) seen h g = absurd (omega arith)
    search_ends (suc fuel) (n ∷ queue) seen (h, hs) g =
        let pushed = push_all-left (next n) (queue, seen) (stays n h) hs in
        let later =
          search_ends fuel (push_all (next n) (queue, seen)).0 (push_all (next n) (queue, seen)).1
            pushed.1 (omega (arith, pushed.0, g)) in
        (n ∷ later.0, ap (λ o. o >>= λ later. some (n ∷ later)) later.1)

  module _ (P : N → Type 0) (steps : (n : N) → P n → All P (next n)) where
    push-All : (n : N) (s : List N × List String) → P n → All P s.0 → All P (push n s).0
    unfolding push
    push-All n s h g = by_test (has (key n) s.1)
      where
        by_test : (b : Bool) → All P (if b then s else (s.0 ++ (n ∷ []), key n ∷ s.1)).0
        by_test true = g
        by_test false = All-append P s.0 (n ∷ []) g (h, tt)

    pub push_all-All :
        (ns : List N) (s : List N × List String) → All P ns → All P s.0 → All P (push_all ns s).0
    unfolding push_all
    push_all-All [] s h g = g
    push_all-All (n ∷ ns) s (h, hs) g = push_all-All ns (push n s) hs (push-All n s h g)

    -- A property of the queue that steps keep is one of everything visited.
    pub search-All :
        (fuel : ℕ) (queue : List N) (seen : List String)
        → All P queue
        → Returns (All P) (search fuel (queue, seen))
    unfolding search
    search-All fuel [] seen h = tt
    search-All zero (n ∷ queue) seen h = tt
    search-All (suc fuel) (n ∷ queue) seen (h, hs) =
        Returns-bind (All P) (All P) (λ later. some (n ∷ later))
          (search fuel (push_all (next n) (queue, seen)))
          (search-All fuel (push_all (next n) (queue, seen)).0 (push_all (next n) (queue, seen)).1
            (push_all-All (next n) (queue, seen) (steps n h) hs))
          (λ later k. (h, k))
