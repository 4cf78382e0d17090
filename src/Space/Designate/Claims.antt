-- ===== src/Space/Designate/Claims.antt =====
-- src-v2/designate.ts: who is in the order of an allocation.
use sequence.Prelude.{
  String, Bool, true, false, not, ◌&&◌, ◌||◌, ◌≡◌, refl, subst, ap, ◌∙◌, ◌==◌, if◌then◌else◌,
  Option, none, some, arith, List, [], ◌∷◌, has, any, eq_iff, eq_refl, or_else,
}
use sequence.Lang.Int.{ℤ, pos, leb_ℤ}
use sequence.Space.Designate.{
  Order, declaration, member_hash, ClaimRow, AllocationRule, Designation, stands, standing,
  comes_before, put, sorted, slots_from, ordered, designate,
}

-- each element once
abbrev pub is_distinct : List String → Bool
is_distinct [] = true
is_distinct (m ∷ ms) = not (has m ms) && is_distinct ms

-- whether a member has a standing row
abbrev pub has_claim : ℤ → String → List ClaimRow → Bool
has_claim occurrence m rows = any (λ r. stands occurrence r && r.member == m) rows

has_same :
    (a m : String) (seen : List String) (y : Bool)
    → has a seen ≡ y
    → (a == m) ≡ true
    → has m seen ≡ y
has_same a m seen y h e = subst (λ x. has x seen ≡ y) ((eq_iff a m).0 e) h

claimed_before :
    (same claims seen : Bool)
    → (same ≡ true → seen ≡ true)
    → (claims && not seen) ≡ ((same || claims) && not seen)
claimed_before false claims seen h = refl
claimed_before true claims seen h = let e = h refl in ground arith

claimed_first :
    (same claims seen : Bool)
    → (same ≡ true → seen ≡ false)
    → (same || claims && not (same || seen)) ≡ ((same || claims) && not seen)
claimed_first false claims seen h = refl
claimed_first true claims seen h = let e = h refl in ground arith

standing-has :
    (occurrence : ℤ) (m : String) (seen : List String) (rows : List ClaimRow)
    → has m (standing occurrence seen rows) ≡ (has_claim occurrence m rows && not (has m seen))
unfolding standing
standing-has occurrence m seen [] = refl
standing-has occurrence m seen (r ∷ rs) =
    by_test (stands occurrence r) (has r.member seen) refl (standing-has occurrence m seen rs)
      (standing-has occurrence m (r.member ∷ seen) rs)
  where
    by_test :
        (x y : Bool)
        → has r.member seen ≡ y
        → has m (standing occurrence seen rs) ≡ (has_claim occurrence m rs && not (has m seen))
        → has m (standing occurrence (r.member ∷ seen) rs)
          ≡ (has_claim occurrence m rs && not (r.member == m || has m seen))
        → has m (
            if not x || y
            then standing occurrence seen rs
            else r.member ∷ standing occurrence (r.member ∷ seen) rs)
          ≡ ((x && r.member == m || has_claim occurrence m rs) && not (has m seen))
    by_test false y e h k = h
    by_test true true e h k =
        h
        ∙ claimed_before (r.member == m) (has_claim occurrence m rs) (has m seen)
            (has_same r.member m seen true e)
    by_test true false e h k =
        ap (λ b. r.member == m || b) k
        ∙ claimed_first (r.member == m) (has_claim occurrence m rs) (has m seen)
            (has_same r.member m seen false e)

put-has :
    (show_time : ℤ → String) (occurrence : ℤ) (m n : String) (ns : List String)
    → has m (put show_time occurrence n ns) ≡ (n == m || has m ns)
unfolding put
put-has show_time occurrence m n [] = refl
put-has show_time occurrence m n (x ∷ xs) =
    by_test (comes_before show_time occurrence x n) (put-has show_time occurrence m n xs)
  where
    by_test :
        (b : Bool)
        → has m (put show_time occurrence n xs) ≡ (n == m || has m xs)
        → has m (if b then x ∷ put show_time occurrence n xs else n ∷ x ∷ xs)
          ≡ (n == m || (x == m || has m xs))
    by_test true h = ap (λ b. x == m || b) h ∙ swap (x == m) (n == m) (has m xs)
      where
        swap : (p q r : Bool) → (p || (q || r)) ≡ (q || (p || r))
        swap p q r = ground arith
    by_test false h = refl

sorted-has :
    (show_time : ℤ → String) (occurrence : ℤ) (m : String) (ms : List String)
    → has m (sorted show_time occurrence ms) ≡ has m ms
unfolding sorted
sorted-has show_time occurrence m [] = refl
sorted-has show_time occurrence m (n ∷ ns) =
    put-has show_time occurrence m n (sorted show_time occurrence ns)
    ∙ ap (λ b. n == m || b) (sorted-has show_time occurrence m ns)

standing-is_distinct :
    (occurrence : ℤ) (seen : List String) (rows : List ClaimRow)
    → is_distinct (standing occurrence seen rows) ≡ true
unfolding standing
standing-is_distinct occurrence seen [] = refl
standing-is_distinct occurrence seen (r ∷ rs) =
    by_test (stands occurrence r) (has r.member seen) (standing-is_distinct occurrence seen rs)
      (standing-is_distinct occurrence (r.member ∷ seen) rs)
  where
    fresh : has r.member (standing occurrence (r.member ∷ seen) rs) ≡ false
    fresh =
        standing-has occurrence r.member (r.member ∷ seen) rs
        ∙ ap (λ b. has_claim occurrence r.member rs && not (b || has r.member seen))
            (eq_refl r.member)
        ∙ nothing_left (has_claim occurrence r.member rs)
      where
        nothing_left : (b : Bool) → (b && false) ≡ false
        nothing_left b = ground arith

    by_test :
        (x y : Bool)
        → is_distinct (standing occurrence seen rs) ≡ true
        → is_distinct (standing occurrence (r.member ∷ seen) rs) ≡ true
        → is_distinct (
            if not x || y
            then standing occurrence seen rs
            else r.member ∷ standing occurrence (r.member ∷ seen) rs)
          ≡ true
    by_test false y h k = h
    by_test true true h k = h
    by_test true false h k =
        ap (λ b. not b && is_distinct (standing occurrence (r.member ∷ seen) rs)) fresh ∙ k

put-is_distinct :
    (show_time : ℤ → String) (occurrence : ℤ) (n : String) (ns : List String)
    → has n ns ≡ false
    → is_distinct ns ≡ true
    → is_distinct (put show_time occurrence n ns) ≡ true
unfolding put
put-is_distinct show_time occurrence n [] h k = refl
put-is_distinct show_time occurrence n (x ∷ xs) h k =
    by_test (comes_before show_time occurrence x n)
      (put-is_distinct show_time occurrence n xs (ground arith) (ground arith))
  where
    apart : (n == x) ≡ false
    apart = ground (arith, eq_iff x n, eq_iff n x)

    elsewhere : has x (put show_time occurrence n xs) ≡ false
    elsewhere = let other = apart in put-has show_time occurrence x n xs ∙ (ground arith)

    by_test :
        (b : Bool)
        → is_distinct (put show_time occurrence n xs) ≡ true
        → is_distinct (if b then x ∷ put show_time occurrence n xs else n ∷ x ∷ xs) ≡ true
    by_test true e = ap (λ b. not b && is_distinct (put show_time occurrence n xs)) elsewhere ∙ e
    by_test false e = ap (λ b. not b && is_distinct (x ∷ xs)) h ∙ k

sorted-is_distinct :
    (show_time : ℤ → String) (occurrence : ℤ) (ms : List String)
    → is_distinct ms ≡ true
    → is_distinct (sorted show_time occurrence ms) ≡ true
unfolding sorted
sorted-is_distinct show_time occurrence [] h = refl
sorted-is_distinct show_time occurrence (n ∷ ns) h =
    put-is_distinct show_time occurrence n (sorted show_time occurrence ns)
      (sorted-has show_time occurrence n ns ∙ (ground arith))
      (sorted-is_distinct show_time occurrence ns (ground arith))

-- What an allocation may return: a refusal of a spacing that is not positive, or each member with a
-- standing row, once.
abbrev pub Designated : ℤ → AllocationRule → List ClaimRow → Option Designation → Type 0
Designated occurrence rule rows none = leb_ℤ (or_else rule.failover_ms (pos 30000)) (pos 0) ≡ true
Designated occurrence rule rows (some d) =
    (leb_ℤ (or_else rule.failover_ms (pos 30000)) (pos 0) ≡ false)
    × (is_distinct d.order ≡ true)
    × ((m : String) → has m d.order ≡ has_claim occurrence m rows)

-- An allocation is refused exactly where the spacing of the slots is not positive, and else its order has
-- each member that has a standing row exactly once and no other, whatever the order that the rule asks for.
pub designate-Designated :
    (show_time : ℤ → String) (occurrence : ℤ) (rule : AllocationRule) (rows : List ClaimRow)
    → Designated occurrence rule rows (designate show_time occurrence rule rows)
unfolding designate ordered
designate-Designated show_time occurrence rule rows =
    by_test (leb_ℤ (or_else rule.failover_ms (pos 30000)) (pos 0)) refl
  where
    has_all : (m : String) → has m (standing occurrence [] rows) ≡ has_claim occurrence m rows
    has_all m = standing-has occurrence m [] rows ∙ and_true (has_claim occurrence m rows)
      where
        and_true : (b : Bool) → (b && true) ≡ b
        and_true b = ground arith

    all : List String
    all = ordered show_time occurrence rule.order (standing occurrence [] rows)

    by_order :
        (o : Order)
        → (is_distinct (ordered show_time occurrence o (standing occurrence [] rows)) ≡ true)
          × ((m : String)
              → has m (ordered show_time occurrence o (standing occurrence [] rows))
                ≡ has_claim occurrence m rows)
    by_order declaration = (standing-is_distinct occurrence [] rows, has_all)
    by_order member_hash = (
      sorted-is_distinct show_time occurrence (standing occurrence [] rows)
          (standing-is_distinct occurrence [] rows),
      λ m. sorted-has show_time occurrence m (standing occurrence [] rows) ∙ has_all m,
    )

    by_test :
        (b : Bool)
        → leb_ℤ (or_else rule.failover_ms (pos 30000)) (pos 0) ≡ b
        → Designated occurrence rule rows (
            if b
            then none
            else some (record {
              order = all;
              slots = slots_from show_time occurrence (or_else rule.failover_ms (pos 30000)) 0 all;
            }))
    by_test true e = e
    by_test false e = let both = by_order rule.order in (e, both.0, both.1)
