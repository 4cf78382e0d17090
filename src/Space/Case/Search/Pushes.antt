-- ===== src/Space/Case/Search/Pushes.antt =====
-- src-v2/case.ts: what a push does to the queue and to the keys that were seen.
use sequence.Prelude.{
  String, Bool, true, false, ◌||◌, ◌≡◌, refl, sym, ◌∙◌, ap, subst, List, [], ◌∷◌, ◌++◌, map, ◌⊎◌,
  inl, inr, if◌then◌else◌, has, All, ◌==◌, eq_iff, eq_refl, Bool-cases,
}
use sequence.Prelude.Bools.{or_assoc, none_of, no_left, no_right, left_or, or_left, or_right, clash}
use sequence.Space.Case.Search.{push, push_all, differs}

abbrev pub Distinct : List String → Type 0
Distinct [] = Unit
Distinct (k ∷ ks) = (has k ks ≡ false) × Distinct ks

module _ {N : Type 0} (key : N → String) (next : N → List N) where
  abbrev pub keys : List N → List String
  keys ns = map key ns

  has_last :
      (k : String) (ns : List N) (n : N)
      → has k (keys (ns ++ (n ∷ []))) ≡ (has k (keys ns) || key n == k)
  has_last k [] n = or_false (key n == k)
    where
      or_false : (b : Bool) → (b || false) ≡ b
      or_false true = refl
      or_false false = refl
  has_last k (x ∷ ns) n =
      ap (λ b. key x == k || b) (has_last k ns n)
      ∙ or_assoc (key x == k) (has k (keys ns)) (key n == k)

  Distinct-last :
      (ns : List N) (n : N)
      → Distinct (keys ns)
      → has (key n) (keys ns) ≡ false
      → Distinct (keys (ns ++ (n ∷ [])))
  Distinct-last [] n h g = (refl, tt)
  Distinct-last (x ∷ ns) n (h, hs) g =
      let other = no_left (key x == key n) (has (key n) (keys ns)) g in
      (
        has_last (key x) ns n
            ∙ none_of (has (key x) (keys ns)) (key n == key x) h (differs (key x) (key n) other),
        Distinct-last ns n hs (no_right (key x == key n) (has (key n) (keys ns)) g),
      )

  -- How a state of the search comes of another by pushes.
  pub record Pushed (s t : List N × List String) : Type 0 where
    pub grows : (k : String) → has k s.1 ≡ true → has k t.1 ≡ true
    pub fresh :
        (k : String) → has k (keys t.0) ≡ true → (has k (keys s.0) ≡ true) ⊎ (has k s.1 ≡ false)
    pub tracked : (k : String) → has k t.1 ≡ true → (has k s.1 ≡ true) ⊎ (has k (keys t.0) ≡ true)
    pub kept : (k : String) → has k (keys s.0) ≡ true → has k (keys t.0) ≡ true

  -- The keys of the queue are distinct and were seen.
  pub record Tidy (s : List N × List String) : Type 0 where
    pub distinct : Distinct (keys s.0)
    pub seen : (k : String) → has k (keys s.0) ≡ true → has k s.1 ≡ true

  Pushed-trans : (s t u : List N × List String) → Pushed s t → Pushed t u → Pushed s u
  Pushed-trans s t u p q = record {
    grows = λ k h. q.grows k (p.grows k h);
    fresh =
        λ k h. elim (q.fresh k h) [ inl old ↦ p.fresh k old | inr new ↦ inr (unseen_before k new) ];
    tracked = λ k h. elim (q.tracked k h) [
      | inl old ↦ elim (p.tracked k old) [
        | inl seen ↦ inl seen
        | inr queued ↦ inr (q.kept k queued)
      ]
      | inr queued ↦ inr queued
    ];
    kept = λ k h. q.kept k (p.kept k h);
  }
    where
      unseen_before : (k : String) → has k t.1 ≡ false → has k s.1 ≡ false
      unseen_before k h = elim (Bool-cases (has k s.1)) [
        | inl seen ↦ absurd (clash (p.grows k seen) h)
        | inr new ↦ new
      ]

  push-Pushed :
      (n : N) (s : List N × List String)
      → Tidy s
      → Pushed s (push key next n s) × Tidy (push key next n s)
  unfolding push
  push-Pushed n s h = by_test (has (key n) s.1) refl
    where
      new_key :
          (k : String)
          → (has k (keys s.0) || key n == k) ≡ true
          → has (key n) s.1 ≡ false
          → (has k (keys s.0) ≡ true) ⊎ (has k s.1 ≡ false)
      new_key k g e = elim (left_or (has k (keys s.0)) (key n == k) g) [
        | inl old ↦ inl old
        | inr here ↦ inr (subst (λ k. has k s.1 ≡ false) ((eq_iff (key n) k).0 here) e)
      ]

      not_queued : has (key n) s.1 ≡ false → has (key n) (keys s.0) ≡ false
      not_queued e = elim (Bool-cases (has (key n) (keys s.0))) [
        | inl queued ↦ absurd (clash (h.seen (key n) queued) e)
        | inr other ↦ other
      ]

      added : has (key n) s.1 ≡ false → Pushed s (s.0 ++ (n ∷ []), key n ∷ s.1)
      added e = record {
        grows = λ k g. or_right (key n == k) (has k s.1) g;
        fresh = λ k g. new_key k (sym (has_last k s.0 n) ∙ g) e;
        tracked = λ k g. elim (left_or (key n == k) (has k s.1) g) [
          | inl here ↦ inr (has_last k s.0 n ∙ or_right (has k (keys s.0)) (key n == k) here)
          | inr seen ↦ inl seen
        ];
        kept = λ k g. has_last k s.0 n ∙ or_left (has k (keys s.0)) (key n == k) g;
      }

      tidy : has (key n) s.1 ≡ false → Tidy (s.0 ++ (n ∷ []), key n ∷ s.1)
      tidy e = record {
        distinct = Distinct-last s.0 n h.distinct (not_queued e);
        seen = λ k g. elim (left_or (has k (keys s.0)) (key n == k) (sym (has_last k s.0 n) ∙ g)) [
          | inl old ↦ or_right (key n == k) (has k s.1) (h.seen k old)
          | inr here ↦ or_left (key n == k) (has k s.1) here
        ];
      }

      by_test :
          (b : Bool)
          → has (key n) s.1 ≡ b
          → Pushed s (if b then s else (s.0 ++ (n ∷ []), key n ∷ s.1))
            × Tidy (if b then s else (s.0 ++ (n ∷ []), key n ∷ s.1))
      by_test true e = (
        record { grows = λ k g. g; fresh = λ k g. inl g; tracked = λ k g. inl g; kept = λ k g. g },
        h,
      )
      by_test false e = (added e, tidy e)

  push_marks : (n : N) (s : List N × List String) → has (key n) (push key next n s).1 ≡ true
  unfolding push
  push_marks n s = by_test (has (key n) s.1) refl
    where
      by_test :
          (b : Bool)
          → has (key n) s.1 ≡ b
          → has (key n) (if b then s else (s.0 ++ (n ∷ []), key n ∷ s.1)).1 ≡ true
      by_test true e = e
      by_test false e = or_left (key n == key n) (has (key n) s.1) (eq_refl (key n))

  pub push_all-Pushed :
      (ns : List N) (s : List N × List String)
      → Tidy s
      → Pushed s (push_all key next ns s)
        × Tidy (push_all key next ns s)
        × All (λ n. has (key n) (push_all key next ns s).1 ≡ true) ns
  unfolding push_all
  push_all-Pushed [] s h = (
    record { grows = λ k g. g; fresh = λ k g. inl g; tracked = λ k g. inl g; kept = λ k g. g },
    h,
    tt,
  )
  push_all-Pushed (n ∷ ns) s h =
      let first = push-Pushed n s h in
      let rest = push_all-Pushed ns (push key next n s) first.1 in
      (
        Pushed-trans s (push key next n s) (push_all key next ns (push key next n s)) first.0
            rest.0,
        rest.1,
        (rest.0.grows (key n) (push_marks n s), rest.2),
      )
