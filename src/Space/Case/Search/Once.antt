-- ===== src/Space/Case/Search/Once.antt =====
-- src-v2/case.ts: the search takes no node twice, and leaves no neighbour out.
use sequence.Prelude.{
  ℕ, zero, suc, String, true, false, ◌||◌, ◌≡◌, refl, some, List, [], ◌∷◌, ◌⊎◌, inl, inr, has, All,
  ◌==◌, eq_refl, Bool-cases,
}
use sequence.Prelude.Bools.{left_or, or_left, or_right, clash}
use sequence.Prelude.Fallible.{Returns, Returns-bind, Returns-weaken}
use sequence.Space.Case.Search.{push_all, search}
use sequence.Space.Case.Search.Pushes.{Distinct, keys, Pushed, Tidy, push_all-Pushed}

module _ {N : Type 0} (key : N → String) (next : N → List N) where
  -- Of what the search visits: no key twice, none that was seen but not queued, everything queued, and each
  -- neighbour, unless it was seen before.
  record Searched (s : List N × List String) (out : List N) : Type 0 where
    pub distinct : Distinct (keys key next out)
    pub fresh :
        (k : String)
        → has k (keys key next out) ≡ true
        → (has k (keys key next s.0) ≡ true) ⊎ (has k s.1 ≡ false)
    pub kept : (k : String) → has k (keys key next s.0) ≡ true → has k (keys key next out) ≡ true
    pub closed :
        All
          (λ n.
            All (λ m. (has (key m) s.1 ≡ true) ⊎ (has (key m) (keys key next out) ≡ true)) (next n))
          out

  pub All-map : {P Q : N → Type 0} → ((n : N) → P n → Q n) → (ns : List N) → All P ns → All Q ns
  All-map f [] h = tt
  All-map f (n ∷ ns) (h, hs) = (f n h, All-map f ns hs)

  Searched-next :
      (n : N) (queue : List N) (seen : List String) (later : List N)
      → Tidy key next (n ∷ queue, seen)
      → Searched (push_all key next (next n) (queue, seen)) later
      → Searched (n ∷ queue, seen) (n ∷ later)
  Searched-next n queue seen later h r = record {
    distinct = (new_here, r.distinct);
    fresh = λ k g. elim (left_or (key n == k) (has k (keys key next later)) g) [
      | inl here ↦ inl (or_left (key n == k) (has k (keys key next queue)) here)
      | inr there ↦ elim (from_later k there) [
        | inl queued ↦ inl (or_right (key n == k) (has k (keys key next queue)) queued)
        | inr new ↦ inr new
      ]
    ];
    kept = λ k g. elim (left_or (key n == k) (has k (keys key next queue)) g) [
      | inl here ↦ or_left (key n == k) (has k (keys key next later)) here
      | inr queued ↦
          or_right (key n == k) (has k (keys key next later)) (r.kept k (pushed.0.kept k queued))
    ];
    closed = (
      All-map (λ m g. visited (key m) (pushed.0.tracked (key m) g)) (next n) pushed.2,
      All-map (λ x g. All-map (λ m g. from_next (key m) g) (next x) g) later r.closed,
    );
  }
    where
      rest_tidy : Tidy key next (queue, seen)
      rest_tidy = record {
        distinct = h.distinct.1;
        seen = λ k g. h.seen k (or_right (key n == k) (has k (keys key next queue)) g);
      }

      t : List N × List String
      t = push_all key next (next n) (queue, seen)

      pushed :
          Pushed key next (queue, seen) t
          × Tidy key next t
          × All (λ m. has (key m) t.1 ≡ true) (next n)
      pushed = push_all-Pushed key next (next n) (queue, seen) rest_tidy

      before : (k : String) → has k t.1 ≡ false → has k seen ≡ false
      before k g = elim (Bool-cases (has k seen)) [
        | inl old ↦ absurd (clash (pushed.0.grows k old) g)
        | inr new ↦ new
      ]

      from_later :
          (k : String)
          → has k (keys key next later) ≡ true
          → (has k (keys key next queue) ≡ true) ⊎ (has k seen ≡ false)
      from_later k g = elim (r.fresh k g) [
        | inl queued ↦ pushed.0.fresh k queued
        | inr new ↦ inr (before k new)
      ]

      seen_here : has (key n) seen ≡ true
      seen_here =
          h.seen (key n)
            (or_left (key n == key n) (has (key n) (keys key next queue)) (eq_refl (key n)))

      new_here : has (key n) (keys key next later) ≡ false
      new_here = elim (Bool-cases (has (key n) (keys key next later))) [
        | inr other ↦ other
        | inl twice ↦ elim (from_later (key n) twice) [
          | inl queued ↦ absurd (clash queued h.distinct.0)
          | inr new ↦ absurd (clash seen_here new)
        ]
      ]

      visited :
          (k : String)
          → (has k seen ≡ true) ⊎ (has k (keys key next t.0) ≡ true)
          → (has k seen ≡ true) ⊎ ((key n == k || has k (keys key next later)) ≡ true)
      visited k (inl old) = inl old
      visited k (inr queued) =
          inr (or_right (key n == k) (has k (keys key next later)) (r.kept k queued))

      from_next :
          (k : String)
          → (has k t.1 ≡ true) ⊎ (has k (keys key next later) ≡ true)
          → (has k seen ≡ true) ⊎ ((key n == k || has k (keys key next later)) ≡ true)
      from_next k (inl known) = visited k (pushed.0.tracked k known)
      from_next k (inr there) = inr (or_right (key n == k) (has k (keys key next later)) there)

  search-Searched :
      (fuel : ℕ) (queue : List N) (seen : List String)
      → Tidy key next (queue, seen)
      → Returns (Searched (queue, seen)) (search key next fuel (queue, seen))
  unfolding search
  search-Searched fuel [] seen h = record {
    distinct = tt;
    fresh = λ k g. inl g;
    kept = λ k g. g;
    closed = tt;
  }
  search-Searched zero (n ∷ queue) seen h = tt
  search-Searched (suc fuel) (n ∷ queue) seen h =
      let pushed =
        push_all-Pushed key next (next n) (queue, seen)
          (record {
            distinct = h.distinct.1;
            seen = λ k g. h.seen k (or_right (key n == k) (has k (keys key next queue)) g);
          }) in
      let t = push_all key next (next n) (queue, seen) in
      Returns-bind (Searched t) (Searched (n ∷ queue, seen)) (λ later. some (n ∷ later))
        (search key next fuel t) (search-Searched fuel t.0 t.1 pushed.1)
        (λ later r. Searched-next n queue seen later h r)

  -- From its starts, the search visits no key twice, every start, and every neighbour of what it visits.
  pub record Explored (starts out : List N) : Type 0 where
    pub distinct : Distinct (keys key next out)
    pub starts_in : All (λ n. has (key n) (keys key next out) ≡ true) starts
    pub closed : All (λ n. All (λ m. has (key m) (keys key next out) ≡ true) (next n)) out

  pub search-Explored :
      (fuel : ℕ) (starts : List N)
      → Returns (Explored starts) (search key next fuel (push_all key next starts ([], [])))
  search-Explored fuel starts =
      Returns-weaken (Searched t) (Explored starts) (search key next fuel t)
        (search-Searched fuel t.0 t.1 pushed.1)
        (λ out r. record {
          distinct = r.distinct;
          starts_in = All-map (λ n g. in_out out r (key n) g) starts pushed.2;
          closed =
              All-map
                (λ n g.
                  All-map
                    (λ m g. elim g [ inl seen ↦ in_out out r (key m) seen | inr there ↦ there ])
                    (next n) g)
                out r.closed;
        })
    where
      t : List N × List String
      t = push_all key next starts ([], [])

      pushed :
          Pushed key next ([], []) t × Tidy key next t × All (λ n. has (key n) t.1 ≡ true) starts
      pushed = push_all-Pushed key next starts ([], []) (record { distinct = tt; seen = λ k g. g })

      in_out :
          (out : List N)
          → Searched t out
          → (k : String) → has k t.1 ≡ true
          → has k (keys key next out) ≡ true
      in_out out r k g = elim (pushed.0.tracked k g) [
        | inl none_yet ↦ absurd (clash none_yet refl)
        | inr queued ↦ r.kept k queued
      ]
