-- ===== src/Stdlib/Snapshot/Laws.antt =====
-- src-v2/stdlib/snapshot.ts: what a capture holds and what a replay counts.
use mathlib.Core.List.{Memᴰ}
use sequence.Prelude.{
  ℕ, suc, ◌+◌, String, Bool, true, false, not, ◌&&◌, ◌≡◌, refl, List, [], ◌∷◌, ◌++◌, Option, none,
  some, arith, All, All-append, length, ◌==◌, if◌then◌else◌, starts_with, is_some, ◌||◌, sym, ◌∙◌,
  subst,
}
use sequence.Lang.{Value, is_undefined, Ty}
use sequence.Kernel.Data.{Store, CellData, InsertResult}
use sequence.Kernel.Tree.{walk}
use sequence.Kernel.Host.{Env}
use sequence.Kernel.Exec.{pure}
use sequence.Kernel.Insert.{insert}
use sequence.Kernel.Moves.{Reach, insert-Reach, Reach-trans, here}
use sequence.Kernel.Invariant.{IsSound, Reach-IsSound}
use sequence.Kernel.Trace.Rules.{bind-eq-some, some-pair-injective}
use sequence.Stdlib.Snapshot.{
  SnapshotEntry, entries_of, capture_cells, capture_snapshot, input_of, Outcome, counted,
  stopped_at, restore_from, restore_snapshot,
}

-- What a replay with these counts so far, and this many entries left, may return.
data Replayed (strict : Bool) (done held n : ℕ) : Outcome → Type 0 where
  full :
      (a b : ℕ)
      → a + b ≡ done + held + n
      → (strict ≡ true → b ≡ held)
      → Replayed strict done held n (counted a b)
  halted : (p : String) → strict ≡ true → Replayed strict done held n (stopped_at p)

Replayed-held :
    (strict : Bool) (done held n : ℕ) (o : Outcome)
    → strict ≡ false
    → Replayed strict done (suc held) n o
    → Replayed strict done held (suc n) o
Replayed-held strict done held n _ lax (full a b e k) =
    full a b (omega arith) (λ h. absurd (true-ne-false (sym h ∙ lax)))
  where
    true-ne-false : true ≡ false → ⊥
    true-ne-false h = ground arith
Replayed-held strict done held n _ lax (halted p h) = halted p h

Replayed-done :
    (strict : Bool) (done held n : ℕ) (o : Outcome)
    → Replayed strict (suc done) held n o
    → Replayed strict done held (suc n) o
Replayed-done strict done held n _ (full a b e k) = full a b (omega arith) k
Replayed-done strict done held n _ (halted p h) = halted p h

module _ (env : Env) (fuel : ℕ) (strict : Bool) where
  restore_from-Replayed :
      (es : List SnapshotEntry) (done held : ℕ) (s : Store) (o : Outcome) (t : Store)
      → restore_from env fuel strict done held es s ≡ some (o, t)
      → Replayed strict done held (length es) o × Reach env.lattice s t
  unfolding restore_from
  restore_from-Replayed [] done held s o t e =
      let (same_o, same_s) = some-pair-injective e in
      (
        subst (Replayed strict done held 0) same_o (full done held (omega arith) (λ h. refl)),
        subst (Reach env.lattice s) same_s here,
      )
  restore_from-Replayed (e ∷ es) done held s o t h =
      let (r, u, first, later) = bind-eq-some (insert env fuel (input_of e)) _ s h in
      let moved = insert-Reach env fuel (input_of e) s r u first in
      let (left, more) =
        by_status (λ d k. restore_from-Replayed es d k u o t) r.suspended strict refl later in
      (left, Reach-trans moved more)
    where
      by_status :
          {u : Store}
          → ((d k : ℕ)
              → restore_from env fuel strict d k es u ≡ some (o, t)
              → Replayed strict d k (length es) o × Reach env.lattice u t)
          → (held_back b : Bool) → b ≡ strict
          → (if held_back
                then (if b
                    then pure (stopped_at e.path)
                    else restore_from env fuel strict done (suc held) es)
                else restore_from env fuel strict (suc done) held es)
              u
            ≡ some (o, t)
          → Replayed strict done held (suc (length es)) o × Reach env.lattice u t
      by_status {u} ih true true p q =
          let (same_o, same_s) = some-pair-injective q in
          (
            subst (Replayed strict done held _) same_o (halted e.path (sym p)),
            subst (Reach env.lattice u) same_s here,
          )
      by_status ih true false p q =
          let (left, more) = ih done (suc held) q in
          (Replayed-held strict done held (length es) o (sym p) left, more)
      by_status ih false b p q =
          let (left, more) = ih (suc done) held q in
          (Replayed-done strict done held (length es) o left, more)

  counted-Replayed :
      (done held n : ℕ) (a b : ℕ)
      → Replayed strict done held n (counted a b)
      → (a + b ≡ done + held + n) × (strict ≡ true → b ≡ held)
  counted-Replayed done held n a b (full _ _ e k) = (e, k)

-- The entries were inserted one after the other, each once, into the store that the one before left; the
-- first number is that of the inserts that were applied, the second that of those that were suspended.
pub data Inserts (env : Env) (fuel : ℕ) : Store → List SnapshotEntry → ℕ → ℕ → Store → Type 0 where
  all_done : (s : Store) → Inserts env fuel s [] 0 0 s
  one_applied :
      {s u t : Store} {es : List SnapshotEntry} {a b : ℕ} (e : SnapshotEntry) (r : InsertResult)
      → insert env fuel (input_of e) s ≡ some (r, u)
      → r.suspended ≡ false
      → Inserts env fuel u es a b t
      → Inserts env fuel s (e ∷ es) (suc a) b t
  one_suspended :
      {s u t : Store} {es : List SnapshotEntry} {a b : ℕ} (e : SnapshotEntry) (r : InsertResult)
      → insert env fuel (input_of e) s ≡ some (r, u)
      → r.suspended ≡ true
      → Inserts env fuel u es a b t
      → Inserts env fuel s (e ∷ es) a (suc b) t

-- The counts of the inserts, beyond those so far.
abbrev Beyond : Env → ℕ → ℕ → ℕ → List SnapshotEntry → Store → ℕ → ℕ → Store → Type 0
Beyond env fuel done held es s a b t =
    (m : ℕ) × (k : ℕ) × (a ≡ done + m) × (b ≡ held + k) × Inserts env fuel s es m k t

module _ (env : Env) (fuel : ℕ) (strict : Bool) where
  restore_from-Beyond :
      (es : List SnapshotEntry) (done held : ℕ) (s : Store) (a b : ℕ) (t : Store)
      → restore_from env fuel strict done held es s ≡ some (counted a b, t)
      → Beyond env fuel done held es s a b t
  unfolding restore_from
  restore_from-Beyond [] done held s a b t e =
      let (same_o, same_s) = some-pair-injective e in
      let same_a : done ≡ a = cc in
      let same_b : held ≡ b = cc in
      (0, 0, omega arith, omega arith, subst (Inserts env fuel s [] 0 0) same_s (all_done s))
  restore_from-Beyond (e ∷ es) done held s a b t h =
      let (r, u, first, later) = bind-eq-some (insert env fuel (input_of e)) _ s h in
      by_status r u first (λ d k. restore_from-Beyond es d k u a b t) r.suspended strict refl later
    where
      by_status :
          (r : InsertResult) (u : Store)
          → insert env fuel (input_of e) s ≡ some (r, u)
          → ((d k : ℕ)
              → restore_from env fuel strict d k es u ≡ some (counted a b, t)
              → Beyond env fuel d k es u a b t)
          → (held_back x : Bool) → r.suspended ≡ held_back
          → (if held_back
                then (if x
                    then pure (stopped_at e.path)
                    else restore_from env fuel strict done (suc held) es)
                else restore_from env fuel strict (suc done) held es)
              u
            ≡ some (counted a b, t)
          → Beyond env fuel done held (e ∷ es) s a b t
      by_status r u first ih true true p q = absurd (no_counts (some-pair-injective q).0)
        where
          no_counts : stopped_at e.path ≡ counted a b → ⊥
          no_counts x = ground arith
      by_status r u first ih true false p q =
          let (m, k, ea, eb, run) = ih done (suc held) q in
          (m, suc k, ea, omega arith, one_suspended e r first p run)
      by_status r u first ih false x p q =
          let (m, k, ea, eb, run) = ih (suc done) held q in
          (suc m, k, omega arith, eb, one_applied e r first p run)

-- A replay that returns its counts has inserted every entry, in order and each once, into the store that the one
-- before left; the first count is that of the inserts that were applied, the second that of those that were
-- suspended, and together they are as many as the entries; and a sound kernel is left sound.
pub restore-counts :
    (env : Env) (fuel : ℕ) (strict : Bool) (es : List SnapshotEntry) (s t : Store) (a b : ℕ)
    → IsSound s
    → restore_snapshot env fuel strict es s ≡ some (counted a b, t)
    → Inserts env fuel s es a b t × (a + b ≡ length es) × IsSound t
unfolding restore_snapshot
restore-counts env fuel strict es s t a b sound e =
    let (left, moved) = restore_from-Replayed env fuel strict es 0 0 s (counted a b) t e in
    let total = (counted-Replayed env fuel strict 0 0 (length es) a b left).0 in
    let (m, k, same_a, same_b, run) = restore_from-Beyond env fuel strict es 0 0 s a b t e in
    let m_is : m ≡ a = omega arith in
    let k_is : k ≡ b = omega arith in
    (
      subst (λ x. Inserts env fuel s es x b t) m_is
          (subst (λ y. Inserts env fuel s es m y t) k_is run),
      omega arith,
      Reach-IsSound moved sound,
    )

-- A replay that fails on suspended entries and returns its counts has replayed every entry.
pub restore-strict :
    (env : Env) (fuel : ℕ) (es : List SnapshotEntry) (s t : Store) (a b : ℕ)
    → restore_snapshot env fuel true es s ≡ some (counted a b, t)
    → (a ≡ length es) × (b ≡ 0)
unfolding restore_snapshot
restore-strict env fuel es s t a b e =
    let (left, moved) = restore_from-Replayed env fuel true es 0 0 s (counted a b) t e in
    let (total, none_held) = counted-Replayed env fuel true 0 0 (length es) a b left in
    let zero_held = none_held refl in (omega arith, zero_held)

-- An entry of a capture: its path is not empty, it has a type or a value, and, where the capture
-- skips the kernel's own paths, its path is none of them.
abbrev pub IsExport : Bool → SnapshotEntry → Type 0
IsExport skip_internal e =
    ((e.path == "") ≡ false)
    × ((is_some e.type || not (is_undefined e.value)) ≡ true)
    × ((skip_internal && starts_with e.path "_") ≡ false)

module _ (skip_internal : Bool) where
  entries_of-IsExport :
      (d : CellData)
      → (d.path == "") ≡ false
      → (skip_internal && starts_with d.path "_") ≡ false
      → All (IsExport skip_internal) (entries_of d)
  unfolding entries_of
  entries_of-IsExport d h k = typed d.type d.value refl refl
    where
      typed :
          (o : Option Ty) (v : Value)
          → d.type ≡ o
          → d.value ≡ v
          → All (IsExport skip_internal) (entries_of d)
      typed (some t) v p q = rw p (ground arith)
      typed none v p q = rw p (ground arith)

  capture_cells-IsExport :
      (ds : List CellData) → All (IsExport skip_internal) (capture_cells skip_internal ds)
  unfolding capture_cells
  capture_cells-IsExport [] = tt
  capture_cells-IsExport (d ∷ ds) =
      cases (d.path == "") (skip_internal && starts_with d.path "_") refl refl
        (capture_cells-IsExport ds)
    where
      cases :
          (root internal : Bool)
          → (d.path == "") ≡ root
          → (skip_internal && starts_with d.path "_") ≡ internal
          → All (IsExport skip_internal) (capture_cells skip_internal ds)
          → All (IsExport skip_internal) (
              if root
              then capture_cells skip_internal ds
              else if internal
              then capture_cells skip_internal ds
              else entries_of d ++ capture_cells skip_internal ds)
      cases true b p q ih = ih
      cases false true p q ih = ih
      cases false false p q ih =
          All-append (IsExport skip_internal) (entries_of d) (capture_cells skip_internal ds)
            (entries_of-IsExport d p q) ih

-- Every entry of a capture has a path that is not empty and a type or a value, and no path of the
-- kernel's own where the capture skips them.
pub capture_snapshot-IsExport :
    (skip_internal : Bool) (s : Store)
    → All (IsExport skip_internal) (capture_snapshot skip_internal s)
unfolding capture_snapshot
capture_snapshot-IsExport skip_internal s = capture_cells-IsExport skip_internal (walk s.root)

Memᴰ-left : {A : Type 0} {x : A} (xs ys : List A) → Memᴰ x xs → Memᴰ x (xs ++ ys)
Memᴰ-left [] ys m = elim m [ ]
Memᴰ-left (x ∷ xs) ys (Memᴰ.head e) = Memᴰ.head e
Memᴰ-left (x ∷ xs) ys (Memᴰ.tail m) = Memᴰ.tail (Memᴰ-left xs ys m)

Memᴰ-right : {A : Type 0} {x : A} (xs ys : List A) → Memᴰ x ys → Memᴰ x (xs ++ ys)
Memᴰ-right [] ys m = m
Memᴰ-right (x ∷ xs) ys m = Memᴰ.tail (Memᴰ-right xs ys m)

-- An entry that gives the cell's path and value is among the entries.
abbrev pub HasValue : CellData → List SnapshotEntry → Type 0
HasValue d es = (e : SnapshotEntry) × Memᴰ e es × (e.path ≡ d.path) × (e.value ≡ d.value)

HasValue-left : (d : CellData) (es fs : List SnapshotEntry) → HasValue d es → HasValue d (es ++ fs)
HasValue-left d es fs (e, m, p, q) = (e, Memᴰ-left es fs m, p, q)

HasValue-right : (d : CellData) (es fs : List SnapshotEntry) → HasValue d fs → HasValue d (es ++ fs)
HasValue-right d es fs (e, m, p, q) = (e, Memᴰ-right es fs m, p, q)

entries_of-HasValue : (d : CellData) → is_undefined d.value ≡ false → HasValue d (entries_of d)
unfolding entries_of
entries_of-HasValue d h = rw h (HasValue-right d _ _ (_, Memᴰ.head refl, refl, refl))

capture_cells-HasValue :
    (d : CellData) (ds : List CellData)
    → Memᴰ d ds
    → (d.path == "") ≡ false
    → is_undefined d.value ≡ false
    → HasValue d (capture_cells false ds)
unfolding capture_cells
capture_cells-HasValue d [] m h k = elim m [ ]
capture_cells-HasValue d (c ∷ ds) (Memᴰ.head e) h k =
    subst (λ c. HasValue d (capture_cells false (c ∷ ds))) e
      (rw h (HasValue-left d (entries_of d) (capture_cells false ds) (entries_of-HasValue d k)))
capture_cells-HasValue d (c ∷ ds) (Memᴰ.tail m) h k =
    skip (c.path == "") (capture_cells-HasValue d ds m h k)
  where
    skip :
        (root : Bool)
        → HasValue d (capture_cells false ds)
        → HasValue d
            (if root then capture_cells false ds else entries_of c ++ capture_cells false ds)
    skip true has = has
    skip false has = HasValue-right d (entries_of c) (capture_cells false ds) has

-- A capture of everything misses no value: each cell of the kernel but the root that has a value has an
-- entry with its path and its value.
pub capture_snapshot-HasValue :
    (s : Store) (d : CellData)
    → Memᴰ d (walk s.root)
    → (d.path == "") ≡ false
    → is_undefined d.value ≡ false
    → HasValue d (capture_snapshot false s)
unfolding capture_snapshot
capture_snapshot-HasValue s d m h k = capture_cells-HasValue d (walk s.root) m h k
