-- ===== src/Kernel/Flags.antt =====
-- The guards against re-entry: `accessInFlight` and `expandInProgress` are restored.
use native.Mathlib.Nat.{le_trans}
use sequence.Prelude.{
  ℕ, String, Bool, true, false, not, ◌&&◌, ◌≡◌, refl, ◌≤◌, List, [], ◌∷◌, ◌++◌, Option, none, some,
  arith, inl, inr, ◌∙◌, ap, subst, has, add, without, is_some, segments, Bool-cases, eq_refl,
  if◌then◌else◌,
}
use sequence.Lang.{Value, undefined, is_undefined}
use sequence.Kernel.Data.{Store, InsertInput, InsertResult, CellData}
use sequence.Kernel.Tree.{find_cell}
use sequence.Kernel.Host.{Env}
use sequence.Kernel.Exec.{pure, ◌>>◌, reads, look}
use sequence.Kernel.Step.{Ops}
use sequence.Kernel.Propagate.{access_rounds, fire_access, set_access}
use sequence.Kernel.Insert.{insert, get, get_at, expand, expand_now, set_expanding, try_auto_expand}
use sequence.Kernel.Trace.{IsClosed, Traces}
use sequence.Kernel.Trace.Rules.{
  Traces-pure, Traces-reads, Traces-bind, Traces-option, bind-eq-some, some-pair-injective,
}
use sequence.Kernel.Trace.Calls.{OpsTrace}
use sequence.Kernel.Trace.Insert.{
  Traces-insert, Traces-get, Traces-access_rounds, Traces-try_auto_expand,
}
use sequence.Kernel.Host.{Lattice}

-- Later, with both flags as before.
pub record Restored (s t : Store) : Type 0 where
  pub later : s.next_seq ≤ t.next_seq
  pub access : t.access_in_flight ≡ s.access_in_flight
  pub expanding : t.expand_in_progress ≡ s.expand_in_progress

Restored-IsClosed : (l : Lattice) → IsClosed l Restored
unfolding sequence.Kernel.Trace.settled_state
Restored-IsClosed l = record {
  rfl = λ s. ground arith;
  tra = λ s t u a b. ground arith;
  mono = λ s t a. a.later;
  seq = λ s. ground arith;
  clock = λ s. ground arith;
  rooted = λ s p. ground arith;
  ruled = λ s r p. ground arith;
  edge_out = λ s a q p. ground arith;
  edge_in = λ s a q p. ground arith;
  pushed = λ s b p h. ground arith;
  settled = λ s b p h. ground arith;
  dropped = λ s bs p. ground arith;
  listed = λ s r. ground arith;
  watched = λ s prefix id. ground arith;
}

without-append_self :
    (p : String) (xs : List String) → has p xs ≡ false → without p (xs ++ p ∷ []) ≡ xs
without-append_self p [] h = rw (eq_refl p)
without-append_self p (x ∷ xs) h = ground (arith, without-append_self p xs)

without-add : (p : String) (xs : List String) → has p xs ≡ false → without p (add p xs) ≡ xs
without-add p xs h = rw h (without-append_self p xs h)

Restored-lower :
    (s t : Store)
    → s.access_in_flight ≡ false
    → Restored (record s { access_in_flight = true }) t
    → Restored s (record t { access_in_flight = false })
Restored-lower s t quiet r = ground arith

Restored-leave :
    (path : String) (s t : Store)
    → has path s.expand_in_progress ≡ false
    → Restored (record s { expand_in_progress = add path s.expand_in_progress }) t
    → Restored s (record t { expand_in_progress = without path t.expand_in_progress })
Restored-leave path s t free r = record {
  later = r.later;
  access = r.access;
  expanding = ap (without path) r.expanding ∙ without-add path s.expand_in_progress free;
}

module _ (env : Env) (ops : Ops) (o : OpsTrace Restored ops) (fuel n : ℕ) where
  fire_access-Restored :
      (path : String) (found : Option CellData) (class : Option String) (s : Store) (t : Store)
      (u : Unit)
      → n ≤ s.next_seq
      → s.access_in_flight ≡ false
      → fire_access env ops fuel path found class s ≡ some (u, t)
      → Restored s t
  unfolding fire_access set_access
  fire_access-Restored path found class s t u h quiet e =
      let raised : Store = record s { access_in_flight = true } in
      let (a, s1, first, later) =
        bind-eq-some (access_rounds env ops fuel path found class)
          (λ _. set_access env ops fuel false) raised e in
      let r =
        (Traces-access_rounds env (Restored-IsClosed env.lattice) ops o fuel n path found class).at
          raised h a s1 first in
      subst (Restored s) (some-pair-injective later).1 (Restored-lower s s1 quiet r)

  expand_now-Restored :
      (path : String) (d : CellData) (s : Store) (t : Store) (u : Unit)
      → n ≤ s.next_seq
      → has path s.expand_in_progress ≡ false
      → expand_now env ops fuel path d s ≡ some (u, t)
      → Restored s t
  unfolding expand_now set_expanding
  expand_now-Restored path d s t u h free e =
      let marked : Store = record s { expand_in_progress = add path s.expand_in_progress } in
      let (a, s1, first, later) =
        bind-eq-some (try_auto_expand env ops fuel d)
          (λ _. set_expanding env ops fuel (without path)) marked e in
      let r =
        (Traces-try_auto_expand env (Restored-IsClosed env.lattice) ops o fuel n d).at marked h a s1
          first in
      subst (Restored s) (some-pair-injective later).1 (Restored-leave path s s1 free r)

  expand-Restored : (path : String) (hit : Bool) → Traces Restored n (expand env ops fuel path hit)
  unfolding expand
  expand-Restored path hit = record {
    at = λ s h u t e.
        go s t u h e (look (segments path) s) (has path s.expand_in_progress) refl refl;
  }
    where
      go :
          (s t : Store) (u : Unit)
          → n ≤ s.next_seq
          → expand env ops fuel path hit s ≡ some (u, t)
          → (d : CellData) (busy : Bool) → look (segments path) s ≡ d
          → has path s.expand_in_progress ≡ busy
          → Restored s t
      go s t u h e d busy p q = elim (Bool-cases (not hit && is_some d.type && not busy)) [
        | inl gap ↦ expand_now-Restored path d s t u h (ground arith) (rw (p, q, gap) at e)
        | inr filled ↦
            subst (Restored s) (some-pair-injective (rw (p, q, filled) at e)).1
              ((Restored-IsClosed env.lattice).rfl s)
      ]

  access_part :
      (path : String) (found : Option CellData) (class : Option String) (s t : Store) (u : Unit)
      → n ≤ s.next_seq
      → (quiet : Bool) → s.access_in_flight ≡ quiet
      → (if quiet then pure tt else fire_access env ops fuel path found class) s ≡ some (u, t)
      → Restored s t
  access_part path found class s t u h true q e =
      subst (Restored s) (some-pair-injective e).1 ((Restored-IsClosed env.lattice).rfl s)
  access_part path found class s t u h false q e = fire_access-Restored path found class s t u h q e

  read_part :
      (path : String) (found : Option CellData)
      → Traces Restored n (elim found [
        | none ↦ pure undefined
        | some d ↦ do
          expand env ops fuel path (not (is_undefined d.value))
          reads (λ s. (look (segments path) s).value)
      ])
  read_part path found =
      let c = Restored-IsClosed env.lattice in
      Traces-option c n found _ _ (Traces-pure c n undefined) λ d.
        Traces-bind c n _ _ (expand-Restored path (not (is_undefined d.value)))
          λ _. Traces-reads c n (λ s. (look (segments path) s).value)

  get_at-Restored :
      (path : String) (class : Option String) → Traces Restored n (get_at env ops fuel path class)
  unfolding get_at
  get_at-Restored path class = record {
    at = λ s h v t e.
        let found = find_cell path s.root in
        let (u, s1, first, later) =
          bind-eq-some
            (if s.access_in_flight then pure tt else fire_access env ops fuel path found class) _ s
            e in
        let r = access_part path found class s s1 u h s.access_in_flight refl first in
        (Restored-IsClosed env.lattice).tra s s1 t r
          ((read_part path found).at s1 (le_trans h r.later) v t later);
  }

-- A call of `insert` that returns has put back the access flag and the set of expanding paths, and has
-- not lowered the next number, whatever the host's functions called meanwhile.
pub insert-Restored :
    (env : Env) (fuel : ℕ) (i : InsertInput) (s : Store) (r : InsertResult) (t : Store)
    → insert env fuel i s ≡ some (r, t)
    → Restored s t
insert-Restored env fuel i s r t e =
    (Traces-insert env (Restored-IsClosed env.lattice)
        (λ ops o fuel n. get_at-Restored env ops o fuel n) fuel 0 i).at
      s (omega arith) r t e

-- A call of `get` that returns has put back the access flag and the set of expanding paths, and has not
-- lowered the next number, also where it fired access rules or filled a gap.
pub get-Restored :
    (env : Env) (fuel : ℕ) (path : String) (class : Option String) (s : Store) (v : Value)
    (t : Store)
    → get env fuel path class s ≡ some (v, t)
    → Restored s t
get-Restored env fuel path class s v t e =
    (Traces-get env (Restored-IsClosed env.lattice)
        (λ ops o fuel n. get_at-Restored env ops o fuel n) fuel 0 path class).at
      s (omega arith) v t e
