-- ===== src/Kernel/Trace/Rules.antt =====
-- Rules for the ways in which operations are built, and for the elementary ones.
use native.Mathlib.Nat.{le_trans, le_refl}
use sequence.Prelude.{
  ℕ, suc, String, ◌≡◌, refl, ◌≤◌, ◌<◌, List, [], ◌∷◌, Option, none, some, Bool, true, false, arith,
  if◌then◌else◌, subst, segments, keep,
}
use sequence.Lang.{Constraint, constraints_of}
use sequence.Kernel.Data.{Axis, temporal, ref, Block, Rule, Store}
use sequence.Kernel.Host.{Lattice}
use sequence.Kernel.Exec.{
  M, pure, ◌>>=◌, overflow, reads, take_seq, read_clock, ensure_at, write, edge_from, for_each,
  gather, with_block, look,
}
use sequence.Kernel.Guards.{strip_glob, collect_paths}
use sequence.Kernel.Step.{
  settle, install_rule, register_ref_edges, wire_temporal_watches, derived_args, tail_of,
  is_derived,
}
use sequence.Kernel.Trace.{IsClosed, Traces, settled_state}

pub some-pair-injective :
    {A : Type 0} {a b : A} {s t : Store}
    → ◌≡◌ {A = Option (A × Store)} (some (a, s)) (some (b, t))
    → (a ≡ b) × (s ≡ t)
some-pair-injective e = (cc, cc)

pub bind-eq-some :
    {A B : Type 0} (m : M A) (f : A → M B) (s : Store) {b : B} {t : Store}
    → (m >>= f) s ≡ some (b, t)
    → (a : A) × (u : Store) × (m s ≡ some (a, u)) × (f a u ≡ some (b, t))
bind-eq-some {A} {B} m f s {b} {t} e = go (m s) refl e
  where
    go :
        (r : Option (A × Store))
        → m s ≡ r
        → ◌≡◌ {A = Option (B × Store)}
            (elim r [ none ↦ none | some (a, s') ↦ f a s' ])
            (some (b, t))
        → (a : A) × (u : Store) × (m s ≡ some (a, u)) × (f a u ≡ some (b, t))
    go none p h = cc
    go (some (a, u)) p h = (a, u, p, h)

-- Every result of `m` has the property `Q`.
pub record Ensures {A : Type 0} (Q : A → Store → Type 0) (m : M A) : Type 0 where
  pub at : (s : Store) (a : A) (t : Store) → m s ≡ some (a, t) → Q a t

module _ {A : Type 0} {Q : A → Store → Type 0} where
  pub Ensures-pure : (a : A) → ((s : Store) → Q a s) → Ensures Q (pure a)
  Ensures-pure a q = record {
    at = λ s b t e. let (same_a, same_s) = some-pair-injective e in subst (λ x. Q x t) same_a (q t);
  }

  pub Ensures-bind :
      {B : Type 0} (m : M B) (f : B → M A) → ((b : B) → Ensures Q (f b)) → Ensures Q (m >>= f)
  Ensures-bind m f ef = record {
    at = λ s a t e. let (b, u, first, later) = bind-eq-some m f s e in (ef b).at u a t later;
  }

  pub Ensures-if :
      (b : Bool) (m k : M A) → Ensures Q m → Ensures Q k → Ensures Q (if b then m else k)
  Ensures-if true m k em ek = em
  Ensures-if false m k em ek = ek

  pub Ensures-option :
      {B : Type 0} (o : Option B) (m : M A) (f : B → M A)
      → Ensures Q m
      → ((b : B) → Ensures Q (f b))
      → Ensures Q (elim o [ none ↦ m | some b ↦ f b ])
  Ensures-option none m f em ef = em
  Ensures-option (some b) m f em ef = ef b

pub lt_suc : (n : ℕ) → n < suc n
lt_suc n = omega arith

-- The block that is made, if any, has a number that the kernel has given out.
abbrev pub IsNumbered : Option Block → Store → Type 0
IsNumbered none s = Unit
IsNumbered (some b) s = b.seq < s.next_seq

module _ {l : Lattice} {R : Store → Store → Type 0} (c : IsClosed l R) where
  pub Traces-pure : {A : Type 0} (n : ℕ) (a : A) → Traces R n (pure a)
  Traces-pure n a = record { at = λ s h b t e. subst (R s) (some-pair-injective e).1 (c.rfl s) }

  pub Traces-reads : {A : Type 0} (n : ℕ) (f : Store → A) → Traces R n (reads f)
  Traces-reads n f = record { at = λ s h b t e. subst (R s) (some-pair-injective e).1 (c.rfl s) }

  pub Traces-overflow : {A : Type 0} (n : ℕ) → Traces R n (overflow {A = A})
  Traces-overflow n = record { at = λ s h b t e. cc }

  pub Traces-bind :
      {A B : Type 0} (n : ℕ) (m : M A) (f : A → M B)
      → Traces R n m
      → ((a : A) → Traces R n (f a))
      → Traces R n (m >>= f)
  Traces-bind n m f tm tf = record {
    at = λ s h b t e.
        let (a, u, first, later) = bind-eq-some m f s e in
        let ru = tm.at s h a u first in
        c.tra s u t ru ((tf a).at u (le_trans h (c.mono s u ru)) b t later);
  }

  -- the same where the first part makes a block, which the second part may write
  pub Traces-bind_block :
      {B : Type 0} (n : ℕ) (m : M (Option Block)) (f : Option Block → M B)
      → Traces R n m
      → Ensures IsNumbered m
      → ((k : ℕ) → Traces R k (f none))
      → ((b : Block) (k : ℕ) → b.seq < k → Traces R k (f (some b)))
      → Traces R n (m >>= f)
  Traces-bind_block {B} n m f tm em tn tb = record {
    at = λ s h b t e.
        let (a, u, first, later) = bind-eq-some m f s e in
        c.tra s u t (tm.at s h a u first) (go a u b t (em.at s a u first) later);
  }
    where
      go :
          (o : Option Block) (u : Store) (b : B) (t : Store)
          → IsNumbered o u
          → f o u ≡ some (b, t)
          → R u t
      go none u b t q e = (tn u.next_seq).at u (le_refl _) b t e
      go (some k) u b t q e = (tb k u.next_seq q).at u (le_refl _) b t e

  pub Traces-take :
      {B : Type 0} (n : ℕ) (f : ℕ → M B)
      → ((a : ℕ) → n ≤ a → Traces R (suc a) (f a))
      → Traces R n (take_seq >>= f)
  unfolding take_seq
  Traces-take n f tf = record {
    at = λ s h b t e.
        c.tra s (record s { next_seq = suc s.next_seq }) t (c.seq s)
          ((tf s.next_seq h).at (record s { next_seq = suc s.next_seq }) (omega arith) b t e);
  }

  pub Traces-if :
      {A : Type 0} (n : ℕ) (b : Bool) (m k : M A)
      → Traces R n m
      → Traces R n k
      → Traces R n (if b then m else k)
  Traces-if n true m k tm tk = tm
  Traces-if n false m k tm tk = tk

  pub Traces-option :
      {A B : Type 0} (n : ℕ) (o : Option A) (m : M B) (f : A → M B)
      → Traces R n m
      → ((a : A) → Traces R n (f a))
      → Traces R n (elim o [ none ↦ m | some a ↦ f a ])
  Traces-option n none m f tm tf = tm
  Traces-option n (some a) m f tm tf = tf a

  -- a single write
  pub Traces-write1 :
      (n : ℕ) (w : Store → Store)
      → ((s : Store) → n ≤ s.next_seq → R s (w s))
      → Traces R n (λ s. some (tt, w s))
  Traces-write1 n w rw' = record {
    at = λ s h b t e. subst (R s) (some-pair-injective e).1 (rw' s h);
  }

  pub Traces-clock : (n : ℕ) (clock : ℕ → ℕ) → Traces R n (read_clock clock)
  unfolding read_clock
  Traces-clock n clock = record {
    at = λ s h b t e. subst (R s) (some-pair-injective e).1 (c.clock s);
  }

  pub Traces-ensure : (n : ℕ) (p : List String) → Traces R n (ensure_at p)
  unfolding ensure_at
  Traces-ensure n p = Traces-write1 n _ (λ s h. c.rooted s p)

  pub Traces-push :
      (n : ℕ) (b : Block) (p : List String) → b.seq < n → Traces R n (write (with_block b) p)
  unfolding write
  Traces-push n b p lt = Traces-write1 n _ (λ s h. c.pushed s b p (omega arith))

  pub Traces-settle : (n : ℕ) (b : Block) (p : List String) → b.seq < n → Traces R n (settle l p b)
  unfolding settle settled_state
  Traces-settle n b p lt = record {
    at = λ s h d t e. subst (R s) (some-pair-injective e).1 (c.settled s b p (omega arith));
  }

  pub Traces-for_each :
      {A : Type 0} (n : ℕ) (f : A → M Unit) (xs : List A)
      → ((x : A) → Traces R n (f x))
      → Traces R n (for_each f xs)
  unfolding for_each
  Traces-for_each n f [] tf = Traces-pure n tt
  Traces-for_each n f (x ∷ xs) tf = Traces-bind n _ _ (tf x) (λ _. Traces-for_each n f xs tf)

  pub Traces-gather :
      {A B : Type 0} (n : ℕ) (f : A → M (List B)) (xs : List A)
      → ((x : A) → Traces R n (f x))
      → Traces R n (gather f xs)
  unfolding gather
  Traces-gather n f [] tf = Traces-pure n []
  Traces-gather n f (x ∷ xs) tf =
      Traces-bind n _ _ (tf x)
        (λ here. Traces-bind n _ _ (Traces-gather n f xs tf) (λ later. Traces-pure n _))

  pub Traces-edge :
      (n : ℕ) (path : String) (p : List String) (a : Axis) → Traces R n (edge_from path p a)
  unfolding edge_from
  Traces-edge n path p a = Traces-bind n _ _ (Traces-ensure n (segments path)) λ _.
      Traces-bind n _ _ (Traces-reads n (λ s. (look p s).path)) λ to.
        Traces-bind n _ _ (Traces-write1 n _ (λ s h. c.edge_out s a to (segments path))) λ _.
          Traces-bind n _ _ (Traces-reads n (λ s. (look (segments path) s).path))
            λ from. Traces-write1 n _ (λ s h. c.edge_in s a from p)

  pub Traces-install : (n : ℕ) (r : Rule) → Traces R n (install_rule r)
  unfolding install_rule
  Traces-install n r = Traces-bind n _ _ (Traces-ensure n (segments r.scope)) λ _.
      Traces-bind n _ _ (Traces-write1 n _ (λ s h. c.ruled s r (segments r.scope))) λ _.
        Traces-bind n _ _ (Traces-write1 n _ (λ s h. c.listed s r)) λ _.
          Traces-for_each n _ r.watching
            λ w. Traces-write1 n _ (λ s h. c.watched s (strip_glob w) r.id)

  pub Traces-wire :
      (n : ℕ) (k : Constraint) (p : List String) → Traces R n (wire_temporal_watches k p)
  unfolding wire_temporal_watches
  Traces-wire n k p = Traces-for_each n _ (collect_paths k) λ q. Traces-edge n q p temporal

  pub Traces-register : (n : ℕ) (b : Block) (p : List String) → Traces R n (register_ref_edges p b)
  unfolding register_ref_edges
  Traces-register n b p = Traces-option n b.type (pure tt) _ (Traces-pure n tt) λ t.
      Traces-for_each n _ (keep is_derived (constraints_of t))
        λ k. Traces-for_each n _ (tail_of (derived_args k)) λ q. Traces-edge n q p ref
