-- ===== src/Kernel/Moves.antt =====
-- What a kernel may do, as a step relation: the elementary writes of src-v2/sequence.ts. The methods
-- `insert` and `get` are sequences of these steps, whatever the host's rules and functions do.
use native.Mathlib.Nat.{le_refl, le_trans}
use sequence.Prelude.{
  ℕ, suc, String, Bool, ◌≡◌, ◌≤◌, ◌<◌, List, [], Option, some, arith, or_else, lookup, add, assign,
}
use sequence.Lang.{Value}
use sequence.Kernel.Data.{Axis, Block, Rule, Store, InsertInput, InsertResult}
use sequence.Kernel.Tree.{ensure}
use sequence.Kernel.Host.{Lattice, Env}
use sequence.Kernel.Exec.{with_block, with_rule, with_out, with_in}
use sequence.Kernel.Propagate.{without_blocks}
use sequence.Kernel.Insert.{insert, get}
use sequence.Kernel.Trace.{IsClosed, rewritten, settled_state}
use sequence.Kernel.Trace.Insert.{IsFlagFree, Traces-insert, Traces-get, Traces-get_at}

pub data Move (l : Lattice) : Store → Store → Type 0 where
  take_number : (s : Store) → Move l s (record s { next_seq = suc s.next_seq })
  read_time : (s : Store) → Move l s (record s { reads = suc s.reads })
  grow : (s : Store) (p : List String) → Move l s (record s { root = ensure p s.root })
  add_rule : (s : Store) (r : Rule) (p : List String) → Move l s (rewritten s (with_rule r) p)
  lead_out :
      (s : Store) (a : Axis) (q : String) (p : List String)
      → Move l s (rewritten s (with_out a q) p)
  lead_in :
      (s : Store) (a : Axis) (q : String) (p : List String) → Move l s (rewritten s (with_in a q) p)
  -- only a block whose number was given out is logged or composed
  log_block :
      (s : Store) (b : Block) (p : List String)
      → b.seq < s.next_seq
      → Move l s (rewritten s (with_block b) p)
  compose_block :
      (s : Store) (b : Block) (p : List String)
      → b.seq < s.next_seq
      → Move l s (settled_state l s p b)
  drop_blocks :
      (s : Store) (bs : List Block) (p : List String) → Move l s (rewritten s (without_blocks bs) p)
  list_rule :
      (s : Store) (r : Rule) → Move l s (record s { rules_by_id = assign r.id r s.rules_by_id })
  watch :
      (s : Store) (prefix id : String)
      → Move l s (record s {
        watchers = assign prefix (add id (or_else (lookup prefix s.watchers) [])) s.watchers;
      })
  flag_access : (s : Store) (b : Bool) → Move l s (record s { access_in_flight = b })
  flag_expand :
      (s : Store) (f : List String → List String)
      → Move l s (record s { expand_in_progress = f s.expand_in_progress })

pub data Reach (l : Lattice) (s : Store) : Store → Type 0 where
  here : Reach l s s
  next : {t u : Store} → Reach l s t → Move l t u → Reach l s u

pub Reach-trans : {l : Lattice} {s t u : Store} → Reach l s t → Reach l t u → Reach l s u
Reach-trans r here = r
Reach-trans r (next q m) = next (Reach-trans r q) m

Move-next_seq : {l : Lattice} {s t : Store} → Move l s t → s.next_seq ≤ t.next_seq
unfolding settled_state
Move-next_seq (take_number s) = omega arith
Move-next_seq (read_time s) = le_refl _
Move-next_seq (grow s p) = le_refl _
Move-next_seq (add_rule s r p) = le_refl _
Move-next_seq (lead_out s a q p) = le_refl _
Move-next_seq (lead_in s a q p) = le_refl _
Move-next_seq (log_block s b p h) = le_refl _
Move-next_seq (compose_block s b p h) = le_refl _
Move-next_seq (drop_blocks s bs p) = le_refl _
Move-next_seq (list_rule s r) = le_refl _
Move-next_seq (watch s prefix id) = le_refl _
Move-next_seq (flag_access s b) = le_refl _
Move-next_seq (flag_expand s f) = le_refl _

Reach-next_seq : {l : Lattice} {s t : Store} → Reach l s t → s.next_seq ≤ t.next_seq
Reach-next_seq here = le_refl _
Reach-next_seq (next r m) = le_trans (Reach-next_seq r) (Move-next_seq m)

pub Reach-IsClosed : (l : Lattice) → IsClosed l (Reach l)
Reach-IsClosed l = record {
  rfl = λ s. here;
  tra = λ s t u. Reach-trans;
  mono = λ s t. Reach-next_seq;
  seq = λ s. next here (take_number s);
  clock = λ s. next here (read_time s);
  rooted = λ s p. next here (grow s p);
  ruled = λ s r p. next here (add_rule s r p);
  edge_out = λ s a q p. next here (lead_out s a q p);
  edge_in = λ s a q p. next here (lead_in s a q p);
  pushed = λ s b p h. next here (log_block s b p h);
  settled = λ s b p h. next here (compose_block s b p h);
  dropped = λ s bs p. next here (drop_blocks s bs p);
  listed = λ s r. next here (list_rule s r);
  watched = λ s prefix id. next here (watch s prefix id);
}

Reach-IsFlagFree : (l : Lattice) → IsFlagFree (Reach l)
Reach-IsFlagFree l = record {
  access = λ s b. next here (flag_access s b);
  expanding = λ s f. next here (flag_expand s f);
}

-- A call of `insert` that returns has made a sequence of steps of the step relation, whatever the
-- host's guards, emitters, impls and observers are: none of them can change the kernel in another way.
pub insert-Reach :
    (env : Env) (fuel : ℕ) (i : InsertInput) (s : Store) (r : InsertResult) (t : Store)
    → insert env fuel i s ≡ some (r, t)
    → Reach env.lattice s t
insert-Reach env fuel i s r t e =
    let c = Reach-IsClosed env.lattice in
    (Traces-insert env c (Traces-get_at env c (Reach-IsFlagFree env.lattice)) fuel 0 i).at s
      (omega arith) r t e

-- A call of `get` that returns, which may fire access rules and fill a gap, has made a sequence of steps of
-- the step relation, whatever the host's functions are.
pub get-Reach :
    (env : Env) (fuel : ℕ) (path : String) (class : Option String) (s : Store) (v : Value)
    (t : Store)
    → get env fuel path class s ≡ some (v, t)
    → Reach env.lattice s t
get-Reach env fuel path class s v t e =
    let c = Reach-IsClosed env.lattice in
    (Traces-get env c (Traces-get_at env c (Reach-IsFlagFree env.lattice)) fuel 0 path class).at s
      (omega arith) v t e
