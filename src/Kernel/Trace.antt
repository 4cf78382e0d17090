-- ===== src/Kernel/Trace.antt =====
-- Runs of the kernel's operations as relations between states: a relation that holds across each
-- elementary write, and is reflexive and transitive, holds across each operation.
pub mod Rules
pub mod Calls
pub mod Propagate
pub mod Insert
use sequence.Prelude.{ℕ, suc, String, ◌≡◌, ◌≤◌, ◌<◌, List, [], some, or_else, lookup, add, assign}
use sequence.Kernel.Data.{Axis, Block, CellData, Rule, Store}
use sequence.Kernel.Tree.{ensure, update}
use sequence.Kernel.Host.{Lattice}
use sequence.Kernel.Exec.{M, with_block, with_rule, with_out, with_in, look}
use sequence.Kernel.Step.{compose_at_cell, apply_delta}
use sequence.Kernel.Propagate.{without_blocks}

abbrev pub rewritten : Store → (CellData → CellData) → List String → Store
rewritten s f loc = record s { root = update f loc s.root }

-- The state after `settle`.
unfoldable pub settled_state : Lattice → Store → List String → Block → Store
unfolding compose_at_cell apply_delta
settled_state l s loc b =
    let (b', delta) = compose_at_cell l (look loc s) b in rewritten s (apply_delta b' delta) loc

pub record IsClosed (l : Lattice) (R : Store → Store → Type 0) : Type 0 where
  pub rfl : (s : Store) → R s s
  pub tra : (s t u : Store) → R s t → R t u → R s u
  pub mono : (s t : Store) → R s t → s.next_seq ≤ t.next_seq
  pub seq : (s : Store) → R s (record s { next_seq = suc s.next_seq })
  pub clock : (s : Store) → R s (record s { reads = suc s.reads })
  pub rooted : (s : Store) (p : List String) → R s (record s { root = ensure p s.root })
  pub ruled : (s : Store) (r : Rule) (p : List String) → R s (rewritten s (with_rule r) p)
  pub edge_out :
      (s : Store) (a : Axis) (q : String) (p : List String) → R s (rewritten s (with_out a q) p)
  pub edge_in :
      (s : Store) (a : Axis) (q : String) (p : List String) → R s (rewritten s (with_in a q) p)
  pub pushed :
      (s : Store) (b : Block) (p : List String)
      → b.seq < s.next_seq
      → R s (rewritten s (with_block b) p)
  pub settled :
      (s : Store) (b : Block) (p : List String) → b.seq < s.next_seq → R s (settled_state l s p b)
  pub dropped :
      (s : Store) (bs : List Block) (p : List String) → R s (rewritten s (without_blocks bs) p)
  pub listed : (s : Store) (r : Rule) → R s (record s { rules_by_id = assign r.id r s.rules_by_id })
  pub watched :
      (s : Store) (prefix id : String)
      → R s (record s {
        watchers = assign prefix (add id (or_else (lookup prefix s.watchers) [])) s.watchers;
      })

-- Every run of `m` from a state whose next number is at least `n` keeps to `R`.
pub record Traces {A : Type 0} (R : Store → Store → Type 0) (n : ℕ) (m : M A) : Type 0 where
  pub at : (s : Store) → n ≤ s.next_seq → (a : A) (t : Store) → m s ≡ some (a, t) → R s t
