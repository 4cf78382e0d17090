-- ===== src/Kernel/Exec.antt =====
-- The state of src-v2/sequence.ts passed along, and its elementary reads and writes. `none` means
-- that the JavaScript stack overflows, or that a loop over a growing set does not end.
use sequence.Prelude.{
  ℕ, suc, String, Option, none, some, List, [], ◌∷◌, ◌++◌, add, lookup, assign, or_else, segments,
}
use sequence.Kernel.Data.{Axis, structural, temporal, ref, Block, CellData, Rule, Store, make_cell}
use sequence.Kernel.Tree.{find, ensure, update}

abbrev pub M : Type 0 → Type 0
M A = Store → Option (A × Store)

abbrev pub pure : {A : Type 0} → A → M A
pure a s = some (a, s)

infixl 5 ◌>>=◌ ◌>>◌
abbrev pub ◌>>=◌ : {A B : Type 0} → M A → (A → M B) → M B
◌>>=◌ m f s = elim (m s) [ none ↦ none | some (a, s') ↦ f a s' ]

abbrev pub ◌>>◌ : {B : Type 0} → M (Unit {0}) → M B → M B
m >> k = m >>= λ _. k

abbrev pub overflow : {A : Type 0} → M A
overflow s = none

-- A read of the state as it is.
abbrev pub reads : {A : Type 0} → (Store → A) → M A
reads f s = some (f s, s)

-- `this.nextSeq++`
unfoldable pub take_seq : M ℕ
take_seq s = some (s.next_seq, record s { next_seq = suc s.next_seq })

-- `this.clock()`
unfoldable pub read_clock : (ℕ → ℕ) → M ℕ
read_clock clock s = some (clock s.reads, record s { reads = suc s.reads })

-- The cell at a place that was ensured, so that it is there.
unfoldable pub look : List String → Store → CellData
unfolding make_cell
look loc s = or_else (find loc s.root) (make_cell "")

-- `ensureCell`
unfoldable pub ensure_at : List String → M Unit
ensure_at loc s = some (tt, record s { root = ensure loc s.root })

unfoldable pub write : (CellData → CellData) → List String → M Unit
write f loc s = some (tt, record s { root = update f loc s.root })

abbrev pub with_block : Block → CellData → CellData
with_block b d = record d { blocks = d.blocks ++ b ∷ [] }

abbrev pub with_rule : Rule → CellData → CellData
with_rule r d = record d { rules = d.rules ++ r ∷ [] }

abbrev pub with_out : Axis → String → CellData → CellData
with_out ref p d = record d { out_ref = add p d.out_ref }
with_out temporal p d = record d { out_temporal = add p d.out_temporal }
with_out structural p d = d

abbrev pub with_in : Axis → String → CellData → CellData
with_in ref p d = record d { in_ref = add p d.in_ref }
with_in temporal p d = record d { in_temporal = add p d.in_temporal }
with_in structural p d = d

-- `edge(ensureCell(path), target, axis)`
unfoldable pub edge_from : String → List String → Axis → M Unit
unfolding ensure_at write
edge_from path target axis = do
  let source = segments path
  ensure_at source
  to ← reads (λ s. (look target s).path)
  write (with_out axis to) source
  from ← reads (λ s. (look source s).path)
  write (with_in axis from) target

-- `rulesById.set(id, r)`
unfoldable pub set_rule : Rule → M Unit
set_rule r s = some (tt, record s { rules_by_id = assign r.id r s.rules_by_id })

-- `watchers.get(prefix)`, made if it is missing, `.add(id)`
unfoldable pub add_watcher : String → String → M Unit
add_watcher prefix id s = some (
  tt,
  record s { watchers = assign prefix (add id (or_else (lookup prefix s.watchers) [])) s.watchers },
)

module _ {A : Type 0} where
  -- `for (const x of xs)` over an array that does not change
  unfoldable pub for_each : (A → M Unit) → List A → M Unit
  for_each f [] = pure tt
  for_each f (x ∷ xs) = do f x; for_each f xs

  -- the same, collecting what each round adds to an array
  unfoldable pub gather : {B : Type 0} → (A → M (List B)) → List A → M (List B)
  gather f [] = pure []
  gather f (x ∷ xs) = do here ← f x; later ← gather f xs; pure (here ++ later)
