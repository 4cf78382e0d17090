-- ===== src/Stdlib/Tests.antt =====
-- The theorems on src-v2/stdlib/partition.ts and src-v2/stdlib/snapshot.ts at small kernels.
use mathlib.Core.List.{Memᴰ}
use sequence.Prelude.{
  ℕ, String, true, false, ◌≡◌, refl, Option, none, some, List, [], ◌∷◌, segments, All, length, ◌+◌,
  starts_with,
}
use sequence.Lang.{
  Value, num, str, nil, cons, Constraint, con, Ty, ty, string, none_left, one_more, end,
}
use sequence.Lang.Int.{pos}
use sequence.Kernel.Data.{CellData, Store, make_cell}
use sequence.Kernel.Tree.{find, ensure, update, walk, rules_on_path, find_cell}
use sequence.Kernel.Host.{Lattice, Env}
use sequence.Kernel.Exec.{look, take_seq, read_clock, with_block}
use sequence.Kernel.Trace.{rewritten}
use sequence.Kernel.Step.{suspend}
use sequence.Kernel.Insert.{insert, init}
use sequence.Kernel.Invariant.{IsSound, init-IsSound}
use sequence.Stdlib.Partition.{allows, partition_of, with_direction, install_partition_direction}
use sequence.Stdlib.Partition.Refusal.{insert_refused, typed_fact, typed_block}
use sequence.Stdlib.Snapshot.{SnapshotEntry, capture_snapshot, restore_snapshot}
use sequence.Stdlib.Snapshot.Laws.{
  Inserts, restore-counts, restore-strict, IsExport, capture_snapshot-IsExport, HasValue,
  capture_snapshot-HasValue,
}

abbrev plain : Lattice
plain = record {
  compose = λ a b. b;
  accepts = λ t v p. true;
  same_specificity = λ a b. true;
  stringify = λ t. "";
}

abbrev bare : Env
bare = record {
  lattice = plain;
  impls = λ f. none;
  emitters = λ e. none;
  custom_guards = λ g. none;
  observers = [];
  clock = λ n. 1000;
}

abbrev env : Env
env = with_direction bare

abbrev store_of : {A : Type 0} → Option (A × Store) → Store
store_of none = init
store_of (some (a, s)) = s

abbrev to_channel : Constraint
to_channel = con "ref" (cons (str "chan.b") nil)

abbrev entry : String → Value → SnapshotEntry
entry path v = record {
  path = path;
  value = v;
  type = none;
  author = none;
  identity = none;
  op = none;
}

abbrev entries : List SnapshotEntry
entries = entry "a" (num (pos 1)) ∷ entry "_b" (num (pos 2)) ∷ []

abbrev guarded : Store
unfolding install_partition_direction insert find_cell take_seq read_clock look segments starts_with
    rules_on_path ensure find update
guarded = store_of (install_partition_direction bare 4 init)

abbrev restored : Store
unfolding restore_snapshot insert find_cell take_seq read_clock look segments starts_with
    rules_on_path ensure find update
restored = store_of (restore_snapshot env 4 true entries init)

abbrev channel_type : Ty
channel_type = ty string (one_more to_channel none_left) end

insert_refused_example :
    insert env 1 (typed_fact "a" channel_type none 5) guarded
    ≡ some (
      record {
        block = suspend (typed_block "a" channel_type none 1 5);
        changes = [];
        suspended = true;
      },
      rewritten
          (record guarded { next_seq = 2; root = ensure (segments "a") guarded.root })
          (with_block (suspend (typed_block "a" channel_type none 1 5)))
          (segments "a"),
    )
unfolding allows partition_of install_partition_direction insert find_cell take_seq read_clock look
    segments starts_with rules_on_path ensure find update make_cell
insert_refused_example =
    insert_refused env 0 guarded "a" channel_type none 5 (make_cell "a") refl refl refl refl refl
      refl

restore-counts_example :
    Inserts env 4 init entries 2 0 restored × (2 + 0 ≡ length entries) × IsSound restored
unfolding restore_snapshot insert find_cell take_seq read_clock look segments starts_with
    rules_on_path ensure find update
restore-counts_example = restore-counts env 4 true entries init restored 2 0 init-IsSound refl

restore-strict_example : (2 ≡ length entries) × ◌≡◌ {A = ℕ} 0 0
unfolding restore_snapshot insert find_cell take_seq read_clock look segments starts_with
    rules_on_path ensure find update
restore-strict_example = restore-strict env 4 entries init restored 2 0 refl

capture_snapshot-IsExport_example : All (IsExport true) (capture_snapshot true restored)
capture_snapshot-IsExport_example = capture_snapshot-IsExport true restored

abbrev a_cell : CellData
unfolding restore_snapshot insert find_cell take_seq read_clock look segments starts_with
    rules_on_path ensure find update
a_cell = look ("a" ∷ []) restored

capture_snapshot-HasValue_example : HasValue a_cell (capture_snapshot false restored)
unfolding restore_snapshot insert find_cell take_seq read_clock look segments starts_with
    rules_on_path ensure find update walk
capture_snapshot-HasValue_example =
    capture_snapshot-HasValue restored a_cell (Memᴰ.tail (Memᴰ.head refl)) refl refl
