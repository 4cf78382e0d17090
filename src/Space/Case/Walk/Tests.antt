-- ===== src/Space/Case/Walk/Tests.antt =====
-- Runs of the walk of src-v2/case.ts, and its theorem, at a kernel with one concern and one cell with a value.
use sequence.Prelude.{
  ℕ, String, true, false, ◌≡◌, refl, segments, List, [], ◌∷◌, none, some, All, length, inl,
}
use sequence.Lang.{Value, num, str}
use sequence.Lang.Int.{ℤ, pos}
use sequence.Kernel.Data.{CellData, Cell, cell, leaf, child, Store, make_cell, structural}
use sequence.Kernel.Tree.{find, walk, rules_on_path}
use sequence.Kernel.Host.{Env, Lattice}
use sequence.Kernel.Exec.{look, take_seq, read_clock}
use sequence.Kernel.Insert.{get}
use sequence.Space.Case.{ConcernSpec, read_concern}
use sequence.Space.Case.Walk.{Item, Reading, CaseYield, underscored, case_walk, access_score}
use sequence.Space.Case.Walk.Ends.{visited}
use sequence.Space.Case.Walk.Yields.{Answered}
use sequence.Space.Case.Walk.Silent.{access_score-IsSteady}
use sequence.Space.Case.Walk.Steady.{later_at, Scored, IsSteady, case_walk-Answered}

abbrev value_cell : String → Value → CellData
unfolding make_cell
value_cell path v = record (make_cell path) { value = v }

abbrev tree : Cell
unfolding make_cell
tree = cell (make_cell "") (
    child "_concerns"
      (cell (make_cell "_concerns") (
        child "all"
          (cell (make_cell "_concerns.all")
            (child "roots" (cell (value_cell "_concerns.all.roots" (str "")) leaf) leaf))
          leaf))
      (child "a" (cell (value_cell "a" (num (pos 3))) leaf)
        (child "b" (cell (make_cell "b") leaf) leaf)))

abbrev kernel : Store
kernel = record {
  root = tree;
  next_seq = 0;
  watchers = [];
  rules_by_id = [];
  access_in_flight = false;
  expand_in_progress = [];
  reads = 0;
}

abbrev reading : Reading ℤ
reading = record { lower = λ s. s; before = λ s t. false; scored = λ hits misses. pos 0 }

abbrev plain : Lattice
plain = record {
  compose = λ a b. b;
  accepts = λ t v p. true;
  same_specificity = λ a b. true;
  stringify = λ t. "";
}

abbrev env : Env
env = record {
  lattice = plain;
  impls = λ f. none;
  emitters = λ e. none;
  custom_guards = λ g. none;
  observers = [];
  clock = λ n. 9;
}

abbrev all_cells : ConcernSpec
all_cells = record {
  roots = "" ∷ [];
  axes = "structural" ∷ [];
  type_kind = none;
  underscore = false;
  horizon = none;
  within_horizon = false;
  value = record { base = pos 0; access = pos 1; preference = pos 1; temporal = pos 1 };
}

-- no cell of the kernel has a counter, so its score is read at once
all-IsSteady : All (λ d. IsSteady reading env 3 kernel d.path) (walk tree)
unfolding get access_score tree value_cell make_cell find segments walk rules_on_path take_seq
    read_clock look
all-IsSteady = (
  λ n r. (pos 0, _, _, refl),
  (
    λ n r. (pos 0, _, _, refl),
    (
      λ n r. (pos 0, _, _, refl),
      (λ n r. (pos 0, _, _, refl), (λ n r. (pos 0, _, _, refl), (λ n r. (pos 0, _, _, refl), tt))),
    ),
  ),
)

-- the counters of the path "a" are not there, and no rule is in scope of them
counted-IsSteady : IsSteady reading env 3 kernel "a"
unfolding tree value_cell make_cell find segments rules_on_path
counted-IsSteady =
    access_score-IsSteady reading env 1 kernel refl refl "a"
      (record { standing = inl refl; unruled = refl })
      (record { standing = inl refl; unruled = refl })

-- the one cell with a value is yielded, and its score takes two numbers and reads the clock twice
one_yield :
    case_walk reading env 3 7 none "all" kernel
    ≡ some (
      some (
          record {
            path = "a";
            type = none;
            value = num (pos 3);
            posterior = pos 0;
            time_bound = none;
            depth = 1;
            axis = structural;
            root = "";
          }
          ∷ []),
      record kernel { next_seq = 2; reads = 3 },
    )
unfolding case_walk tree value_cell make_cell take_seq rules_on_path
one_yield = refl

not_declared : case_walk reading env 3 7 none "some" kernel ≡ some (none, kernel)
unfolding case_walk tree value_cell make_cell
not_declared = refl

-- a path outside the root is cut at the root's length
cut_outside : underscored "_secret.x" "tools" ≡ false
unfolding underscored
cut_outside = refl

case_walk-Answered_example :
    (items : List Item) × (ys : List (CaseYield ℤ)) × (m : ℕ) × (q : ℕ) × (case_walk reading env 3
        (length (walk tree))
        none
        "all"
        kernel
      ≡ some (some ys, later_at reading env 3 kernel m q))
    × (visited tree all_cells ≡ some items)
    × Answered reading tree (pos 9) none (Scored reading env 3 kernel) all_cells items ys
unfolding read_concern tree value_cell make_cell find segments
case_walk-Answered_example =
    case_walk-Answered reading env 3 kernel none all_cells "all" refl all-IsSteady
