-- ===== src/Space/Case/Walk.antt =====
-- src-v2/case.ts: `caseWalk`, with `accessScore` of src-v2/stdlib/reader.ts. A cell is named by its place in the
-- tree, and is read anew where the source reads it. A score reads two counters with `get`, which may fire rules
-- and change the kernel while the walk goes on. The loop takes as many rounds as it is given.
pub mod Ends
pub mod Yields
pub mod Steady
pub mod Silent
pub mod Tests
use sequence.Prelude.{
  ℕ, zero, suc, String, Bool, true, false, not, ◌&&◌, ◌||◌, ◌==◌, Option, none, some, List, [], ◌∷◌,
  ◌++◌, ◌⊹◌, ◌+◌, if◌then◌else◌, has, any, keep, map, or_else, starts_with, split, segments,
}
use sequence.Lang.{Value, is_undefined, Ty, kind_of, is_fn}
use sequence.Lang.Int.{ℤ, pos, leb_ℤ, ◌+ℤ◌}
use sequence.Kernel.Data.{CellData, Cell, Axis, structural, temporal, ref}
use sequence.Kernel.Tree.{find, find_cell, child_segments}
use sequence.Kernel.Host.{Env}
use sequence.Kernel.Exec.{M, pure, ◌>>=◌, overflow, reads, read_clock}
use sequence.Kernel.Insert.{get}
use sequence.Compose.Check.{kind_text, text_size}
use sequence.Compose.Backward.{slice_from}
use sequence.Space.Evaluate.{includes}
use sequence.Space.Case.{ConcernSpec, read_concern, cell_time_bound, value_of, as_text}
use sequence.Space.Case.Search.{push_all}

-- an element of the queue, with its place and the cell there
pub record Item : Type 0 where
  pub loc : List String
  pub cell : CellData
  pub depth : ℕ
  pub axis : Axis
  pub root : String

abbrev pub item_at : Cell → List String → ℕ → Axis → String → List Item
item_at tree loc depth axis root = elim (find loc tree) [
  | none ↦ []
  | some d ↦ record { loc = loc; cell = d; depth = depth; axis = axis; root = root } ∷ []
]

abbrev pub path_of : Item → String
path_of i = i.cell.path

-- the items at several places
unfoldable pub items_at : Cell → List (List String) → ℕ → Axis → String → List Item
unfolding find
items_at tree [] depth axis root = []
items_at tree (loc ∷ locs) depth axis root =
    item_at tree loc depth axis root ++ items_at tree locs depth axis root

unfoldable pub roots_of : Cell → List String → List Item
unfolding find segments
roots_of tree [] = []
roots_of tree (root ∷ roots) = item_at tree (segments root) 0 structural root ++ roots_of tree roots

-- `underscored`
unfoldable pub underscored : String → String → Bool
unfolding split starts_with slice_from text_size
underscored path root =
    any (λ seg. starts_with seg "_")
      (split (if root == "" then path else slice_from (text_size root + 1) path))

-- the segments below a cell that the walk follows
unfoldable pub children_of : Cell → ConcernSpec → Item → List (List String)
unfolding child_segments starts_with
children_of tree spec i =
    map (λ seg. i.loc ++ (seg ∷ []))
      (keep (λ seg. spec.underscore || not (starts_with seg "_")) (child_segments i.loc tree))

abbrev pub targets_of : ConcernSpec → Item → List String → List (List String)
unfolding underscored segments
targets_of spec i targets =
    map segments (keep (λ t. spec.underscore || not (underscored t i.root)) targets)

-- the frontier of a cell along the declared axes
unfoldable pub frontier : Cell → ConcernSpec → Item → List Item
unfolding children_of targets_of items_at
frontier tree spec i =
    (if has "structural" spec.axes
      then items_at tree (children_of tree spec i) (i.depth + 1) structural i.root
      else [])
    ++ (if has "temporal" spec.axes
        then items_at tree (targets_of spec i i.cell.out_temporal) (i.depth + 1) temporal i.root
        else [])
    ++ (if has "ref" spec.axes
        then items_at tree (targets_of spec i i.cell.out_ref) (i.depth + 1) ref i.root
        else [])

pub record CaseYield (Score : Type 0) : Type 0 where
  pub path : String
  pub type : Option Ty
  pub value : Value
  pub posterior : Score
  pub time_bound : Option ℤ
  pub depth : ℕ
  pub axis : Axis
  pub root : String

-- what the platform does with texts, and the arithmetic of `accessScore` on the two counters
pub record Reading (Score : Type 0) : Type 0 where
  pub lower : String → String
  pub before : String → String → Bool
  pub scored : Value → Value → Score

abbrev pub is_alive : ℤ → Option ℤ → Bool
is_alive now none = true
is_alive now (some b) = leb_ℤ now b

abbrev pub within : ℤ → Option ℤ → Option ℤ → Bool
unfolding ◌+ℤ◌
within now horizon none = false
within now none (some b) = leb_ℤ now b
within now (some h) (some b) = leb_ℤ now b && leb_ℤ b (now +ℤ h)

abbrev pub is_committable : CellData → Bool
is_committable d = not (is_undefined d.value) || elim d.type [ none ↦ false | some t ↦ is_fn t ]

abbrev pub has_kind : Option String → Option Ty → Bool
has_kind none t = true
has_kind (some k) none = false
has_kind (some k) (some t) = kind_text (kind_of t) == k

module _ {Score : Type 0} (reading : Reading Score) (tree : Cell) (now : ℤ)
    (query : Option String) where
  abbrev pub matches_query : CellData → Bool
  unfolding includes find_cell
  matches_query d = elim query [
    | none ↦ true
    | some q ↦
        let q = reading.lower q in
        q == ""
        || includes (reading.lower d.path) q
        || elim (as_text (value_of (find_cell (d.path ⊹ "._description") tree))) [
          | none ↦ false
          | some text ↦ includes (reading.lower text) q
        ]
  ]

  -- the membership of a cell in the yield
  unfoldable pub is_member : ConcernSpec → Item → Bool
  unfolding cell_time_bound matches_query within
  is_member spec i =
      let bound = cell_time_bound i.cell.type in
      is_committable i.cell
      && is_alive now bound
      && has_kind spec.type_kind i.cell.type
      && (not spec.within_horizon || within now spec.horizon bound)
      && matches_query i.cell
      && not (i.cell.path == "")

-- the yield of a cell as it is, with its score
abbrev pub yield_of : {Score : Type 0} → Item → Score → CaseYield Score
unfolding cell_time_bound
yield_of i score = record {
  path = i.cell.path;
  type = i.cell.type;
  value = i.cell.value;
  posterior = score;
  time_bound = cell_time_bound i.cell.type;
  depth = i.depth;
  axis = i.axis;
  root = i.root;
}

-- the item with its cell as it is now
unfoldable pub refreshed : Cell → Item → Item
unfolding find
refreshed tree i = record i { cell = or_else (find i.loc tree) i.cell }

module _ {Score : Type 0} (reading : Reading Score) where
  -- the sort by path
  unfoldable pub put_yield : CaseYield Score → List (CaseYield Score) → List (CaseYield Score)
  put_yield y [] = y ∷ []
  put_yield y (z ∷ zs) =
      let later = put_yield y zs in if reading.before z.path y.path then z ∷ later else y ∷ z ∷ zs

  unfoldable pub sorted_yields : List (CaseYield Score) → List (CaseYield Score)
  unfolding put_yield
  sorted_yields [] = []
  sorted_yields (y ∷ ys) = put_yield y (sorted_yields ys)

  module _ (env : Env) (fuel : ℕ) where
    -- `accessScore`
    unfoldable pub access_score : String → M Score
    unfolding get
    access_score path = do
      hits ← get env fuel ("_access." ⊹ path ⊹ ".hits") none
      misses ← get env fuel ("_access." ⊹ path ⊹ ".misses") none
      pure (reading.scored hits misses)

    module _ (now : ℤ) (query : Option String) (spec : ConcernSpec) where
      -- the yield of a member
      unfoldable pub offer : Item → M (List (CaseYield Score))
      unfolding is_member access_score
      offer i = do
        member ← reads (λ s. is_member reading s.root now query spec i)
        if member
            then (do score ← access_score i.cell.path; pure (yield_of i score ∷ []))
            else pure []

      -- the loop over the queue
      unfoldable pub walk_from : ℕ → List Item → List String → M (List (CaseYield Score))
      unfolding offer push_all frontier refreshed
      walk_from n [] seen = pure []
      walk_from zero (i ∷ queue) seen = overflow
      walk_from (suc n) (i ∷ queue) seen = do
        here ← reads (λ s. refreshed s.root i)
        yielded ← offer here
        next ← reads (λ s.
            push_all path_of (frontier s.root spec) (frontier s.root spec (refreshed s.root i))
              (queue, seen))
        later ← walk_from n next.0 next.1
        pure (yielded ++ later)

    -- the walk of a declared concern, with this many rounds
    unfoldable pub walk_spec : ℕ → Option String → ConcernSpec → M (List (CaseYield Score))
    unfolding walk_from push_all roots_of sorted_yields
    walk_spec rounds query spec = do
      now ← read_clock env.clock
      start ←
          reads (λ s. push_all path_of (frontier s.root spec) (roots_of s.root spec.roots) ([], []))
      ys ← walk_from (pos now) query spec rounds start.0 start.1
      pure (sorted_yields ys)

    -- `caseWalk`; `none` is the throw for a concern that is not declared
    unfoldable pub case_walk : ℕ → Option String → String → M (Option (List (CaseYield Score)))
    unfolding read_concern walk_spec
    case_walk rounds query concern = do
      found ← reads (λ s. read_concern s concern)
      elim found [
        | none ↦ pure none
        | some spec ↦ do ys ← walk_spec rounds query spec; pure (some ys)
      ]
