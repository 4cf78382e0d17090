-- ===== src/Space/Case/Walk/Ends.antt =====
-- src-v2/case.ts: the cells that a search of a tree visits, where the tree does not change, in one round for each cell.
use mathlib.Core.Option.{some-injective}
use sequence.Prelude.{
  ℕ, suc, ◌+◌, String, Bool, true, false, ◌||◌, ◌≡◌, refl, ap, subst, Option, none, some, List, [],
  ◌∷◌, ◌++◌, map, if◌then◌else◌, arith, has, length, All, All-append, ◌==◌, segments, eq_refl,
  Bool-cases, inl, inr,
}
use sequence.Kernel.Data.{
  CellData, Cell, cell, Children, leaf, child, Axis, structural, temporal, ref,
}
use sequence.Kernel.Tree.{find, find_child, walk, walk_children}
use sequence.Space.Case.{ConcernSpec}
use sequence.Space.Case.Search.{push_all, search, unseen, push_all-left, search_ends}
use sequence.Space.Case.Walk.{
  Item, item_at, path_of, items_at, roots_of, children_of, targets_of, frontier,
}

-- the paths of some cells
abbrev pub paths : List CellData → List String
paths ds = map (λ d. d.path) ds

has_left :
    (k : String) (xs ys : List CellData) → has k (paths xs) ≡ true → has k (paths (xs ++ ys)) ≡ true
has_left k [] ys h = absurd (ground arith)
has_left k (x ∷ xs) ys h = by_test (x.path == k) (has k (paths xs)) h (has_left k xs ys)
  where
    by_test :
        (a b : Bool)
        → (a || b) ≡ true
        → (b ≡ true → has k (paths (xs ++ ys)) ≡ true)
        → (a || has k (paths (xs ++ ys))) ≡ true
    by_test true b h g = refl
    by_test false b h g = g h

has_right :
    (k : String) (xs ys : List CellData) → has k (paths ys) ≡ true → has k (paths (xs ++ ys)) ≡ true
has_right k [] ys h = h
has_right k (x ∷ xs) ys h = let rest = has_right k xs ys h in ground arith

has_first : (k : String) (ks : List String) → has k (k ∷ ks) ≡ true
has_first k ks = ap (λ b. b || has k ks) (eq_refl k)

mutual
  unfolding find walk

  find-walk :
      (c : Cell) (q : List String) (d : CellData)
      → find q c ≡ some d
      → has d.path (paths (walk c)) ≡ true
  find-walk (cell x cs) [] d e =
      subst (λ y. has y.path (paths (x ∷ walk_children cs)) ≡ true) (some-injective _ _ e)
        (has_first x.path (paths (walk_children cs)))
  find-walk (cell x cs) (k ∷ q) d e = let rest = find_child-walk cs k q d e in ground arith

  find_child-walk :
      (cs : Children) (k : String) (q : List String) (d : CellData)
      → find_child k q cs ≡ some d
      → has d.path (paths (walk_children cs)) ≡ true
  find_child-walk leaf k q d e = cc
  find_child-walk (child j c cs) k q d e = elim (Bool-cases (j == k)) [
    | inl here ↦ has_left d.path (walk c) (walk_children cs) (find-walk c q d (rw here at e))
    | inr there ↦
        has_right d.path (walk c) (walk_children cs) (find_child-walk cs k q d (rw there at e))
  ]

module _ (tree : Cell) where
  -- an item is what stands at its place
  abbrev pub InPlace : Item → Type 0
  InPlace i = find i.loc tree ≡ some i.cell

  item_at-InPlace :
      (loc : List String) (n : ℕ) (axis : Axis) (root : String)
      → All InPlace (item_at tree loc n axis root)
  item_at-InPlace loc n axis root = by_find (find loc tree) refl
    where
      by_find :
          (o : Option CellData)
          → find loc tree ≡ o
          → All InPlace (elim o [
            | none ↦ []
            | some d ↦ record { loc = loc; cell = d; depth = n; axis = axis; root = root } ∷ []
          ])
      by_find none e = tt
      by_find (some d) e = (e, tt)

  pub items_at-InPlace :
      (locs : List (List String)) (n : ℕ) (axis : Axis) (root : String)
      → All InPlace (items_at tree locs n axis root)
  unfolding items_at
  items_at-InPlace [] n axis root = tt
  items_at-InPlace (loc ∷ locs) n axis root =
      All-append InPlace (item_at tree loc n axis root) (items_at tree locs n axis root)
        (item_at-InPlace loc n axis root) (items_at-InPlace locs n axis root)

  pub roots_of-InPlace : (roots : List String) → All InPlace (roots_of tree roots)
  unfolding roots_of
  roots_of-InPlace [] = tt
  roots_of-InPlace (root ∷ roots) =
      All-append InPlace (item_at tree (segments root) 0 structural root) (roots_of tree roots)
        (item_at-InPlace (segments root) 0 structural root) (roots_of-InPlace roots)

  pub frontier-InPlace : (spec : ConcernSpec) (i : Item) → All InPlace (frontier tree spec i)
  unfolding frontier
  frontier-InPlace spec i =
      All-append InPlace
        ((if has "structural" spec.axes
            then items_at tree (children_of tree spec i) (i.depth + 1) structural i.root
            else [])
          ++ (if has "temporal" spec.axes
              then items_at tree (targets_of spec i i.cell.out_temporal) (i.depth + 1) temporal
                  i.root
              else []))
        _
        (All-append InPlace
          (if has "structural" spec.axes
            then items_at tree (children_of tree spec i) (i.depth + 1) structural i.root
            else [])
          _ (chosen (has "structural" spec.axes) (children_of tree spec i) structural)
          (chosen (has "temporal" spec.axes) (targets_of spec i i.cell.out_temporal) temporal))
        (chosen (has "ref" spec.axes) (targets_of spec i i.cell.out_ref) ref)
    where
      chosen :
          (b : Bool) (locs : List (List String)) (axis : Axis)
          → All InPlace (if b then items_at tree locs (i.depth + 1) axis i.root else [])
      chosen true locs axis = items_at-InPlace locs (i.depth + 1) axis i.root
      chosen false locs axis = tt

  all_unseen : (ks : List CellData) → unseen (paths ks) [] ≡ length ks
  all_unseen [] = refl
  all_unseen (k ∷ ks) = ap suc (all_unseen ks)

  pub known : (i : Item) → InPlace i → has (path_of i) (paths (walk tree)) ≡ true
  known i e = find-walk tree i.loc i.cell e

  -- The items that a search of the tree visits, where it does not change, in as many rounds as it has cells.
  unfoldable pub visited : ConcernSpec → Option (List Item)
  unfolding search push_all frontier roots_of walk
  visited spec =
      search path_of (frontier tree spec) (length (walk tree))
        (push_all path_of (frontier tree spec) (roots_of tree spec.roots) ([], []))

  pub visited_ends : (spec : ConcernSpec) → (items : List Item) × (visited spec ≡ some items)
  unfolding visited
  visited_ends spec =
      let start =
        push_all-left path_of (frontier tree spec) (paths (walk tree)) InPlace known
          (λ i e. frontier-InPlace spec i) (roots_of tree spec.roots) ([], [])
          (roots_of-InPlace spec.roots) tt in
      let pushed = push_all path_of (frontier tree spec) (roots_of tree spec.roots) ([], []) in
      let size = all_unseen (walk tree) in
      search_ends path_of (frontier tree spec) (paths (walk tree)) InPlace known
        (λ i e. frontier-InPlace spec i) (length (walk tree)) pushed.0 pushed.1 start.1
        (omega (arith, start.0, size))
