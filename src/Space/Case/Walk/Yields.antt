-- ===== src/Space/Case/Walk/Yields.antt =====
-- src-v2/case.ts: what the walk of a concern yields.
use sequence.Prelude.{
  String, Bool, true, false, ◌||◌, ◌≡◌, refl, ◌∙◌, ap, subst, Option, some, List, [], ◌∷◌, map,
  if◌then◌else◌, has, length, All, ◌==◌, eq_refl,
}
use sequence.Prelude.Bools.{
  none_of, no_left, no_right, or_left, or_right, or_swap, and_left, and_right, clash,
}
use sequence.Prelude.Fallible.{Returns}
use sequence.Lang.Int.{ℤ}
use sequence.Kernel.Data.{Cell}
use sequence.Kernel.Tree.{find, walk}
use sequence.Space.Case.{ConcernSpec, cell_time_bound}
use sequence.Space.Case.Search.{push_all, push_all-All, search-All, differs}
use sequence.Space.Case.Search.Pushes.{Distinct}
use sequence.Space.Case.Search.Once.{Explored, search-Explored, All-map}
use sequence.Space.Case.Walk.{
  Item, path_of, roots_of, frontier, Reading, CaseYield, is_alive, is_committable, is_member,
  yield_of, put_yield, sorted_yields,
}
use sequence.Space.Case.Walk.Ends.{InPlace, roots_of-InPlace, frontier-InPlace, visited}

module _ {Score : Type 0} (reading : Reading Score) (tree : Cell) (now : ℤ) (query : Option String)
    (Scored : String → Score → Type 0) where
  abbrev pub yield_paths : List (CaseYield Score) → List String
  yield_paths ys = map (λ y. y.path) ys

  -- A yield is a cell of the kernel that has a value or a function's type, and whose time is not over, with a
  -- score of its path.
  pub record Offers (y : CaseYield Score) : Type 0 where
    pub item : Item
    pub in_place : find item.loc tree ≡ some item.cell
    pub is_its : y ≡ yield_of item y.posterior
    pub scored : Scored (path_of item) y.posterior
    pub committable : is_committable item.cell ≡ true
    pub alive : is_alive now (cell_time_bound item.cell.type) ≡ true

  has_put :
      (k : String) (y : CaseYield Score) (zs : List (CaseYield Score))
      → has k (yield_paths (put_yield reading y zs)) ≡ (y.path == k || has k (yield_paths zs))
  unfolding put_yield
  has_put k y [] = refl
  has_put k y (z ∷ zs) = by_order (reading.before z.path y.path) (has_put k y zs)
    where
      by_order :
          (b : Bool)
          → has k (yield_paths (put_yield reading y zs)) ≡ (y.path == k || has k (yield_paths zs))
          → has k (yield_paths (if b then z ∷ put_yield reading y zs else y ∷ z ∷ zs))
            ≡ (y.path == k || has k (yield_paths (z ∷ zs)))
      by_order true e =
          ap (λ b. z.path == k || b) e
          ∙ or_swap (z.path == k) (y.path == k) (has k (yield_paths zs))
      by_order false e = refl

  Distinct-put :
      (y : CaseYield Score) (zs : List (CaseYield Score))
      → has y.path (yield_paths zs) ≡ false
      → Distinct (yield_paths zs)
      → Distinct (yield_paths (put_yield reading y zs))
  unfolding put_yield
  Distinct-put y [] h g = (h, g)
  Distinct-put y (z ∷ zs) h g =
      by_order (reading.before z.path y.path)
        (Distinct-put y zs (no_right (z.path == y.path) (has y.path (yield_paths zs)) h) g.1)
    where
      by_order :
          (b : Bool)
          → Distinct (yield_paths (put_yield reading y zs))
          → Distinct (yield_paths (if b then z ∷ put_yield reading y zs else y ∷ z ∷ zs))
      by_order true k = (
        has_put z.path y zs
            ∙ none_of (y.path == z.path) (has z.path (yield_paths zs))
                (differs z.path y.path (no_left (z.path == y.path) (has y.path (yield_paths zs)) h))
                g.0,
        k,
      )
      by_order false k = (h, g)

  has_sorted :
      (k : String) (ys : List (CaseYield Score))
      → has k (yield_paths (sorted_yields reading ys)) ≡ has k (yield_paths ys)
  unfolding sorted_yields
  has_sorted k [] = refl
  has_sorted k (y ∷ ys) =
      has_put k y (sorted_yields reading ys) ∙ ap (λ b. y.path == k || b) (has_sorted k ys)

  Distinct-sorted :
      (ys : List (CaseYield Score))
      → Distinct (yield_paths ys)
      → Distinct (yield_paths (sorted_yields reading ys))
  unfolding sorted_yields
  Distinct-sorted [] h = tt
  Distinct-sorted (y ∷ ys) (h, hs) =
      Distinct-put y (sorted_yields reading ys) (has_sorted y.path ys ∙ h) (Distinct-sorted ys hs)

  All-put :
      (P : CaseYield Score → Type 0) (y : CaseYield Score) (zs : List (CaseYield Score))
      → P y
      → All P zs
      → All P (put_yield reading y zs)
  unfolding put_yield
  All-put P y [] h hs = (h, tt)
  All-put P y (z ∷ zs) h (g, gs) = by_order (reading.before z.path y.path) (All-put P y zs h gs)
    where
      by_order :
          (b : Bool)
          → All P (put_yield reading y zs)
          → All P (if b then z ∷ put_yield reading y zs else y ∷ z ∷ zs)
      by_order true k = (g, k)
      by_order false k = (h, (g, gs))

  All-sorted :
      (P : CaseYield Score → Type 0) (ys : List (CaseYield Score))
      → All P ys
      → All P (sorted_yields reading ys)
  unfolding sorted_yields
  All-sorted P [] h = tt
  All-sorted P (y ∷ ys) (h, hs) = All-put P y (sorted_yields reading ys) h (All-sorted P ys hs)

  module _ (spec : ConcernSpec) where
    -- What is yielded of some items: of each member, in order, its yield.
    pub data Yielded : List Item → List (CaseYield Score) → Type 0 where
      no_items : Yielded [] []
      passed :
          {items : List Item} {ys : List (CaseYield Score)} (i : Item)
          → is_member reading tree now query spec i ≡ false
          → Yielded items ys
          → Yielded (i ∷ items) ys
      taken :
          {items : List Item} {ys : List (CaseYield Score)} (i : Item) (x : Score)
          → is_member reading tree now query spec i ≡ true
          → Scored (path_of i) x
          → Yielded items ys
          → Yielded (i ∷ items) (yield_of i x ∷ ys)

    offer-Offers :
        (i : Item) (x : Score)
        → InPlace tree i
        → is_member reading tree now query spec i ≡ true
        → Scored (path_of i) x
        → Offers (yield_of i x)
    unfolding is_member
    offer-Offers i x h holds scored =
        let both = and_left _ _ (and_left _ _ (and_left _ _ (and_left _ _ holds))) in
        record {
          item = i;
          in_place = h;
          is_its = refl;
          scored = scored;
          committable = and_left _ _ both;
          alive = and_right _ _ both;
        }

    no_member :
        {items : List Item} {ys : List (CaseYield Score)} (k : String)
        → Yielded items ys
        → has k (map path_of items) ≡ false
        → has k (yield_paths ys) ≡ false
    unfolding yield_of
    no_member k no_items h = refl
    no_member k (passed {items} i e r) h =
        no_member k r (no_right (path_of i == k) (has k (map path_of items)) h)
    no_member k (taken {items} {ys} i x e p r) h =
        none_of (path_of i == k) (has k (yield_paths ys))
          (no_left (path_of i == k) (has k (map path_of items)) h)
          (no_member k r (no_right (path_of i == k) (has k (map path_of items)) h))

    pub Yielded-Distinct :
        {items : List Item} {ys : List (CaseYield Score)}
        → Yielded items ys
        → Distinct (map path_of items)
        → Distinct (yield_paths ys)
    unfolding yield_of
    Yielded-Distinct no_items h = tt
    Yielded-Distinct (passed i e r) (h, hs) = Yielded-Distinct r hs
    Yielded-Distinct (taken i x e p r) (h, hs) = (no_member (path_of i) r h, Yielded-Distinct r hs)

    pub Yielded-Offers :
        {items : List Item} {ys : List (CaseYield Score)}
        → Yielded items ys
        → All (InPlace tree) items
        → All Offers ys
    Yielded-Offers no_items h = tt
    Yielded-Offers (passed i e r) (h, hs) = Yielded-Offers r hs
    Yielded-Offers (taken i x e p r) (h, hs) = (offer-Offers i x h e p, Yielded-Offers r hs)

    -- Every member among the visited cells is yielded.
    abbrev pub Yields : List Item → List (CaseYield Score) → Type 0
    Yields items ys =
        All
          (λ i.
            is_member reading tree now query spec i ≡ true
            → has (path_of i) (yield_paths ys) ≡ true)
          items

    Yielded-Yields :
        {items : List Item} {ys : List (CaseYield Score)} → Yielded items ys → Yields items ys
    unfolding yield_of
    Yielded-Yields no_items = tt
    Yielded-Yields (passed i e r) = (λ h. absurd (clash h e), Yielded-Yields r)
    Yielded-Yields (taken {ys = ys} i x e p r) = (
      λ h.
          or_left (path_of i == path_of i) (has (path_of i) (yield_paths ys)) (eq_refl (path_of i)),
      All-map path_of (frontier tree spec)
          (λ j k e. or_right (path_of i == path_of j) (has (path_of j) (yield_paths ys)) (k e)) _
          (Yielded-Yields r),
    )

    visited-Explored :
        Returns
          (Explored path_of (frontier tree spec) (roots_of tree spec.roots))
          (visited tree spec)
    unfolding visited
    visited-Explored =
        search-Explored path_of (frontier tree spec) (length (walk tree)) (roots_of tree spec.roots)

    visited-InPlace : Returns (All (InPlace tree)) (visited tree spec)
    unfolding visited
    visited-InPlace =
        let queued =
          push_all-All path_of (frontier tree spec) (InPlace tree)
            (λ i e. frontier-InPlace tree spec i) (roots_of tree spec.roots) ([], [])
            (roots_of-InPlace tree spec.roots) tt in
        let start = push_all path_of (frontier tree spec) (roots_of tree spec.roots) ([], []) in
        search-All path_of (frontier tree spec) (InPlace tree) (λ i e. frontier-InPlace tree spec i)
          (length (walk tree)) start.0 start.1 queued

    of_visited :
        (P : List Item → Type 0) (items : List Item)
        → visited tree spec ≡ some items
        → Returns P (visited tree spec)
        → P items
    of_visited P items e h = subst (Returns P) e h

    -- What the walk of a declared concern returns, of the cells that it visits.
    pub record Answered (items : List Item) (ys : List (CaseYield Score)) : Type 0 where
      pub explored : Explored path_of (frontier tree spec) (roots_of tree spec.roots) items
      pub distinct : Distinct (yield_paths ys)
      pub offers : All Offers ys
      pub yields : Yields items ys

    -- What is yielded of the items that are visited is an answer, once it is sorted.
    pub Yielded-Answered :
        (items : List Item) (ys : List (CaseYield Score))
        → visited tree spec ≡ some items
        → Yielded items ys
        → Answered items (sorted_yields reading ys)
    Yielded-Answered items ys e r =
        let explored =
          of_visited (Explored path_of (frontier tree spec) (roots_of tree spec.roots)) items e
            visited-Explored in
        record {
          explored = explored;
          distinct = Distinct-sorted ys (Yielded-Distinct r explored.distinct);
          offers =
              All-sorted Offers ys
                (Yielded-Offers r (of_visited (All (InPlace tree)) items e visited-InPlace));
          yields =
              All-map path_of (frontier tree spec) (λ i k e. has_sorted (path_of i) ys ∙ k e) items
                (Yielded-Yields r);
        }
