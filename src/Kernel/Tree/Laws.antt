-- ===== src/Kernel/Tree/Laws.antt =====
-- What growth and writes do to the cells that `find` reaches.
use mathlib.Core.Option
use sequence.Prelude.{String, refl, ◌≡◌, ◌⊎◌, inl, inr, some, List, [], ◌∷◌, arith}
use sequence.Kernel.Data.{CellData, Cell, cell, Children, leaf, child}
use sequence.Kernel.Tree.{find, find_child, ensure, ensure_child, update, update_child}

-- Growth keeps every cell that is there.
mutual
  unfolding find ensure

  pub find-ensure :
      (c : Cell) (q p : List String) (d : CellData)
      → find q c ≡ some d
      → find q (ensure p c) ≡ some d
  find-ensure (cell x cs) [] [] d e = e
  find-ensure (cell x cs) [] (seg ∷ p) d e = e
  find-ensure (cell x cs) (k ∷ q) [] d e = e
  find-ensure (cell x cs) (k ∷ q) (seg ∷ p) d e = find_child-ensure_child cs x.path k q seg p d e

  find_child-ensure_child :
      (cs : Children) (parent k : String) (q : List String) (seg : String) (p : List String)
      (d : CellData)
      → find_child k q cs ≡ some d
      → find_child k q (ensure_child parent seg p cs) ≡ some d
  find_child-ensure_child leaf parent k q seg p d e = cc
  find_child-ensure_child (child j c cs) parent k q seg p d e =
      ground (arith, find-ensure c q p d, find_child-ensure_child cs parent k q seg p d)

-- A write changes at most the cell at its place.
mutual
  unfolding find update

  pub find-update :
      (f : CellData → CellData) (c : Cell) (q p : List String) (d : CellData)
      → find q c ≡ some d
      → (find q (update f p c) ≡ some d)
        ⊎ ((find q (update f p c) ≡ some (f d)) × (find p c ≡ some d))
  find-update f (cell x cs) [] [] d e = inr (ground arith, e)
  find-update f (cell x cs) [] (seg ∷ p) d e = inl e
  find-update f (cell x cs) (k ∷ q) [] d e = inl e
  find-update f (cell x cs) (k ∷ q) (seg ∷ p) d e = find_child-update_child f cs k q seg p d e

  find_child-update_child :
      (f : CellData → CellData) (cs : Children) (k : String) (q : List String) (seg : String)
      (p : List String) (d : CellData)
      → find_child k q cs ≡ some d
      → (find_child k q (update_child f seg p cs) ≡ some d)
        ⊎ ((find_child k q (update_child f seg p cs) ≡ some (f d)) × (find_child seg p cs ≡ some d))
  find_child-update_child f leaf k q seg p d e = cc
  find_child-update_child f (child j c cs) k q seg p d e =
      ground (arith, find-update f c q p d, find_child-update_child f cs k q seg p d)

-- What is at the place of a write after it.
mutual
  unfolding find update

  pub find-update_self :
      (f : CellData → CellData) (c : Cell) (p : List String)
      → find p (update f p c) ≡ Option.map f (find p c)
  find-update_self f (cell d cs) [] = refl
  find-update_self f (cell d cs) (k ∷ p) = find_child-update_self f cs k p

  find_child-update_self :
      (f : CellData → CellData) (cs : Children) (k : String) (p : List String)
      → find_child k p (update_child f k p cs) ≡ Option.map f (find_child k p cs)
  find_child-update_self f leaf k p = refl
  find_child-update_self f (child j c cs) k p =
      ground (arith, find-update_self f c p, find_child-update_self f cs k p)
