-- ===== src/Kernel/Tree/Every.antt =====
-- A property of every cell of a tree.
use sequence.Prelude.{String, ◌≡◌, refl, inl, inr, some, List, [], ◌∷◌, ◌==◌, Bool-cases, subst}
use mathlib.Core.Option.{some-injective}
use sequence.Kernel.Data.{CellData, Cell, cell, Children, leaf, child, make_cell}
use sequence.Kernel.Tree.{
  find, find_child, ensure, ensure_child, update, update_child, fresh, child_path,
}

mutual
  pub data EveryCell (P : CellData → Type 0) : Cell → Type 0 where
    every : {d : CellData} {cs : Children} → P d → EveryChild P cs → EveryCell P (cell d cs)

  pub data EveryChild (P : CellData → Type 0) : Children → Type 0 where
    done : EveryChild P leaf
    more :
        {k : String} {c : Cell} {cs : Children}
        → EveryCell P c
        → EveryChild P cs
        → EveryChild P (child k c cs)

module _ {P : CellData → Type 0} where
  mutual
    unfolding find

    pub EveryCell-find :
        (c : Cell) (q : List String) (d : CellData) → EveryCell P c → find q c ≡ some d → P d
    EveryCell-find (cell x cs) [] d (every h hs) e = subst P (some-injective _ _ e) h
    EveryCell-find (cell x cs) (k ∷ q) d (every h hs) e = EveryChild-find cs k q d hs e

    EveryChild-find :
        (cs : Children) (k : String) (q : List String) (d : CellData)
        → EveryChild P cs
        → find_child k q cs ≡ some d
        → P d
    EveryChild-find leaf k q d done e = cc
    EveryChild-find (child j c cs) k q d (more h hs) e = elim (Bool-cases (j == k)) [
      | inl here ↦ EveryCell-find c q d h (rw here at e)
      | inr there ↦ EveryChild-find cs k q d hs (rw there at e)
    ]

  EveryCell-fresh :
      ((path : String) → P (make_cell path))
      → (path : String) (segs : List String) → EveryCell P (fresh path segs)
  unfolding fresh
  EveryCell-fresh new path [] = every (new path) done
  EveryCell-fresh new path (seg ∷ segs) =
      every (new path) (more (EveryCell-fresh new (child_path path seg) segs) done)

  module _ (new : (path : String) → P (make_cell path)) where
    mutual
      unfolding ensure

      pub EveryCell-ensure : (c : Cell) (p : List String) → EveryCell P c → EveryCell P (ensure p c)
      EveryCell-ensure (cell x cs) [] h = h
      EveryCell-ensure (cell x cs) (seg ∷ p) (every h hs) =
          every h (EveryChild-ensure cs x.path seg p hs)

      EveryChild-ensure :
          (cs : Children) (parent seg : String) (p : List String)
          → EveryChild P cs
          → EveryChild P (ensure_child parent seg p cs)
      EveryChild-ensure leaf parent seg p done =
          more (EveryCell-fresh new (child_path parent seg) p) done
      EveryChild-ensure (child j c cs) parent seg p (more h hs) = elim (Bool-cases (j == seg)) [
        | inl here ↦ rw here (more (EveryCell-ensure c p h) hs)
        | inr there ↦ rw there (more h (EveryChild-ensure cs parent seg p hs))
      ]

  -- A write keeps the property, where it keeps it of the cell at its place.
  mutual
    unfolding update find

    pub EveryCell-update :
        (f : CellData → CellData) (c : Cell) (p : List String)
        → ((d : CellData) → find p c ≡ some d → P d → P (f d))
        → EveryCell P c
        → EveryCell P (update f p c)
    EveryCell-update f (cell x cs) [] k (every h hs) = every (k x refl h) hs
    EveryCell-update f (cell x cs) (seg ∷ p) k (every h hs) =
        every h (EveryChild-update f cs seg p k hs)

    EveryChild-update :
        (f : CellData → CellData) (cs : Children) (seg : String) (p : List String)
        → ((d : CellData) → find_child seg p cs ≡ some d → P d → P (f d))
        → EveryChild P cs
        → EveryChild P (update_child f seg p cs)
    EveryChild-update f leaf seg p k done = done
    EveryChild-update f (child j c cs) seg p k (more h hs) = elim (Bool-cases (j == seg)) [
      | inl here ↦ rw here (more (EveryCell-update f c p (λ d e. k d (rw here e)) h) hs)
      | inr there ↦ rw there (more h (EveryChild-update f cs seg p (λ d e. k d (rw there e)) hs))
    ]

module _ {P Q : CellData → Type 0} (k : (d : CellData) → P d → Q d) where
  mutual
    pub EveryCell-weaken : (c : Cell) → EveryCell P c → EveryCell Q c
    EveryCell-weaken (cell x cs) (every h hs) = every (k x h) (EveryChild-weaken cs hs)

    EveryChild-weaken : (cs : Children) → EveryChild P cs → EveryChild Q cs
    EveryChild-weaken leaf done = done
    EveryChild-weaken (child j c cs) (more h hs) =
        more (EveryCell-weaken c h) (EveryChild-weaken cs hs)
