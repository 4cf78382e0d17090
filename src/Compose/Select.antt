-- ===== src/Compose/Select.antt =====
-- src/compose.ts, `selectFirstBranch`: the order of the branches is the order of their priority.
use sequence.Prelude.{
  ℕ, zero, suc, ◌+◌, Bool, true, false, not, ◌&&◌, ◌≡◌, refl, subst, List, [], ◌∷◌, Option, none,
  some, arith, every, if◌then◌else◌,
}
use sequence.Lang.{or, Ty, is_never}
use sequence.Compose.Contradiction.{Deadline}
use sequence.Compose.Lattice.{
  Calls, branch_accepts, branches, has_kind, select_from, select_first_branch,
}

-- The first element that passes a test, and its place in the list.
pub data FirstAt {A : Type 0} (test : A → Bool) : List A → ℕ → A → Type 0 where
  here : {x : A} {xs : List A} → test x ≡ true → FirstAt test (x ∷ xs) zero x
  there :
      {x y : A} {xs : List A} {n : ℕ}
      → test x ≡ false
      → FirstAt test xs n y
      → FirstAt test (x ∷ xs) (suc n) y

module _ (misses : Deadline) (calls : Calls) (candidate : Ty) where
  -- a branch accepts the candidate, and the two compose
  abbrev pub viable : Ty → Bool
  viable b = branch_accepts misses calls b candidate && not (is_never (calls.compose b candidate))

  -- What a search from a place on may return.
  pub data Selected (i : ℕ) (bs : List Ty) : Option (Ty × Ty × ℕ) → Type 0 where
    all_refused : every (λ b. not (viable b)) bs ≡ true → Selected i bs none
    selected :
        {b : Ty} (n : ℕ)
        → FirstAt viable bs n b
        → Selected i bs (some (b, calls.compose b candidate, i + n))

  later_Selected :
      (i : ℕ) (b : Ty) (bs : List Ty) (o : Option (Ty × Ty × ℕ))
      → viable b ≡ false
      → Selected (suc i) bs o
      → Selected i (b ∷ bs) o
  later_Selected i b bs _ h (all_refused k) = all_refused (ground arith)
  later_Selected i b bs _ h (selected {b = c} n f) =
      subst (λ m. Selected i (b ∷ bs) (some (c, calls.compose c candidate, m))) (omega arith)
        (selected (suc n) (there h f))

  select_from-Selected :
      (i : ℕ) (bs : List Ty) → Selected i bs (select_from misses calls i bs candidate)
  unfolding select_from
  select_from-Selected i [] = all_refused refl
  select_from-Selected i (b ∷ bs) = by_test (viable b) refl (select_from-Selected (suc i) bs)
    where
      by_test :
          (x : Bool)
          → viable b ≡ x
          → Selected (suc i) bs (select_from misses calls (suc i) bs candidate)
          → Selected i (b ∷ bs) (
              if x
              then some (b, calls.compose b candidate, i)
              else select_from misses calls (suc i) bs candidate)
      by_test true h k =
          subst (λ m. Selected i (b ∷ bs) (some (b, calls.compose b candidate, m))) (omega arith)
            (selected zero (here h))
      by_test false h k = later_Selected i b bs (select_from misses calls (suc i) bs candidate) h k

  -- the branches of a union, and of another type the type itself
  abbrev pub alternatives : Ty → List Ty
  alternatives t = if has_kind or t then branches t else t ∷ []

  -- The selection returns the first branch that accepts the candidate and composes with it, with its
  -- composition and its place, and returns nothing only where no branch does.
  pub select_first_branch-Selected :
      (union : Ty)
      → Selected 0 (alternatives union) (select_first_branch misses calls union candidate)
  unfolding select_first_branch
  select_first_branch-Selected union = by_test (has_kind or union)
    where
      by_test :
          (x : Bool)
          → Selected 0 (if x then branches union else union ∷ []) (
              if x
              then select_from misses calls 0 (branches union) candidate
              else select_from misses calls 0 (union ∷ []) candidate)
      by_test true = select_from-Selected 0 (branches union)
      by_test false = select_from-Selected 0 (union ∷ [])
