-- ===== src/Space/Case/Walk/Steady.antt =====
-- src-v2/case.ts: where the scores leave the cells as they are, the walk finds what a search of the tree finds.
use mathlib.Core.Option.{some-injective}
use sequence.Prelude.{
  ℕ, zero, suc, String, Bool, true, false, ◌≡◌, refl, ◌∙◌, ap, subst, Option, none, some, List, [],
  ◌∷◌, ◌++◌, has, length, All, ◌==◌, eq_iff, inl, inr, if◌then◌else◌, arith,
}
use sequence.Prelude.Bools.{left_or}
use sequence.Prelude.Fallible.{◌>>=◌ as ◌>>?◌}
use sequence.Lang.Int.{ℤ, pos}
use sequence.Kernel.Data.{CellData, Store}
use sequence.Kernel.Tree.{walk}
use sequence.Kernel.Host.{Env}
use sequence.Kernel.Exec.{M, pure, ◌>>=◌, reads, read_clock}
use sequence.Kernel.Silent.{bind-at}
use sequence.Space.Case.{ConcernSpec, read_concern}
use sequence.Space.Case.Search.{push_all, push_all-All, search}
use sequence.Space.Case.Walk.{
  Item, path_of, roots_of, frontier, Reading, CaseYield, is_member, yield_of, refreshed,
  sorted_yields, access_score, offer, walk_from, walk_spec, case_walk,
}
use sequence.Space.Case.Walk.Ends.{
  InPlace, roots_of-InPlace, frontier-InPlace, visited, visited_ends, known, paths,
}
use sequence.Space.Case.Walk.Yields.{Yielded, no_items, passed, taken, Answered, Yielded-Answered}

-- A property of the paths of some cells is one of each of them.
at_path :
    (P : String → Type 0) (ds : List CellData) (k : String)
    → All (λ d. P d.path) ds
    → has k (paths ds) ≡ true
    → P k
at_path P [] k h e = absurd (ground arith)
at_path P (d ∷ ds) k (h, hs) e = elim (left_or (d.path == k) (has k (paths ds)) e) [
  | inl here ↦ subst P ((eq_iff d.path k).0 here) h
  | inr there ↦ at_path P ds k hs there
]

-- What a search that returns has returned of the rest.
later_of :
    {A : Type 0} (o : Option (List A)) (x : A) (out : List A)
    → (o >>? λ later. some (x ∷ later)) ≡ some out
    → (later : List A) × (o ≡ some later) × (x ∷ later ≡ out)
later_of none x out e = cc
later_of (some later) x out e = (later, refl, some-injective _ _ e)

module _ {Score : Type 0} (reading : Reading Score) (env : Env) (fuel : ℕ) (s : Store) where
  -- the kernel later on, with the same cells and rules
  abbrev pub later_at : ℕ → ℕ → Store
  later_at n r = record s { next_seq = n; reads = r }

  -- a score that `accessScore` returns while the walk goes on
  pub record Scored (path : String) (x : Score) : Type 0 where
    pub before : ℕ × ℕ
    pub after : ℕ × ℕ
    pub run :
        access_score reading env fuel path (later_at before.0 before.1)
        ≡ some (x, later_at after.0 after.1)

  -- Scoring a path returns, and gives out numbers and reads the clock at most.
  abbrev pub IsSteady : String → Type 0
  IsSteady path =
      (n r : ℕ)
      → (x : Score) × (m : ℕ) × (q : ℕ) × (access_score reading env fuel path (later_at n r)
          ≡ some (x, later_at m q))

  module _ (now : ℤ) (query : Option String) (spec : ConcernSpec)
      (steady : All (λ d. IsSteady d.path) (walk s.root)) where
    abbrev Taken : List Item → List (CaseYield Score) → Type 0
    Taken = Yielded reading s.root now query Scored spec

    offer_steady :
        (i : Item) (n r : ℕ)
        → InPlace s.root i
        → (ys : List (CaseYield Score)) × (m : ℕ) × (q : ℕ) × (offer reading env fuel now query spec
              i
              (later_at n r)
            ≡ some (ys, later_at m q))
          × ((items : List Item) (later : List (CaseYield Score))
              → Taken items later
              → Taken (i ∷ items) (ys ++ later))
    unfolding offer
    offer_steady i n r h = by_member (is_member reading s.root now query spec i) refl
      where
        by_member :
            (b : Bool)
            → is_member reading s.root now query spec i ≡ b
            → (ys : List (CaseYield Score)) × (m : ℕ) × (q : ℕ) × ((if b
                    then access_score reading env fuel (path_of i)
                      >>= (λ x. pure (yield_of i x ∷ []))
                    else pure [])
                  (later_at n r)
                ≡ some (ys, later_at m q))
              × ((items : List Item) (later : List (CaseYield Score))
                  → Taken items later
                  → Taken (i ∷ items) (ys ++ later))
        by_member true e =
            let (x, m, q, run) =
              at_path IsSteady (walk s.root) (path_of i) steady (known s.root i h) n r in
            (
              yield_of i x ∷ [],
              m,
              q,
              bind-at (later_at n r) (access_score reading env fuel (path_of i))
                  (λ x. pure (yield_of i x ∷ [])) run,
              λ items later t.
                  taken i x e (record { before = (n, r); after = (m, q); run = run }) t,
            )
        by_member false e = ([], n, r, refl, λ items later t. passed i e t)

    walk_steady :
        (k : ℕ) (queue : List Item) (seen : List String) (items : List Item) (n r : ℕ)
        → All (InPlace s.root) queue
        → search path_of (frontier s.root spec) k (queue, seen) ≡ some items
        → (ys : List (CaseYield Score)) × (m : ℕ) × (q : ℕ) × (walk_from reading env fuel now query
              spec k queue seen
              (later_at n r)
            ≡ some (ys, later_at m q))
          × Taken items ys
    unfolding walk_from search
    walk_steady k [] seen items n r h e =
        ([], n, r, refl, subst (λ is. Taken is []) (some-injective _ _ e) no_items)
    walk_steady zero (i ∷ queue) seen items n r h e = cc
    walk_steady (suc k) (i ∷ queue) seen items n r (h, hs) e =
        let next = frontier s.root spec in
        let pushed = push_all path_of next (next i) (queue, seen) in
        let (rest, searched, whole) = later_of (search path_of next k pushed) i items e in
        let (ys, m, q, run, takes) = offer_steady i n r h in
        let (later, m', q', runs, taken_later) =
          walk_steady k pushed.0 pushed.1 rest m q
            (push_all-All path_of next (InPlace s.root) (λ i e. frontier-InPlace s.root spec i)
              (next i) (queue, seen) (frontier-InPlace s.root spec i) hs)
            searched in
        let after : List (CaseYield Score) → List Item × List String → M (List (CaseYield Score)) =
          λ ys p.
            walk_from reading env fuel now query spec k p.0 p.1 >>= λ later. pure (ys ++ later) in
        let round : Item → M (List (CaseYield Score)) = λ here.
          offer reading env fuel now query spec here >>= λ yielded.
          reads (λ s.
            push_all path_of (frontier s.root spec) (frontier s.root spec (refreshed s.root i))
              (queue, seen))
          >>= λ p. after yielded p in
        let same : refreshed s.root i ≡ i = unfold refreshed in rw h refl in
        (
          ys ++ later,
          m',
          q',
          ap (λ here. round here (later_at n r)) same
              ∙ bind-at (later_at n r) (offer reading env fuel now query spec i) _ run
              ∙ ap
                  (λ here.
                    after ys (push_all path_of next (next here) (queue, seen)) (later_at m q))
                  same
              ∙ bind-at (later_at m q)
                  (walk_from reading env fuel now query spec k pushed.0 pushed.1)
                  (λ later. pure (ys ++ later)) runs,
          subst (λ is. Taken is (ys ++ later)) whole (takes rest later taken_later),
        )

  -- The walk of a declared concern, with as many rounds as the kernel has cells, where scoring the path of a cell
  -- returns and only gives out numbers and reads the clock: the walk returns, and does only that as well; the
  -- cells it visits are the roots that are there and, with each cell, its neighbours along the declared axes, but
  -- for those that the declared filter on underscores leaves out, no path twice; what it yields is cells of the
  -- kernel, no path twice, each with a value or the type of a function, with its time not over at the moment the
  -- walk began, and with a score of its path; and of the cells visited, every member is yielded.
  pub case_walk-Answered :
      (query : Option String) (spec : ConcernSpec) (concern : String)
      → read_concern s concern ≡ some spec
      → All (λ d. IsSteady d.path) (walk s.root)
      → (items : List Item) × (ys : List (CaseYield Score)) × (m : ℕ) × (q : ℕ) × (case_walk reading
            env fuel
            (length (walk s.root))
            query
            concern
            s
          ≡ some (some ys, later_at m q))
        × (visited s.root spec ≡ some items)
        × Answered reading s.root (pos (env.clock s.reads)) query Scored spec items ys
  unfolding case_walk walk_spec read_clock
  case_walk-Answered query spec concern declared steady =
      let (items, e) = visited_ends s.root spec in
      let now : ℤ = pos (env.clock s.reads) in
      let start = push_all path_of (frontier s.root spec) (roots_of s.root spec.roots) ([], []) in
      let rounds : ℕ = length (walk s.root) in
      let (ys, m, q, run, takes) =
        walk_steady now query spec steady rounds start.0 start.1 items s.next_seq (suc s.reads)
          (push_all-All path_of (frontier s.root spec) (InPlace s.root)
            (λ i e. frontier-InPlace s.root spec i) (roots_of s.root spec.roots) ([], [])
            (roots_of-InPlace s.root spec.roots) tt)
          (unfold visited in e) in
      let spec_run : walk_spec reading env fuel rounds query spec s
          ≡ some (sorted_yields reading ys, later_at m q) =
        bind-at (later_at s.next_seq (suc s.reads))
          (walk_from reading env fuel now query spec rounds start.0 start.1)
          (λ ys. pure (sorted_yields reading ys)) run in
      let branch : Option ConcernSpec → M (Option (List (CaseYield Score))) = λ o. elim o [
        | none ↦ pure none
        | some spec ↦ walk_spec reading env fuel rounds query spec >>= λ ys. pure (some ys)
      ] in
      (
        items,
        sorted_yields reading ys,
        m,
        q,
        ap (λ o. branch o s) declared
            ∙ bind-at s (walk_spec reading env fuel rounds query spec) (λ ys. pure (some ys))
                spec_run,
        e,
        Yielded-Answered reading s.root now query (Scored) spec items ys e takes,
      )
