-- ===== src/Space/Case/Walk/Silent.antt =====
-- src-v2/stdlib/reader.ts: the score of a path whose counters no rule is about.
use sequence.Prelude.{
  ℕ, suc, String, false, ◌≡◌, sym, ◌∙◌, ap, [], none, some, ◌⊎◌, inl, inr, ◌⊹◌, segments,
}
use sequence.Lang.{Value, undefined, is_undefined}
use sequence.Kernel.Data.{CellData, Cell, Store}
use sequence.Kernel.Tree.{find, rules_on_path}
use sequence.Kernel.Host.{Env}
use sequence.Kernel.Exec.{pure}
use sequence.Kernel.Insert.{get}
use sequence.Kernel.ReadBack.{get_quiet, get_missing}
use sequence.Kernel.Silent.{bind-at}
use sequence.Space.Case.Walk.{Reading, access_score}
use sequence.Space.Case.Walk.Steady.{later_at, IsSteady}

-- a counter that no rule is in scope of, and that has a value where it has a cell
pub record Silent (tree : Cell) (path : String) : Type 0 where
  pub standing :
      (find (segments path) tree ≡ none)
      ⊎ ((d : CellData) × (find (segments path) tree ≡ some d) × (is_undefined d.value ≡ false))
  pub unruled : rules_on_path (segments path) tree ≡ []

module _ {Score : Type 0} (reading : Reading Score) (env : Env) (left : ℕ) (s : Store)
    (watchers : s.watchers ≡ []) (flag : s.access_in_flight ≡ false) where
  abbrev at : ℕ → ℕ → Store
  at n r = later_at reading env (suc (suc left)) s n r

  put_back : (n r : ℕ) → record (at n r) { access_in_flight = false } ≡ at n r
  put_back n r = ap (λ b. record (at n r) { access_in_flight = b }) (sym flag)

  get-Silent :
      (path : String)
      → Silent s.root path
      → (n r : ℕ)
      → (v : Value) × (get env (suc (suc left)) path none (at n r) ≡ some (v, at (suc n) (suc r)))
  get-Silent path silent n r = elim silent.standing [
    | inl missing ↦ (
      undefined,
      get_missing env left path none (at n r) missing silent.unruled watchers flag
          ∙ ap (λ t. some (undefined, t)) (put_back (suc n) (suc r)),
    )
    | inr (d, here, present) ↦ (
      d.value,
      get_quiet env left path d none (at n r) here silent.unruled watchers flag present
          ∙ ap (λ t. some (d.value, t)) (put_back (suc n) (suc r)),
    )
  ]

  -- Where nothing watches and no access is being told, and with two levels of calls to spare, scoring a path
  -- returns, and gives out two numbers and reads the clock twice, if no rule is in scope of its counters and
  -- each has a value where it has a cell.
  pub access_score-IsSteady :
      (path : String)
      → Silent s.root ("_access." ⊹ path ⊹ ".hits")
      → Silent s.root ("_access." ⊹ path ⊹ ".misses")
      → IsSteady reading env (suc (suc left)) s path
  unfolding access_score
  access_score-IsSteady path hits misses n r =
      let (h, first) = get-Silent ("_access." ⊹ path ⊹ ".hits") hits n r in
      let (m, second) = get-Silent ("_access." ⊹ path ⊹ ".misses") misses (suc n) (suc r) in
      (
        reading.scored h m,
        suc (suc n),
        suc (suc r),
        bind-at (at n r) (get env (suc (suc left)) ("_access." ⊹ path ⊹ ".hits") none) _ first
            ∙ bind-at (at (suc n) (suc r))
                (get env (suc (suc left)) ("_access." ⊹ path ⊹ ".misses") none)
                (λ m. pure (reading.scored h m)) second,
      )
