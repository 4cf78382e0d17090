-- ===== src/Space/Designate.antt =====
-- src-v2/designate.ts: the order in which the claims of a space take an occurrence. Times are integers. The
-- text of a number is a parameter; a text is hashed and compared by code points. The sort of the runtime is
-- the insertion sort, which gives the one order that a total comparison allows.
pub mod Claims
use sequence.Prelude.{
  ℕ, suc, String, Bool, true, false, not, ◌&&◌, ◌||◌, ◌≡◌, refl, subst, ap, ◌∙◌, ◌==◌,
  if◌then◌else◌, Option, none, some, arith, List, [], ◌∷◌, has, any, ltb, eqb, ◌⊹◌, eq_iff, eq_refl,
  or_else,
}
use Prim.Native.Nat.{◌*◌, ◌%◌, bit_xor, lt, eq, gt}
use Prim.Native.Char.{code}
use Prim.Native.String.{compare}
use sequence.Lang.Int.{ℤ, pos, leb_ℤ, ◌+ℤ◌, ◌*ℤ◌}

pub data Order : Type 0 where
  declaration : Order
  member_hash : Order

pub record ClaimRow : Type 0 where
  pub member : String
  pub valid_until : Option ℤ

pub record AllocationRule : Type 0 where
  pub order : Order
  pub failover_ms : Option ℤ

pub record Designation : Type 0 where
  pub order : List String
  pub slots : List (String × ℤ)

-- FNV-1a, from the hash so far
unfoldable pub fnv1a_from : ℕ → String → ℕ
fnv1a_from h String.[] = h
fnv1a_from h (String.◌∷◌ c s) = fnv1a_from (bit_xor h (code c) * 16777619 % 4294967296) s

abbrev pub fnv1a : String → ℕ
unfolding fnv1a_from
fnv1a s = fnv1a_from 2166136261 s

-- a row that stands at an occurrence
abbrev pub stands : ℤ → ClaimRow → Bool
stands occurrence row =
    not (row.member == "")
    && elim row.valid_until [ none ↦ true | some t ↦ not (leb_ℤ t occurrence) ]

-- the members with a standing row, each at its first
unfoldable pub standing : ℤ → List String → List ClaimRow → List String
standing occurrence seen [] = []
standing occurrence seen (r ∷ rs) =
    let skipped = standing occurrence seen rs in
    let taken = standing occurrence (r.member ∷ seen) rs in
    if not (stands occurrence r) || has r.member seen then skipped else r.member ∷ taken

abbrev text_before : String → String → Bool
text_before a b = elim (compare a b) [ lt ↦ true | eq ↦ false | gt ↦ false ]

module _ (show_time : ℤ → String) (occurrence : ℤ) where
  abbrev pub turn_key : String → ℕ
  unfolding fnv1a_from
  turn_key m = fnv1a (m ⊹ "|" ⊹ show_time occurrence)

  -- the comparison of the sort
  unfoldable pub comes_before : String → String → Bool
  unfolding fnv1a_from
  comes_before a b =
      ltb (turn_key a) (turn_key b) || eqb (turn_key a) (turn_key b) && text_before a b

  unfoldable pub put : String → List String → List String
  unfolding comes_before
  put m [] = m ∷ []
  put m (n ∷ ns) = let later = put m ns in if comes_before n m then n ∷ later else m ∷ n ∷ ns

  unfoldable pub sorted : List String → List String
  unfolding put
  sorted [] = []
  sorted (m ∷ ms) = put m (sorted ms)

  -- the slots, from a rank on
  unfoldable pub slots_from : ℤ → ℕ → List String → List (String × ℤ)
  unfolding ◌+ℤ◌ ◌*ℤ◌
  slots_from failover rank [] = []
  slots_from failover rank (m ∷ ms) =
      (m, occurrence +ℤ pos rank *ℤ failover) ∷ slots_from failover (suc rank) ms

  unfoldable pub ordered : Order → List String → List String
  unfolding sorted
  ordered declaration ms = ms
  ordered member_hash ms = sorted ms

  -- `none` is a rule that is refused
  unfoldable pub designate : AllocationRule → List ClaimRow → Option Designation
  unfolding standing ordered slots_from
  designate rule rows =
      let failover = or_else rule.failover_ms (pos 30000) in
      let members = ordered rule.order (standing occurrence [] rows) in
      if leb_ℤ failover (pos 0)
      then none
      else some (record { order = members; slots = slots_from failover 0 members })
