-- ===== src/Compose/Contradiction.antt =====
-- src/compose.ts, `detectContradiction`: constraints that no value meets together, though each pair does. The
-- floating point test of a deadline is a parameter.
use sequence.Prelude.{
  ℕ, suc, String, Bool, true, false, ◌&&◌, ◌||◌, Option, none, some, List, ◌==◌, any, keep,
  find_first,
}
use sequence.Lang.{
  arg, Kind, string, number, fn, Value, undefined, num, str, Constraint, op_of, same,
}
use sequence.Lang.Int.{ℤ, pos, ltb_ℤ, ◌-ℤ◌}
use sequence.Compose.Bounds.{smaller}

-- the length of a text, in code points
size : String → ℕ
size String.[] = 0
size (String.◌∷◌ c s) = suc (size s)

abbrev pub number_of : Value → Option ℤ
number_of (num n) = some n
number_of _ = none

abbrev is_number : Value → Bool
is_number (num n) = true
is_number _ = false

-- a number above 0
abbrev positive : Option ℤ → Option ℤ
positive (some (pos (suc n))) = some (pos (suc n))
positive _ = none

abbrev difference : Value → Value → Option ℤ
unfolding ◌-ℤ◌
difference (num a) (num b) = some (a -ℤ b)
difference _ _ = none

abbrev less : Value → Value → Bool
less (num a) (num b) = ltb_ℤ a b
less _ _ = false

unfoldable pub contradicts_number : List Constraint → Bool
contradicts_number cs =
    let mins = keep (λ c. op_of c == "min") cs in
    let maxs = keep (λ c. op_of c == "max") cs in
    any (λ a. any (λ b. less (arg 0 b) (arg 0 a)) maxs) mins
    || elim (find_first (λ c. op_of c == "literal") cs) [
      | none ↦ false
      | some l ↦
          any (λ a. less (arg 0 l) (arg 0 a)) mins || any (λ b. less (arg 0 b) (arg 0 l)) maxs
    ]

abbrev text_length : Value → Value
unfolding size
text_length (str s) = num (pos (size s))
text_length _ = undefined

unfoldable pub contradicts_string : List Constraint → Bool
unfolding size
contradicts_string cs = elim (find_first (λ c. op_of c == "literal") cs) [
  | none ↦ false
  | some l ↦
      any (λ c. less (text_length (arg 0 l)) (arg 0 c) || less (arg 1 c) (text_length (arg 0 l)))
        (keep (λ c. op_of c == "length") cs)
]

-- the time that the constraints of a function leave, if they bound it
unfoldable pub available_time : Constraint → List Constraint → Option ℤ
unfolding ◌-ℤ◌
available_time policy temporals =
    let bounds = λ (dir : String).
      find_first (λ c. same (arg 0 c) (str dir) && is_number (arg 2 c)) temporals in
    let timeout : Option ℤ = positive (number_of (arg 0 policy)) in
    elim (bounds "lt") [
      | none ↦ timeout
      | some l ↦ elim (bounds "gt") [
        | none ↦ elim timeout [ none ↦ number_of (arg 2 l) | some t ↦ some t ]
        | some g ↦ elim (positive (difference (arg 2 l) (arg 2 g))) [
          | none ↦ timeout
          | some w ↦ elim timeout [ none ↦ some w | some t ↦ some (smaller t w) ]
        ]
      ]
    ]

-- The probability test of `cdf`: a family, a time, its parameters and the confidence that is wanted.
abbrev pub Deadline : Type 0
Deadline = Value → ℤ → Value → Value → Bool

module _ (misses : Deadline) where
  unfoldable pub contradicts_fn : List Constraint → Bool
  unfolding available_time
  contradicts_fn cs =
      elim (find_first (λ c. op_of c == "distribution" && same (arg 0 c) (str "time")) cs) [
        | none ↦ false
        | some d ↦ elim (find_first (λ c. op_of c == "responsePolicy") cs) [
          | none ↦ false
          | some p ↦ elim (available_time p (keep (λ c. op_of c == "temporal") cs)) [
            | none ↦ false
            | some t ↦ misses (arg 1 d) t (arg 2 d) (arg 1 p)
          ]
        ]
      ]

  -- `detectContradiction`
  unfoldable pub detect_contradiction : Kind → List Constraint → Bool
  unfolding contradicts_number contradicts_string contradicts_fn
  detect_contradiction number cs = contradicts_number cs
  detect_contradiction string cs = contradicts_string cs
  detect_contradiction fn cs = contradicts_fn cs
  detect_contradiction _ cs = false
