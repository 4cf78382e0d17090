-- ===== src/Space/Tests.antt =====
-- The theorems on src-v2/validity.ts, relations.ts, elect.ts and designate.ts at concrete laws and claims.
use sequence.Prelude.{◌↔◌, String, Bool, true, false, ◌≡◌, refl, [], ◌∷◌, List, Option, none, some}
use sequence.Lang.{Value, Values, num, str, ref, constraint_of, nil, cons, Constraint, con}
use sequence.Lang.Int.{ℤ, pos, ◌+ℤ◌, ◌*ℤ◌}
use sequence.Space.Validity.{time_horizon, holds_at, Until, time_horizon-Until}
use sequence.Space.Relations.{finite, AtMost, within_max, reached_min, within_max-reached_min}
use sequence.Space.Elect.{
  CommitmentCandidate, ElectObservations, wait, act, awaiting_designation,
  owed_eligible_budget_admits, elect_commitment, is_act, may_act, wakes, elect_commitment-is_act,
  elect_commitment-wakes,
}
use sequence.Space.Designate.{
  ClaimRow, AllocationRule, fnv1a, fnv1a_from, declaration, member_hash, designate,
}
use sequence.Space.Designate.Claims.{Designated, designate-Designated}

abbrev until : ℤ → Value
until n = ref 1 (constraint_of (con "lte" (cons (str "$now") (cons (num n) nil))))

abbrev two_deadlines : Constraint
two_deadlines = con "and_clause" (cons (until (pos 9)) (cons (until (pos 7)) nil))

abbrev silent : String → Values → ℤ → Bool
silent op args t = true

seven_last : time_horizon two_deadlines ≡ some (pos 7)
unfolding time_horizon
seven_last = refl

time_horizon-Until_example : Until silent (pos 5) (time_horizon two_deadlines)
unfolding holds_at
time_horizon-Until_example = time_horizon-Until silent two_deadlines (pos 5) refl

abbrev no_text : String → String → Bool
no_text p s = false

within_max-reached_min_example :
    ((within_max no_text (finite (pos 3)) (finite (pos 5)) ≡ true)
      ↔ AtMost no_text (finite (pos 3)) (finite (pos 5)))
    × ((reached_min no_text (finite (pos 3)) (finite (pos 5)) ≡ true)
        ↔ AtMost no_text (finite (pos 5)) (finite (pos 3)))
within_max-reached_min_example = within_max-reached_min no_text (finite (pos 3)) (finite (pos 5))

abbrev claim : String → Option ℤ → ClaimRow
claim m t = record { member = m; valid_until = t }

-- the second claim of `a` and the claim of `c`, whose lease is over, do not count
abbrev claims : List ClaimRow
claims =
    claim "b" none ∷ claim "a" (some (pos 50)) ∷ claim "c" (some (pos 40)) ∷ claim "a" none ∷ []

abbrev by_declaration : AllocationRule
by_declaration = record { order = declaration; failover_ms = some (pos 10) }

abbrev by_hash : AllocationRule
by_hash = record { order = member_hash; failover_ms = none }

abbrev one_text : ℤ → String
one_text t = "40"

b_leads :
    designate one_text (pos 40) by_declaration claims
    ≡ some (record { order = "b" ∷ "a" ∷ []; slots = ("b", pos 40) ∷ ("a", pos 50) ∷ [] })
unfolding designate ◌+ℤ◌ ◌*ℤ◌
b_leads = refl

designate-Designated_example :
    Designated (pos 40) by_hash claims (designate one_text (pos 40) by_hash claims)
designate-Designated_example = designate-Designated one_text (pos 40) by_hash claims

hash_of_a : fnv1a "a" ≡ 3826002220
unfolding fnv1a_from
hash_of_a = refl

abbrev owed : CommitmentCandidate
owed = record {
  key = "report";
  owed_at = pos 10;
  next_occurrence = pos 30;
  within_ms = some (pos 5);
}

-- at 12, with a slot at 20 and claims that lapse at 18
abbrev seen_at_twelve : ElectObservations
seen_at_twelve = record {
  now = pos 12;
  eligible = true;
  budget_admits = true;
  designated_at = some (pos 20);
  observation_horizon = some (pos 18);
  already_claimed = false;
}

wait_until_eighteen :
    elect_commitment no_text owed seen_at_twelve
    ≡ some
        (record { action = wait; epoch = pos 18; deadline = none; reason = awaiting_designation })
unfolding elect_commitment ◌+ℤ◌
wait_until_eighteen = refl

act_at_twenty :
    elect_commitment no_text owed (record {
      now = pos 20;
      eligible = true;
      budget_admits = true;
      designated_at = some (pos 20);
      observation_horizon = none;
      already_claimed = false;
    })
    ≡ some (record {
      action = act;
      epoch = pos 30;
      deadline = some (pos 25);
      reason = owed_eligible_budget_admits;
    })
unfolding elect_commitment ◌+ℤ◌
act_at_twenty = refl

elect_commitment-is_act_example :
    is_act (elect_commitment no_text owed seen_at_twelve) ≡ may_act owed seen_at_twelve
elect_commitment-is_act_example = elect_commitment-is_act no_text owed seen_at_twelve

elect_commitment-wakes_example :
    wakes seen_at_twelve (elect_commitment no_text owed seen_at_twelve) ≡ true
elect_commitment-wakes_example = elect_commitment-wakes no_text owed seen_at_twelve
