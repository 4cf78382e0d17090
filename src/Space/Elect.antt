-- ===== src/Space/Elect.antt =====
-- src-v2/elect.ts: whether an actor acts on an owed occurrence or waits, and when it decides next. Times are
-- integers, so that the tests for an infinite time are left out; `none` is a throw.
use sequence.Prelude.{
  String, Bool, true, false, not, ◌&&◌, ◌||◌, ◌≡◌, refl, ◌∙◌, ap, ◌==◌, if◌then◌else◌, Option, none,
  some, arith, [], ◌∷◌, is_some,
}
use sequence.Lang.{number, num, nil, cons, con, end, from_list, ty}
use sequence.Lang.Int.{ℤ, pos, ltb_ℤ, leb_ℤ, ◌+ℤ◌}
use sequence.Compose.Check.{check}

pub record CommitmentCandidate : Type 0 where
  pub key : String
  pub owed_at : ℤ
  pub next_occurrence : ℤ
  -- `terms.withinMs`
  pub within_ms : Option ℤ

pub record ElectObservations : Type 0 where
  pub now : ℤ
  pub eligible : Bool
  pub budget_admits : Bool
  pub designated_at : Option ℤ
  pub observation_horizon : Option ℤ
  pub already_claimed : Bool

pub data ElectReason : Type 0 where
  owed_eligible_budget_admits : ElectReason
  not_due : ElectReason
  claimed_already : ElectReason
  ineligible : ElectReason
  budget_blocked : ElectReason
  awaiting_designation : ElectReason

pub data Action : Type 0 where
  act : Action
  wait : Action

pub record Election : Type 0 where
  pub action : Action
  pub epoch : ℤ
  pub deadline : Option ℤ
  pub reason : ElectReason

-- a key, an occurrence before the next one, and terms of some length
abbrev pub is_well_formed : CommitmentCandidate → Bool
is_well_formed c =
    not (c.key == "")
    && ltb_ℤ c.owed_at c.next_occurrence
    && elim c.within_ms [ none ↦ true | some w ↦ ltb_ℤ (pos 0) w ]

-- `bound`, with the observation horizon where it lies ahead of now
abbrev pub bound : ℤ → Option ℤ → ℤ → ℤ
bound now none t = t
bound now (some h) t = if ltb_ℤ now h && ltb_ℤ h t then h else t

abbrev pub bounded_by : ElectObservations → ℤ → ℤ
bounded_by o t = bound o.now o.observation_horizon t

abbrev waiting : ElectObservations → ℤ → ElectReason → Option Election
waiting o t reason =
    some (record { action = wait; epoch = bounded_by o t; deadline = none; reason = reason })

-- `waitToNext`
abbrev pub wait_to_next : CommitmentCandidate → ElectObservations → ElectReason → Option Election
wait_to_next c o reason =
    if leb_ℤ c.next_occurrence o.now then none else waiting o c.next_occurrence reason

abbrev acting : CommitmentCandidate → ElectObservations → Election
unfolding ◌+ℤ◌
acting c o = record {
  action = act;
  epoch = bounded_by o c.next_occurrence;
  deadline = elim c.within_ms [ none ↦ none | some w ↦ some (o.now +ℤ w) ];
  reason = owed_eligible_budget_admits;
}

-- the turn of the actor, where one is still to come
abbrev pub turn_after : ℤ → Option ℤ → Option ℤ
turn_after now none = none
turn_after now (some t) = if ltb_ℤ now t then some t else none

abbrev pub later_turn : ElectObservations → Option ℤ
later_turn o = turn_after o.now o.designated_at

-- no later than a horizon that lies ahead of now
abbrev pub is_within : ℤ → Option ℤ → ℤ → Bool
is_within now none t = true
is_within now (some h) t = not (ltb_ℤ now h) || leb_ℤ t h

-- the reasons to act
abbrev pub may_act : CommitmentCandidate → ElectObservations → Bool
may_act c o =
    is_well_formed c
    && leb_ℤ c.owed_at o.now
    && not o.already_claimed
    && o.eligible
    && o.budget_admits
    && not (is_some (later_turn o))

abbrev pub is_act : Option Election → Bool
is_act none = false
is_act (some e) = elim e.action [ act ↦ true | wait ↦ false ]

wait_to_next-is_act :
    (c : CommitmentCandidate) (o : ElectObservations) (r : ElectReason)
    → is_act (wait_to_next c o r) ≡ false
wait_to_next-is_act c o r = by_test (leb_ℤ c.next_occurrence o.now)
  where
    by_test : (b : Bool) → is_act (if b then none else waiting o c.next_occurrence r) ≡ false
    by_test true = refl
    by_test false = refl

-- a wait that wakes in the future, and no later than an observation horizon that lies ahead
abbrev pub wakes : ElectObservations → Option Election → Bool
wakes o none = true
wakes o (some e) = elim e.action [
  | act ↦ true
  | wait ↦ ltb_ℤ o.now e.epoch && is_within o.now o.observation_horizon e.epoch
]

bound-is_within :
    (now : ℤ) (x : Option ℤ) (t : ℤ)
    → ltb_ℤ now t ≡ true
    → (ltb_ℤ now (bound now x t) && is_within now x (bound now x t)) ≡ true
bound-is_within now none t h = ground arith
bound-is_within now (some x) t h = ground arith

waiting-wakes :
    (o : ElectObservations) (t : ℤ) (r : ElectReason)
    → ltb_ℤ o.now t ≡ true
    → wakes o (waiting o t r) ≡ true
waiting-wakes o t r h = bound-is_within o.now o.observation_horizon t h

wait_to_next-wakes :
    (c : CommitmentCandidate) (o : ElectObservations) (r : ElectReason)
    → wakes o (wait_to_next c o r) ≡ true
wait_to_next-wakes c o r = by_test (leb_ℤ c.next_occurrence o.now) refl
  where
    by_test :
        (b : Bool)
        → leb_ℤ c.next_occurrence o.now ≡ b
        → wakes o (if b then none else waiting o c.next_occurrence r) ≡ true
    by_test true h = refl
    by_test false h = waiting-wakes o c.next_occurrence r (ground arith)

module _ (matches : String → String → Bool) where
  unfoldable pub is_due : CommitmentCandidate → ElectObservations → Bool
  unfolding check
  is_due c o =
      check matches (ty number (from_list (con "max" (cons (num o.now) nil) ∷ [])) end)
        (num c.owed_at)

  unfoldable pub elect_commitment : CommitmentCandidate → ElectObservations → Option Election
  unfolding is_due ◌+ℤ◌
  elect_commitment c o =
      if not (is_well_formed c)
      then none
      else if not (is_due c o)
      then waiting o c.owed_at not_due
      else if o.already_claimed
      then wait_to_next c o claimed_already
      else if not o.eligible
      then wait_to_next c o ineligible
      else if not o.budget_admits
      then wait_to_next c o budget_blocked
      else elim (later_turn o) [
        | some t ↦ waiting o t awaiting_designation
        | none ↦ some (acting c o)
      ]

  is_due_lem :
      (c : CommitmentCandidate) (o : ElectObservations) → is_due c o ≡ leb_ℤ c.owed_at o.now
  unfolding is_due check
  is_due_lem c o = ground arith

  -- An election acts exactly where the candidate is well formed, its occurrence is due and not claimed, the
  -- actor is eligible, the budget admits it, and the actor's turn is not still to come.
  pub elect_commitment-is_act :
      (c : CommitmentCandidate) (o : ElectObservations)
      → is_act (elect_commitment c o) ≡ may_act c o
  unfolding elect_commitment
  elect_commitment-is_act c o =
      by_tests (is_well_formed c) (is_due c o) (leb_ℤ c.owed_at o.now) o.already_claimed o.eligible
        o.budget_admits (later_turn o) (is_due_lem c o)
    where
      by_tests :
          (w d l a e b : Bool) (t : Option ℤ)
          → d ≡ l
          → is_act (
              if not w
              then none
              else if not d
              then waiting o c.owed_at not_due
              else if a
              then wait_to_next c o claimed_already
              else if not e
              then wait_to_next c o ineligible
              else if not b
              then wait_to_next c o budget_blocked
              else elim t [ some t ↦ waiting o t awaiting_designation | none ↦ some (acting c o) ])
            ≡ (w && l && not a && e && b && not (is_some t))
      by_tests false d l a e b t h = refl
      by_tests true false l a e b t h = ap (λ l. l && not a && e && b && not (is_some t)) h
      by_tests true true l true e b t h = wait_to_next-is_act c o claimed_already ∙ (ground arith)
      by_tests true true l false false b t h = wait_to_next-is_act c o ineligible ∙ (ground arith)
      by_tests true true l false true false t h =
          wait_to_next-is_act c o budget_blocked ∙ (ground arith)
      by_tests true true l false true true none h = ground arith
      by_tests true true l false true true (some t) h = ground arith

  -- An election that waits wakes after now, and no later than an observation horizon that lies ahead.
  pub elect_commitment-wakes :
      (c : CommitmentCandidate) (o : ElectObservations) → wakes o (elect_commitment c o) ≡ true
  unfolding elect_commitment
  elect_commitment-wakes c o =
      by_tests (is_well_formed c) (is_due c o) o.already_claimed o.eligible o.budget_admits
        (is_due_lem c o)
    where
      after_turn : Option ℤ → Option Election
      after_turn x = elim x [ some t ↦ waiting o t awaiting_designation | none ↦ some (acting c o) ]

      by_turn : (x : Option ℤ) → wakes o (after_turn (turn_after o.now x)) ≡ true
      by_turn none = refl
      by_turn (some t) = by_test (ltb_ℤ o.now t) refl
        where
          by_test :
              (b : Bool)
              → ltb_ℤ o.now t ≡ b
              → wakes o (after_turn (if b then some t else none)) ≡ true
          by_test true h = waiting-wakes o t awaiting_designation h
          by_test false h = refl

      by_tests :
          (w d a e b : Bool)
          → d ≡ leb_ℤ c.owed_at o.now
          → wakes o (
              if not w
              then none
              else if not d
              then waiting o c.owed_at not_due
              else if a
              then wait_to_next c o claimed_already
              else if not e
              then wait_to_next c o ineligible
              else if not b
              then wait_to_next c o budget_blocked
              else elim (later_turn o) [
                | some t ↦ waiting o t awaiting_designation
                | none ↦ some (acting c o)
              ])
            ≡ true
      by_tests false d a e b h = refl
      by_tests true false a e b h = waiting-wakes o c.owed_at not_due (ground arith)
      by_tests true true true e b h = wait_to_next-wakes c o claimed_already
      by_tests true true false false b h = wait_to_next-wakes c o ineligible
      by_tests true true false true false h = wait_to_next-wakes c o budget_blocked
      by_tests true true false true true h = by_turn o.designated_at
