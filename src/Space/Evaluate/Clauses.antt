-- ===== src/Space/Evaluate/Clauses.antt =====
-- src-v2/evaluate.ts: the clauses, with the order in which they are evaluated.
use sequence.Prelude.{
  String, Bool, true, false, not, ◌≡◌, refl, sym, Option, none, some, List, if◌then◌else◌,
}
use sequence.Prelude.Fallible.{◌>>=◌}
use sequence.Lang.{Value, constraint_of, Values, nil, cons, con}
use sequence.Compose.Pairs.{fresh}
use sequence.Space.Evaluate.{Platform}
use sequence.Space.Evaluate.Judge.{
  evaluate_constraint, clause, first_clause, some_clause, every_clause,
}

abbrev pub negation_of : Value → Value
negation_of v = fresh (constraint_of (con "not_clause" (cons v nil)))

abbrev pub negations : Values → Values
negations nil = nil
negations (cons v vs) = cons (negation_of v) (negations vs)

module _ (js : Platform) (state : Value) (bindings : List (String × Value)) where
  some_clause-negations :
      (vs : Values)
      → (some_clause js state bindings (negations vs)
          ≡ (every_clause js state bindings vs >>= λ b. some (not b)))
        × (every_clause js state bindings (negations vs)
            ≡ (some_clause js state bindings vs >>= λ b. some (not b)))
  unfolding evaluate_constraint clause first_clause some_clause every_clause
  some_clause-negations nil = (refl, refl)
  some_clause-negations (cons v vs) =
      let rest = some_clause-negations vs in
      (
        by_clause (clause js state bindings v) rest.0,
        every_by_clause (clause js state bindings v) rest.1,
      )
    where
      by_clause :
          (o : Option Bool)
          → some_clause js state bindings (negations vs)
            ≡ (every_clause js state bindings vs >>= λ b. some (not b))
          → ((o >>= λ b. some (not b)) >>= λ b.
              if b then some true else some_clause js state bindings (negations vs))
            ≡ ((o >>= λ b. if b then every_clause js state bindings vs else some false) >>= λ b.
                some (not b))
      by_clause none e = refl
      by_clause (some true) e = e
      by_clause (some false) e = refl

      every_by_clause :
          (o : Option Bool)
          → every_clause js state bindings (negations vs)
            ≡ (some_clause js state bindings vs >>= λ b. some (not b))
          → ((o >>= λ b. some (not b)) >>= λ b.
              if b then every_clause js state bindings (negations vs) else some false)
            ≡ ((o >>= λ b. if b then some true else some_clause js state bindings vs) >>= λ b.
                some (not b))
      every_by_clause none e = refl
      every_by_clause (some true) e = refl
      every_by_clause (some false) e = e

  -- The negation of a conjunction is the disjunction of the negations, and the negation of a disjunction the
  -- conjunction of the negations, where an argument throws as well, since both sides evaluate the same
  -- arguments.
  pub not_clause-negations :
      (vs : Values)
      → (evaluate_constraint js state bindings
            (con "not_clause" (cons (fresh (constraint_of (con "and_clause" vs))) nil))
          ≡ evaluate_constraint js state bindings (con "or_clause" (negations vs)))
        × (evaluate_constraint js state bindings
              (con "not_clause" (cons (fresh (constraint_of (con "or_clause" vs))) nil))
            ≡ evaluate_constraint js state bindings (con "and_clause" (negations vs)))
  unfolding evaluate_constraint clause first_clause
  not_clause-negations vs = (sym (some_clause-negations vs).0, sym (some_clause-negations vs).1)
