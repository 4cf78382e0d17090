-- ===== src/Space/Evaluate/Tests.antt =====
-- The theorems on src-v2/evaluate.ts at the state of a small account.
use sequence.Prelude.{
  String, Bool, true, false, ◌≡◌, refl, arith, has, map, All, List, [], ◌∷◌, Option, none, some,
}
use sequence.Lang.{
  Value, undefined, num, str, arr, obj, end, field, Values, nil, cons, Constraint, con,
  constraint_of,
}
use sequence.Lang.Int.{pos}
use sequence.Compose.Pairs.{fresh}
use sequence.Space.Evaluate.{Platform}
use sequence.Space.Evaluate.Arguments.{resolve_arg, collect_at_terms, at_term_key}
use sequence.Space.Evaluate.Judge.{evaluate_constraint}
use sequence.Space.Evaluate.Ordering.{evaluate_constraint-numbers}
use sequence.Space.Evaluate.Clauses.{negations, not_clause-negations}
use sequence.Space.Case.Search.Pushes.{Distinct}
use sequence.Space.Evaluate.Gather.{at_terms, collect_at_terms-Distinct}
use sequence.Space.Evaluate.Counts.{evaluate_constraint-counts}

abbrev plain : Platform
plain = record {
  matches = λ p s. false;
  show = λ v. "7";
  json = λ v. "j";
  text_before = λ s t. true;
}

-- { account: { balance: 7, holds: {} }, limit: 9 }
abbrev account : Value
account = fresh (
    obj (
      field "account"
        (fresh (obj (field "balance" (num (pos 7)) (field "holds" (fresh (obj end)) end))))
        (field "limit" (num (pos 9)) end)))

abbrev bindings : List (String × Value)
bindings = ("now", num (pos 8)) ∷ []

abbrev run : String → Value → Value → Option Bool
run op a b = evaluate_constraint plain account bindings (con op (cons a (cons b nil)))

-- { add: ["account.balance", 1] }
abbrev one_more_than_balance : Value
one_more_than_balance =
    fresh
      (obj (field "add" (fresh (arr (cons (str "account.balance") (cons (num (pos 1)) nil)))) end))

below_the_limit : run "lt" (str "account.balance") (str "limit") ≡ some true
unfolding evaluate_constraint
below_the_limit = refl

balance_and_one : run "eq" (str "$now") one_more_than_balance ≡ some true
unfolding evaluate_constraint
balance_and_one = refl

-- an object without a leaf is not there
no_holds : run "exists" (str "account.holds") undefined ≡ some false
unfolding evaluate_constraint
no_holds = refl

-- a missing path differs from everything
missing_differs : run "neq" (str "account.owner") (str "me") ≡ some true
unfolding evaluate_constraint
missing_differs = refl

glob_refused : run "eq" (str "account.*") (num (pos 1)) ≡ none
unfolding evaluate_constraint
glob_refused = refl

-- { at: "t" }
abbrev evidence : Value
evidence = fresh (obj (field "at" (str "t") end))

one_collected :
    collect_at_terms plain (con "eq" (cons evidence (cons evidence nil))) ≡ evidence ∷ []
unfolding collect_at_terms
one_collected = refl

evaluate_constraint-numbers_example :
    (run "eq" (str "account.balance") (str "limit") ≡ some false)
    × (run "neq" (str "account.balance") (str "limit") ≡ some true)
    × (run "gte" (str "account.balance") (str "limit") ≡ some false)
    × (run "lte" (str "account.balance") (str "limit") ≡ some true)
    × (run "gt" (str "account.balance") (str "limit") ≡ some false)
    × (run "lt" (str "account.balance") (str "limit") ≡ some true)
unfolding resolve_arg
evaluate_constraint-numbers_example =
    evaluate_constraint-numbers plain account bindings (str "account.balance") (str "limit")
      (num (pos 7)) (num (pos 9)) refl refl (λ h. absurd (ground arith))

abbrev two_clauses : Values
two_clauses =
    cons (fresh (constraint_of (con "exists" (cons (str "limit") nil))))
      (cons (fresh (constraint_of (con "forall" nil))) nil)

not_clause-negations_example :
    (evaluate_constraint plain account bindings
        (con "not_clause" (cons (fresh (constraint_of (con "and_clause" two_clauses))) nil))
      ≡ evaluate_constraint plain account bindings (con "or_clause" (negations two_clauses)))
    × (evaluate_constraint plain account bindings
          (con "not_clause" (cons (fresh (constraint_of (con "or_clause" two_clauses))) nil))
        ≡ evaluate_constraint plain account bindings (con "and_clause" (negations two_clauses)))
not_clause-negations_example = not_clause-negations plain account bindings two_clauses

evaluate_constraint-counts_example :
    (evaluate_constraint plain account bindings (con "exists" (cons (str "account") nil))
      ≡ evaluate_constraint plain account bindings
          (con "count_gte" (cons (str "account") (cons (num (pos 1)) nil))))
    × (evaluate_constraint plain account bindings (con "notExists" (cons (str "account") nil))
        ≡ evaluate_constraint plain account bindings
            (con "count_lt" (cons (str "account") (cons (num (pos 1)) nil))))
unfolding resolve_arg
evaluate_constraint-counts_example =
    evaluate_constraint-counts plain account bindings "account"
      (fresh (obj (field "balance" (num (pos 7)) (field "holds" (fresh (obj end)) end)))) refl refl
      refl refl

abbrev two_reads : Constraint
two_reads = con "and_clause" (
    cons (fresh (constraint_of (con "eq" (cons evidence (cons (num (pos 1)) nil)))))
      (cons evidence nil))

collect_at_terms-Distinct_example :
    All
      (λ t.
        has (at_term_key plain t) (map (at_term_key plain) (collect_at_terms plain two_reads))
        ≡ true)
      (at_terms two_reads)
    × Distinct (map (at_term_key plain) (collect_at_terms plain two_reads))
collect_at_terms-Distinct_example = collect_at_terms-Distinct plain two_reads
