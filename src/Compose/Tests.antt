-- ===== src/Compose/Tests.antt =====
-- The theorems on src/compose.ts at concrete constraints, types and values.
use sequence.Prelude.{
  if◌then◌else◌, is_some, ◌&&◌, ◌≡◌, refl, [], ◌∷◌, some, none, every, ℕ, String, Bool, true, false,
  ◌==◌,
}
use sequence.Lang.{
  fn, number, object, string, or, Value, num, str, bool, ref, type_of, obj, nil, cons, end, field,
  con, none_left, one_more, Ty, ty,
}
use sequence.Lang.Int.{pos, ◌+ℤ◌}
use sequence.Compose.Meet.{Denotes}
use sequence.Compose.Bounds.{min, max, range, admits, compose_bounds, compose_bounds-Denotes}
use sequence.Compose.Check.{check}
use sequence.Compose.Contradiction.{Deadline}
use sequence.Compose.Lattice.{calls_at, select_first_branch, branch_of}
use sequence.Compose.Lower.{Plain, base, also, none_left_over, property, flat}
use sequence.Compose.Lower.Composed.{compose-Plain, compose-Lower}
use sequence.Compose.Backward.{held_type, backward_infer}
use sequence.Compose.Backward.Narrows.{backward_infer-Narrows}
use sequence.Compose.Expr.{
  Expr, lit, path, add, call, pm, no_terms, one_term, Bindings, ExprFunctions, eval_expr, margin_of,
  evaluate_expr, expr_concreteness,
}
use sequence.Compose.Expr.Complete.{
  functions_known, evaluate_expr_complete, is_in_band, evaluate_expr_in_band,
}
use sequence.Compose.Select.{Selected, alternatives, select_first_branch-Selected}

tightened :
    compose_bounds (min (pos 1) ∷ max (pos 9) ∷ []) (max (pos 7) ∷ range (pos 0) (pos 5) ∷ [])
    ≡ some (min (pos 1) ∷ max (pos 7) ∷ range (pos 0) (pos 5) ∷ [])
unfolding compose_bounds
tightened = refl

crossed_out : compose_bounds (min (pos 8) ∷ []) (max (pos 7) ∷ []) ≡ none
unfolding compose_bounds
crossed_out = refl

compose_bounds-Denotes_example :
    Denotes
      (admits (pos 5))
      (every (admits (pos 5)) (min (pos 1) ∷ max (pos 9) ∷ [])
        && every (admits (pos 5)) (max (pos 7) ∷ []))
      (compose_bounds (min (pos 1) ∷ max (pos 9) ∷ []) (max (pos 7) ∷ []))
compose_bounds-Denotes_example =
    compose_bounds-Denotes (pos 5) (min (pos 1) ∷ max (pos 9) ∷ []) (max (pos 7) ∷ [])

abbrev bounded_number : String → ℕ → Ty
bounded_number op n = ty number (one_more (con op (cons (num (pos n)) nil)) none_left) end

abbrev sized : Ty → Ty
sized t =
    ty object
      (one_more
        (con "property" (cons (str "size") (cons (ref 1 (type_of t)) (cons (bool false) nil))))
        none_left)
      end

abbrev at_least : Ty
at_least = sized (bounded_number "min" 2)

abbrev at_most : Ty
at_most = sized (bounded_number "max" 9)

abbrev five : Value
five = ref 2 (obj (field "size" (num (pos 5)) end))

abbrev no_deadline : Deadline
no_deadline family t params confidence = false

abbrev equal_texts : String → String → Bool
equal_texts p s = p == s

five_accepted : check equal_texts ((calls_at no_deadline 6).compose at_least at_most) five ≡ true
unfolding calls_at check
five_accepted = refl

one_refused :
    check equal_texts
      ((calls_at no_deadline 6).compose at_least at_most)
      (ref 2 (obj (field "size" (num (pos 1)) end)))
    ≡ false
unfolding calls_at check
one_refused = refl

at_least-Plain : Plain at_least
at_least-Plain =
    base refl (also (property (base refl (also (flat refl refl) none_left_over))) none_left_over)

at_most-Plain : Plain at_most
at_most-Plain =
    base refl (also (property (base refl (also (flat refl refl) none_left_over))) none_left_over)

compose-Lower_example :
    (check equal_texts at_least five ≡ true) × (check equal_texts at_most five ≡ true)
compose-Lower_example =
    compose-Lower no_deadline equal_texts 6 at_least at_most at_least-Plain at_most-Plain five
      five_accepted

abbrev two_shapes : Ty
two_shapes =
    ty or (one_more (branch_of (ty string none_left end)) (one_more (branch_of at_least) none_left))
      end

second_chosen :
    select_first_branch no_deadline (calls_at no_deadline 6) two_shapes at_most
    ≡ some (at_least, (calls_at no_deadline 6).compose at_least at_most, 1)
unfolding select_first_branch calls_at
second_chosen = refl

select_first_branch-Selected_example :
    Selected no_deadline
      (calls_at no_deadline 6)
      at_most
      0
      (alternatives no_deadline (calls_at no_deadline 6) at_most two_shapes)
      (select_first_branch no_deadline (calls_at no_deadline 6) two_shapes at_most)
select_first_branch-Selected_example =
    select_first_branch-Selected no_deadline (calls_at no_deadline 6) at_most two_shapes

compose-Plain_example : Plain ((calls_at no_deadline 6).compose at_least at_most)
compose-Plain_example = compose-Plain no_deadline 6 at_least at_most at_least-Plain at_most-Plain

-- a function that passes its input on
abbrev passing : Ty
passing =
    ty fn
      (one_more (con "param" (cons (ref 3 (type_of at_least)) nil))
        (one_more (con "preserves" (cons (str "*") (cons (str "*") nil))) none_left))
      end

one_too_small :
    check equal_texts
      (backward_infer no_deadline passing at_most)
      (ref 2 (obj (field "size" (num (pos 1)) end)))
    ≡ false
unfolding backward_infer check
one_too_small = refl

ten_too_large :
    check equal_texts
      (backward_infer no_deadline passing at_most)
      (ref 2 (obj (field "size" (num (pos 10)) end)))
    ≡ false
unfolding backward_infer check
ten_too_large = refl

five_inferred : check equal_texts (backward_infer no_deadline passing at_most) five ≡ true
unfolding backward_infer check
five_inferred = refl

backward_infer-Narrows_example : check equal_texts (held_type passing "param") five ≡ true
unfolding held_type
backward_infer-Narrows_example =
    backward_infer-Narrows no_deadline equal_texts passing at_most refl at_least-Plain at_most-Plain
      five five_inferred

-- double(n + 2) ± 1
abbrev around : Expr
around =
    pm (call "double" (add (one_term (path "n") (one_term (lit (pos 2)) no_terms)))) (lit (pos 1))

abbrev n_is_three : Bindings
n_is_three p = if p == "n" then some (pos 3) else none

abbrev doubling : ExprFunctions
doubling name = if name == "double" then some (λ n. n +ℤ n) else none

around_ten :
    evaluate_expr n_is_three doubling around
    ≡ some (record { value = pos 10; lo = some (pos 9); hi = some (pos 11) })
unfolding evaluate_expr ◌+ℤ◌
around_ten = refl

evaluate_expr_complete_example : is_some (evaluate_expr n_is_three doubling around) ≡ true
unfolding expr_concreteness functions_known
evaluate_expr_complete_example = evaluate_expr_complete n_is_three doubling around refl refl

evaluate_expr_in_band_example : is_in_band (evaluate_expr n_is_three doubling around) ≡ true
unfolding eval_expr margin_of
evaluate_expr_in_band_example = evaluate_expr_in_band n_is_three doubling around 1 refl refl
