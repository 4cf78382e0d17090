-- ===== src/Compose/Expr.antt =====
-- src/compose.ts: `evaluateExpr` and `exprConcreteness`, over the expressions of src/type.ts. A number is an
-- integer; the bindings and the named functions are functions that may have no answer, as a `Map` has
-- none for a missing key. The concreteness is left as the two numbers whose quotient it is.
pub mod Complete
use mathlib.Core.Option
use sequence.Prelude.{
  ℕ, zero, suc, String, Bool, true, false, Option, none, some, List, [], ◌∷◌, ◌++◌, keep, length,
}
use sequence.Lang.Int.{ℤ, pos, ◌+ℤ◌, ◌-ℤ◌, ◌*ℤ◌}

mutual
  pub data Expr : Type 0 where
    lit : ℤ → Expr
    path : String → Expr
    add : Exprs → Expr
    mul : Exprs → Expr
    call : String → Expr → Expr
    pm : Expr → Expr → Expr

  pub data Exprs : Type 0 where
    no_terms : Exprs
    one_term : Expr → Exprs → Exprs

abbrev pub Bindings : Type 0
Bindings = String → Option ℤ

abbrev pub ExprFunctions : Type 0
ExprFunctions = String → Option (ℤ → ℤ)

pub record ExprResult : Type 0 where
  pub value : ℤ
  pub lo : Option ℤ
  pub hi : Option ℤ

module _ (bindings : Bindings) (fns : ExprFunctions) where
  unfoldable mutual
    -- `eval_`
    unfolding ◌+ℤ◌ ◌*ℤ◌

    pub eval_expr : Expr → Option ℤ
    eval_expr (lit n) = some n
    eval_expr (path p) = bindings p
    eval_expr (add terms) = eval_sum (pos 0) terms
    eval_expr (mul factors) = eval_product (pos 1) factors
    eval_expr (call name arg) = elim (fns name) [
      | none ↦ none
      | some f ↦ elim (eval_expr arg) [ none ↦ none | some v ↦ some (f v) ]
    ]
    eval_expr (pm center margin) = eval_expr center

    pub eval_sum : ℤ → Exprs → Option ℤ
    eval_sum sum no_terms = some sum
    eval_sum sum (one_term e es) = elim (eval_expr e) [
      | none ↦ none
      | some v ↦ eval_sum (sum +ℤ v) es
    ]

    pub eval_product : ℤ → Exprs → Option ℤ
    eval_product product no_terms = some product
    eval_product product (one_term e es) = elim (eval_expr e) [
      | none ↦ none
      | some v ↦ eval_product (product *ℤ v) es
    ]

  -- the margin of a band at the top
  unfoldable pub margin_of : Expr → Option ℤ
  unfolding eval_expr
  margin_of (pm center margin) = eval_expr margin
  margin_of _ = none

  unfoldable pub evaluate_expr : Expr → Option ExprResult
  unfolding eval_expr margin_of ◌+ℤ◌ ◌-ℤ◌
  evaluate_expr e = elim (eval_expr e) [
    | none ↦ none
    | some v ↦ elim (margin_of e) [
      | none ↦ some (record { value = v; lo = none; hi = none })
      | some m ↦ some (record { value = v; lo = some (v -ℤ m); hi = some (v +ℤ m) })
    ]
  ]

unfoldable mutual
  -- `collectRefs`
  pub refs_of : Expr → List String
  refs_of (lit n) = []
  refs_of (path p) = p ∷ []
  refs_of (add terms) = refs_in terms
  refs_of (mul factors) = refs_in factors
  refs_of (call name arg) = refs_of arg
  refs_of (pm center margin) = refs_of center ++ refs_of margin

  pub refs_in : Exprs → List String
  refs_in no_terms = []
  refs_in (one_term e es) = refs_of e ++ refs_in es

-- the references that are there, and all references; one of one where there are none
abbrev pub counted : (String → Bool) → List String → ℕ × ℕ
counted available [] = (1, 1)
counted available (r ∷ rs) = (length (keep available (r ∷ rs)), length (r ∷ rs))

-- `exprConcreteness`
unfoldable pub expr_concreteness : (String → Bool) → Expr → ℕ × ℕ
unfolding refs_of
expr_concreteness available e = counted available (refs_of e)
