-- ===== src/Compose/Expr/Complete.antt =====
-- src/compose.ts, `evaluateExpr`: what an expression needs to have a value.
use sequence.Prelude.{
  ℕ, suc, ◌≤◌, String, Bool, true, false, ◌&&◌, ◌≡◌, refl, sym, subst, List, [], ◌∷◌, ◌++◌, Option,
  none, some, arith, every, keep, length, is_some, if◌then◌else◌,
}
use sequence.Lang.Int.{ℤ, pos, ◌+ℤ◌, ◌-ℤ◌, ◌*ℤ◌, leb_ℤ, leb_ℤ-band}
use sequence.Compose.Expr.{
  Expr, Exprs, lit, path, add, mul, call, pm, no_terms, one_term, Bindings, ExprFunctions,
  ExprResult, eval_expr, eval_sum, eval_product, margin_of, evaluate_expr, refs_of, refs_in,
  counted, expr_concreteness,
}

-- every function that an expression calls is known
unfoldable mutual
  pub functions_known : ExprFunctions → Expr → Bool
  functions_known fns (lit n) = true
  functions_known fns (path p) = true
  functions_known fns (add terms) = all_known fns terms
  functions_known fns (mul factors) = all_known fns factors
  functions_known fns (call name arg) = is_some (fns name) && functions_known fns arg
  functions_known fns (pm center margin) = functions_known fns center && functions_known fns margin

  all_known : ExprFunctions → Exprs → Bool
  all_known fns no_terms = true
  all_known fns (one_term e es) = functions_known fns e && all_known fns es

every-append :
    (f : String → Bool) (xs ys : List String)
    → every f (xs ++ ys) ≡ true
    → (every f xs ≡ true) × (every f ys ≡ true)
every-append f [] ys h = (refl, h)
every-append f (x ∷ xs) ys h =
    let rest = every-append f xs ys (ground arith) in (ground arith, rest.1)

length-keep : (f : String → Bool) (xs : List String) → length (keep f xs) ≤ length xs
length-keep f [] = omega arith
length-keep f (x ∷ xs) = by_test (f x) (length-keep f xs)
  where
    by_test :
        (b : Bool)
        → length (keep f xs) ≤ length xs
        → length (if b then x ∷ keep f xs else keep f xs) ≤ suc (length xs)
    by_test true h = omega arith
    by_test false h = omega arith

every-keep :
    (f : String → Bool) (xs : List String) → length (keep f xs) ≡ length xs → every f xs ≡ true
every-keep f [] h = refl
every-keep f (x ∷ xs) h = by_test (f x) (length-keep f xs) (every-keep f xs) h
  where
    by_test :
        (b : Bool)
        → length (keep f xs) ≤ length xs
        → (length (keep f xs) ≡ length xs → every f xs ≡ true)
        → length (if b then x ∷ keep f xs else keep f xs) ≡ suc (length xs)
        → (b && every f xs) ≡ true
    by_test true l k e = k (omega arith)
    by_test false l k e = absurd (omega arith)

module _ (bindings : Bindings) (fns : ExprFunctions) where
  abbrev bound : String → Bool
  bound p = is_some (bindings p)

  -- an expression and a sum from anywhere have a value
  abbrev Evaluates : Option ℤ → Type 0
  Evaluates o = is_some o ≡ true

  mutual
    unfolding eval_expr eval_sum eval_product refs_of refs_in functions_known all_known

    expr_Evaluates :
        (e : Expr)
        → every bound (refs_of e) ≡ true
        → functions_known fns e ≡ true
        → Evaluates (eval_expr bindings fns e)
    expr_Evaluates (lit n) h k = refl
    expr_Evaluates (path p) h k = ground arith
    expr_Evaluates (add terms) h k = sum_Evaluates (pos 0) terms h k
    expr_Evaluates (mul factors) h k = product_Evaluates (pos 1) factors h k
    expr_Evaluates (call name arg) h k =
        by_function (fns name) (eval_expr bindings fns arg) (ground arith)
          (expr_Evaluates arg h (ground arith))
      where
        by_function :
            (o : Option (ℤ → ℤ)) (v : Option ℤ)
            → is_some o ≡ true
            → is_some v ≡ true
            → Evaluates
                (elim o [ none ↦ none | some f ↦ elim v [ none ↦ none | some v ↦ some (f v) ] ])
        by_function none v a b = absurd (ground arith)
        by_function (some f) none a b = absurd (ground arith)
        by_function (some f) (some v) a b = refl
    expr_Evaluates (pm center margin) h k =
        expr_Evaluates center (every-append bound (refs_of center) (refs_of margin) h).0
          (ground arith)

    sum_Evaluates :
        (sum : ℤ) (es : Exprs)
        → every bound (refs_in es) ≡ true
        → all_known fns es ≡ true
        → Evaluates (eval_sum bindings fns sum es)
    sum_Evaluates sum no_terms h k = refl
    sum_Evaluates sum (one_term e es) h k =
        let both = every-append bound (refs_of e) (refs_in es) h in
        by_term (eval_expr bindings fns e) (expr_Evaluates e both.0 (ground arith))
          (λ s. sum_Evaluates s es both.1 (ground arith))
      where
        by_term :
            (o : Option ℤ)
            → is_some o ≡ true
            → ((s : ℤ) → Evaluates (eval_sum bindings fns s es))
            → Evaluates (elim o [ none ↦ none | some v ↦ eval_sum bindings fns (sum +ℤ v) es ])
        by_term none a b = absurd (ground arith)
        by_term (some v) a b = b (sum +ℤ v)

    product_Evaluates :
        (product : ℤ) (es : Exprs)
        → every bound (refs_in es) ≡ true
        → all_known fns es ≡ true
        → Evaluates (eval_product bindings fns product es)
    product_Evaluates product no_terms h k = refl
    product_Evaluates product (one_term e es) h k =
        let both = every-append bound (refs_of e) (refs_in es) h in
        by_term (eval_expr bindings fns e) (expr_Evaluates e both.0 (ground arith))
          (λ s. product_Evaluates s es both.1 (ground arith))
      where
        by_term :
            (o : Option ℤ)
            → is_some o ≡ true
            → ((s : ℤ) → Evaluates (eval_product bindings fns s es))
            → Evaluates
                (elim o [ none ↦ none | some v ↦ eval_product bindings fns (product *ℤ v) es ])
        by_term none a b = absurd (ground arith)
        by_term (some v) a b = b (product *ℤ v)

concreteness-every :
    (f : String → Bool) (e : Expr)
    → (expr_concreteness f e).0 ≡ (expr_concreteness f e).1
    → every f (refs_of e) ≡ true
unfolding expr_concreteness
concreteness-every f e = by_refs (refs_of e)
  where
    by_refs : (rs : List String) → (counted f rs).0 ≡ (counted f rs).1 → every f rs ≡ true
    by_refs [] h = refl
    by_refs (s ∷ ss) h = every-keep f (s ∷ ss) h

-- An expression whose concreteness against the bindings is one, and whose functions are all known, has a
-- value.
pub evaluate_expr_complete :
    (bindings : Bindings) (fns : ExprFunctions) (e : Expr)
    → (expr_concreteness (λ p. is_some (bindings p)) e).0
      ≡ (expr_concreteness (λ p. is_some (bindings p)) e).1
    → functions_known fns e ≡ true
    → is_some (evaluate_expr bindings fns e) ≡ true
unfolding evaluate_expr
evaluate_expr_complete bindings fns e h k =
    by_value (eval_expr bindings fns e) (margin_of bindings fns e)
      (expr_Evaluates bindings fns e (concreteness-every (λ p. is_some (bindings p)) e h) k)
  where
    by_value :
        (o m : Option ℤ)
        → is_some o ≡ true
        → is_some {A = ExprResult} (elim o [
          | none ↦ none
          | some v ↦ elim m [
            | none ↦ some (record { value = v; lo = none; hi = none })
            | some m ↦ some (record { value = v; lo = some (v -ℤ m); hi = some (v +ℤ m) })
          ]
        ])
          ≡ true
    by_value none m h = absurd (ground arith)
    by_value (some v) none h = refl
    by_value (some v) (some m) h = refl

-- a value between its bounds
abbrev pub is_in_band : Option ExprResult → Bool
is_in_band none = false
is_in_band (some r) =
    elim r.lo [ none ↦ false | some l ↦ leb_ℤ l r.value ]
    && elim r.hi [ none ↦ false | some h ↦ leb_ℤ r.value h ]

-- An expression that has a value, and at the top a margin whose value is not negative, evaluates to a result
-- with both bounds, with the value between them.
pub evaluate_expr_in_band :
    (bindings : Bindings) (fns : ExprFunctions) (e : Expr) (n : ℕ)
    → is_some (eval_expr bindings fns e) ≡ true
    → margin_of bindings fns e ≡ some (pos n)
    → is_in_band (evaluate_expr bindings fns e) ≡ true
unfolding evaluate_expr
evaluate_expr_in_band bindings fns e n h k =
    by_value (eval_expr bindings fns e) (margin_of bindings fns e) h k
  where
    by_value :
        (o m : Option ℤ)
        → is_some o ≡ true
        → m ≡ some (pos n)
        → is_in_band (elim o [
          | none ↦ none
          | some v ↦ elim m [
            | none ↦ some (record { value = v; lo = none; hi = none })
            | some m ↦ some (record { value = v; lo = some (v -ℤ m); hi = some (v +ℤ m) })
          ]
        ])
          ≡ true
    by_value none m h k = absurd (ground arith)
    by_value (some v) none h k = absurd (ground arith)
    by_value (some v) (some m) h k =
        subst
          (λ o.
            is_in_band (elim o [
              | none ↦ none
              | some m ↦ some (record { value = v; lo = some (v -ℤ m); hi = some (v +ℤ m) })
            ])
            ≡ true)
          (sym k) (let bounds = leb_ℤ-band v n in ground arith)
