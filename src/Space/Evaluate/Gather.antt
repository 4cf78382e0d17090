-- ===== src/Space/Evaluate/Gather.antt =====
-- src-v2/evaluate.ts: what `collectAtTerms` collects for a gatherer.
use sequence.Prelude.{
  String, Bool, true, false, ◌||◌, ◌≡◌, refl, ◌∙◌, ap, subst, List, [], ◌∷◌, ◌++◌, map,
  if◌then◌else◌, has, assign, All, All-append, ◌==◌, eq_iff, eq_refl,
}
use sequence.Prelude.Bools.{or_left, or_right, none_of, or_swap}
use sequence.Lang.{
  Value, undefined, nil_value, bool, num, str, ref, arr, obj, func, type_of, constraint_of, Values,
  nil, cons, Constraint, con,
}
use sequence.Space.Case.Search.{differs}
use sequence.Space.Case.Search.Pushes.{Distinct}
use sequence.Space.Evaluate.{Platform}
use sequence.Space.Evaluate.Arguments.{
  is_at_term, at_term_key, walk_terms, walk_args, collect_at_terms,
}

-- the reads of evidence in a constraint and in those inside it
unfoldable mutual
  pub at_terms : Constraint → List Value
  at_terms (con op args) = at_terms_in args

  pub at_terms_in : Values → List Value
  at_terms_in nil = []
  at_terms_in (cons (ref i (constraint_of c)) vs) = at_terms c ++ at_terms_in vs
  at_terms_in (cons v vs) = if is_at_term v then v ∷ at_terms_in vs else at_terms_in vs

abbrev names : List (String × Value) → List String
names seen = map (λ e. e.0) seen

has-assign :
    (j k : String) (v : Value) (seen : List (String × Value))
    → has k (names (assign j v seen)) ≡ (j == k || has k (names seen))
has-assign j k v [] = refl
has-assign j k v ((i, u) ∷ seen) = by_test (i == j) refl (has-assign j k v seen)
  where
    twice : (a b : Bool) → (a || b) ≡ (a || (a || b))
    twice true b = refl
    twice false b = refl

    by_test :
        (b : Bool)
        → (i == j) ≡ b
        → has k (names (assign j v seen)) ≡ (j == k || has k (names seen))
        → has k (names (if b then (i, v) ∷ seen else (i, u) ∷ assign j v seen))
          ≡ (j == k || (i == k || has k (names seen)))
    by_test true e h =
        subst (λ j. (i == k || has k (names seen)) ≡ (j == k || (i == k || has k (names seen))))
          ((eq_iff i j).0 e) (twice (i == k) (has k (names seen)))
    by_test false e h = ap (λ b. i == k || b) h ∙ or_swap (i == k) (j == k) (has k (names seen))

module _ (js : Platform) where
  abbrev Keyed : List (String × Value) → Type 0
  Keyed seen = All (λ e. e.0 ≡ at_term_key js e.1) seen

  Keyed-assign :
      (v : Value) (seen : List (String × Value))
      → Keyed seen
      → Keyed (assign (at_term_key js v) v seen)
  Keyed-assign v [] h = (refl, tt)
  Keyed-assign v ((i, u) ∷ seen) (h, hs) =
      by_test (i == at_term_key js v) refl (Keyed-assign v seen hs)
    where
      by_test :
          (b : Bool)
          → (i == at_term_key js v) ≡ b
          → Keyed (assign (at_term_key js v) v seen)
          → Keyed (if b then (i, v) ∷ seen else (i, u) ∷ assign (at_term_key js v) v seen)
      by_test true e k = ((eq_iff i (at_term_key js v)).0 e, hs)
      by_test false e k = (h, k)

  Distinct-assign :
      (j : String) (v : Value) (seen : List (String × Value))
      → Distinct (names seen)
      → Distinct (names (assign j v seen))
  Distinct-assign j v [] h = (refl, tt)
  Distinct-assign j v ((i, u) ∷ seen) (h, hs) = by_test (i == j) refl (Distinct-assign j v seen hs)
    where
      by_test :
          (b : Bool)
          → (i == j) ≡ b
          → Distinct (names (assign j v seen))
          → Distinct (names (if b then (i, v) ∷ seen else (i, u) ∷ assign j v seen))
      by_test true e k = (h, hs)
      by_test false e k =
          (has-assign j i v seen ∙ none_of (j == i) (has i (names seen)) (differs i j e) h, k)

  -- what a walk adds to what it has seen
  record Walked (ts : List Value) (seen out : List (String × Value)) : Type 0 where
    pub grows : (k : String) → has k (names seen) ≡ true → has k (names out) ≡ true
    pub found : All (λ t. has (at_term_key js t) (names out) ≡ true) ts
    pub keyed : Keyed seen → Keyed out
    pub distinct : Distinct (names seen) → Distinct (names out)

  All-grows :
      (out later : List (String × Value))
      → ((k : String) → has k (names out) ≡ true → has k (names later) ≡ true)
      → (ts : List Value) → All (λ t. has (at_term_key js t) (names out) ≡ true) ts
      → All (λ t. has (at_term_key js t) (names later) ≡ true) ts
  All-grows out later g [] h = tt
  All-grows out later g (t ∷ ts) (h, hs) = (g (at_term_key js t) h, All-grows out later g ts hs)

  Walked-append :
      (ts us : List Value) (seen out later : List (String × Value))
      → Walked ts seen out
      → Walked us out later
      → Walked (ts ++ us) seen later
  Walked-append ts us seen out later w x = record {
    grows = λ k h. x.grows k (w.grows k h);
    found =
        All-append (λ t. has (at_term_key js t) (names later) ≡ true) ts us
          (All-grows out later x.grows ts w.found) x.found;
    keyed = λ h. x.keyed (w.keyed h);
    distinct = λ h. x.distinct (w.distinct h);
  }

  assign-Walked :
      (v : Value) (seen : List (String × Value))
      → Walked (v ∷ []) seen (assign (at_term_key js v) v seen)
  assign-Walked v seen = record {
    grows = λ k h.
        has-assign (at_term_key js v) k v seen
        ∙ or_right (at_term_key js v == k) (has k (names seen)) h;
    found = (
      has-assign (at_term_key js v) (at_term_key js v) v seen
          ∙ or_left (at_term_key js v == at_term_key js v) (has (at_term_key js v) (names seen))
              (eq_refl (at_term_key js v)),
      tt,
    );
    keyed = λ h. Keyed-assign v seen h;
    distinct = λ h. Distinct-assign (at_term_key js v) v seen h;
  }

  mutual
    unfolding walk_terms walk_args at_terms at_terms_in

    walk_terms-Walked :
        (c : Constraint) (seen : List (String × Value))
        → Walked (at_terms c) seen (walk_terms js c seen)
    walk_terms-Walked (con op args) seen = walk_args-Walked args seen

    walk_args-Walked :
        (vs : Values) (seen : List (String × Value))
        → Walked (at_terms_in vs) seen (walk_args js vs seen)
    walk_args-Walked nil seen = record {
      grows = λ k h. h;
      found = tt;
      keyed = λ h. h;
      distinct = λ h. h;
    }
    walk_args-Walked (cons (ref i (constraint_of c)) vs) seen =
        Walked-append (at_terms c) (at_terms_in vs) seen (walk_terms js c seen)
          (walk_args js vs (walk_terms js c seen)) (walk_terms-Walked c seen)
          (walk_args-Walked vs (walk_terms js c seen))
    walk_args-Walked (cons (ref i (obj fs)) vs) seen =
        by_test (is_at_term (ref i (obj fs))) (walk_args-Walked vs seen)
          (walk_args-Walked vs (assign (at_term_key js (ref i (obj fs))) (ref i (obj fs)) seen))
      where
        v : Value
        v = ref i (obj fs)

        by_test :
            (b : Bool)
            → Walked (at_terms_in vs) seen (walk_args js vs seen)
            → Walked
                (at_terms_in vs)
                (assign (at_term_key js v) v seen)
                (walk_args js vs (assign (at_term_key js v) v seen))
            → Walked (if b then v ∷ at_terms_in vs else at_terms_in vs) seen (
                if b
                then walk_args js vs (assign (at_term_key js v) v seen)
                else walk_args js vs seen)
        by_test true h k =
            Walked-append (v ∷ []) (at_terms_in vs) seen (assign (at_term_key js v) v seen)
              (walk_args js vs (assign (at_term_key js v) v seen)) (assign-Walked v seen) k
        by_test false h k = h
    walk_args-Walked (cons (ref i (arr xs)) vs) seen = walk_args-Walked vs seen
    walk_args-Walked (cons (ref i func) vs) seen = walk_args-Walked vs seen
    walk_args-Walked (cons (ref i (type_of t)) vs) seen = walk_args-Walked vs seen
    walk_args-Walked (cons undefined vs) seen = walk_args-Walked vs seen
    walk_args-Walked (cons nil_value vs) seen = walk_args-Walked vs seen
    walk_args-Walked (cons (bool b) vs) seen = walk_args-Walked vs seen
    walk_args-Walked (cons (num n) vs) seen = walk_args-Walked vs seen
    walk_args-Walked (cons (str s) vs) seen = walk_args-Walked vs seen

  keys_collected :
      (seen : List (String × Value))
      → Keyed seen
      → names seen ≡ map (at_term_key js) (map (λ e. e.1) seen)
  keys_collected [] h = refl
  keys_collected (e ∷ seen) (h, hs) =
      ap (λ k. k ∷ names seen) h ∙ ap (λ ks. at_term_key js e.1 ∷ ks) (keys_collected seen hs)

  -- Each read of evidence in a constraint, or in a constraint inside it, has its key among those that are
  -- collected, and no two that are collected have the same key.
  pub collect_at_terms-Distinct :
      (c : Constraint)
      → All
          (λ t. has (at_term_key js t) (map (at_term_key js) (collect_at_terms js c)) ≡ true)
          (at_terms c)
        × Distinct (map (at_term_key js) (collect_at_terms js c))
  unfolding collect_at_terms
  collect_at_terms-Distinct c =
      let w = walk_terms-Walked c [] in
      let keys = keys_collected (walk_terms js c []) (w.keyed tt) in
      (
        subst (λ ks. All (λ t. has (at_term_key js t) ks ≡ true) (at_terms c)) keys w.found,
        subst Distinct keys (w.distinct tt),
      )
