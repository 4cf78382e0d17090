-- ===== src/Kernel/Evolution.antt =====
-- How a cell evolves: cells stay where they are, and a declared type is only ever narrowed.
use sequence.Prelude.{
  ℕ, String, false, ◌≡◌, refl, List, Option, none, some, arith, inl, inr, ◌⊎◌, ◌∙◌,
}
use sequence.Lang.{Ty, is_never}
use sequence.Kernel.Data.{
  Axis, structural, temporal, ref, Block, CellData, Store, InsertInput, InsertResult, Delta, Op,
  narrow, invalidate,
}
use sequence.Kernel.Tree.{find}
use sequence.Kernel.Tree.Laws.{find-ensure, find-update}
use sequence.Kernel.Host.{Lattice, Env}
use sequence.Kernel.Exec.{look, with_out, with_in}
use sequence.Kernel.Step.{compose_at_cell, apply_delta, compose_type, compose_value}
use sequence.Kernel.Insert.{insert}
use sequence.Kernel.Trace.{settled_state, rewritten}
use sequence.Kernel.Moves.{
  Move, Reach, here, next, take_number, read_time, grow, add_rule, lead_out, lead_in, log_block,
  compose_block, drop_blocks, list_rule, watch, flag_access, flag_expand, insert-Reach,
}

-- `Refines l t u`: `u` comes of `t` by compositions that did not fail.
pub data Refines (l : Lattice) (t : Ty) : Ty → Type 0 where
  kept : Refines l t t
  composed :
      {u v : Ty} (x : Ty) → Refines l t u → v ≡ l.compose u x → is_never v ≡ false → Refines l t v

Refines-trans : {l : Lattice} {t u v : Ty} → Refines l t u → Refines l u v → Refines l t v
Refines-trans r kept = r
Refines-trans r (composed x q e h) = composed x (Refines-trans r q) e h

-- A declared type stays declared, and is refined.
abbrev pub Narrows : Lattice → Option Ty → Option Ty → Type 0
Narrows l none b = Unit
Narrows l (some t) none = ⊥
Narrows l (some t) (some u) = Refines l t u

Narrows-refl : (l : Lattice) (a : Option Ty) → Narrows l a a
Narrows-refl l none = tt
Narrows-refl l (some t) = kept

Narrows-trans : (l : Lattice) (a b c : Option Ty) → Narrows l a b → Narrows l b c → Narrows l a c
Narrows-trans l none b c n m = tt
Narrows-trans l (some t) none c n m = absurd n
Narrows-trans l (some t) (some u) none n m = absurd m
Narrows-trans l (some t) (some u) (some v) n m = Refines-trans n m

Narrows-compose :
    (l : Lattice) (t x : Ty) (b : Option Ty)
    → (b ≡ some t) ⊎ ((b ≡ some (l.compose t x)) × (is_never (l.compose t x) ≡ false))
    → Narrows l (some t) b
Narrows-compose l t x b (inl e) = rw e kept
Narrows-compose l t x b (inr (e, h)) = rw e (composed x kept refl h)

-- One cell later: at the same place, under the same path, with a narrower type.
pub record Evolves (l : Lattice) (d e : CellData) : Type 0 where
  pub path : e.path ≡ d.path
  pub type : Narrows l d.type e.type

-- Every cell is still there, and has evolved.
pub record Extends (l : Lattice) (s t : Store) : Type 0 where
  pub at :
      (p : List String) (d : CellData)
      → find p s.root ≡ some d
      → (e : CellData) × (find p t.root ≡ some e) × Evolves l d e

module _ (l : Lattice) where
  compose_type-Narrows :
      (d : CellData) (b : Block) (t : Ty) (o : Option Ty)
      → d.type ≡ o
      → Narrows l o (apply_delta (compose_type l d b t).0 (compose_type l d b t).1 d).type
  unfolding compose_type apply_delta
  compose_type-Narrows d b t none e = tt
  compose_type-Narrows d b t (some prev) e = Narrows-compose l prev t _ (ground arith)

  compose_value-keeps :
      (d : CellData) (b : Block)
      → (apply_delta (compose_value l d b).0 (compose_value l d b).1 d).type ≡ d.type
  unfolding compose_value apply_delta
  compose_value-keeps d b = ground arith

  Narrows-compose_at_cell :
      (d : CellData) (b : Block) (o : Op) (m : Option Ty)
      → b.op ≡ o
      → b.type ≡ m
      → Narrows l d.type (apply_delta (compose_at_cell l d b).0 (compose_at_cell l d b).1 d).type
  unfolding compose_at_cell
  Narrows-compose_at_cell d b narrow (some t) p q =
      let same_result : compose_at_cell l d b ≡ compose_type l d b t = ground arith in
      rw same_result (compose_type-Narrows d b t d.type refl)
  Narrows-compose_at_cell d b narrow none p q =
      let same_type : (apply_delta (compose_at_cell l d b).0 (compose_at_cell l d b).1 d).type
          ≡ d.type =
        unfold apply_delta compose_value in ground arith in
      rw same_type (Narrows-refl l d.type)
  Narrows-compose_at_cell d b invalidate m p q =
      let same_type : (apply_delta (compose_at_cell l d b).0 (compose_at_cell l d b).1 d).type
          ≡ d.type =
        unfold apply_delta in ground arith in
      rw same_type (Narrows-refl l d.type)

path-apply_delta : (b : Block) (x : Delta) (d : CellData) → (apply_delta b x d).path ≡ d.path
unfolding apply_delta
path-apply_delta b x d = ground arith

Evolves-refl : (l : Lattice) (d : CellData) → Evolves l d d
Evolves-refl l d = record { path = refl; type = Narrows-refl l d.type }

Extends-refl : (l : Lattice) (s : Store) → Extends l s s
Extends-refl l s = record { at = λ p d e. (d, e, Evolves-refl l d) }

Extends-trans : {l : Lattice} {s t u : Store} → Extends l s t → Extends l t u → Extends l s u
Extends-trans {l} x y = record {
  at = λ p d e.
      let (d1, e1, h1) = x.at p d e in
      let (d2, e2, h2) = y.at p d1 e1 in
      (
        d2,
        e2,
        record {
          path = h2.path ∙ h1.path;
          type = Narrows-trans l d.type d1.type d2.type h1.type h2.type;
        },
      );
}

-- A write that lets the cell at its place evolve.
rewrite-Extends :
    (l : Lattice) (s : Store) (f : CellData → CellData) (p : List String)
    → ((d : CellData) → find p s.root ≡ some d → Evolves l d (f d))
    → Extends l s (rewritten s f p)
rewrite-Extends l s f p k = record {
  at = λ q d e. elim (find-update f s.root q p d e) [
    | inl same ↦ (d, same, Evolves-refl l d)
    | inr (there, at_p) ↦ (f d, there, k d at_p)
  ];
}

with_out-Evolves :
    (l : Lattice) (a : Axis) (q : String) (d : CellData) → Evolves l d (with_out a q d)
with_out-Evolves l ref q d = record { path = refl; type = Narrows-refl l d.type }
with_out-Evolves l temporal q d = record { path = refl; type = Narrows-refl l d.type }
with_out-Evolves l structural q d = Evolves-refl l d

with_in-Evolves : (l : Lattice) (a : Axis) (q : String) (d : CellData) → Evolves l d (with_in a q d)
with_in-Evolves l ref q d = record { path = refl; type = Narrows-refl l d.type }
with_in-Evolves l temporal q d = record { path = refl; type = Narrows-refl l d.type }
with_in-Evolves l structural q d = Evolves-refl l d

settle-Evolves :
    (l : Lattice) (s : Store) (b : Block) (p : List String) (d : CellData)
    → find p s.root ≡ some d
    → Evolves l d
        (apply_delta (compose_at_cell l (look p s) b).0 (compose_at_cell l (look p s) b).1 d)
unfolding look
settle-Evolves l s b p d e = rw e (record {
  path = path-apply_delta _ _ d;
  type = Narrows-compose_at_cell l d b b.op b.type refl refl;
})

Move-Extends : {l : Lattice} {s t : Store} → Move l s t → Extends l s t
unfolding settled_state
Move-Extends {l} (take_number s) = record { at = λ p d e. (d, e, Evolves-refl l d) }
Move-Extends {l} (read_time s) = record { at = λ p d e. (d, e, Evolves-refl l d) }
Move-Extends {l} (grow s q) = record {
  at = λ p d e. (d, find-ensure s.root p q d e, Evolves-refl l d);
}
Move-Extends {l} (add_rule s r p) =
    rewrite-Extends l s _ p (λ d e. record { path = refl; type = Narrows-refl l d.type })
Move-Extends {l} (lead_out s a q p) = rewrite-Extends l s _ p (λ d e. with_out-Evolves l a q d)
Move-Extends {l} (lead_in s a q p) = rewrite-Extends l s _ p (λ d e. with_in-Evolves l a q d)
Move-Extends {l} (log_block s b p h) =
    rewrite-Extends l s _ p (λ d e. record { path = refl; type = Narrows-refl l d.type })
Move-Extends {l} (compose_block s b p h) = rewrite-Extends l s _ p (settle-Evolves l s b p)
Move-Extends {l} (drop_blocks s bs p) =
    rewrite-Extends l s _ p (λ d e. record { path = refl; type = Narrows-refl l d.type })
Move-Extends {l} (list_rule s r) = record { at = λ p d e. (d, e, Evolves-refl l d) }
Move-Extends {l} (watch s prefix id) = record { at = λ p d e. (d, e, Evolves-refl l d) }
Move-Extends {l} (flag_access s b) = record { at = λ p d e. (d, e, Evolves-refl l d) }
Move-Extends {l} (flag_expand s f) = record { at = λ p d e. (d, e, Evolves-refl l d) }

Reach-Extends : {l : Lattice} {s t : Store} → Reach l s t → Extends l s t
Reach-Extends {l} {s} here = Extends-refl l s
Reach-Extends (next r m) = Extends-trans (Reach-Extends r) (Move-Extends m)

insert-Extends :
    (env : Env) (fuel : ℕ) (i : InsertInput) (s : Store) (r : InsertResult) (t : Store)
    → insert env fuel i s ≡ some (r, t)
    → Extends env.lattice s t
insert-Extends env fuel i s r t e = Reach-Extends (insert-Reach env fuel i s r t e)

-- After a call of `insert` that returns, a cell that was there is still at its place and under its
-- path, and if it declared a type it declares one still, which comes of the old one by compositions
-- that did not end in `never`.
pub insert-Evolves :
    (env : Env) (fuel : ℕ) (i : InsertInput) (s : Store) (r : InsertResult) (t : Store)
    (p : List String) (d : CellData)
    → insert env fuel i s ≡ some (r, t)
    → find p s.root ≡ some d
    → (e : CellData) × (find p t.root ≡ some e) × Evolves env.lattice d e
insert-Evolves env fuel i s r t p d e found = (insert-Extends env fuel i s r t e).at p d found
