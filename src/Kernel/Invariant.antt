-- ===== src/Kernel/Invariant.antt =====
-- The invariant of a kernel: no cell has the type `never`, and every block in a log has a number that
-- was given out.
use sequence.Prelude.{
  ℕ, suc, String, false, ◌≡◌, refl, ◌≤◌, ◌<◌, List, [], ◌∷◌, ◌++◌, Option, none, some, arith, All,
  All-append, All-keep, subst, sym,
}
use sequence.Lang.{Value, Ty, is_never}
use sequence.Kernel.Data.{
  Axis, structural, temporal, ref, Block, CellData, Store, InsertInput, InsertResult, make_cell,
  Delta, DeltaKind, type_changed, Content, of_type,
}
use sequence.Kernel.Tree.Every.{
  EveryCell, EveryCell-ensure, EveryCell-update, EveryCell-weaken, every, done,
}
use sequence.Kernel.Host.{Lattice, Env}
use sequence.Kernel.Exec.{look, with_block, with_out, with_in}
use sequence.Kernel.Step.{compose_at_cell, apply_delta, compose_type, compose_value}
use sequence.Kernel.Propagate.{without_blocks}
use sequence.Kernel.Insert.{insert, get, init}
use sequence.Kernel.Trace.{settled_state, rewritten}
use sequence.Kernel.Moves.{
  Move, Reach, here, next, take_number, read_time, grow, add_rule, lead_out, lead_in, log_block,
  compose_block, drop_blocks, list_rule, watch, flag_access, flag_expand, insert-Reach, get-Reach,
}

abbrev pub NotNever : Option Ty → Type 0
NotNever none = Unit
NotNever (some t) = is_never t ≡ false

pub record IsFine (n : ℕ) (d : CellData) : Type 0 where
  pub typed : NotNever d.type
  pub numbered : All (λ b. b.seq < n) d.blocks

abbrev pub IsSound : Store → Type 0
IsSound s = EveryCell (IsFine s.next_seq) s.root

All-weaken : (n m : ℕ) (bs : List Block) → n ≤ m → All (λ b. b.seq < n) bs → All (λ b. b.seq < m) bs
All-weaken n m [] h a = tt
All-weaken n m (b ∷ bs) h a = (omega arith, All-weaken n m bs h a.1)

IsFine-weaken : (n m : ℕ) → n ≤ m → (d : CellData) → IsFine n d → IsFine m d
IsFine-weaken n m h d f = record {
  typed = f.typed;
  numbered = All-weaken n m d.blocks h f.numbered;
}

IsFine-make_cell : (n : ℕ) (path : String) → IsFine n (make_cell path)
unfolding make_cell
IsFine-make_cell n path = record { typed = tt; numbered = tt }

IsFine-with_block :
    (n : ℕ) (b : Block) → b.seq < n → (d : CellData) → IsFine n d → IsFine n (with_block b d)
IsFine-with_block n b h d f = record {
  typed = f.typed;
  numbered = All-append (λ b. b.seq < n) d.blocks (b ∷ []) f.numbered (h, tt);
}

-- The new type of a delta is not `never`.
abbrev FineNext : DeltaKind → Content → Type 0
FineNext type_changed (of_type t) = is_never t ≡ false
FineNext _ _ = Unit

module _ (l : Lattice) where
  compose_type-FineNext :
      (d : CellData) (b : Block) (t : Ty)
      → FineNext (compose_type l d b t).1.kind (compose_type l d b t).1.next
  unfolding compose_type
  compose_type-FineNext d b t = ground arith

  compose_value-FineNext :
      (d : CellData) (b : Block)
      → FineNext (compose_value l d b).1.kind (compose_value l d b).1.next
  unfolding compose_value
  compose_value-FineNext d b = ground arith

  compose_at_cell-seq : (d : CellData) (b : Block) → (compose_at_cell l d b).0.seq ≡ b.seq
  unfolding compose_at_cell
  compose_at_cell-seq d b = ground arith

  compose_at_cell-FineNext :
      (d : CellData) (b : Block)
      → FineNext (compose_at_cell l d b).1.kind (compose_at_cell l d b).1.next
  unfolding compose_at_cell
  compose_at_cell-FineNext d b = ground arith

apply_delta-typed :
    (b : Block) (x : Delta) (d : CellData)
    → FineNext x.kind x.next
    → NotNever d.type
    → NotNever (apply_delta b x d).type
unfolding apply_delta
apply_delta-typed b x d f h = ground arith

blocks-apply_delta :
    (b : Block) (x : Delta) (d : CellData) → (apply_delta b x d).blocks ≡ d.blocks ++ b ∷ []
unfolding apply_delta
blocks-apply_delta b x d = ground arith

apply_delta-IsFine :
    (n : ℕ) (b : Block) (x : Delta)
    → b.seq < n
    → FineNext x.kind x.next
    → (d : CellData) → IsFine n d
    → IsFine n (apply_delta b x d)
apply_delta-IsFine n b x lt f d h = record {
  typed = apply_delta-typed b x d f h.typed;
  numbered =
      rw (blocks-apply_delta b x d)
        (All-append (λ b. b.seq < n) d.blocks (b ∷ []) h.numbered (lt, tt));
}

-- the edges and the rules of a cell do not matter
same_fields :
    (n : ℕ) (d e : CellData) → e.type ≡ d.type → e.blocks ≡ d.blocks → IsFine n d → IsFine n e
same_fields n d e p q f = record {
  typed = subst NotNever (sym p) f.typed;
  numbered = subst (All (λ b. b.seq < n)) (sym q) f.numbered;
}

with_out-IsFine :
    (n : ℕ) (a : Axis) (p : String) (d : CellData) → IsFine n d → IsFine n (with_out a p d)
with_out-IsFine n ref p d f = same_fields n d _ refl refl f
with_out-IsFine n temporal p d f = same_fields n d _ refl refl f
with_out-IsFine n structural p d f = f

with_in-IsFine :
    (n : ℕ) (a : Axis) (p : String) (d : CellData) → IsFine n d → IsFine n (with_in a p d)
with_in-IsFine n ref p d f = same_fields n d _ refl refl f
with_in-IsFine n temporal p d f = same_fields n d _ refl refl f
with_in-IsFine n structural p d f = f

without_blocks-IsFine :
    (n : ℕ) (bs : List Block) (d : CellData) → IsFine n d → IsFine n (without_blocks bs d)
without_blocks-IsFine n bs d f = record {
  typed = f.typed;
  numbered = All-keep (λ b. b.seq < n) _ d.blocks f.numbered;
}

rewrite-IsSound :
    (s : Store) (f : CellData → CellData) (p : List String)
    → ((d : CellData) → IsFine s.next_seq d → IsFine s.next_seq (f d))
    → IsSound s
    → IsSound (rewritten s f p)
rewrite-IsSound s f p k h = EveryCell-update f s.root p (λ d e. k d) h

Move-IsSound : {l : Lattice} {s t : Store} → Move l s t → IsSound s → IsSound t
unfolding settled_state
Move-IsSound (take_number s) h =
    EveryCell-weaken (IsFine-weaken s.next_seq (suc s.next_seq) (omega arith)) s.root h
Move-IsSound (read_time s) h = h
Move-IsSound (grow s p) h = EveryCell-ensure (IsFine-make_cell s.next_seq) s.root p h
Move-IsSound (add_rule s r p) h =
    rewrite-IsSound s _ p (λ d f. same_fields s.next_seq d _ refl refl f) h
Move-IsSound (lead_out s a q p) h = rewrite-IsSound s _ p (with_out-IsFine s.next_seq a q) h
Move-IsSound (lead_in s a q p) h = rewrite-IsSound s _ p (with_in-IsFine s.next_seq a q) h
Move-IsSound (log_block s b p lt) h = rewrite-IsSound s _ p (IsFine-with_block s.next_seq b lt) h
Move-IsSound {l} (compose_block s b p lt) h =
    rewrite-IsSound s _ p
      (apply_delta-IsFine s.next_seq _ (compose_at_cell l (look p s) b).1
        (rw (compose_at_cell-seq l (look p s) b) lt) (compose_at_cell-FineNext l (look p s) b))
      h
Move-IsSound (drop_blocks s bs p) h = rewrite-IsSound s _ p (without_blocks-IsFine s.next_seq bs) h
Move-IsSound (list_rule s r) h = h
Move-IsSound (watch s prefix id) h = h
Move-IsSound (flag_access s b) h = h
Move-IsSound (flag_expand s f) h = h

pub Reach-IsSound : {l : Lattice} {s t : Store} → Reach l s t → IsSound s → IsSound t
Reach-IsSound here h = h
Reach-IsSound (next r m) h = Move-IsSound m (Reach-IsSound r h)

-- A new kernel is sound.
pub init-IsSound : IsSound init
unfolding make_cell
init-IsSound = every (record { typed = tt; numbered = tt }) done

-- A call of `insert` that returns leaves a sound kernel sound: no cell has come to have the type
-- `never`, and every block in a log has a number below the next one.
pub insert-IsSound :
    (env : Env) (fuel : ℕ) (i : InsertInput) (s : Store) (r : InsertResult) (t : Store)
    → IsSound s
    → insert env fuel i s ≡ some (r, t)
    → IsSound t
insert-IsSound env fuel i s r t h e = Reach-IsSound (insert-Reach env fuel i s r t e) h

-- A call of `get` that returns leaves a sound kernel sound.
pub get-IsSound :
    (env : Env) (fuel : ℕ) (path : String) (class : Option String) (s : Store) (v : Value)
    (t : Store)
    → IsSound s
    → get env fuel path class s ≡ some (v, t)
    → IsSound t
get-IsSound env fuel path class s v t h e = Reach-IsSound (get-Reach env fuel path class s v t e) h
