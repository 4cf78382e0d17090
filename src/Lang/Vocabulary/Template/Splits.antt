-- ===== src/Lang/Vocabulary/Template/Splits.antt =====
-- src/type.ts, `template`: the loop by position finds what a reading of the text from left to right finds,
-- and its pieces spell the text.
use native.Mathlib.Nat.{le_refl}
use Prim.Native.Char.{Char}
use Prim.Native.String.append.{nil, cons}
use text.Mathlib.TextLemmas.{append_assoc}
use sequence.Prelude.{
  ℕ, zero, suc, ◌-◌, ◌≤◌, ◌≡◌, refl, sym, ap, ◌∙◌, arith, String, Bool, true, false, Option, none,
  some, List, [], ◌∷◌, ◌⊹◌, is_space, if◌then◌else◌,
}
use sequence.Prelude.Fallible.{◌>>=◌, Returns, Returns-bind, Returns-weaken}
use sequence.Dsl.Tokenizer.Read.{size, is_letter, is_word}
use sequence.Lang.{constraints_of}
use sequence.Lang.Vocabulary.{constraints-from_list}
use sequence.Lang.Vocabulary.Template.{
  past, one, is_mark, is_path_char, annotation, match_hole, take, drop, Piece, literal_piece,
  hole_piece, pushed, pieces, segments_from, template,
}

pub data IsSuffix : String → String → Type 0 where
  whole : {s : String} → IsSuffix s s
  later : {r s : String} (c : Char) → IsSuffix r s → IsSuffix r (String.◌∷◌ c s)

IsSuffix-trans : {r s t : String} → IsSuffix r s → IsSuffix s t → IsSuffix r t
IsSuffix-trans p whole = p
IsSuffix-trans p (later c q) = later c (IsSuffix-trans p q)

past-IsSuffix : (p : Char → Bool) (s : String) → IsSuffix (past p s) s
unfolding past
past-IsSuffix p String.[] = whole
past-IsSuffix p (String.◌∷◌ c s) = go (p c) (past-IsSuffix p s)
  where
    go :
        (b : Bool)
        → IsSuffix (past p s) s
        → IsSuffix (if b then past p s else String.◌∷◌ c s) (String.◌∷◌ c s)
    go true h = later c h
    go false h = whole

one_first :
    (p : Char → Bool) (c : Char) (s : String) → Returns (λ r. IsSuffix r s) (one p (String.◌∷◌ c s))
unfolding one
one_first p c s = go (p c)
  where
    go : (b : Bool) → Returns (λ r. IsSuffix r s) (if b then some s else none)
    go true = whole
    go false = tt

one-IsSuffix : (p : Char → Bool) (s : String) → Returns (λ r. IsSuffix r s) (one p s)
unfolding one
one-IsSuffix p String.[] = tt
one-IsSuffix p (String.◌∷◌ c s) =
    Returns-weaken (λ r. IsSuffix r s) _ (one p (String.◌∷◌ c s)) (one_first p c s) λ r h. later c h

-- A suffix of a suffix, further on.
one_after : (p : Char → Bool) (s t : String) → IsSuffix s t → Returns (λ r. IsSuffix r t) (one p s)
one_after p s t h =
    Returns-weaken (λ r. IsSuffix r s) (λ r. IsSuffix r t) (one p s) (one-IsSuffix p s)
      λ r q. IsSuffix-trans q h

past_after : (p : Char → Bool) (s t : String) → IsSuffix s t → IsSuffix (past p s) t
past_after p s t h = IsSuffix-trans (past-IsSuffix p s) h

annotation_after : (s t : String) → IsSuffix s t → Returns (λ r. IsSuffix r t) (annotation s)
unfolding annotation
annotation_after s t h = go (one (is_mark b':') s) (one_after (is_mark b':') s t h)
  where
    go :
        (o : Option String)
        → Returns (λ r. IsSuffix r t) o
        → Returns
            (λ r. IsSuffix r t)
            (elim o [
              | none ↦ some s
              | some s ↦
                  one is_letter (past is_space s) >>= λ s. some (past is_space (past is_word s))
            ])
    go none q = h
    go (some r) q =
        Returns-bind (λ r. IsSuffix r t) (λ r. IsSuffix r t) _ (one is_letter (past is_space r))
          (one_after is_letter _ t (past_after is_space r t q))
          λ r q. past_after is_space _ t (past_after is_word r t q)

-- What is left after a match is a suffix of what follows its first character.
match_hole-IsSuffix :
    (c : Char) (s : String) → Returns (λ m. IsSuffix m.1 s) (match_hole (String.◌∷◌ c s))
unfolding match_hole
match_hole-IsSuffix c s =
    let on : String → Type 0 = λ r. IsSuffix r s in
    let end : String × String → Type 0 = λ m. IsSuffix m.1 s in
    Returns-bind on end _ _ (one_first (is_mark b'{') c s) λ r h.
      Returns-bind on end _ _ (one_after (is_mark b'{') r s h) λ r h.
        Returns-bind on end _ _ (one_after is_letter _ s (past_after is_space r s h)) λ r h.
          Returns-bind on end _ _
            (annotation_after _ s (past_after is_space _ s (past_after is_path_char r s h)))
            λ r h.
              Returns-bind on end _ _ (one_after (is_mark b'}') r s h)
                λ r h. Returns-bind on end _ _ (one_after (is_mark b'}') r s h) λ r h. h

size_le : {r s : String} → IsSuffix r s → size r ≤ size s
unfolding size
size_le {r} whole = le_refl (size r)
size_le (later c h) = let le = size_le h in omega arith

-- Dropping what comes before a suffix leaves the suffix.
drop-size : {r s : String} → IsSuffix r s → drop (size s - size r) s ≡ r
unfolding drop size
drop-size {r} whole = let none_left : size r - size r ≡ 0 = omega arith in rw none_left refl
drop-size {r} (later {s = s} c h) =
    let le = size_le h in
    let step : suc (size s) - size r ≡ suc (size s - size r) = omega arith in rw step (drop-size h)

-- The reading of a text from left to right, with the text held back since the last match: a match at the
-- place is taken, and the reading goes on after it; where there is none, one character is held back.
pub data Splits : String → String → List Piece → Type 0 where
  ended : (held : String) → Splits held "" (pushed held [])
  passed :
      {held s : String} {ps : List Piece} (c : Char)
      → match_hole (String.◌∷◌ c s) ≡ none
      → Splits (held ⊹ String.◌∷◌ c String.[]) s ps
      → Splits held (String.◌∷◌ c s) ps
  found :
      {held s rest : String} {ps : List Piece} (c : Char) (matched path : String)
      → match_hole (String.◌∷◌ c s) ≡ some (path, rest)
      → matched ⊹ rest ≡ String.◌∷◌ c s
      → Splits "" rest ps
      → Splits held (String.◌∷◌ c s) (pushed held (hole_piece matched path ∷ ps))

take-drop : (n : ℕ) (s : String) → take n s ⊹ drop n s ≡ s
unfolding take drop
take-drop zero s = nil s
take-drop (suc n) String.[] = nil ""
take-drop (suc n) (String.◌∷◌ c s) =
    cons c (take n s) (drop n s) ∙ ap (λ t. String.◌∷◌ c t) (take-drop n s)

Splits-pieces : (k : ℕ) (held s : String) → Splits held (drop k s) (pieces k held s)
unfolding pieces drop
Splits-pieces zero held String.[] = ended held
Splits-pieces (suc k) held String.[] = ended held
Splits-pieces (suc k) held (String.◌∷◌ c s) = Splits-pieces k held s
Splits-pieces zero held (String.◌∷◌ c s) =
    go (match_hole (String.◌∷◌ c s)) refl (match_hole-IsSuffix c s)
      (Splits-pieces zero (held ⊹ String.◌∷◌ c String.[]) s) (λ k. Splits-pieces k "" s)
  where
    go :
        (o : Option (String × String))
        → match_hole (String.◌∷◌ c s) ≡ o
        → Returns (λ m. IsSuffix m.1 s) o
        → Splits (held ⊹ String.◌∷◌ c String.[]) s (pieces zero (held ⊹ String.◌∷◌ c String.[]) s)
        → ((k : ℕ) → Splits "" (drop k s) (pieces k "" s))
        → Splits held (String.◌∷◌ c s) (elim o [
          | none ↦ pieces zero (held ⊹ String.◌∷◌ c String.[]) s
          | some (path, rest) ↦
              let k = size s - size rest in
              pushed held (hole_piece (String.◌∷◌ c (take k s)) path ∷ pieces k "" s)
        ])
    go none e h next skip = passed c e next
    go (some (path, rest)) e h next skip =
        let k = size s - size rest in
        found {rest = drop k s} c (String.◌∷◌ c (take k s)) path (rw (drop-size h) e)
          (cons c (take k s) (drop k s) ∙ ap (λ t. String.◌∷◌ c t) (take-drop k s)) (skip k)

-- The text of the pieces.
unfoldable pub spelled : List Piece → String
spelled [] = ""
spelled (literal_piece text ∷ ps) = text ⊹ spelled ps
spelled (hole_piece matched path ∷ ps) = matched ⊹ spelled ps

spelled-pushed : (held : String) (ps : List Piece) → spelled (pushed held ps) ≡ held ⊹ spelled ps
unfolding spelled
spelled-pushed String.[] ps = sym (nil (spelled ps))
spelled-pushed (String.◌∷◌ c s) ps = refl

one_moved :
    (held s : String) (c : Char) → (held ⊹ String.◌∷◌ c String.[]) ⊹ s ≡ held ⊹ String.◌∷◌ c s
one_moved held s c =
    append_assoc held (String.◌∷◌ c String.[]) s
    ∙ ap (λ t. held ⊹ t) (cons c String.[] s ∙ ap (λ t. String.◌∷◌ c t) (nil s))

Splits-spelled : {held s : String} {ps : List Piece} → Splits held s ps → spelled ps ≡ held ⊹ s
unfolding spelled
Splits-spelled (ended held) = spelled-pushed held []
Splits-spelled {held} (passed {s = s} c e h) = Splits-spelled h ∙ one_moved held s c
Splits-spelled {held} (found {rest = rest} {ps = ps} c matched path e both h) =
    spelled-pushed held (hole_piece matched path ∷ ps)
    ∙ ap (λ t. held ⊹ t) (ap (λ t. matched ⊹ t) (Splits-spelled h ∙ nil rest) ∙ both)

-- The segments of a template are those of pieces that a reading of its text from left to right finds, each
-- hole at the first place where one matches after the last; and the pieces, with what was matched in place of each
-- hole, spell the text.
pub template-Splits :
    (show : ℕ → String) (fresh : ℕ → ℕ) (text : String)
    → (ps : List Piece) × (constraints_of (template show fresh text)
        ≡ segments_from show fresh 0 ps)
      × Splits "" text ps
      × (spelled ps ≡ text)
unfolding template drop
template-Splits show fresh text =
    let read = Splits-pieces 0 "" text in
    (pieces 0 "" text, constraints-from_list _, read, Splits-spelled read ∙ nil text)
