-- ===== src/Dsl/Tokenizer/Progress.antt =====
-- src/dsl/tokenizer.ts: every round of the loop moves on, so the loop ends.
use native.Mathlib.Nat.{le_refl, le_trans}
use mathlib.Core.Option
use Prim.Native.Char.{Char, code}
use sequence.Prelude.{
  ℕ, zero, suc, ◌≤◌, ◌<◌, String, Bool, true, false, not, ◌&&◌, Option, none, some, List, [], ◌∷◌,
  ◌++◌, ◌≡◌, refl, subst, ◌==◌, if◌then◌else◌, eqb, arith, every, starts_with,
}
use sequence.Dsl.Tokenizer.Read.{
  Cursor, cursor_at, size, advance, advance_over, read_while, read_expansion, read_string, is_digit,
  is_letter, is_word, is_newline, line_after, col_after,
}
use sequence.Dsl.Tokenizer.{
  TokenKind, eof, Token, operators, operator_at, Round, read_number, read_digits, scan_regex,
  scan_string, scan_variable, scan_name, scan_comment, scan_expansion, scan_word, scan_mark, scan,
  place, first_char, rounds, tokenize,
}

advance-size : (cur : Cursor) → size (advance cur).rest ≤ size cur.rest
unfolding advance size
advance-size cur = by_rest cur.rest cur.line cur.col
  where
    by_rest : (s : String) (l k : ℕ) → size (advance (cursor_at s l k)).rest ≤ size s
    by_rest String.[] l k = le_refl _
    by_rest (String.◌∷◌ c s) l k = omega arith

advance-shrinks :
    (cur : Cursor) (c : Char) (s : String)
    → cur.rest ≡ String.◌∷◌ c s
    → size (advance cur).rest ≤ size s
unfolding advance size
advance-shrinks cur c s e = rw e (le_refl _)

advance_over-size : (op : String) (cur : Cursor) → size (advance_over op cur).rest ≤ size cur.rest
unfolding advance_over
advance_over-size String.[] cur = le_refl _
advance_over-size (String.◌∷◌ c op) cur =
    le_trans (advance_over-size op (advance cur)) (advance-size cur)

module _ (p : Char → Bool) where
  read_while-size : (s : String) (l k : ℕ) → size (read_while p s l k).1.rest ≤ size s
  unfolding read_while size
  read_while-size String.[] l k = le_refl _
  read_while-size (String.◌∷◌ c s) l k =
      let ih = read_while-size s (line_after c l) (col_after c k) in ground arith

  read_while-shrinks :
      (c : Char) (s : String) (l k : ℕ)
      → p c ≡ true
      → size (read_while p (String.◌∷◌ c s) l k).1.rest ≤ size s
  unfolding read_while
  read_while-shrinks c s l k h = rw h (read_while-size s (line_after c l) (col_after c k))

read_expansion-size : (s : String) (l k : ℕ) → size (read_expansion s l k).1.rest ≤ size s
unfolding read_expansion size
read_expansion-size String.[] l k = le_refl _
read_expansion-size (String.◌∷◌ c String.[]) l k = omega arith
read_expansion-size (String.◌∷◌ c (String.◌∷◌ d s)) l k =
    let ih = read_expansion-size (String.◌∷◌ d s) (line_after c l) (col_after c k) in ground arith

pick-size :
    (a b : Bool) (x y z : String × Cursor) (n : ℕ)
    → size x.1.rest ≤ n
    → size y.1.rest ≤ n
    → size z.1.rest ≤ n
    → size (if a then x else if b then y else z).1.rest ≤ n
pick-size true b x y z n h i j = h
pick-size false true x y z n h i j = i
pick-size false false x y z n h i j = j

read_string-size : (q : Char) (s : String) (l k : ℕ) → size (read_string q s l k).1.rest ≤ size s
unfolding read_string size
read_string-size q String.[] l k = le_refl _
read_string-size q (String.◌∷◌ c String.[]) l k =
    pick-size (eqb (code c) (code q)) (eqb (code c) b'\\') _ _ _ _ (le_refl _) (omega arith)
      (omega arith)
read_string-size q (String.◌∷◌ c (String.◌∷◌ d s)) l k =
    let past = read_string-size q s (line_after d l) (col_after d (suc k)) in
    let more = read_string-size q (String.◌∷◌ d s) (line_after c l) (col_after c k) in
    pick-size (eqb (code c) (code q)) (eqb (code c) b'\\') _ _ _ _ (le_refl _) (omega arith)
      (omega arith)

abbrev is_named : String × TokenKind → Bool
is_named (String.[], k) = false
is_named (String.◌∷◌ c s, k) = true

operator_at-is_named :
    (os : List (String × TokenKind)) (s : String) (o : String × TokenKind)
    → every is_named os ≡ true
    → operator_at os s ≡ some o
    → is_named o ≡ true
unfolding operator_at
operator_at-is_named [] s o h e = absurd (ground arith)
operator_at-is_named (x ∷ os) s o h e =
    found (starts_with s x.0) (is_named x) refl h e (operator_at-is_named os s o)
  where
    found :
        (b c : Bool)
        → is_named x ≡ c
        → (c && every is_named os) ≡ true
        → (if b then some x else operator_at os s) ≡ some o
        → (every is_named os ≡ true → operator_at os s ≡ some o → is_named o ≡ true)
        → is_named o ≡ true
    found true true p h q ih = let same : x ≡ o = cc in subst (λ y. is_named y ≡ true) same p
    found false true p h q ih = ih h q
    found b false p h q ih = absurd (ground arith)

advance_over-shrinks :
    (o : String × TokenKind) (cur : Cursor) (c : Char) (s : String)
    → is_named o ≡ true
    → cur.rest ≡ String.◌∷◌ c s
    → size (advance_over o.0 cur).rest ≤ size s
unfolding advance_over
advance_over-shrinks (String.[], k) cur c s h e = absurd (ground arith)
advance_over-shrinks (String.◌∷◌ d op, k) cur c s h e =
    le_trans (advance_over-size op (advance cur)) (advance-shrinks cur c s e)

-- the close of a text, where the text goes on
close-size :
    (b : Bool) (last : Cursor) (f : Cursor → Cursor) (n : ℕ)
    → size last.rest ≤ n
    → size (f last).rest ≤ size last.rest
    → size (if b then last else f last).rest ≤ n
close-size true last f n h k = h
close-size false last f n h k = le_trans k h

if-size :
    (b : Bool) (x y : String × Cursor) (n : ℕ)
    → size x.1.rest ≤ n
    → size y.1.rest ≤ n
    → size (if b then x else y).1.rest ≤ n
if-size true x y n h k = h
if-size false x y n h k = k

read_digits-size : (cur : Cursor) → size (read_digits cur).1.rest ≤ size cur.rest
unfolding read_digits
read_digits-size cur = read_while-size is_digit cur.rest cur.line cur.col

read_number-size :
    (c : Char) (s : String) (cur : Cursor)
    → cur.rest ≡ String.◌∷◌ c s
    → is_digit c ≡ true
    → size (read_number cur).1.rest ≤ size s
unfolding read_number
read_number-size c s cur e h =
    let whole = read_digits cur in
    let first : size whole.1.rest ≤ size s =
      unfold read_digits in rw e (read_while-shrinks is_digit c s cur.line cur.col h) in
    if-size _ _ _ _
      (le_trans (read_digits-size (advance whole.1)) (le_trans (advance-size whole.1) first)) first

every-operator : every is_named operators ≡ true
unfolding operators
every-operator = refl

-- What a round leaves is at most the text after its first character.
record Leaves (s : String) (r : Round) : Type 0 where
  pub left : size r.1.rest ≤ size s

Leaves-if :
    (b : Bool) (s : String) (x y : Round)
    → (b ≡ true → Leaves s x)
    → Leaves s y
    → Leaves s (if b then x else y)
Leaves-if true s x y h k = h refl
Leaves-if false s x y h k = k

module _ (c : Char) (s : String) (cur : Cursor) (e : cur.rest ≡ String.◌∷◌ c s) where
  scan_regex-Leaves : Leaves s (scan_regex cur)
  unfolding scan_regex
  scan_regex-Leaves =
      let after = advance cur in
      let inner = read_while (λ d. not (eqb (code d) b'/')) after.rest after.line after.col in
      record {
        left =
            close-size (inner.1.rest == "") inner.1 advance (size s)
              (le_trans
                (read_while-size (λ d. not (eqb (code d) b'/')) after.rest after.line after.col)
                (advance-shrinks cur c s e))
              (advance-size inner.1);
      }

  scan_string-Leaves : Leaves s (scan_string c cur)
  unfolding scan_string
  scan_string-Leaves =
      let after = advance cur in
      let inner = read_string c after.rest after.line after.col in
      record {
        left =
            close-size (inner.1.rest == "") inner.1 advance (size s)
              (le_trans (read_string-size c after.rest after.line after.col)
                (advance-shrinks cur c s e))
              (advance-size inner.1);
      }

  scan_variable-Leaves : Leaves s (scan_variable cur)
  unfolding scan_variable
  scan_variable-Leaves =
      let after = advance cur in
      record {
        left =
            le_trans (read_while-size is_word after.rest after.line after.col)
              (advance-shrinks cur c s e);
      }

  scan_name-Leaves : is_letter c ≡ true → Leaves s (scan_name cur)
  unfolding scan_name is_word
  scan_name-Leaves h = record {
    left = rw e (read_while-shrinks is_word c s cur.line cur.col (rw h refl));
  }

  advance-Leaves : (o : Option (TokenKind × String)) → Leaves s (o, advance cur)
  advance-Leaves o = record { left = advance-shrinks cur c s e }

  scan_word-Leaves : Leaves s (scan_word c cur)
  unfolding scan_word
  scan_word-Leaves =
      Leaves-if _ s _ _ (λ h. scan_regex-Leaves)
        (Leaves-if _ s _ _ (λ h. scan_string-Leaves)
          (Leaves-if _ s _ _ (λ h. record { left = read_number-size c s cur e h })
            (Leaves-if _ s _ _ (λ h. scan_variable-Leaves)
              (Leaves-if _ s _ _ scan_name-Leaves (advance-Leaves none)))))

  by_operator :
      (o : Option (String × TokenKind))
      → operator_at operators cur.rest ≡ o
      → Leaves s
          (elim o [ some o ↦ (some (o.1, o.0), advance_over o.0 cur) | none ↦ scan_word c cur ])
  by_operator none h = scan_word-Leaves
  by_operator (some o) h = record {
    left =
        advance_over-shrinks o cur c s (operator_at-is_named operators cur.rest o every-operator h)
          e;
  }

  scan_mark-Leaves : Leaves s (scan_mark c cur)
  unfolding scan_mark
  scan_mark-Leaves = by_operator (operator_at operators cur.rest) refl

  scan_comment-Leaves : Leaves s (scan_comment cur)
  unfolding scan_comment
  scan_comment-Leaves =
      let after = advance_over "--" cur in
      record {
        left =
            le_trans (read_while-size (λ d. not (is_newline d)) after.rest after.line after.col)
              (advance_over-shrinks ("--", eof) cur c s refl e);
      }

  scan_expansion-Leaves : Leaves s (scan_expansion cur)
  unfolding scan_expansion
  scan_expansion-Leaves =
      let after = advance_over "[[" cur in
      let inner = read_expansion after.rest after.line after.col in
      record {
        left =
            close-size (inner.1.rest == "") inner.1 (advance_over "]]") (size s)
              (le_trans (read_expansion-size after.rest after.line after.col)
                (advance_over-shrinks ("[[", eof) cur c s refl e))
              (advance_over-size "]]" inner.1);
      }

  scan-Leaves : Leaves s (scan c cur)
  unfolding scan
  scan-Leaves =
      Leaves-if _ s _ _ (λ h. advance-Leaves none)
        (Leaves-if _ s _ _ (λ h. scan_comment-Leaves)
          (Leaves-if _ s _ _ (λ h. scan_expansion-Leaves) scan_mark-Leaves))

-- What the loop returns: tokens that end in one of the end of the text.
record Ends (o : Option (List Token)) : Type 0 where
  pub tokens : List Token
  pub last : Token
  pub made : o ≡ some (tokens ++ last ∷ [])
  pub ended : last.kind ≡ eof

place-Ends :
    (cur : Cursor) (r : Option (TokenKind × String)) (o : Option (List Token))
    → Ends o
    → Ends (Option.map (place cur r) o)
place-Ends cur none o h = record {
  tokens = h.tokens;
  last = h.last;
  made = rw h.made refl;
  ended = h.ended;
}
place-Ends cur (some (k, v)) o h = record {
  tokens = record { kind = k; value = v; line = cur.line; col = cur.col } ∷ h.tokens;
  last = h.last;
  made = rw h.made refl;
  ended = h.ended;
}

rounds-Ends : (fuel : ℕ) (cur : Cursor) → size cur.rest < fuel → Ends (rounds fuel cur)
unfolding rounds
rounds-Ends zero cur h = absurd (omega arith)
rounds-Ends (suc fuel) cur h = by_text cur.rest refl (λ r. rounds-Ends fuel r)
  where
    by_text :
        (s : String)
        → cur.rest ≡ s
        → ((r : Cursor) → size r.rest < fuel → Ends (rounds fuel r))
        → Ends (elim (first_char s) [
          | none ↦ some (place cur (some (eof, "")) [])
          | some c ↦ Option.map (place cur (scan c cur).0) (rounds fuel (scan c cur).1)
        ])
    by_text String.[] e ih = record {
      tokens = [];
      last = record { kind = eof; value = ""; line = cur.line; col = cur.col };
      made = refl;
      ended = refl;
    }
    by_text (String.◌∷◌ c s) e ih =
        let left = (scan-Leaves c s cur e).left in
        let all : suc (size s) < suc fuel = unfold size in subst (λ x. size x < suc fuel) e h in
        place-Ends cur (scan c cur).0 (rounds fuel (scan c cur).1) (ih (scan c cur).1 (omega arith))

-- The lexer ends on every text, within one round for each character and one for the end: it returns
-- tokens whose last one is of the kind EOF.
pub tokenize-ends :
    (source : String)
    → (tokens : List Token) × (last : Token) × (tokenize source ≡ some (tokens ++ last ∷ []))
      × (last.kind ≡ eof)
unfolding tokenize
tokenize-ends source =
    let r = rounds-Ends (suc (size source)) (cursor_at source 1 1) (le_refl _) in
    (r.tokens, r.last, r.made, r.ended)
