-- ===== src/Dsl/Tokenizer.antt =====
-- src/dsl/tokenizer.ts: the lexer. A text is a list of code points. The names that every JavaScript
-- object inherits are no keys of its table of keywords here.
pub mod Read
pub mod Progress
use sequence.Prelude.{
  ℕ, zero, suc, ◌+◌, String, Bool, true, false, not, ◌&&◌, ◌||◌, Option, none, some, List, [], ◌∷◌,
  ◌==◌, if◌then◌else◌, eqb, leb, lookup, or_else, starts_with,
}
use mathlib.Core.Option
use Prim.Native.Char.{Char, code}
use sequence.Dsl.Tokenizer.Read.{
  Cursor, advance, advance_over, read_while, read_expansion, read_string, trim, is_digit, is_letter,
  is_word, is_blank, size, cursor_at, is_newline,
}

pub data TokenKind : Type 0 where
  lbrace rbrace lparen rparen lbracket rbracket comma colon semicolon dot question assign narrow
        pipe ampersand arrow at tilde dotdot spread lt lte gt gte neq plus minus star slash type
        delete cap policy when while where_word onbreak by exists not_word matches has in_word
        satisfies forall preserves import from export let_word ref snapshot prev class index over
        reader string number true_word false_word null regex ident variable expansion comment eof :
      TokenKind

pub record Token : Type 0 where
  pub kind : TokenKind
  pub value : String
  pub line : ℕ
  pub col : ℕ

-- `KEYWORDS`
abbrev keywords : List (String × TokenKind)
keywords =
    ("type", type)
    ∷ ("delete", delete)
    ∷ ("tool", cap)
    ∷ ("policy", policy)
    ∷ ("when", when)
    ∷ ("while", while)
    ∷ ("where", where_word)
    ∷ ("onBreak", onbreak)
    ∷ ("by", by)
    ∷ ("EXISTS", exists)
    ∷ ("exists", exists)
    ∷ ("NOT", not_word)
    ∷ ("not", not_word)
    ∷ ("MATCHES", matches)
    ∷ ("HAS", has)
    ∷ ("IN", in_word)
    ∷ ("in", in_word)
    ∷ ("SATISFIES", satisfies)
    ∷ ("forall", forall)
    ∷ ("preserves", preserves)
    ∷ ("import", import)
    ∷ ("from", from)
    ∷ ("export", export)
    ∷ ("let", let_word)
    ∷ ("ref", ref)
    ∷ ("snapshot", snapshot)
    ∷ ("prev", prev)
    ∷ ("class", class)
    ∷ ("index", index)
    ∷ ("over", over)
    ∷ ("reader", reader)
    ∷ ("true", true_word)
    ∷ ("false", false_word)
    ∷ ("null", null)
    ∷ ("string", ident)
    ∷ ("number", ident)
    ∷ ("boolean", ident)
    ∷ []

unfoldable pub keyword : String → TokenKind
keyword s = or_else (lookup s keywords) ident

-- The operators, in the order of their tests.
unfoldable pub operators : List (String × TokenKind)
operators =
    ("<<", narrow)
    ∷ ("<=", lte)
    ∷ (">=", gte)
    ∷ ("!=", neq)
    ∷ ("->", arrow)
    ∷ ("...", spread)
    ∷ ("..", dotdot)
    ∷ ("{", lbrace)
    ∷ ("}", rbrace)
    ∷ ("(", lparen)
    ∷ (")", rparen)
    ∷ ("[", lbracket)
    ∷ ("]", rbracket)
    ∷ (",", comma)
    ∷ (":", colon)
    ∷ (";", semicolon)
    ∷ (".", dot)
    ∷ ("?", question)
    ∷ ("=", assign)
    ∷ ("|", pipe)
    ∷ ("&", ampersand)
    ∷ ("@", at)
    ∷ ("~", tilde)
    ∷ ("<", lt)
    ∷ (">", gt)
    ∷ ("+", plus)
    ∷ ("*", star)
    ∷ ("-", minus)
    ∷ []

unfoldable pub operator_at : List (String × TokenKind) → String → Option (String × TokenKind)
operator_at [] s = none
operator_at (o ∷ os) s = let rest = operator_at os s in if starts_with s o.0 then some o else rest

-- What one round of the loop reads: its token, if it emits one, and where it stops.
abbrev pub Round : Type 0
Round = Option (TokenKind × String) × Cursor

abbrev emit : TokenKind → String × Cursor → Round
emit k (v, cur) = (some (k, v), cur)

abbrev point_digit : String → Bool
point_digit (String.◌∷◌ c (String.◌∷◌ d s)) = eqb (code c) b'.' && is_digit d
point_digit _ = false

text_append : String → String → String
text_append String.[] t = t
text_append (String.◌∷◌ c s) t = String.◌∷◌ c (text_append s t)

unfoldable pub read_digits : Cursor → String × Cursor
unfolding read_while is_digit
read_digits cur = read_while is_digit cur.rest cur.line cur.col

-- a point is a part of the number only where a digit follows it
unfoldable pub read_number : Cursor → String × Cursor
unfolding read_digits advance text_append
read_number cur =
    let whole = read_digits cur in
    let part = read_digits (advance whole.1) in
    if point_digit whole.1.rest
    then (text_append whole.0 (String.◌∷◌ "." part.0), part.1)
    else whole

unfoldable pub scan_regex : Cursor → Round
unfolding read_while advance
scan_regex cur =
    let after = advance cur in
    let (text, last) = read_while (λ d. not (eqb (code d) b'/')) after.rest after.line after.col in
    emit regex (text, if last.rest == "" then last else advance last)

unfoldable pub scan_string : Char → Cursor → Round
unfolding read_string advance
scan_string q cur =
    let after = advance cur in
    let (text, last) = read_string q after.rest after.line after.col in
    emit string (text, if last.rest == "" then last else advance last)

unfoldable pub scan_variable : Cursor → Round
unfolding read_while advance is_word
scan_variable cur =
    let after = advance cur in emit variable (read_while is_word after.rest after.line after.col)

unfoldable pub scan_name : Cursor → Round
unfolding read_while keyword is_word
scan_name cur =
    let (name, last) = read_while is_word cur.rest cur.line cur.col in
    emit (keyword name) (name, last)

-- A round at a character that is not blank, and where no operator stands.
unfoldable pub scan_word : Char → Cursor → Round
unfolding scan_regex scan_string read_number scan_variable scan_name is_digit is_letter advance
scan_word c cur =
    if eqb (code c) b'/'
    then scan_regex cur
    else if eqb (code c) 34 || eqb (code c) 39
    then scan_string c cur
    else if is_digit c
    then emit number (read_number cur)
    else if eqb (code c) b'$'
    then scan_variable cur
    else if is_letter c
    then scan_name cur
    else (none, advance cur)

unfoldable pub scan_mark : Char → Cursor → Round
unfolding operators operator_at scan_word advance_over
scan_mark c cur = elim (operator_at operators cur.rest) [
  | some o ↦ emit o.1 (o.0, advance_over o.0 cur)
  | none ↦ scan_word c cur
]

unfoldable pub scan_comment : Cursor → Round
unfolding advance_over read_while trim
scan_comment cur =
    let after = advance_over "--" cur in
    let (text, last) = read_while (λ d. not (is_newline d)) after.rest after.line after.col in
    emit comment (trim text, last)

unfoldable pub scan_expansion : Cursor → Round
unfolding advance_over read_expansion trim
scan_expansion cur =
    let after = advance_over "[[" cur in
    let (text, last) = read_expansion after.rest after.line after.col in
    emit expansion (trim text, if last.rest == "" then last else advance_over "]]" last)

-- One round of the loop, at a text that starts with this character.
unfoldable pub scan : Char → Cursor → Round
unfolding is_blank advance scan_comment scan_expansion scan_mark
scan c cur =
    if is_blank c
    then (none, advance cur)
    else if starts_with cur.rest "--"
    then scan_comment cur
    else if starts_with cur.rest "[["
    then scan_expansion cur
    else scan_mark c cur

abbrev pub place : Cursor → Option (TokenKind × String) → List Token → List Token
place cur none ts = ts
place cur (some (k, v)) ts = record { kind = k; value = v; line = cur.line; col = cur.col } ∷ ts

abbrev pub first_char : String → Option Char
first_char String.[] = none
first_char (String.◌∷◌ c s) = some c

-- The loop, with one round for each unit of fuel; `none` where the fuel runs out.
unfoldable pub rounds : ℕ → Cursor → Option (List Token)
unfolding scan
rounds zero cur = none
rounds (suc fuel) cur = elim (first_char cur.rest) [
  | none ↦ some (place cur (some (eof, "")) [])
  | some c ↦ Option.map (place cur (scan c cur).0) (rounds fuel (scan c cur).1)
]

unfoldable pub tokenize : String → Option (List Token)
unfolding rounds size
tokenize source = rounds (suc (size source)) (cursor_at source 1 1)
