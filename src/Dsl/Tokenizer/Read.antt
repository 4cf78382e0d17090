-- ===== src/Dsl/Tokenizer/Read.antt =====
-- src/dsl/tokenizer.ts: the position in a text, and the loops that read a part of it.
use sequence.Prelude.{ℕ, suc, String, Bool, ◌&&◌, ◌||◌, ◌==◌, if◌then◌else◌, eqb, leb, is_space}
use Prim.Native.Char.{Char, code}

-- What is left of the text, and the line and column there.
pub record Cursor : Type 0 where
  pub rest : String
  pub line : ℕ
  pub col : ℕ

unfoldable pub size : String → ℕ
size String.[] = 0
size (String.◌∷◌ c s) = suc (size s)

abbrev pub is_newline : Char → Bool
is_newline c = eqb (code c) b'\n'

abbrev pub cursor_at : String → ℕ → ℕ → Cursor
cursor_at s l k = record { rest = s; line = l; col = k }

abbrev pub line_after : Char → ℕ → ℕ
line_after c l = if is_newline c then suc l else l

abbrev pub col_after : Char → ℕ → ℕ
col_after c k = if is_newline c then 1 else suc k

-- `advance`; at the end of the text it moves the column too
abbrev move : String → ℕ → ℕ → Cursor
move String.[] l k = cursor_at "" l (suc k)
move (String.◌∷◌ c s) l k = cursor_at s (line_after c l) (col_after c k)

unfoldable pub advance : Cursor → Cursor
advance cur = move cur.rest cur.line cur.col

-- one `advance` for each character of a text
unfoldable pub advance_over : String → Cursor → Cursor
unfolding advance
advance_over String.[] cur = cur
advance_over (String.◌∷◌ c s) cur = advance_over s (advance cur)

unfoldable pub is_digit : Char → Bool
is_digit c = leb b'0' (code c) && leb (code c) b'9'

unfoldable pub is_letter : Char → Bool
is_letter c =
    leb b'a' (code c) && leb (code c) b'z'
    || leb b'A' (code c) && leb (code c) b'Z'
    || eqb (code c) b'_'

unfoldable pub is_word : Char → Bool
unfolding is_letter is_digit
is_word c = is_letter c || is_digit c

unfoldable pub is_blank : Char → Bool
is_blank c = eqb (code c) b' ' || eqb (code c) b'\t' || eqb (code c) b'\r' || eqb (code c) b'\n'

-- `while (pos < source.length && p(peek())) out += advance()`
unfoldable pub read_while : (Char → Bool) → String → ℕ → ℕ → String × Cursor
read_while p String.[] l k = ("", cursor_at "" l k)
read_while p (String.◌∷◌ c s) l k =
    let more = read_while p s (line_after c l) (col_after c k) in
    if p c then (String.◌∷◌ c more.0, more.1) else ("", cursor_at (String.◌∷◌ c s) l k)

-- up to `]]`
unfoldable pub read_expansion : String → ℕ → ℕ → String × Cursor
read_expansion String.[] l k = ("", cursor_at "" l k)
read_expansion (String.◌∷◌ c String.[]) l k =
    (String.◌∷◌ c "", cursor_at "" (line_after c l) (col_after c k))
read_expansion (String.◌∷◌ c (String.◌∷◌ d s)) l k =
    let more = read_expansion (String.◌∷◌ d s) (line_after c l) (col_after c k) in
    if eqb (code c) b']' && eqb (code d) b']'
    then ("", cursor_at (String.◌∷◌ c (String.◌∷◌ d s)) l k)
    else (String.◌∷◌ c more.0, more.1)

-- the character that an escape stands for
abbrev pub escaped : Char → Char
escaped c =
    if eqb (code c) b'n'
    then "\n"
    else if eqb (code c) b't'
    then "\t"
    else if eqb (code c) b'r'
    then "\r"
    else c

-- up to the closing quote; a backslash that ends the text reads `undefined`, which `+=` writes out
unfoldable pub read_string : Char → String → ℕ → ℕ → String × Cursor
read_string q String.[] l k = ("", cursor_at "" l k)
read_string q (String.◌∷◌ c String.[]) l k =
    if eqb (code c) (code q)
    then ("", cursor_at (String.◌∷◌ c "") l k)
    else if eqb (code c) b'\\'
    then ("undefined", cursor_at "" l (suc (suc k)))
    else (String.◌∷◌ c "", cursor_at "" (line_after c l) (col_after c k))
read_string q (String.◌∷◌ c (String.◌∷◌ d s)) l k =
    let past = read_string q s (line_after d l) (col_after d (suc k)) in
    let more = read_string q (String.◌∷◌ d s) (line_after c l) (col_after c k) in
    if eqb (code c) (code q)
    then ("", cursor_at (String.◌∷◌ c (String.◌∷◌ d s)) l k)
    else if eqb (code c) b'\\'
    then (String.◌∷◌ (escaped d) past.0, past.1)
    else (String.◌∷◌ c more.0, more.1)

-- `trim`, of the white space and line ends of JavaScript
trim_start : String → String
trim_start String.[] = ""
trim_start (String.◌∷◌ c s) = let rest = trim_start s in if is_space c then rest else String.◌∷◌ c s

trim_end : String → String
trim_end String.[] = ""
trim_end (String.◌∷◌ c s) =
    let rest = trim_end s in if is_space c && rest == "" then "" else String.◌∷◌ c rest

unfoldable pub trim : String → String
unfolding trim_start trim_end
trim s = trim_end (trim_start s)
