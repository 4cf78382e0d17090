-- ===== src/Lang/Vocabulary/Template.antt =====
-- src/type.ts: `template`, which reads a text with holes as the type of its segments. A position in
-- the text counts code points. The identity of the n-th type that it creates is the parameter `fresh`.
pub mod Splits
use Prim.Native.Char.{Char, code}
use Prim.Native.String
use mathlib.Core.Option
use sequence.Prelude.{
  ℕ, zero, suc, ◌+◌, ◌-◌, String, Bool, true, false, ◌||◌, Option, none, some, List, [], ◌∷◌, ◌⊹◌,
  ◌≡◌, refl, ap, ◌∙◌, sym, if◌then◌else◌, eqb, is_space, All,
}
use sequence.Prelude.Fallible.{◌>>=◌}
use sequence.Dsl.Tokenizer.Read.{is_letter, is_word, size}
use sequence.Lang.{string, Value, str, Constraint, con, cons, nil, Ty, end}
use sequence.Lang.Vocabulary.{TypeObject, literal, ref_to, create_type}
use sequence.Lang.Vocabulary.Clauses.{segment}

-- the text past its longest prefix of such characters, and that prefix
unfoldable pub past : (Char → Bool) → String → String
past p String.[] = ""
past p (String.◌∷◌ c s) = let rest = past p s in if p c then rest else String.◌∷◌ c s

unfoldable pub prefix : (Char → Bool) → String → String
prefix p String.[] = ""
prefix p (String.◌∷◌ c s) = let more = prefix p s in if p c then String.◌∷◌ c more else ""

-- one character, and then the rest of the text
unfoldable pub one : (Char → Bool) → String → Option String
one p String.[] = none
one p (String.◌∷◌ c s) = if p c then some s else none

abbrev pub is_mark : ℕ → Char → Bool
is_mark n c = eqb (code c) n

-- `[\w.]`
unfoldable pub is_path_char : Char → Bool
unfolding is_word
is_path_char c = is_word c || is_mark b'.' c

-- `(?::\s*[a-zA-Z_][\w]*\s*)?`
unfoldable pub annotation : String → Option String
unfolding one past is_letter is_word
annotation s = elim (one (is_mark b':') s) [
  | none ↦ some s
  | some s ↦ do s ← one is_letter (past is_space s); some (past is_space (past is_word s))
]

-- A match of the regular expression at the start of a text: the path, and the text after the match.
unfoldable pub match_hole : String → Option (String × String)
unfolding one past prefix is_letter is_path_char annotation
match_hole s = do
  s ← one (is_mark b'{') s
  s ← one (is_mark b'{') s
  let at_path = past is_space s
  s ← one is_letter at_path
  s ← annotation (past is_space (past is_path_char s))
  s ← one (is_mark b'}') s
  s ← one (is_mark b'}') s
  some (prefix is_path_char at_path, s)

unfoldable pub take : ℕ → String → String
take zero s = ""
take (suc n) String.[] = ""
take (suc n) (String.◌∷◌ c s) = String.◌∷◌ c (take n s)

unfoldable pub drop : ℕ → String → String
drop zero s = s
drop (suc n) String.[] = ""
drop (suc n) (String.◌∷◌ c s) = drop n s

-- a piece of the text: a literal one, or a match with its path
pub data Piece : Type 0 where
  literal_piece : String → Piece
  hole_piece : String → String → Piece

-- a literal piece is pushed unless it is empty
abbrev pub pushed : String → List Piece → List Piece
pushed String.[] ps = ps
pushed (String.◌∷◌ c s) ps = literal_piece (String.◌∷◌ c s) ∷ ps

-- The rounds of `exec`, by position: `k` characters of the last match are still to be passed, and
-- `held` is the text between the matches.
unfoldable pub pieces : ℕ → String → String → List Piece
unfolding match_hole take size
pieces k held String.[] = pushed held []
pieces (suc k) held (String.◌∷◌ c s) = pieces k held s
pieces zero held (String.◌∷◌ c s) = elim (match_hole (String.◌∷◌ c s)) [
  | none ↦ pieces zero (held ⊹ String.◌∷◌ c String.[]) s
  | some (path, rest) ↦
      let k = size s - size rest in
      pushed held (hole_piece (String.◌∷◌ c (take k s)) path ∷ pieces k "" s)
]

-- the type of one piece
abbrev pub inner : Piece → Ty
inner (literal_piece text) = create_type string (literal (str text) ∷ []) end
inner (hole_piece text path) = create_type string (ref_to path ∷ []) end

-- one segment for each piece, the n-th under the name of `n`
unfoldable pub segments_from : (ℕ → String) → (ℕ → ℕ) → ℕ → List Piece → List Constraint
segments_from show fresh n [] = []
segments_from show fresh n (p ∷ ps) =
    segment ("s" ⊹ show n) (fresh n, inner p) none ∷ segments_from show fresh (suc n) ps

-- `template`, where `show` writes a number in decimals
unfoldable pub template : (ℕ → String) → (ℕ → ℕ) → String → Ty
unfolding pieces segments_from
template show fresh text = create_type string (segments_from show fresh 0 (pieces 0 "" text)) end
