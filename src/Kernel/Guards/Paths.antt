-- ===== src/Kernel/Guards/Paths.antt =====
-- src-v2/sequence.ts, `collectPaths`: the texts in a guard's arguments that may be paths.
use Prim.Native.Char.{Char, code}
use sequence.Prelude.{
  String, Bool, true, false, ◌&&◌, ◌||◌, List, [], ◌∷◌, ◌++◌, ◌==◌, if◌then◌else◌, leb, eqb,
}
use sequence.Lang.{
  Value, str, ref, Shape, arr, constraint_of, Values, nil, cons, Constraint, con, values,
}

is_digit : Char → Bool
is_digit c = leb 48 (code c) && leb (code c) 57

-- `/^-?\d/`
numeral_start : String → Bool
unfolding is_digit
numeral_start String.[] = false
numeral_start (String.◌∷◌ c String.[]) = is_digit c
numeral_start (String.◌∷◌ c (String.◌∷◌ d s)) = is_digit c || (eqb (code c) b'-' && is_digit d)

is_word_start : Char → Bool
is_word_start c =
    leb 97 (code c) && leb (code c) 122 || leb 65 (code c) && leb (code c) 90 || eqb (code c) b'_'

all_word : String → Bool
unfolding is_word_start is_digit
all_word String.[] = true
all_word (String.◌∷◌ c s) = (is_word_start c || is_digit c || eqb (code c) b'.') && all_word s

-- `/^[a-zA-Z_][a-zA-Z0-9_.]*$/`
is_path_text : String → Bool
unfolding all_word
is_path_text String.[] = false
is_path_text (String.◌∷◌ c s) = is_word_start c && all_word s

unfoldable mutual
  unfolding numeral_start

  pub visit : Value → List String
  visit (str s) = if s == "" || numeral_start s then [] else s ∷ []
  visit (ref i s) = visit_shape s
  visit _ = []

  pub visit_shape : Shape → List String
  visit_shape (arr vs) = visit_all vs
  visit_shape (constraint_of c) = visit_constraint c
  visit_shape _ = []

  pub visit_constraint : Constraint → List String
  visit_constraint (con op args) = visit_all args

  pub visit_all : Values → List String
  visit_all nil = []
  visit_all (cons v vs) = visit v ++ visit_all vs

path_texts : List Value → List String
unfolding is_path_text
path_texts [] = []
path_texts (str s ∷ vs) = let rest = path_texts vs in if is_path_text s then s ∷ rest else rest
path_texts (_ ∷ vs) = path_texts vs

unfoldable pub collect_paths : Constraint → List String
unfolding visit path_texts
collect_paths (con op nil) = []
collect_paths (con op (cons v vs)) = visit v ++ path_texts (values vs)
