-- ===== src/Dsl/Tests.antt =====
-- Runs of src/dsl/tokenizer.ts at small texts, and its theorem at one.
use mathlib.Core.Option
use sequence.Prelude.{String, Option, some, List, [], ◌∷◌, ◌++◌, ◌≡◌, refl, map, starts_with}
use sequence.Dsl.Tokenizer.{
  Token, TokenKind, tokenize, let_word, ident, assign, lbracket, rbracket, number, dotdot, comment,
  eof, string, variable, spread, regex, expansion,
}
use sequence.Dsl.Tokenizer.Progress.{tokenize-ends}

abbrev read : String → Option (List (TokenKind × String))
unfolding tokenize starts_with
read source = Option.map (map (λ t. (t.kind, t.value))) (tokenize source)

read_range :
    read "let x = [3..4.5] -- hi "
    ≡ some (
        (let_word, "let")
        ∷ (ident, "x")
        ∷ (assign, "=")
        ∷ (lbracket, "[")
        ∷ (number, "3")
        ∷ (dotdot, "..")
        ∷ (number, "4.5")
        ∷ (rbracket, "]")
        ∷ (comment, "hi")
        ∷ (eof, "")
        ∷ [])
unfolding tokenize starts_with
read_range = refl

read_escape :
    read "'a\\nb' $v ... /r/ [[ q ]]"
    ≡ some (
        (string, "a\nb")
        ∷ (variable, "v")
        ∷ (spread, "...")
        ∷ (regex, "r")
        ∷ (expansion, "q")
        ∷ (eof, "")
        ∷ [])
unfolding tokenize starts_with
read_escape = refl

tokenize-ends_example :
    (tokens : List Token) × (last : Token) × (tokenize "let x = [3..4.5] -- hi "
      ≡ some (tokens ++ last ∷ []))
    × (last.kind ≡ eof)
tokenize-ends_example = tokenize-ends "let x = [3..4.5] -- hi "
