-- ===== src/Lang/Tests.antt =====
-- Runs of src/type.ts, and its theorem at one text.
use sequence.Dsl.Tokenizer.Read.{size, is_letter, is_word, is_digit}
use sequence.Prelude.{ℕ, zero, suc, String, List, none, [], ◌∷◌, ◌≡◌, refl}
use sequence.Lang.{string, end, str, constraints_of}
use sequence.Lang.Vocabulary.{create_type, literal, ref_to}
use sequence.Lang.Vocabulary.Clauses.{segment}
use sequence.Lang.Vocabulary.Template.{
  template, pieces, Piece, literal_piece, segments_from, match_hole, take, one, past, prefix,
  is_path_char, annotation,
}
use sequence.Lang.Vocabulary.Template.Splits.{Splits, spelled, template-Splits}

-- The numbers that the tests need.
abbrev digit : ℕ → String
digit zero = "0"
digit (suc zero) = "1"
digit _ = "2"

-- A hole in the middle, with an annotation.
template_test :
    template digit (λ n. n) "Hi {{ user.name : text }}!"
    ≡ create_type string
        (segment "s0" (0, create_type string (literal (str "Hi ") ∷ []) end) none
          ∷ segment "s1" (1, create_type string (ref_to "user.name" ∷ []) end) none
          ∷ segment "s2" (2, create_type string (literal (str "!") ∷ []) end) none
          ∷ [])
        end
unfolding template pieces segments_from match_hole take size one past prefix is_letter is_word
    is_digit is_path_char annotation
template_test = refl

-- Marks that are no hole.
unmatched_test : pieces 0 "" "a {{1}} {b} {{c" ≡ literal_piece "a {{1}} {b} {{c" ∷ []
unfolding pieces match_hole one past prefix is_letter is_word is_digit is_path_char annotation
unmatched_test = refl

template-Splits_example :
    (ps : List Piece) × (constraints_of (template digit (λ n. n) "Hi {{ user.name : text }}!")
      ≡ segments_from digit (λ n. n) 0 ps)
    × Splits "" "Hi {{ user.name : text }}!" ps
    × (spelled ps ≡ "Hi {{ user.name : text }}!")
template-Splits_example = template-Splits digit (λ n. n) "Hi {{ user.name : text }}!"
