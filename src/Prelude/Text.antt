-- ===== src/Prelude/Text.antt =====
-- Paths: texts split at dots and joined again.
use Prim.Native.Char.{Char, code}
use Prim.Native.String
use Prim.Native.String.{String}
use mathlib.Core.Path.{◌≡◌, refl}
use mathlib.Core.Bool.{Bool, true, false, ◌&&◌, ◌||◌}
use mathlib.Core.List.{List, [], ◌∷◌}
use text.Mathlib.Text.{◌==◌}
use sequence.Prelude.Tests.{eqb, leb, if◌then◌else◌}

infixr 65 ◌⊹◌
abbrev pub ◌⊹◌ : String → String → String
a ⊹ b = String.◌++◌ a b

-- The pieces between dots of a text, the first piece given the characters read so far.
split_from : String → String → List String
split_from cur String.[] = cur ∷ []
split_from cur (String.◌∷◌ c s) =
    let next = split_from "" s in
    let same = split_from (cur ⊹ String.◌∷◌ c String.[]) s in
    if eqb (code c) b'.' then cur ∷ next else same

-- `path.split('.')`
unfoldable pub split : String → List String
unfolding split_from
split path = split_from "" path

-- `path ? path.split('.') : []`
unfoldable pub segments : String → List String
unfolding split
segments path = if path == "" then [] else split path

-- `segs.join('.')`
unfoldable pub join : List String → String
join [] = ""
join (s ∷ []) = s
join (s ∷ t ∷ rest) = s ⊹ "." ⊹ join (t ∷ rest)

-- `s.startsWith(p)`
unfoldable pub starts_with : String → String → Bool
starts_with s String.[] = true
starts_with String.[] (String.◌∷◌ d p) = false
starts_with (String.◌∷◌ c s) (String.◌∷◌ d p) = eqb (code c) (code d) && starts_with s p

-- `\s` of a regular expression, which is also what `trim` takes away
abbrev pub is_space : Char → Bool
is_space c =
    let n = code c in
    leb 9 n && leb n 13
    || eqb n 32
    || eqb n 160
    || eqb n 5760
    || leb 8192 n && leb n 8202
    || eqb n 8232
    || eqb n 8233
    || eqb n 8239
    || eqb n 8287
    || eqb n 12288
    || eqb n 65279

split_test : segments "a.bc.d" ≡ "a" ∷ "bc" ∷ "d" ∷ []
unfolding segments
split_test = refl

join_test : join ("a" ∷ "bc" ∷ "d" ∷ []) ≡ "a.bc.d"
unfolding join
join_test = refl

starts_with_test : starts_with "_rules.x" "_rules." ≡ true
unfolding starts_with
starts_with_test = refl
