-- ===== src/Kernel/Guards/Scope.antt =====
-- src-v2/sequence.ts: the tests on paths, `scopeMatches` and `pathMatchesGlob`.
use sequence.Prelude.{String, Bool, true, ◌||◌, ◌==◌, ◌⊹◌, if◌then◌else◌, starts_with}
use sequence.Kernel.Data.{Rule}

-- `w.replace(/\.\*$/, '')`
unfoldable pub strip_glob : String → String
strip_glob String.[] = String.[]
strip_glob (String.◌∷◌ c s) =
    let rest = strip_glob s in if String.◌∷◌ c s == ".*" then "" else String.◌∷◌ c rest

unfoldable pub path_matches_glob : String → String → Bool
path_matches_glob path glob =
    let prefix = strip_glob glob in path == prefix || starts_with path (prefix ⊹ ".")

unfoldable pub scope_matches : Rule → String → Bool
scope_matches r path =
    if r.scope == "" then true else path == r.scope || starts_with path (r.scope ⊹ ".")
