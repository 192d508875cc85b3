-- ===== src/Planning/Paths.antt =====
-- `_is_repository_relative`, planning/validator.py. `PurePosixPath` drops empty parts and single
-- dots; a path that is not absolute has no other part than these.
use Prim.Native.Char.{code}
use autonomous_swe.Prelude.{
  elem, ℕ, String, Bool, true, false, not, ◌&&◌, Option, none, some, List, [], ◌∷◌, map, any,
  where_true, ◌==◌, if◌then◌else◌,
}

abbrev pub codes : String → List ℕ
codes String.[] = []
codes (String.◌∷◌ letter rest) = code letter ∷ codes rest

-- `value.replace("\\", "/")`
unfoldable pub normalized : List ℕ → List ℕ
normalized value = map (λ c. if c == b'\\' then b'/' else c) value

abbrev pub prepend : ℕ → List (List ℕ) → List (List ℕ)
prepend c [] = (c ∷ []) ∷ []
prepend c (part ∷ parts) = (c ∷ part) ∷ parts

-- `split("/")`
unfoldable pub split : List ℕ → List (List ℕ)
split [] = [] ∷ []
split (c ∷ cs) = let rest = split cs in if c == b'/' then [] ∷ rest else prepend c rest

abbrev pub is_dot : List ℕ → Bool
is_dot (c ∷ []) = c == b'.'
is_dot _ = false

abbrev pub is_dots : List ℕ → Bool
is_dots (c ∷ d ∷ []) = c == b'.' && d == b'.'
is_dots _ = false

abbrev pub is_empty : List ℕ → Bool
is_empty [] = true
is_empty (c ∷ cs) = false

-- `PurePosixPath(path).parts`, of a path that is not absolute
unfoldable pub parts : List ℕ → List (List ℕ)
unfolding split
parts path = where_true (λ part. not (is_empty part) && not (is_dot part)) (split path)

abbrev pub is_absolute : List ℕ → Bool
is_absolute [] = false
is_absolute (c ∷ cs) = c == b'/'

-- `":" not in path.parts[0]`: `none` is the `IndexError` of a path without parts.
abbrev pub no_colon_first : List (List ℕ) → Option Bool
no_colon_first [] = none
no_colon_first (part ∷ parts) = some (not (elem b':' part))

unfoldable pub is_relative : List ℕ → Option Bool
unfolding parts
is_relative path =
    if is_empty path
    then some false
    else if is_absolute path
    then some false
    else if any is_dots (parts path)
    then some false
    else no_colon_first (parts path)

unfoldable pub is_repository_relative : String → Option Bool
unfolding normalized is_relative
is_repository_relative value = is_relative (normalized (codes value))
