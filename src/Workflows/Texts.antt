-- ===== src/Workflows/Texts.antt =====
-- The limits of the models, workflows/state.py and domain/models.py: what pydantic does to the texts,
-- the mappings and the tuples of a model that it builds. `none` is a `ValidationError`.
use autonomous_swe.Prelude.{
  ℕ, ◌≡◌, String, Bool, ◌&&◌, ◌||◌, Option, none, some, List, [], ◌∷◌, length, all, leb, str_eq,
  if◌then◌else◌,
}
use autonomous_swe.Planning.Paths.{codes}

-- `str(value)` and `UUID(text)`, which raises on a text that is not one; and what
-- `str_strip_whitespace` makes of a text.
pub record TextLibrary : Type 0 where
  pub text : ℕ → String
  pub uuid : String → Option ℕ
  pub uuid-text : (value : ℕ) → uuid (text value) ≡ some value
  pub strip : String → String

abbrev pub text_length : String → ℕ
text_length text = length (codes text)

-- The parts of an f-string
abbrev pub append : String → String → String
append String.[] rest = rest
append (String.◌∷◌ letter text) rest = String.◌∷◌ letter (append text rest)

abbrev pub concat : List String → String
concat [] = ""
concat (part ∷ rest) = append part (concat rest)

-- A digit of `[0-9a-f]`
abbrev is_hex : ℕ → Bool
is_hex c = (leb b'0' c && leb c b'9') || (leb b'a' c && leb c b'f')

abbrev is_commit_sha : List ℕ → Bool
is_commit_sha sha = all is_hex sha && leb 40 (length sha) && leb (length sha) 64

-- `max_length` of a tuple
unfoldable pub at_most : {A : Type 0} → ℕ → List A → Option (List A)
at_most limit items = if leb (length items) limit then some items else none

abbrev set_key : String → String → List (String × String) → List (String × String)
set_key key value [] = (key, value) ∷ []
set_key key value ((k, v) ∷ rest) =
    if str_eq k key then (key, value) ∷ rest else (k, v) ∷ set_key key value rest

module _ (u : TextLibrary) where
  -- `Field(min_length=…, max_length=…)` of a text
  unfoldable pub bounded : ℕ → ℕ → String → Option String
  bounded least most value =
      if leb least (text_length (u.strip value)) && leb (text_length (u.strip value)) most
      then some (u.strip value)
      else none

  -- `CommitSha`
  unfoldable pub commit_sha : String → Option String
  commit_sha value = if is_commit_sha (codes (u.strip value)) then some (u.strip value) else none

  abbrev strip_all : List (String × String) → List (String × String) → List (String × String)
  strip_all done [] = done
  strip_all done ((key, value) ∷ rest) = strip_all (set_key (u.strip key) (u.strip value) done) rest

  -- A mapping of texts, with its `max_length`
  unfoldable pub bounded_map : ℕ → List (String × String) → Option (List (String × String))
  bounded_map limit pairs = if leb (length pairs) limit then some (strip_all [] pairs) else none
