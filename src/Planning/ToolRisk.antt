-- ===== src/Planning/ToolRisk.antt =====
-- `ToolRiskPolicy` with `_is_protected_path` and `_argument_paths`, policies/risk/policy_engine.py.
-- A text is the list of its codes, and `casefold`, the table of Unicode, is an argument.
pub mod Level
pub mod Protected
use autonomous_swe.Prelude.{
  ℕ, ◌≡◌, String, Bool, true, false, not, ◌&&◌, ◌||◌, Option, none, some, List, [], ◌∷◌, ◌++◌, map,
  any, ◌==◌, if◌then◌else◌, max, arith,
}
use autonomous_swe.Domain.Enums.{RiskLevel}
use autonomous_swe.Planning.Paths.{
  codes, normalized, split, parts, is_dot, is_dots, is_empty, is_absolute,
}
use autonomous_swe.Planning.Risk.{risk_order, risk_exceeds, maximum_risk}

abbrev pub same_text : List ℕ → List ℕ → Bool
same_text [] [] = true
same_text (a ∷ left) (b ∷ right) = a == b && same_text left right
same_text _ _ = false

-- `startswith`, of texts and of parts
abbrev pub starts_with : {A : Type 0} → (A → A → Bool) → List A → List A → Bool
starts_with same _ [] = true
starts_with same [] (p ∷ ps) = false
starts_with same (a ∷ rest) (p ∷ ps) = same a p && starts_with same rest ps

-- `value in text`, and whether some slice of the parts is the target
abbrev pub contains : {A : Type 0} → (A → A → Bool) → List A → List A → Bool
contains same [] pattern = starts_with same [] pattern
contains same (a ∷ rest) pattern = starts_with same (a ∷ rest) pattern || contains same rest pattern

abbrev pub backwards : List ℕ → List ℕ → List ℕ
backwards [] done = done
backwards (c ∷ cs) done = backwards cs (c ∷ done)

abbrev pub strip_left : List ℕ → List ℕ
strip_left [] = []
strip_left (c ∷ cs) = let rest = strip_left cs in if c == b'/' then rest else c ∷ cs

-- `strip("/")`
unfoldable pub strip : List ℕ → List ℕ
strip text = backwards (strip_left (backwards (strip_left text) [])) []

-- One round of `posixpath.normpath`: the components that it keeps, the last one first.
abbrev pub keep_component : Bool → List (List ℕ) → List ℕ → List (List ℕ)
keep_component absolute [] component =
    if is_empty component || is_dot component
    then []
    else if not (is_dots component) || not absolute
    then component ∷ []
    else []
keep_component absolute (last ∷ kept) component =
    if is_empty component || is_dot component
    then last ∷ kept
    else if not (is_dots component) || is_dots last
    then component ∷ last ∷ kept
    else kept

abbrev pub keep_components : Bool → List (List ℕ) → List (List ℕ) → List (List ℕ)
keep_components absolute kept [] = kept
keep_components absolute kept (component ∷ rest) =
    keep_components absolute (keep_component absolute kept component) rest

-- `"/".join`, of components with the last one first
abbrev pub join : List (List ℕ) → List ℕ → List ℕ
join [] path = path
join (component ∷ []) path = component ++ path
join (component ∷ before) path = join before (b'/' ∷ (component ++ path))

-- Two leading slashes are kept as they are, any other number of them is one.
abbrev pub leading : List ℕ → List ℕ
leading (a ∷ b ∷ c ∷ _) =
    if a == b'/' then (if b == b'/' && not (c == b'/') then b'/' ∷ b'/' ∷ [] else b'/' ∷ []) else []
leading (a ∷ b ∷ []) = if a == b'/' then (if b == b'/' then b'/' ∷ b'/' ∷ [] else b'/' ∷ []) else []
leading (a ∷ []) = if a == b'/' then b'/' ∷ [] else []
leading [] = []

abbrev pub or_dot : List ℕ → List ℕ
or_dot [] = b'.' ∷ []
or_dot (c ∷ cs) = c ∷ cs

-- `posixpath.normpath`
unfoldable pub normpath : List ℕ → List ℕ
unfolding split
normpath path =
    or_dot (leading path ++ join (keep_components (is_absolute path) [] (split path)) [])

-- `posixpath.normpath(path.replace("\\", "/")).strip("/")`
unfoldable pub clean : List ℕ → List ℕ
unfolding normalized normpath strip
clean path = strip (normpath (normalized path))

-- `len(prot_parts) == 1 and prot_parts[0] in parts`
abbrev pub is_named : List (List ℕ) → List (List ℕ) → Bool
is_named (target ∷ []) path_parts = any (λ part. same_text part target) path_parts
is_named _ path_parts = false

abbrev pub is_below : List ℕ → List ℕ → Bool
unfolding clean parts
is_below path target =
    same_text path (clean target)
    || starts_with ◌==◌ path (clean target ++ b'/' ∷ [])
    || is_named (parts (clean target)) (parts path)
    || contains same_text (parts path) (parts (clean target))

unfoldable pub is_protected_path : List ℕ → List (List ℕ) → Bool
unfolding clean
is_protected_path raw_path protected_targets =
    not (is_empty (clean raw_path))
    && not (is_dot (clean raw_path))
    && any (is_below (clean raw_path)) protected_targets

-- What the call gives under one key; an item of a list that is no text is `none`.
pub data ArgumentValue : Type 0 where
  text : List ℕ → ArgumentValue
  items : List (Option (List ℕ)) → ArgumentValue
  other : ArgumentValue

abbrev pub texts : List (Option (List ℕ)) → List (List ℕ)
texts [] = []
texts (some item ∷ rest) = item ∷ texts rest
texts (none ∷ rest) = texts rest

abbrev pub value_paths : ArgumentValue → List (List ℕ)
value_paths (ArgumentValue.text value) = value ∷ []
value_paths (ArgumentValue.items values) = texts values
value_paths ArgumentValue.other = []

abbrev path_keys : List (List ℕ)
path_keys = codes "path" ∷ codes "paths" ∷ codes "target" ∷ codes "file" ∷ codes "directory" ∷ []

unfoldable pub argument_paths : (List ℕ → List ℕ) → List (List ℕ × ArgumentValue) → List (List ℕ)
argument_paths casefold [] = []
argument_paths casefold ((key, value) ∷ rest) =
    let others = argument_paths casefold rest in
    if any (same_text (casefold key)) path_keys then value_paths value ++ others else others

-- The words of a tool that removes, and of one that publishes
abbrev pub removing : List (List ℕ)
removing = codes "delete" ∷ codes "destroy" ∷ codes "drop" ∷ codes "purge" ∷ []

abbrev pub publishing : List (List ℕ)
publishing = codes "deploy" ∷ codes "push" ∷ codes "commit" ∷ codes "pull_request" ∷ []

pub record ToolRiskPolicy : Type 0 where
  pub protected_paths : List (List ℕ)
  pub repository_floor : RiskLevel

pub record ToolCall : Type 0 where
  pub base : RiskLevel
  pub tool_name : List ℕ
  pub arguments : List (List ℕ × ArgumentValue)
  pub side_effect : List ℕ

abbrev pub default_protected_paths : List (List ℕ)
default_protected_paths =
    codes ".github/workflows"
    ∷ codes ".git"
    ∷ codes "infra"
    ∷ codes "infrastructure"
    ∷ codes "terraform"
    ∷ []

abbrev pub high_if : Bool → List RiskLevel
high_if test = if test then RiskLevel.high ∷ [] else []

abbrev pub effect_levels : List ℕ → List RiskLevel
effect_levels effect =
    if same_text effect (codes "local")
    then RiskLevel.medium ∷ []
    else high_if (same_text effect (codes "external"))

unfoldable pub touches_protected :
    (List ℕ → List ℕ) → ToolRiskPolicy → List (List ℕ × ArgumentValue) → Bool
unfolding argument_paths is_protected_path
touches_protected casefold policy arguments =
    any (λ path. is_protected_path path policy.protected_paths) (argument_paths casefold arguments)

abbrev pub name_has : List ℕ → List (List ℕ) → Bool
name_has lowered words = any (contains ◌==◌ lowered) words

-- The levels that `calculate` appends to the base level
unfoldable pub levels : (List ℕ → List ℕ) → ToolRiskPolicy → ToolCall → List RiskLevel
levels casefold policy call =
    policy.repository_floor
    ∷ (effect_levels (casefold call.side_effect)
        ++ high_if (touches_protected casefold policy call.arguments)
        ++ high_if (name_has (casefold call.tool_name) removing)
        ++ high_if (name_has (casefold call.tool_name) publishing))

unfoldable pub calculate : (List ℕ → List ℕ) → ToolRiskPolicy → ToolCall → RiskLevel
unfolding maximum_risk levels
calculate casefold policy call = maximum_risk call.base (levels casefold policy call)
