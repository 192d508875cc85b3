-- ===== src/Planning/ToolRisk/Protected.antt =====
-- What `_is_protected_path` protects, policies/risk/policy_engine.py.
use autonomous_swe.Prelude.{
  ℕ, ◌≡◌, refl, ap, Bool, true, not, ◌&&◌, ◌||◌, List, [], ◌∷◌, ◌++◌, any, ◌==◌, where_true,
  Bool-cases, inl, inr, arith,
}
use autonomous_swe.Planning.Paths.{split, parts, prepend, is_dot, is_empty}
use autonomous_swe.Planning.ToolRisk.{
  same_text, starts_with, contains, clean, is_named, is_below, is_protected_path,
}

same_text_refl : (a : List ℕ) → same_text a a ≡ true
same_text_refl [] = refl
same_text_refl (c ∷ cs) = ground (arith, same_text_refl cs)

same_text-equal : (a b : List ℕ) → same_text a b ≡ true → a ≡ b
same_text-equal [] [] h = refl
same_text-equal (a ∷ left) (b ∷ right) h = grind (arith, same_text-equal left right, h)
same_text-equal [] (b ∷ right) h = ground (arith, h)
same_text-equal (a ∷ left) [] h = ground (arith, h)

where_true-append :
    {A : Type 0} (p : A → Bool) (xs ys : List A)
    → where_true p (xs ++ ys) ≡ where_true p xs ++ where_true p ys
where_true-append p [] ys = refl
where_true-append p (x ∷ xs) ys = elim (Bool-cases (p x)) [
  | inl e ↦ rw e (ap (λ rest. x ∷ rest) (where_true-append p xs ys))
  | inr e ↦ rw e (where_true-append p xs ys)
]

starts_with_refl : (a b : List (List ℕ)) → starts_with same_text (a ++ b) a ≡ true
starts_with_refl [] [] = refl
starts_with_refl [] (part ∷ rest) = refl
starts_with_refl (part ∷ rest) b = rw (same_text_refl part, starts_with_refl rest b) refl

starts_with_self : (a : List (List ℕ)) → starts_with same_text a a ≡ true
starts_with_self [] = refl
starts_with_self (part ∷ rest) = rw (same_text_refl part, starts_with_self rest) refl

prepend-append :
    (c d : ℕ) (xs ys : List (List ℕ))
    → prepend c (prepend d xs ++ ys) ≡ prepend c (prepend d xs) ++ ys
prepend-append c d [] ys = refl
prepend-append c d (x ∷ xs) ys = refl

prepend-split :
    (c : ℕ) (cs : List ℕ) (ys : List (List ℕ))
    → prepend c (split cs ++ ys) ≡ prepend c (split cs) ++ ys
unfolding split
prepend-split c [] ys = refl
prepend-split c (d ∷ ds) ys = elim (Bool-cases (d == b'/')) [
  | inl e ↦ rw e refl
  | inr e ↦ rw e (prepend-append c d (split ds) ys)
]

split-slash : (a b : List ℕ) → split (a ++ b'/' ∷ b) ≡ split a ++ split b
unfolding split
split-slash [] b = refl
split-slash (c ∷ cs) b = elim (Bool-cases (c == b'/')) [
  | inl e ↦ rw (e, split-slash cs b) refl
  | inr e ↦ rw (e, split-slash cs b) (prepend-split c cs (split b))
]

parts-slash : (a b : List ℕ) → parts (a ++ b'/' ∷ b) ≡ parts a ++ parts b
unfolding parts
parts-slash a b = rw (split-slash a b) (where_true-append _ (split a) (split b))

-- What follows the slash in a text that starts with another and a slash.
starts_with-rest :
    (text start : List ℕ)
    → starts_with ◌==◌ text (start ++ b'/' ∷ []) ≡ true
    → (rest : List ℕ) × (text ≡ start ++ b'/' ∷ rest)
starts_with-rest [] [] h = ([], ground (arith, h))
starts_with-rest [] (c ∷ cs) h = ([], ground (arith, h))
starts_with-rest (a ∷ text) [] h =
    let same : a ≡ b'/' = ground (arith, h) in (text, ap (λ c. c ∷ text) same)
starts_with-rest (a ∷ text) (c ∷ cs) h =
    let more = starts_with-rest text cs (ground (arith, h)) in
    let same : a ≡ c = ground (arith, h) in (more.0, cc)

starts_with-contains :
    (xs ys : List (List ℕ)) → starts_with same_text xs ys ≡ true → contains same_text xs ys ≡ true
starts_with-contains [] ys h = h
starts_with-contains (x ∷ xs) ys h = rw h refl

is_named-contains :
    (xs ys : List (List ℕ)) → is_named ys xs ≡ true → contains same_text xs ys ≡ true
is_named-contains xs [] h = ground (arith, h)
is_named-contains xs (y ∷ z ∷ ys) h = ground (arith, h)
is_named-contains [] (y ∷ []) h = h
is_named-contains (x ∷ xs) (y ∷ []) h = ground (arith, h, is_named-contains xs (y ∷ []))

same_text-contains :
    (path target : List ℕ)
    → same_text path target ≡ true
    → contains same_text (parts path) (parts target) ≡ true
same_text-contains path target h =
    let e = same_text-equal path target h in
    starts_with-contains (parts path) (parts target) (rw e (starts_with_self (parts target)))

starts_with-slash :
    (path target : List ℕ)
    → starts_with ◌==◌ path (target ++ b'/' ∷ []) ≡ true
    → contains same_text (parts path) (parts target) ≡ true
starts_with-slash path target h =
    let more = starts_with-rest path target h in
    starts_with-contains (parts path) (parts target)
      (rw (more.1, parts-slash target more.0) (starts_with_refl (parts target) (parts more.0)))

absorbs :
    (a b c d : Bool)
    → (a ≡ true → d ≡ true)
    → (b ≡ true → d ≡ true)
    → (c ≡ true → d ≡ true)
    → (a || b || c || d) ≡ d
absorbs a b c d f g h = ground (arith, f, g, h)

-- A path below a target has the parts of the target in a row.
is_below-contains :
    (path target : List ℕ)
    → is_below path target ≡ contains same_text (parts path) (parts (clean target))
unfolding is_below
is_below-contains path target =
    absorbs (same_text path (clean target)) (starts_with ◌==◌ path (clean target ++ b'/' ∷ []))
      (is_named (parts (clean target)) (parts path))
      (contains same_text (parts path) (parts (clean target)))
      (same_text-contains path (clean target)) (starts_with-slash path (clean target))
      (is_named-contains (parts path) (parts (clean target)))

-- Some target has its parts in a row in the parts of the path.
abbrev pub has_target : List ℕ → List (List ℕ) → Bool
has_target path targets =
    any (λ target. contains same_text (parts path) (parts (clean target))) targets

any_below :
    (path : List ℕ) (targets : List (List ℕ))
    → any (is_below path) targets ≡ has_target path targets
any_below path [] = refl
any_below path (target ∷ rest) = rw (is_below-contains path target, any_below path rest) refl

-- A path is protected exactly if it is not the root of the repository and the parts of some
-- protected target stand in a row among its own: the other tests of `_is_protected_path` find
-- nothing that this one does not.
pub is_protected_path-contains :
    (raw_path : List ℕ) (targets : List (List ℕ))
    → is_protected_path raw_path targets ≡ (
        not (is_empty (clean raw_path))
        && not (is_dot (clean raw_path))
        && has_target (clean raw_path) targets)
unfolding is_protected_path
is_protected_path-contains raw_path targets = rw (any_below (clean raw_path) targets) refl
