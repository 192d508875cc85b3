-- ===== src/Planning/Validator/Duplicates.antt =====
-- `duplicate_ids`, planning/validator.py, is empty when no identifier occurs twice.
use autonomous_swe.Prelude.{
  elem, unique, ℕ, ◌≡◌, refl, ap, Bool, true, false, not, ◌&&◌, ◌||◌, List, [], ◌∷◌, ◌==◌, leb,
  insert_by, Bool-cases, inl, inr, arith,
}
use autonomous_swe.Planning.Validator.{is_empty, duplicate_ids}

-- Identifiers that stand among those seen, or twice.
abbrev pub fresh : List ℕ → List ℕ → Bool
fresh seen [] = true
fresh seen (k ∷ ks) = not (elem k seen) && fresh (k ∷ seen) ks

insert_by-not_empty : (k : ℕ) (l : List ℕ) → is_empty (insert_by leb k l) ≡ false
insert_by-not_empty k [] = refl
insert_by-not_empty k (x ∷ xs) = elim (Bool-cases (leb k x)) [
  | inl e ↦ rw e refl
  | inr e ↦ rw e refl
]

elem-not_empty : (k : ℕ) (l : List ℕ) → elem k l ≡ true → is_empty l ≡ false
elem-not_empty k [] h = ground (arith, h)
elem-not_empty k (x ∷ xs) h = refl

pub duplicate_ids-empty : (seen ks : List ℕ) → is_empty (duplicate_ids seen ks) ≡ fresh seen ks
unfolding duplicate_ids
duplicate_ids-empty seen [] = refl
duplicate_ids-empty seen (k ∷ ks) =
    let rest = duplicate_ids (k ∷ seen) ks in
    ground
      (arith, duplicate_ids-empty (k ∷ seen) ks, elem-not_empty k rest, insert_by-not_empty k rest)

or_swap : (a b c : Bool) → (a || (b || c)) ≡ (b || (a || c))
or_swap a b c = ground arith

==_sym : (a b : ℕ) → (a == b) ≡ (b == a)
==_sym a b = ground arith

regroup_fresh :
    (kj e k f jk : Bool)
    → kj ≡ jk
    → (not (kj || e) && (not k && f)) ≡ (not (jk || k) && (not e && f))
regroup_fresh kj e k f jk h = ground arith

fresh_of :
    (seen others ks : List ℕ)
    → ((x : ℕ) → elem x seen ≡ elem x others)
    → fresh seen ks ≡ fresh others ks
fresh_of seen others [] h = refl
fresh_of seen others (k ∷ ks) h =
    rw (h k, fresh_of (k ∷ seen) (k ∷ others) ks (λ x. ap (λ b. k == x || b) (h x))) refl

fresh-step : (seen ks : List ℕ) (k : ℕ) → fresh (k ∷ seen) ks ≡ (not (elem k ks) && fresh seen ks)
fresh-step seen [] k = refl
fresh-step seen (j ∷ ks) k =
    rw
      (
        fresh_of (j ∷ k ∷ seen) (k ∷ j ∷ seen) ks (λ x. or_swap (j == x) (k == x) (elem x seen)),
        fresh-step (j ∷ seen) ks k,
      )
      (regroup_fresh (k == j) (elem j seen) (elem k ks) (fresh (j ∷ seen) ks) (j == k) (==_sym k j))

pub fresh-unique : (ks : List ℕ) → fresh [] ks ≡ unique ks
fresh-unique [] = refl
fresh-unique (k ∷ ks) = rw (fresh-step [] ks k, fresh-unique ks) refl
