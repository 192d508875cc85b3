-- ===== src/Prelude/Lists.antt =====
-- Lists measured by native numbers and filtered by Boolean tests.
use Prim.Native.Nat.{ℕ, zero, suc, ◌+◌}
use mathlib.Core.Path.{◌≡◌, refl, ap}
use mathlib.Core.Bool.{Bool, true, false, not, ◌&&◌, ◌||◌}
use mathlib.Core.List.{List, [], ◌∷◌, ◌++◌}
use native.Mathlib.Omega.{arith}
use mathlib.Core.Logic.{◌⊎◌, inl, inr}
use autonomous_swe.Prelude.Tests.{◌==◌, if◌then◌else◌, Bool-cases}

module _ {ℓ} {A : Type ℓ} where
  abbrev pub length : List A → ℕ
  length [] = 0
  length (x ∷ xs) = suc (length xs)

  abbrev pub take : ℕ → List A → List A
  take zero xs = []
  take (suc n) [] = []
  take (suc n) (x ∷ xs) = x ∷ take n xs

  -- The rows, in order, that pass a test.
  abbrev pub where_true : (A → Bool) → List A → List A
  where_true p [] = []
  where_true p (x ∷ xs) = if p x then x ∷ where_true p xs else where_true p xs

  abbrev pub any : (A → Bool) → List A → Bool
  any p [] = false
  any p (x ∷ xs) = p x || any p xs

  abbrev pub all : (A → Bool) → List A → Bool
  all p [] = true
  all p (x ∷ xs) = p x && all p xs

  -- `ORDER BY`: insertion before the first row that does not precede.
  abbrev pub insert_by : (A → A → Bool) → A → List A → List A
  insert_by precedes a [] = a ∷ []
  insert_by precedes a (x ∷ xs) = if precedes a x then a ∷ x ∷ xs else x ∷ insert_by precedes a xs

  abbrev pub sort_by : (A → A → Bool) → List A → List A
  sort_by precedes [] = []
  sort_by precedes (x ∷ xs) = insert_by precedes x (sort_by precedes xs)

  pub length-append : (xs ys : List A) → length (xs ++ ys) ≡ length xs + length ys
  length-append [] ys = omega arith
  length-append (x ∷ xs) ys = omega (arith, length-append xs ys)

module _ {ℓ} {A : Type ℓ} where
  -- Every item passes a test.
  abbrev pub AllTrue : (A → Bool) → List A → Type 0
  AllTrue p [] = Unit
  AllTrue p (x ∷ xs) = (p x ≡ true) × AllTrue p xs

  module _ (p q : A → Bool) (weaker : (x : A) → p x ≡ true → q x ≡ true) where
    pub where_true-AllTrue : (xs : List A) → AllTrue q (where_true p xs)
    where_true-AllTrue [] = tt
    where_true-AllTrue (x ∷ xs) = elim (Bool-cases (p x)) [
      | inl e ↦ rw e (weaker x e, where_true-AllTrue xs)
      | inr e ↦ rw e (where_true-AllTrue xs)
    ]

  module _ (p : A → Bool) where
    pub where_true_of-AllTrue :
        (q : A → Bool) (xs : List A) → AllTrue p xs → AllTrue p (where_true q xs)
    where_true_of-AllTrue q [] h = tt
    where_true_of-AllTrue q (x ∷ xs) h = elim (Bool-cases (q x)) [
      | inl e ↦ rw e (h.0, where_true_of-AllTrue q xs h.1)
      | inr e ↦ rw e (where_true_of-AllTrue q xs h.1)
    ]

    insert_by-AllTrue :
        (precedes : A → A → Bool) (a : A) (xs : List A)
        → p a ≡ true
        → AllTrue p xs
        → AllTrue p (insert_by precedes a xs)
    insert_by-AllTrue precedes a [] e h = (e, tt)
    insert_by-AllTrue precedes a (x ∷ xs) e h = elim (Bool-cases (precedes a x)) [
      | inl c ↦ rw c (e, h)
      | inr c ↦ rw c (h.0, insert_by-AllTrue precedes a xs e h.1)
    ]

    pub sort_by-AllTrue :
        (precedes : A → A → Bool) (xs : List A) → AllTrue p xs → AllTrue p (sort_by precedes xs)
    sort_by-AllTrue precedes [] h = tt
    sort_by-AllTrue precedes (x ∷ xs) h =
        insert_by-AllTrue precedes x (sort_by precedes xs) h.0 (sort_by-AllTrue precedes xs h.1)

    pub take-AllTrue : (n : ℕ) (xs : List A) → AllTrue p xs → AllTrue p (take n xs)
    take-AllTrue zero xs h = tt
    take-AllTrue (suc n) [] h = tt
    take-AllTrue (suc n) (x ∷ xs) h = (h.0, take-AllTrue n xs h.1)

-- A test that some item passes, in the order of a query and under its limit.
module _ {ℓ} {A : Type ℓ} (p : A → Bool) where
  any-insert_by :
      (precedes : A → A → Bool) (a : A) (xs : List A)
      → any p (insert_by precedes a xs) ≡ (p a || any p xs)
  any-insert_by precedes a [] = refl
  any-insert_by precedes a (x ∷ xs) = elim (Bool-cases (precedes a x)) [
    | inl e ↦ rw e refl
    | inr e ↦ rw (e, any-insert_by precedes a xs) (ground arith)
  ]

  pub any-sort_by : (precedes : A → A → Bool) (xs : List A) → any p (sort_by precedes xs) ≡ any p xs
  any-sort_by precedes [] = refl
  any-sort_by precedes (x ∷ xs) =
      rw (any-insert_by precedes x (sort_by precedes xs), any-sort_by precedes xs) refl

  pub any-take :
      (n : ℕ) (xs : List A)
      → any p xs ≡ true
      → (any p (take n xs) ≡ true) ⊎ (length (take n xs) ≡ n)
  any-take zero xs h = inr refl
  any-take (suc n) [] h = cc
  any-take (suc n) (x ∷ xs) h = elim (Bool-cases (p x)) [
    | inl e ↦ inl (rw e refl)
    | inr e ↦ elim (any-take n xs (rw e at h)) [
      | inl found ↦ inl (rw (e, found) refl)
      | inr full ↦ inr (ap (λ m. suc m) full)
    ]
  ]

abbrev pub elem : ℕ → List ℕ → Bool
elem x l = any (λ y. y == x) l

-- `len(set(ids)) == len(ids)`
abbrev pub unique : List ℕ → Bool
unique [] = true
unique (x ∷ xs) = not (elem x xs) && unique xs
