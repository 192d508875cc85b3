-- ===== src/Planning/Counting.antt =====
-- Occurrences in a list, for the orders that planning/validator.py computes.
use autonomous_swe.Prelude.{
  elem, ℕ, suc, ◌+◌, ◌≡◌, ◌<◌, refl, ap, Bool, true, false, not, List, [], ◌∷◌, ◌++◌, length,
  where_true, ◌==◌, leb, ==→eq, ==_refl, if◌then◌else◌, all, Bool-cases, inl, inr, insert_by,
  sort_by, arith,
}

-- How often an identifier stands in a list.
abbrev pub count : (task_id : ℕ) (ids : List ℕ) → ℕ
count task_id [] = 0
count task_id (id ∷ rest) = (if id == task_id then 1 else 0) + count task_id rest

pub count-append :
    (task_id : ℕ) (placed more : List ℕ)
    → count task_id (placed ++ more) ≡ count task_id placed + count task_id more
count-append task_id [] more = omega arith
count-append task_id (id ∷ placed) more =
    let rest = count-append task_id placed more in ground (arith, rest)

pub count-insert_by :
    (a x : ℕ) (xs : List ℕ) → count a (insert_by leb x xs) ≡ (if x == a then 1 else 0) + count a xs
count-insert_by a x [] = refl
count-insert_by a x (y ∷ ys) = ground (arith, count-insert_by a x ys)

pub count-sort_by : (a : ℕ) (xs : List ℕ) → count a (sort_by leb xs) ≡ count a xs
count-sort_by a [] = refl
count-sort_by a (x ∷ xs) = omega (arith, count-insert_by a x (sort_by leb xs), count-sort_by a xs)

pub count-where_true :
    (p : ℕ → Bool) (a : ℕ) (xs : List ℕ)
    → count a (where_true p xs) ≡ (if p a then count a xs else 0)
count-where_true p a [] = ground arith
count-where_true p a (x ∷ xs) = elim (Bool-cases (x == a)) [
  | inl e ↦ rw (==→eq x a e) (ground (arith, count-where_true p a xs, ==_refl a))
  | inr e ↦ rw e (ground (arith, count-where_true p a xs))
]

pub elem_of_count : (a : ℕ) (xs : List ℕ) → 0 < count a xs → elem a xs ≡ true
elem_of_count a (x ∷ xs) h = ground (arith, elem_of_count a xs)
elem_of_count a [] h = absurd (omega arith)

pub count_of_elem : (a : ℕ) (xs : List ℕ) → elem a xs ≡ true → 0 < count a xs
count_of_elem a [] h = ground arith
count_of_elem a (x ∷ xs) h = ground (arith, count_of_elem a xs)

pub count-eq-zero : (a : ℕ) (xs : List ℕ) → elem a xs ≡ false → count a xs ≡ 0
count-eq-zero a [] h = refl
count-eq-zero a (x ∷ xs) h = ground (arith, count-eq-zero a xs)

-- How many items of `xs` are not among `placed`.
abbrev pub missing : List ℕ → List ℕ → ℕ
missing placed xs = length (where_true (λ x. not (elem x placed)) xs)

pub elem-snoc :
    (a x : ℕ) (xs : List ℕ) → elem a (xs ++ x ∷ []) ≡ (if x == a then true else elem a xs)
elem-snoc a x [] = ground arith
elem-snoc a x (y ∷ ys) = ground (arith, elem-snoc a x ys)

pub missing-snoc :
    (placed : List ℕ) (x : ℕ) (xs : List ℕ)
    → elem x placed ≡ false
    → missing (placed ++ x ∷ []) xs + count x xs ≡ missing placed xs
missing-snoc placed x [] h = refl
missing-snoc placed x (y ∷ ys) h = elim (Bool-cases (x == y)) [
  | inl e ↦
      let same : x ≡ y = ==→eq x y e in
      rw (elem-snoc y x placed)
        (ground (arith, missing-snoc placed x ys h, ap (λ k. elem k placed) same))
  | inr e ↦ rw (elem-snoc y x placed, e) (ground (arith, missing-snoc placed x ys h))
]

pub missing-nil : (xs : List ℕ) → missing [] xs ≡ length xs
missing-nil [] = refl
missing-nil (x ∷ xs) = ap suc (missing-nil xs)

pub all_elim : (q : ℕ → Bool) (l : List ℕ) → all q l ≡ true → (y : ℕ) → elem y l ≡ true → q y ≡ true
all_elim q [] h y e = ground (arith, e)
all_elim q (x ∷ xs) h y e = elim (Bool-cases (x == y)) [
  | inl s ↦ ground (arith, h, ap q (==→eq x y s))
  | inr s ↦ all_elim q xs (ground (arith, h)) y (ground (arith, e, s))
]
