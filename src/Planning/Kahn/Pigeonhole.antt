-- ===== src/Planning/Kahn/Pigeonhole.antt =====
-- Lists of numbers in which nothing occurs twice, for the orders of planning/validator.py.
use autonomous_swe.Prelude.{
  ℕ, ◌+◌, ◌≡◌, ◌≤◌, ◌<◌, refl, ◌∙◌, List, [], ◌∷◌, length, ◌==◌, arith, Bool-cases, inl, inr, ==→eq,
  ==_refl,
}
use autonomous_swe.Planning.Counting.{count}

abbrev sum_counts : List ℕ → List ℕ → ℕ
sum_counts l [] = 0
sum_counts l (k ∷ ks) = count k l + sum_counts l ks

sum_counts-nil : (ks : List ℕ) → sum_counts [] ks ≡ 0
sum_counts-nil [] = refl
sum_counts-nil (k ∷ ks) = omega (arith, sum_counts-nil ks)

sum_counts-cons : (x : ℕ) (l ks : List ℕ) → sum_counts (x ∷ l) ks ≡ count x ks + sum_counts l ks
sum_counts-cons x l [] = omega arith
sum_counts-cons x l (k ∷ ks) = ground (arith, sum_counts-cons x l ks)

sum_counts-eq-length :
    (l ks : List ℕ) → ((z : ℕ) → 0 < count z l → count z ks ≡ 1) → sum_counts l ks ≡ length l
sum_counts-eq-length [] ks h = sum_counts-nil ks
sum_counts-eq-length (x ∷ l) ks h = omega (
  arith,
  sum_counts-cons x l ks,
  h x (rw (==_refl x) (omega arith)),
  sum_counts-eq-length l ks (λ z p. h z (omega arith)),
)

sum_counts-le-length : (l ks : List ℕ) → ((z : ℕ) → count z l ≤ 1) → sum_counts l ks ≤ length ks
sum_counts-le-length l [] h = omega arith
sum_counts-le-length l (k ∷ ks) h = omega (arith, h k, sum_counts-le-length l ks h)

sum_counts_full :
    (l ks : List ℕ) (z : ℕ)
    → ((j : ℕ) → count j l ≤ 1)
    → sum_counts l ks ≡ length ks
    → 0 < count z ks
    → count z l ≡ 1
sum_counts_full l [] z h e p = absurd (omega arith)
sum_counts_full l (k ∷ ks) z h e p = elim (Bool-cases (k == z)) [
  | inl s ↦ ground (arith, h k, ==→eq k z s, sum_counts-le-length l ks h)
  | inr s ↦
      sum_counts_full l ks z h (omega (arith, h k, sum_counts-le-length l ks h))
        (omega (arith, rw s at p))
]

-- A list within another is no longer,
pub length-le_of_count :
    (l ks : List ℕ)
    → ((z : ℕ) → count z l ≤ 1)
    → ((z : ℕ) → 0 < count z l → count z ks ≡ 1)
    → length l ≤ length ks
length-le_of_count l ks h k =
    omega (arith, sum_counts-eq-length l ks k, sum_counts-le-length l ks h)

-- and as long only if it has all its items.
pub count_of_length :
    (l ks : List ℕ) (z : ℕ)
    → ((j : ℕ) → count j l ≤ 1)
    → ((j : ℕ) → 0 < count j l → count j ks ≡ 1)
    → length l ≡ length ks
    → 0 < count z ks
    → count z l ≡ 1
count_of_length l ks z h k e p = sum_counts_full l ks z h (sum_counts-eq-length l ks k ∙ e) p
