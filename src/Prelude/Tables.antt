-- ===== src/Prelude/Tables.antt =====
-- A database table with a unique column: an association list from that column to the row.
use Prim.Native.Nat.{ℕ, zero, suc}
use mathlib.Core.Path.{◌≡◌, refl}
use mathlib.Core.Bool.{Bool, true, false}
use mathlib.Core.Option.{Option, none, some}
use mathlib.Core.List.{List, [], ◌∷◌}
use native.Mathlib.Omega.{arith}
use mathlib.Core.Logic.{inl, inr}
use autonomous_swe.Prelude.Tests.{◌==◌, if◌then◌else◌, Bool-cases, ==→eq}
use autonomous_swe.Prelude.Lists.{take, where_true, insert_by, sort_by}

abbrev pub Table {ℓ} : Type ℓ → Type ℓ
Table V = List (ℕ × V)

abbrev pub is_some {ℓ} : {A : Type ℓ} → Option A → Bool
is_some none = false
is_some (some a) = true

module _ {ℓ} {V : Type ℓ} where
  unfoldable pub get : ℕ → Table V → Option V
  get k [] = none
  get k ((j, v) ∷ t) = if j == k then some v else get k t

  -- `UPDATE` of the row with this key; a new key is an `INSERT` at the end.
  unfoldable pub put : ℕ → V → Table V → Table V
  put k v [] = (k, v) ∷ []
  put k v ((j, w) ∷ t) = if j == k then (k, v) ∷ t else (j, w) ∷ put k v t

  unfoldable pub remove : ℕ → Table V → Table V
  remove k [] = []
  remove k ((j, w) ∷ t) = let rest = remove k t in if j == k then rest else (j, w) ∷ rest

  pub get-put :
      (k j : ℕ) (v : V) (t : Table V) → get j (put k v t) ≡ (if k == j then some v else get j t)
  unfolding get put
  get-put k j v [] = refl
  get-put k j v ((i, w) ∷ t) = ground (arith, get-put k j v t)

  pub get-remove : (k j : ℕ) (t : Table V) → get j (remove k t) ≡ (if k == j then none else get j t)
  unfolding get remove
  get-remove k j [] = ground arith
  get-remove k j ((i, w) ∷ t) = ground (arith, get-remove k j t)

pub ruleset table_laws = (get-put, get-remove)

module _ {ℓ} {V : Type ℓ} where
  -- No key occurs twice.
  abbrev pub Distinct : Table V → Type ℓ
  Distinct [] = Unit
  Distinct ((k, v) ∷ t) = (get k t ≡ none) × Distinct t

  -- A result of a query: distinct keys, each with the row that the table has for it.
  abbrev pub Listed : Table V → Table V → Type ℓ
  Listed table [] = Unit
  Listed table ((k, v) ∷ t) = (get k table ≡ some v) × (get k t ≡ none) × Listed table t

  get-put-none :
      (k j : ℕ) (v : V) (t : Table V) → get j t ≡ none → (k == j) ≡ false → get j (put k v t) ≡ none
  get-put-none k j v t h e = rw (get-put, e) h

  pub put-Distinct : (k : ℕ) (v : V) (t : Table V) → Distinct t → Distinct (put k v t)
  unfolding get put
  put-Distinct k v [] h = (refl, tt)
  put-Distinct k v ((j, w) ∷ t) h = elim (Bool-cases (j == k)) [
    | inl e ↦ rw e (rw (==→eq j k e) at h.0, h.1)
    | inr e ↦ rw e (get-put-none k j v t h.0 (ground arith), put-Distinct k v t h.1)
  ]

  -- Rows under other keys may be added below a list of rows,
  Listed-cons :
      (k : ℕ) (v : V) (table t : Table V)
      → get k t ≡ none
      → Listed table t
      → Listed ((k, v) ∷ table) t
  unfolding get
  Listed-cons k v table [] h l = tt
  Listed-cons k v table ((j, w) ∷ t) h l =
      (ground arith, l.1, Listed-cons k v table t (ground arith) l.2)

  -- so a table lists itself.
  pub Listed-self : (t : Table V) → Distinct t → Listed t t
  unfolding get
  Listed-self [] h = tt
  Listed-self ((k, v) ∷ t) h = (ground arith, h.0, Listed-cons k v t t h.0 (Listed-self t h.1))

  get-where_true-none :
      (q : ℕ × V → Bool) (k : ℕ) (t : Table V) → get k t ≡ none → get k (where_true q t) ≡ none
  unfolding get
  get-where_true-none q k [] h = refl
  get-where_true-none q k ((j, w) ∷ t) h = ground (arith, get-where_true-none q k t)

  pub where_true-Listed :
      (q : ℕ × V → Bool) (table t : Table V) → Listed table t → Listed table (where_true q t)
  where_true-Listed q table [] l = tt
  where_true-Listed q table ((k, v) ∷ t) l = elim (Bool-cases (q (k, v))) [
    | inl e ↦ rw e (l.0, get-where_true-none q k t l.1, where_true-Listed q table t l.2)
    | inr e ↦ rw e (where_true-Listed q table t l.2)
  ]

  get-insert_by-none :
      (precedes : ℕ × V → ℕ × V → Bool) (k j : ℕ) (v : V) (t : Table V)
      → get k t ≡ none
      → (j == k) ≡ false
      → get k (insert_by precedes (j, v) t) ≡ none
  unfolding get
  get-insert_by-none precedes k j v [] h e = ground arith
  get-insert_by-none precedes k j v ((i, w) ∷ t) h e =
      ground (arith, get-insert_by-none precedes k j v t)

  insert_by-Listed :
      (precedes : ℕ × V → ℕ × V → Bool) (k : ℕ) (v : V) (table t : Table V)
      → get k table ≡ some v
      → get k t ≡ none
      → Listed table t
      → Listed table (insert_by precedes (k, v) t)
  unfolding get
  insert_by-Listed precedes k v table [] found h l = (found, refl, tt)
  insert_by-Listed precedes k v table ((i, w) ∷ t) found h l =
      elim (Bool-cases (precedes (k, v) (i, w))) [
        | inl e ↦ rw e (found, h, l)
        | inr e ↦ rw e (
          l.0,
          get-insert_by-none precedes i k v t l.1 (ground arith),
          insert_by-Listed precedes k v table t found (ground arith) l.2,
        )
      ]

  get-sort_by-none :
      (precedes : ℕ × V → ℕ × V → Bool) (k : ℕ) (t : Table V)
      → get k t ≡ none
      → get k (sort_by precedes t) ≡ none
  unfolding get
  get-sort_by-none precedes k [] h = refl
  get-sort_by-none precedes k ((j, w) ∷ t) h =
      get-insert_by-none precedes k j w (sort_by precedes t)
        (get-sort_by-none precedes k t (ground arith)) (ground arith)

  pub sort_by-Listed :
      (precedes : ℕ × V → ℕ × V → Bool) (table t : Table V)
      → Listed table t
      → Listed table (sort_by precedes t)
  sort_by-Listed precedes table [] l = tt
  sort_by-Listed precedes table ((k, v) ∷ t) l =
      insert_by-Listed precedes k v table (sort_by precedes t) l.0
        (get-sort_by-none precedes k t l.1) (sort_by-Listed precedes table t l.2)

  get-take-none : (n k : ℕ) (t : Table V) → get k t ≡ none → get k (take n t) ≡ none
  unfolding get
  get-take-none zero k t h = refl
  get-take-none (suc n) k [] h = refl
  get-take-none (suc n) k ((j, w) ∷ t) h = ground (arith, get-take-none n k t)

  pub take-Listed : (n : ℕ) (table t : Table V) → Listed table t → Listed table (take n t)
  take-Listed zero table t l = tt
  take-Listed (suc n) table [] l = tt
  take-Listed (suc n) table ((k, v) ∷ t) l =
      (l.0, get-take-none n k t l.1, take-Listed n table t l.2)

  -- An update of one row leaves a list of the others as it was.
  pub put-Listed :
      (k : ℕ) (v : V) (table t : Table V)
      → get k t ≡ none
      → Listed table t
      → Listed (put k v table) t
  unfolding get
  put-Listed k v table [] h l = tt
  put-Listed k v table ((j, w) ∷ t) h l =
      (rw get-put (ground arith), l.1, put-Listed k v table t (ground arith) l.2)
