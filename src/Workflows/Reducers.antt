-- ===== src/Workflows/Reducers.antt =====
-- The reducers of workflows/state.py, which merge what a node returns, or returns again on a replay,
-- into the state. A text is the number of its kind; a result of a dispatch is its task and the rest.
use autonomous_swe.Prelude.{
  elem, ℕ, ◌≡◌, refl, sym, ap, subst, ◌∙◌, Bool, true, false, not, Option, none, some, List, [],
  ◌∷◌, ◌++◌, ◌||◌, ◌==◌, ==→eq, ==_refl, if◌then◌else◌, Table, get, put, get-put, Bool-cases, inl,
  inr, arith,
}
use mathlib.Core.List.{append_assoc, append-nil}

-- `known` is the set of the members of `result`.
unfoldable pub merge_unique : List ℕ → List ℕ → List ℕ
merge_unique result [] = result
merge_unique result (value ∷ rest) =
    merge_unique (if elem value result then result else result ++ value ∷ []) rest

-- A dispatch result without its task.
abbrev pub Outcome : Type 0
Outcome = ℕ

abbrev index : List (ℕ × Outcome) → Table Outcome → Table Outcome
index [] by_task = by_task
index ((task_id, item) ∷ rest) by_task = index rest (put task_id item by_task)

-- `existing is not None and existing != item`
abbrev conflicts : Option Outcome → Outcome → Bool
conflicts none item = false
conflicts (some existing) item = not (existing == item)

-- `none` is the `ValueError` of a conflicting replay.
unfoldable pub merge_into : Table Outcome → List (ℕ × Outcome) → Option (Table Outcome)
merge_into by_task [] = some by_task
merge_into by_task ((task_id, item) ∷ rest) =
    let merged = merge_into (put task_id item by_task) rest in
    if conflicts (get task_id by_task) item then none else merged

unfoldable pub merge_dispatch_results :
    List (ℕ × Outcome) → List (ℕ × Outcome) → Option (List (ℕ × Outcome))
unfolding merge_into
merge_dispatch_results left right = merge_into (index left []) right

elem-append : (a : ℕ) (xs ys : List ℕ) → elem a (xs ++ ys) ≡ (if elem a xs then true else elem a ys)
elem-append a [] ys = refl
elem-append a (x ∷ xs) ys = ground (arith, elem-append a xs ys)

-- Every item of a list is in another.
abbrev pub Within : List ℕ → List ℕ → Type 0
Within [] l = Unit
Within (x ∷ xs) l = (elem x l ≡ true) × Within xs l

-- Nothing is added that is there.
merge_unique_known : (l xs : List ℕ) → Within xs l → merge_unique l xs ≡ l
unfolding merge_unique
merge_unique_known l [] h = refl
merge_unique_known l (x ∷ xs) h = rw h.0 (merge_unique_known l xs h.1)

-- The result begins with the left list.
merge_unique_extends : (l xs : List ℕ) → (rest : List ℕ) × (merge_unique l xs ≡ l ++ rest)
unfolding merge_unique
merge_unique_extends l [] = ([], sym (append-nil l))
merge_unique_extends l (x ∷ xs) = elim (Bool-cases (elem x l)) [
  | inl e ↦ rw e (merge_unique_extends l xs)
  | inr e ↦
      let (rest, same) = merge_unique_extends (l ++ x ∷ []) xs in
      rw e (x ∷ rest, same ∙ append_assoc l (x ∷ []) rest)
]

kept :
    (a x : ℕ) (l : List ℕ) (b : Bool)
    → elem x l ≡ true
    → (if elem a l then true else b) ≡ (if elem a l then true else (x == a || b))
kept a x l b e = elim (Bool-cases (x == a)) [
  | inl s ↦ ground (arith, s, e, ap (λ k. elem k l) (==→eq x a s))
  | inr s ↦ rw s refl
]

elem-merge_unique :
    (a : ℕ) (l xs : List ℕ) → elem a (merge_unique l xs) ≡ (if elem a l then true else elem a xs)
unfolding merge_unique
elem-merge_unique a l [] = ground arith
elem-merge_unique a l (x ∷ xs) = elim (Bool-cases (elem x l)) [
  | inl e ↦ rw (e, elem-merge_unique a l xs) (kept a x l (elem a xs) e)
  | inr e ↦ rw (e, elem-merge_unique a (l ++ x ∷ []) xs, elem-append a l (x ∷ [])) (ground arith)
]

Within-of : (xs l : List ℕ) → ((a : ℕ) → elem a xs ≡ true → elem a l ≡ true) → Within xs l
Within-of [] l h = tt
Within-of (x ∷ xs) l h =
    (h x (rw (==_refl x) refl), Within-of xs l (λ a e. h a (ground (arith, e))))

merge_unique-Within : (l xs : List ℕ) → Within xs (merge_unique l xs)
merge_unique-Within l xs =
    Within-of xs (merge_unique l xs) λ a e. ground (arith, e, elem-merge_unique a l xs)

-- A node that is replayed adds nothing: merging a list in a second time changes nothing, what was
-- there keeps its place, and an item is in the result exactly when one of the lists has it.
pub merge_unique_replay :
    (left right : List ℕ) (a : ℕ)
    → (merge_unique (merge_unique left right) right ≡ merge_unique left right)
      × ((rest : List ℕ) × (merge_unique left right ≡ left ++ rest))
      × (elem a (merge_unique left right) ≡ (if elem a left then true else elem a right))
merge_unique_replay left right a = (
  merge_unique_known (merge_unique left right) right (merge_unique-Within left right),
  merge_unique_extends left right,
  elem-merge_unique a left right,
)

module _ (k : ℕ) (v : Outcome) where
  kept_by_put :
      (t : Table Outcome) (j : ℕ) (item : Outcome)
      → get k t ≡ some v
      → conflicts (get j t) item ≡ false
      → get k (put j item t) ≡ some v
  kept_by_put t j item found agrees = elim (Bool-cases (j == k)) [
    | inl s ↦
        let same : get j t ≡ some v = rw (==→eq j k s) found in
        rw (get-put, s) (agreed (rw same at agrees))
    | inr s ↦ rw (get-put, s) found
  ]
    where
      agreed : not (v == item) ≡ false → some item ≡ some v
      agreed h = ap some (sym (==→eq v item (ground (arith, h))))

  merge_into_keeps :
      (t u : Table Outcome) (xs : List (ℕ × Outcome))
      → get k t ≡ some v
      → merge_into t xs ≡ some u
      → get k u ≡ some v
  unfolding merge_into
  merge_into_keeps t u [] found h =
      let same : t ≡ u = cc h in subst (λ x. get k x ≡ some v) same found
  merge_into_keeps t u ((j, item) ∷ xs) found h = elim (Bool-cases (conflicts (get j t) item)) [
    | inl clash ↦ absurd (cc (rw clash at h))
    | inr agrees ↦
        merge_into_keeps (put j item t) u xs (kept_by_put t j item found agrees) (rw agrees at h)
  ]

-- A merge of dispatch results that is accepted keeps every result that was recorded for a task.
pub merge_dispatch_results_keeps :
    (left right merged : List (ℕ × Outcome)) (task_id : ℕ) (item : Outcome)
    → get task_id (index left []) ≡ some item
    → merge_dispatch_results left right ≡ some merged
    → get task_id merged ≡ some item
unfolding merge_dispatch_results
merge_dispatch_results_keeps left right merged task_id item found h =
    merge_into_keeps task_id item (index left []) merged right found h
