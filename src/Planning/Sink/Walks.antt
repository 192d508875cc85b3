-- ===== src/Planning/Sink/Walks.antt =====
-- The `while` loop of `ancestors`, planning/validator.py: it ends, and finds dependencies only.
use autonomous_swe.Prelude.{
  elem, ℕ, zero, suc, ◌+◌, ◌≡◌, ◌≤◌, refl, ap, sym, true, false, ◌||◌, Option, none, some, List, [],
  ◌∷◌, ◌++◌, length, length-append, ◌==◌, ==→eq, ==_refl, Table, get, is_some, Bool-cases, inl, inr,
  subst, arith,
}
use mathlib.Core.List.{reverse, reverse_aux}
use autonomous_swe.Planning.Models.{TaskSpec}
use autonomous_swe.Planning.Kahn.{planned}
use autonomous_swe.Planning.Sink.{Walk, extend, walk_step, walk, named_beside, begin, ancestors}

length-reverse_aux : (l r : List ℕ) → length (reverse_aux l r) ≡ length l + length r
length-reverse_aux [] r = omega arith
length-reverse_aux (x ∷ l) r = omega (arith, length-reverse_aux l (x ∷ r))

pub elem-reverse_aux : (y : ℕ) (l r : List ℕ) → elem y (reverse_aux l r) ≡ (elem y l || elem y r)
elem-reverse_aux y [] r = refl
elem-reverse_aux y (x ∷ l) r = ground (arith, elem-reverse_aux y l (x ∷ r))

pub elem-append : (y : ℕ) (l r : List ℕ) → elem y (l ++ r) ≡ (elem y l || elem y r)
elem-append y [] r = refl
elem-append y (x ∷ l) r = ground (arith, elem-append y l r)

named_beside-cons :
    (d : ℕ) (found : List ℕ) (tasks : Table TaskSpec)
    → named_beside (d ∷ found) tasks ≤ named_beside found tasks
named_beside-cons d found [] = omega arith
named_beside-cons d found ((k, t) ∷ ts) = ground (arith, named_beside-cons d found ts)

named_beside_found :
    (d : ℕ) (found : List ℕ) (tasks : Table TaskSpec) (task : TaskSpec)
    → elem d found ≡ false
    → get d tasks ≡ some task
    → named_beside (d ∷ found) tasks + length task.dependencies ≤ named_beside found tasks
unfolding get
named_beside_found d found [] task new e = absurd (cc e)
named_beside_found d found ((k, t) ∷ ts) task new e = elim (Bool-cases (k == d)) [
  | inl s ↦
      let same : t ≡ task = cc (rw s at e) in
      let same_key : k ≡ d = ==→eq k d s in
      ground (
        arith,
        new,
        ap (λ j. elem j found) same_key,
        same_key,
        ap (λ (x : TaskSpec). length x.dependencies) same,
        named_beside-cons d found ts,
      )
  | inr s ↦
      ground
        (arith, s, named_beside_found d found ts task new (rw s at e), named_beside-cons d found ts)
]

-- What is left to go through.
abbrev pub left_over : Table TaskSpec → Walk → ℕ
left_over tasks s = length s.pending + named_beside s.found tasks

-- Everything to go through is in the plan.
abbrev pub Known : Table TaskSpec → List ℕ → Type 0
Known tasks l = (y : ℕ) → elem y l ≡ true → planned tasks y ≡ true

abbrev pub Ends : Option Walk → Type 0
Ends none = ⊥
Ends (some t) = t.pending ≡ []

module _ (tasks : Table TaskSpec)
    (known : (k : ℕ) (task : TaskSpec)
      → get k tasks ≡ some task
      → Known tasks task.dependencies) where
  abbrev Next : Walk → Option Walk → Type 0
  Next s none = ⊥
  Next s (some t) = (suc (left_over tasks t) ≤ left_over tasks s) × Known tasks t.pending

  walk_step-Next :
      (s : Walk) (d : ℕ) (rest : List ℕ)
      → s.pending ≡ d ∷ rest
      → Known tasks s.pending
      → Next s (walk_step tasks s (d ∷ rest))
  unfolding walk_step
  walk_step-Next s d rest e k = elim (Bool-cases (elem d s.found)) [
    | inl old ↦ rw old (omega (arith, ap length e), λ y h. k y (rw e (ground (arith, h))))
    | inr new ↦ rw new (go new (get d tasks) refl)
  ]
    where
      go :
          elem d s.found ≡ false
          → (o : Option TaskSpec) → get d tasks ≡ o
          → Next s (extend (record { found = d ∷ s.found; pending = rest }) o)
      go new none missing = absurd (cc (k d (rw (e, ==_refl d) refl), ap is_some missing))
      go new (some task) found = (
        omega (
          arith,
          ap length e,
          length-append (reverse task.dependencies) rest,
          length-reverse_aux task.dependencies [],
          named_beside_found d s.found tasks task new found,
        ),
        λ y h. elim (Bool-cases (elem y task.dependencies)) [
          | inl named ↦ known d task found y named
          | inr other ↦ k y (
              rw e (
                ground (
                  arith,
                  h,
                  other,
                  elem-append y (reverse task.dependencies) rest,
                  elem-reverse_aux y task.dependencies [],
                )))
        ],
      )

  walk_idle : (n : ℕ) (s : Walk) → s.pending ≡ [] → Ends (walk tasks n (some s))
  unfolding walk
  walk_idle zero s e = e
  walk_idle (suc n) s e =
      subst (λ l. Ends (walk tasks n (walk_step tasks s l))) (sym e) (walk_idle n s e)

  module _ (n : ℕ)
      (ih : (t : Walk)
        → Known tasks t.pending
        → left_over tasks t ≤ n
        → Ends (walk tasks n (some t))) where
    Ends-after :
        (s : Walk) (o : Option Walk) → Next s o → left_over tasks s ≤ suc n → Ends (walk tasks n o)
    Ends-after s none x h = absurd x
    Ends-after s (some t) (less, k) h = ih t k (omega arith)

    Ends-from :
        (s : Walk) (l : List ℕ)
        → s.pending ≡ l
        → Known tasks s.pending
        → left_over tasks s ≤ suc n
        → Ends (walk tasks n (walk_step tasks s l))
    unfolding walk_step
    Ends-from s [] e k h = walk_idle n s e
    Ends-from s (d ∷ rest) e k h =
        Ends-after s (walk_step tasks s (d ∷ rest)) (walk_step-Next s d rest e k) h

  -- Enough rounds: as many as there is left to go through.
  pub walk-Ends :
      (n : ℕ) (s : Walk)
      → Known tasks s.pending
      → left_over tasks s ≤ n
      → Ends (walk tasks n (some s))
  unfolding walk
  walk-Ends zero s k h = none_left s.pending (omega arith)
    where
      none_left : (l : List ℕ) → length l ≤ 0 → l ≡ []
      none_left [] h = refl
      none_left (x ∷ xs) h = absurd (omega arith)
  walk-Ends (suc n) s k h = Ends-from n (walk-Ends n) s s.pending refl k h

-- The tasks that a task depends on, at once or through others.
pub data Needs (tasks : Table TaskSpec) (k : ℕ) : ℕ → Type 0 where
  named :
      {d : ℕ} (task : TaskSpec)
      → get k tasks ≡ some task
      → elem d task.dependencies ≡ true
      → Needs tasks k d
  through :
      {d e : ℕ} (task : TaskSpec)
      → Needs tasks k d
      → get d tasks ≡ some task
      → elem e task.dependencies ≡ true
      → Needs tasks k e

module _ (tasks : Table TaskSpec) (k : ℕ) where
  abbrev Only : List ℕ → Type 0
  Only l = (y : ℕ) → elem y l ≡ true → Needs tasks k y

  Only-cons : (d : ℕ) (l : List ℕ) → Needs tasks k d → Only l → Only (d ∷ l)
  Only-cons d l n h y e = elim (Bool-cases (d == y)) [
    | inl s ↦ subst (Needs tasks k) (==→eq d y s) n
    | inr s ↦ h y (rw s at e)
  ]

  abbrev Finds : Option Walk → Type 0
  Finds none = Unit
  Finds (some s) = Only s.found × Only s.pending

  walk_step-Finds :
      (s : Walk) (l : List ℕ) → Only s.found → Only l → s.pending ≡ l → Finds (walk_step tasks s l)
  unfolding walk_step
  walk_step-Finds s [] f p e = (f, rw e p)
  walk_step-Finds s (d ∷ rest) f p e = elim (Bool-cases (elem d s.found)) [
    | inl old ↦ rw old (f, tail)
    | inr new ↦ rw new (extended (get d tasks) refl)
  ]
    where
      head : Needs tasks k d
      head = p d (rw (==_refl d) refl)

      tail : Only rest
      tail y h = p y (ground (arith, h))

      extended :
          (o : Option TaskSpec)
          → get d tasks ≡ o
          → Finds (extend (record { found = d ∷ s.found; pending = rest }) o)
      extended none missing = tt
      extended (some task) found = (
        Only-cons d s.found head f,
        λ y h. elim (Bool-cases (elem y task.dependencies)) [
          | inl name ↦ through task head found name
          | inr other ↦ tail y (
              ground (
                arith,
                h,
                other,
                elem-append y (reverse task.dependencies) rest,
                elem-reverse_aux y task.dependencies [],
              ))
        ],
      )

  walk-Finds : (n : ℕ) (o : Option Walk) → Finds o → Finds (walk tasks n o)
  unfolding walk
  walk-Finds n none h = tt
  walk-Finds zero (some s) h = h
  walk-Finds (suc n) (some s) h =
      walk-Finds n (walk_step tasks s s.pending) (walk_step-Finds s s.pending h.0 h.1 refl)

  -- What the loop finds are dependencies of the task.
  pub ancestors-Needs :
      (task : TaskSpec) (s : Walk) (y : ℕ)
      → get k tasks ≡ some task
      → ancestors tasks task ≡ some s
      → elem y s.found ≡ true
      → Needs tasks k y
  unfolding ancestors
  ancestors-Needs task s y here e h =
      (subst Finds e (
          walk-Finds (length (reverse task.dependencies) + named_beside [] tasks)
            (some (begin task))
            (
              λ z none. absurd (cc none),
              λ z m. named task here (ground (arith, m, elem-reverse_aux z task.dependencies [])),
            ))).0
        y h
