-- ===== src/Reconciliation/Scan.antt =====
-- The second scan of `reconcile_due`, execution/scheduler/reconciliation.py, against `_decide`.
use autonomous_swe.Prelude.{
  ℕ, ◌≡◌, ◌⊎◌, refl, ◌∙◌, Bool, true, false, ◌||◌, some, [], ◌∷◌, ◌++◌, Table, get, any, where_true,
  length, ◌==◌, ==→eq, Bool-cases, inl, inr, arith, any-sort_by, any-take,
}
use autonomous_swe.Domain.Enums.{TaskStatus, GraphExecutionState}
use autonomous_swe.Domain.Transitions.{terminal_task}
use autonomous_swe.Persistence.Rows.{TaskRow, GraphExecutionRow}
use autonomous_swe.Persistence.Session.{World}
use autonomous_swe.Reconciliation.Decision.{
  decide, decide_states, decide_terminal, decide_running, mismatched, lapsed,
}
use autonomous_swe.Reconciliation.Service.{
  decision, is_noop, disagrees, disagrees_with, settled_but_divergent, in_flight_due, scanned,
  unseen, same_candidate, entered_before, due,
}

states_scanned :
    (s : TaskStatus) (g : GraphExecutionState) (expired : Bool)
    → terminal_task s ≡ true
    → is_noop (decide_states s g false expired) ≡ false
    → disagrees s g ≡ true
unfolding decide_states decide_terminal decide_running disagrees
states_scanned s g expired over busy = ground arith

divergent :
    (k : ℕ) (task : TaskRow) (g : GraphExecutionRow) (now : ℕ) (w : World)
    → terminal_task task.state ≡ true
    → get k w.graphs ≡ some g
    → mismatched task (get task.run_id w.runs) g ≡ false
    → is_noop (decision k task now w) ≡ false
    → settled_but_divergent w (k, task) ≡ true
unfolding decision decide settled_but_divergent disagrees_with
divergent k task g now w over there own busy =
    rw there (
      states_scanned task.state g.state (lapsed (get k w.leases) now) over
        (rw (there, own) at busy))

-- The task is among the candidates.
abbrev pub selects : ℕ → Table TaskRow → Bool
selects k rows = any (λ (i, row). i == k) rows

selects-where_true :
    (wanted : ℕ × TaskRow → Bool) (k : ℕ) (row : TaskRow) (t : Table TaskRow)
    → get k t ≡ some row
    → wanted (k, row) ≡ true
    → selects k (where_true wanted t) ≡ true
unfolding get
selects-where_true wanted k row [] found h = cc
selects-where_true wanted k row ((i, r) ∷ rest) found h = elim (Bool-cases (i == k)) [
  | inl e ↦ let one : r ≡ row = ground (arith, e, found) in rw (==→eq i k e, one, h) (ground arith)
  | inr e ↦
      let later = selects-where_true wanted k row rest (rw e at found) h in
      elim (Bool-cases (wanted (i, r))) [ inl a ↦ rw (a, e, later) refl | inr a ↦ rw a later ]
]

selects-append : (k : ℕ) (a b : Table TaskRow) → selects k b ≡ true → selects k (a ++ b) ≡ true
selects-append k [] b h = h
selects-append k (c ∷ rest) b h = ground (arith, selects-append k rest b h)

same_candidate-selects :
    (c : ℕ × TaskRow) (seen : Table TaskRow)
    → any (same_candidate c) seen ≡ true
    → selects c.0 seen ≡ true
same_candidate-selects c [] h = h
same_candidate-selects c (d ∷ rest) h = ground (arith, h, same_candidate-selects c rest)

-- What is among the candidates is kept, unless it was seen before.
selects-unseen :
    (k : ℕ) (seen rows : Table TaskRow)
    → selects k rows ≡ true
    → (selects k (unseen seen rows) || selects k seen) ≡ true
unfolding unseen
selects-unseen k seen [] h = cc
selects-unseen k seen ((i, task) ∷ rest) h =
    elim (Bool-cases (any (same_candidate (i, task)) seen)) [
      | inl met ↦ rw met (elim (Bool-cases (i == k)) [
        | inl e ↦
            let before = same_candidate-selects (i, task) seen met in
            ground (arith, rw (==→eq i k e) at before)
        | inr e ↦ selects-unseen k seen rest (rw e at h)
      ])
      | inr new ↦ rw new (elim (Bool-cases (i == k)) [
        | inl e ↦ rw e refl
        | inr e ↦
            let later = selects-unseen k ((i, task) ∷ seen) rest (rw e at h) in rw e (rw e at later)
      ])
    ]

-- A scan selects a row of its `where` unless it is full.
scanned-selects :
    (wanted : ℕ × TaskRow → Bool) (limit k : ℕ) (t : Table TaskRow)
    → selects k (where_true wanted t) ≡ true
    → (selects k (scanned wanted limit t) ≡ true) ⊎ (length (scanned wanted limit t) ≡ limit)
unfolding scanned
scanned-selects wanted limit k t h =
    any-take (λ (i, row). i == k) limit _
      (any-sort_by (λ (i, row). i == k) entered_before (where_true wanted t) ∙ h)

-- A task in a terminal state, with a graph execution of its own run, repository and baseline, on
-- which the decision is not NOOP, is among those that `reconcile_due` reconciles, unless the second
-- scan is full: it selected as many tasks as its limit.
pub due-divergent :
    (limit k : ℕ) (task : TaskRow) (g : GraphExecutionRow) (now : ℕ) (w : World)
    → get k w.tasks ≡ some task
    → terminal_task task.state ≡ true
    → get k w.graphs ≡ some g
    → mismatched task (get task.run_id w.runs) g ≡ false
    → is_noop (decision k task now w) ≡ false
    → (selects k (due limit now w) ≡ true)
      ⊎ (length (scanned (settled_but_divergent w) limit w.tasks) ≡ limit)
unfolding due
due-divergent limit k task g now w stands over there own busy =
    elim (scanned-selects (settled_but_divergent w) limit k w.tasks (
      selects-where_true (settled_but_divergent w) k task w.tasks stands
        (divergent k task g now w over there own busy))) [
          | inl found ↦ inl (
              let kept =
                selects-unseen k [] _
                  (selects-append k (scanned (in_flight_due now w) limit w.tasks) _ found) in
              ground (arith, kept))
          | inr full ↦ inr full
        ]
