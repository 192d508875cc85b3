-- ===== src/Scheduler/Soundness/Queues.antt =====
-- `promote_dependency_ready`, `cancel_blocked_dependents` and `cancel_requested_runs`,
-- execution/scheduler/service.py, and the invariant.
use autonomous_swe.Prelude.{
  ℕ, zero, suc, ◌≡◌, sym, subst, Bool, true, false, Option, none, some, [], ◌∷◌, get, Table, Listed,
  Listed-self, where_true-Listed, sort_by-Listed, take-Listed, put-Listed, AllTrue,
  where_true-AllTrue, where_true_of-AllTrue, sort_by-AllTrue, take-AllTrue, arith, not,
}
use autonomous_swe.Domain.Enums.{TaskStatus}
use autonomous_swe.Persistence.Rows.{TaskRow, RunRow}
use autonomous_swe.Persistence.Session.{World, for_each, utc_now, uuid4, ◌>>=◌, pure}
use autonomous_swe.Persistence.Repository.{record_state_duration, publish}
use autonomous_swe.Persistence.Transition.{transition_task-Moved}
use autonomous_swe.Persistence.Post.{
  Post, done, Post-pure, Post-gets, Post-bind, Post-guard, Post-if, transaction_keeps, keeps_bind,
  keeps_for_each, keeps_test, keeps_gets,
}
use autonomous_swe.Scheduler.Policy.{ConcurrencyPolicy}
use autonomous_swe.Scheduler.Service.{select_tasks}
use autonomous_swe.Scheduler.Upkeep.{
  move_to, is_pending, promote_round, promote_dependency_ready, cancel_blocked_round,
  cancel_blocked_dependents, cancel_run_row, cancel_run, cancel_run_tasks, cancel_requested_runs,
}
use autonomous_swe.Scheduler.Invariant.{flies}
use autonomous_swe.Scheduler.Soundness.Steps.{Sound, found-get, Moved-Sound}
use autonomous_swe.Scheduler.Soundness.Cancelling.{cancel_task-Sound}

-- The task that a row of a query stands for is not in flight.
abbrev pub grounded : ℕ × TaskRow → Bool
grounded (k, row) = not (flies row.state)

pub select_tasks-Listed :
    (wanted : TaskRow → Bool) (precedes : ℕ × TaskRow → ℕ × TaskRow → Bool) (limit : ℕ)
    (locked : ℕ → Bool) (w : World) {p : ConcurrencyPolicy}
    → Sound p w.tables
    → Listed w.tasks (select_tasks wanted precedes limit locked w.tasks)
unfolding select_tasks
select_tasks-Listed wanted precedes limit locked w h = take-Listed limit w.tasks _ (
    sort_by-Listed precedes w.tasks _
      (where_true-Listed _ w.tasks w.tasks (Listed-self w.tasks h.keyed)))

select_tasks-grounded :
    (wanted : TaskRow → Bool) (precedes : ℕ × TaskRow → ℕ × TaskRow → Bool) (limit : ℕ)
    (locked : ℕ → Bool) (tasks : Table TaskRow)
    → ((row : TaskRow) → wanted row ≡ true → is_pending row ≡ true)
    → AllTrue grounded (select_tasks wanted precedes limit locked tasks)
unfolding select_tasks
select_tasks-grounded wanted precedes limit locked tasks only = take-AllTrue grounded limit _ (
    sort_by-AllTrue grounded precedes _
      (where_true-AllTrue _ grounded (λ (k, row) e. ground (arith, only row)) tasks))

module _ {p : ConcurrencyPolicy} where
  move_to-Sound :
      (target : TaskStatus) (k : ℕ) (row : TaskRow) (rest : Table TaskRow) (w : World)
      → Sound p w.tables
      → Listed w.tasks ((k, row) ∷ rest)
      → flies row.state ≡ false
      → Post (λ _ v. Sound p v.tables × Listed v.tasks rest) (move_to target (k, row) w)
  unfolding move_to
  move_to-Sound target k row rest w h l down =
      Post-bind _ _ w (transition_task-Moved row.project_id k row.version target w) λ after v m.
        let same : m.before ≡ row = cc (found-get row.project_id (get k w.tasks) m.found, l.0) in
        Post-pure _ v (
          Moved-Sound m h (rw same down),
          subst (λ t. Listed t.tasks rest) (sym m.tables) (put-Listed k after w.tasks rest l.1 l.2),
        )

  move_each-Sound :
      (target : TaskStatus) (xs : Table TaskRow) (w : World)
      → Sound p w.tables
      → Listed w.tasks xs
      → AllTrue grounded xs
      → Post (λ _ v. Sound p v.tables) (for_each xs (move_to target) w)
  unfolding for_each
  move_each-Sound target [] w h l g = Post-pure _ w h
  move_each-Sound target ((k, row) ∷ xs) w h l g =
      Post-bind _ _ w (move_to-Sound target k row xs w h l (ground arith))
        λ _ v s. Post-bind _ _ v (move_each-Sound target xs v s.0 s.1 g.1) λ _ u j. Post-pure _ u j

  promote_round-Sound :
      (limit : ℕ) (locked : ℕ → Bool) (w : World)
      → Sound p w.tables
      → Post (λ _ v. Sound p v.tables) (promote_round limit locked w)
  unfolding promote_round
  promote_round-Sound limit locked w h = Post-gets _ _ w (
      Post-bind _ _ w
        (move_each-Sound _ _ w h (select_tasks-Listed _ _ limit locked w h)
          (select_tasks-grounded _ _ limit locked w.tasks λ row e. ground arith))
        λ _ v s. Post-pure _ v s)

  pub promote_dependency_ready-Sound :
      (limit rounds : ℕ) (locked : ℕ → ℕ → Bool) (w : World)
      → Sound p w.tables
      → Sound p (promote_dependency_ready limit rounds locked w).1.tables
  unfolding promote_dependency_ready pure
  promote_dependency_ready-Sound limit zero locked w h = h
  promote_dependency_ready-Sound limit (suc rounds) locked w h =
      keeps_bind (Sound p) _ _ w
        (transaction_keeps (Sound p) _ w h (promote_round-Sound limit (locked rounds) w h))
        λ n v s. keeps_test (Sound p) _ _ _ v s (
          keeps_bind (Sound p) _ _ v (promote_dependency_ready-Sound limit rounds locked v s)
            λ m u j. j)

  cancel_blocked_round-Sound :
      (limit : ℕ) (locked : ℕ → Bool) (w : World)
      → Sound p w.tables
      → Post (λ _ v. Sound p v.tables) (cancel_blocked_round limit locked w)
  unfolding cancel_blocked_round
  cancel_blocked_round-Sound limit locked w h = Post-gets _ _ w (
      Post-bind _ _ w
        (move_each-Sound _ _ w h
          (where_true-Listed _ w.tasks _ (select_tasks-Listed _ _ limit locked w h))
          (where_true_of-AllTrue grounded _ _
            (select_tasks-grounded _ _ limit locked w.tasks λ row e. e)))
        λ _ v s. Post-pure _ v s)

  pub cancel_blocked_dependents-Sound :
      (limit rounds : ℕ) (locked : ℕ → ℕ → Bool) (w : World)
      → Sound p w.tables
      → Sound p (cancel_blocked_dependents limit rounds locked w).1.tables
  unfolding cancel_blocked_dependents pure
  cancel_blocked_dependents-Sound limit zero locked w h = h
  cancel_blocked_dependents-Sound limit (suc rounds) locked w h =
      keeps_bind (Sound p) _ _ w
        (transaction_keeps (Sound p) _ w h (cancel_blocked_round-Sound limit (locked rounds) w h))
        λ n v s. keeps_test (Sound p) _ _ _ v s (
          keeps_bind (Sound p) _ _ v (cancel_blocked_dependents-Sound limit rounds locked v s)
            λ m u j. j)

  cancel_run_row-Sound :
      (run_id now : ℕ) (found : Option RunRow) (w : World)
      → Sound p w.tables
      → Post (λ _ v. Sound p v.tables) (cancel_run_row run_id now found w)
  unfolding cancel_run_row record_state_duration publish
  cancel_run_row-Sound run_id now none w h = Post-pure _ w h
  cancel_run_row-Sound run_id now (some run) w h =
      Post-if _ _ _ w (λ _. Post-pure _ w h)
        (λ _. Post-guard _ _ _ w λ _. unfold ◌>>=◌ uuid4 utc_now in done h)

  utc_now-Sound : (w : World) → Sound p w.tables → Sound p (utc_now w).1.tables
  unfolding utc_now
  utc_now-Sound w h = h

  cancel_run_tasks-Sound :
      (run : ℕ × RunRow) (w : World) → Sound p w.tables → Sound p (cancel_run_tasks run w).1.tables
  unfolding cancel_run_tasks cancel_run
  cancel_run_tasks-Sound (run_id, run) w h = keeps_gets (Sound p) _ _ w (
      keeps_bind (Sound p) _ _ w
        (keeps_for_each (Sound p) _ (λ (k, row) v s. cancel_task-Sound row.project_id k v s) _ w h)
        λ _ v s. keeps_bind (Sound p) _ _ v (utc_now-Sound v s) λ now u j.
          transaction_keeps (Sound p) _ u j
            (Post-gets _ _ u (cancel_run_row-Sound run_id now _ u j)))

  pub cancel_requested_runs-Sound :
      (limit : ℕ) (w : World) → Sound p w.tables → Sound p (cancel_requested_runs limit w).1.tables
  unfolding cancel_requested_runs pure
  cancel_requested_runs-Sound limit w h = keeps_gets (Sound p) _ _ w (
      keeps_bind (Sound p) _ _ w
        (keeps_for_each (Sound p) cancel_run_tasks cancel_run_tasks-Sound _ w h) λ _ v s. s)
