-- ===== src/Scheduler/Outcomes/Attempts.antt =====
-- `start_claim`, execution/scheduler/service.py, and the number of attempts of a task.
use autonomous_swe.Prelude.{
  ℕ, ◌+◌, ◌≤◌, ◌≡◌, refl, sym, ap, subst, false, Option, none, some, [], ◌∷◌, Table, get, put, leb,
  ◌==◌, if◌then◌else◌, arith, ==→eq, Bool-cases, inl, inr,
}
use autonomous_swe.Domain.Enums.{TaskStatus}
use autonomous_swe.Persistence.Rows.{TaskRow, TaskAttemptRow}
use autonomous_swe.Persistence.Session.{
  Tables, World, Result, return, raise, budget_exhausted, throw, utc_now, transaction, ◌>>=◌,
}
use autonomous_swe.Persistence.Repository.{create_attempt}
use autonomous_swe.Persistence.Transition.{Moved, transition_task-Moved}
use autonomous_swe.Persistence.Post.{
  Post, done, Post-pure, Post-gets, Post-bind, Post-or_raise, Post-guard, Post-require, Post-if,
  transaction_keeps, keeps_bind,
}
use autonomous_swe.Scheduler.Reservations.{release_reservations}
use autonomous_swe.Scheduler.Service.{SchedulerService, clean_up}
use autonomous_swe.Scheduler.Execution.{
  Claim, TaskExecutionLease, count_attempts, exhausted, enter_running, record_attempt,
  admit_running, admit_completed, admit_claim, refuse_row, refuse_exhausted_task, after_admission,
  start_claim,
}

-- No task has had more attempts than the policy allows.
abbrev pub Capped : SchedulerService → Tables → Type 0
Capped s t = (j : ℕ) → count_attempts j t.attempts ≤ s.policy.max_task_attempts

count_attempts-put :
    (i j : ℕ) (a : TaskAttemptRow) (t : Table TaskAttemptRow)
    → get i t ≡ none
    → count_attempts j (put i a t) ≡ (if a.task_id == j then 1 else 0) + count_attempts j t
unfolding count_attempts get put
count_attempts-put i j a [] h = refl
count_attempts-put i j a ((k, b) ∷ rest) h = ground (arith, h, count_attempts-put i j a rest)

one_more :
    (k j i : ℕ) (a : TaskAttemptRow) (t : Table TaskAttemptRow) (cap : ℕ)
    → a.task_id ≡ k
    → get i t ≡ none
    → leb cap (count_attempts k t) ≡ false
    → count_attempts j t ≤ cap
    → count_attempts j (put i a t) ≤ cap
one_more k j i a t cap mine fresh free h =
    rw (count_attempts-put i j a t fresh) (elim (Bool-cases (a.task_id == j)) [
      | inl e ↦ rw e (ground (arith, ==→eq _ _ e))
      | inr e ↦ rw e (ground arith)
    ])

module _ (s : SchedulerService) where
  -- The one new attempt is of a task that had fewer than the policy allows.
  record_attempt-Capped :
      (c : Claim) (o : Option TaskAttemptRow) (w : World)
      → get c.attempt_id w.attempts ≡ o
      → leb s.policy.max_task_attempts (count_attempts c.task_id w.attempts) ≡ false
      → Capped s w.tables
      → Post (λ _ v. Capped s v.tables) (record_attempt c o w)
  unfolding record_attempt create_attempt utc_now
  record_attempt-Capped c none w e free h =
      unfold ◌>>=◌ in
      done λ j.
        one_more c.task_id j c.attempt_id _ w.attempts s.policy.max_task_attempts refl e free (h j)
  record_attempt-Capped c (some a) w e free h = Post-require _ _ w λ _. h

  Moved-Capped :
      {project_id k version : ℕ} {target : TaskStatus} {w : World} {after : TaskRow} {v : World}
      → Moved project_id k version target w after v
      → Capped s w.tables
      → Capped s v.tables
  Moved-Capped m h = subst (Capped s) (sym m.tables) h

  -- What entering RUNNING keeps
  enter_running-keeps :
      (project_id k : ℕ) (row : TaskRow) (w : World)
      → Post (λ _ v. v.attempts ≡ w.attempts) (enter_running project_id k row w)
  unfolding enter_running
  enter_running-keeps project_id k row w =
      Post-if _ _ _ w
        (λ _.
          Post-bind _ _ w (transition_task-Moved project_id k row.version TaskStatus.running w)
            λ after v m. Post-pure _ v (ap (λ t. t.attempts) m.tables))
        (λ _. Post-require _ _ w (λ _. refl))

  admit_running-Capped :
      (c : Claim) (now : ℕ) (row : TaskRow) (w : World)
      → Capped s w.tables
      → Post (λ _ v. Capped s v.tables) (admit_running s c now row w)
  unfolding admit_running exhausted
  admit_running-Capped c now row w h = Post-gets _ _ w (
      Post-guard _ _ _ w λ unspent. Post-gets _ _ w (
        Post-guard _ _ _ w λ _.
          Post-bind _ _ w (enter_running-keeps c.project_id c.task_id row w) λ _ v same.
            Post-gets _ _ v (
              record_attempt-Capped c _ v refl (rw same (ground (arith, unspent)))
                λ j. rw same (h j))))

  admit_claim-Capped :
      (c : Claim) (now : ℕ) (w : World)
      → Capped s w.tables
      → Post (λ _ v. Capped s v.tables) (admit_claim s c now w)
  unfolding admit_claim admit_completed
  admit_claim-Capped c now w h = Post-gets _ _ w (
      Post-or_raise _ _ _ w λ row _. Post-gets _ _ w (
        Post-or_raise _ _ _ w λ run _. Post-gets _ _ w (
          Post-or_raise _ _ _ w λ repository _.
            Post-if _ _ _ w (λ _. Post-gets _ _ w (Post-guard _ _ _ w λ _. Post-pure _ w h))
              λ _. Post-bind _ _ w (admit_running-Capped c now row w h) λ _ v k. Post-pure _ v k)))

  clean_up-Capped :
      (k now : ℕ) (w : World)
      → Capped s w.tables
      → Post (λ _ v. Capped s v.tables) (clean_up k now w)
  unfolding clean_up release_reservations ◌>>=◌
  clean_up-Capped k now w h = done h

  refuse_row-Capped :
      (c : Claim) (now : ℕ) (found : Option TaskRow) (w : World)
      → Capped s w.tables
      → Post (λ _ v. Capped s v.tables) (refuse_row c now found w)
  unfolding refuse_row
  refuse_row-Capped c now none w h = Post-pure _ w h
  refuse_row-Capped c now (some row) w h =
      Post-if _ _ _ w (λ _. Post-pure _ w h)
        λ _. Post-bind _ _ w (clean_up-Capped c.task_id now w h) λ _ v k.
          Post-bind _ _ v
            (transition_task-Moved c.project_id c.task_id row.version TaskStatus.failed v)
            λ after u m. Post-pure _ u (Moved-Capped m k)

  after_admission-Capped :
      (c : Claim) (now : ℕ) (r : Result TaskExecutionLease) (w : World)
      → Capped s w.tables
      → Capped s (after_admission c now r w).1.tables
  unfolding after_admission throw refuse_exhausted_task
  after_admission-Capped c now (return a) w h = h
  after_admission-Capped c now (raise budget_exhausted) w h =
      keeps_bind (Capped s) _ _ w
        (transaction_keeps (Capped s) _ w h (Post-gets _ _ w (refuse_row-Capped c now _ w h)))
        λ _ u k. k
  after_admission-Capped c now (raise _) w h = h

  -- A start of a claim, whatever its outcome, never takes the number of attempts of a task past
  -- the policy's maximum, where no task had more before.
  pub start_claim-Capped :
      (c : Claim) (now : ℕ) (w : World)
      → Capped s w.tables
      → Capped s (start_claim s c now w).1.tables
  unfolding start_claim
  start_claim-Capped c now w h =
      let (r, v) = transaction (admit_claim s c now) w in
      after_admission-Capped c now r v
        (transaction_keeps (Capped s) _ w h (admit_claim-Capped c now w h))
