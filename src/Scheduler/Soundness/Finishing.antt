-- ===== src/Scheduler/Soundness/Finishing.antt =====
-- `heartbeat`, `start_claim` and `finish_claim`, execution/scheduler/service.py, and the invariant.
use autonomous_swe.Prelude.{
  ℕ, String, ◌≡◌, refl, sym, subst, true, Option, none, some, get, put, is_some, get-put, ==_refl,
  Bool-cases, inl, inr,
}
use autonomous_swe.Domain.Enums.{TaskStatus}
use autonomous_swe.Domain.Transitions.{terminal_task}
use autonomous_swe.Persistence.Rows.{TaskRow, TaskAttemptRow, LeaseRow}
use autonomous_swe.Persistence.Session.{
  Tables, World, Result, return, raise, utc_now, throw, budget_exhausted, transaction, ◌>>=◌,
}
use autonomous_swe.Persistence.Repository.{create_attempt}
use autonomous_swe.Persistence.Transition.{Moved, transition_task-Moved}
use autonomous_swe.Persistence.Post.{
  Post, done, Post-pure, Post-gets, Post-bind, Post-or_raise, Post-guard, Post-if, Post-require,
  transaction_keeps, keeps_bind,
}
use autonomous_swe.Scheduler.Policy.{ConcurrencyPolicy}
use autonomous_swe.Scheduler.Service.{SchedulerService}
use autonomous_swe.Scheduler.Execution.{
  Claim, TaskExecutionLease, renew, heartbeat, live_lease, enter_running, record_attempt,
  admit_running, admit_completed, admit_claim, after_admission, start_claim, replay_finish,
  close_attempt, finish_owned, finish_body, finish_claim,
}
use autonomous_swe.Scheduler.Invariant.{
  flies, IsSoundBut-of, IsSound-leased, put_lease-IsSoundBut, put_task-IsSoundBut,
}
use autonomous_swe.Scheduler.Soundness.Steps.{
  Sound, SoundBut, transition_task-SoundBut, clean_up-Sound,
}
use autonomous_swe.Scheduler.Soundness.Cancelling.{refuse_exhausted_task-Sound}

live_lease-held :
    (owner : String) (token now : ℕ) (found : Option LeaseRow)
    → live_lease owner token now found ≡ true
    → is_some found ≡ true
live_lease-held owner token now none h = h
live_lease-held owner token now (some l) h = refl

module _ {p : ConcurrencyPolicy} where
  -- A lease that stands is replaced.
  replace_lease-Sound :
      (k : ℕ) (l : LeaseRow) (t : Tables)
      → Sound p t
      → is_some (get k t.leases) ≡ true
      → Sound p (record t { leases = put k l t.leases })
  replace_lease-Sound k l t h held =
      IsSound-leased k (put_lease-IsSoundBut k l (IsSoundBut-of k h)) (h.leased_flies k held)
        (rw (get-put, ==_refl k))

  renew-Sound :
      (s : SchedulerService) (k : ℕ) (owner : String) (token now : ℕ) (found : Option LeaseRow)
      (w : World)
      → found ≡ get k w.leases
      → Sound p w.tables
      → Post (λ _ v. Sound p v.tables) (renew s k owner token now found w)
  unfolding renew
  renew-Sound s k owner token now none w e h = Post-pure _ w h
  renew-Sound s k owner token now (some l) w e h =
      Post-if _ _ _ w (λ _. unfold ◌>>=◌ in done (replace_lease-Sound k _ w.tables h (rw (← e))))
        (λ _. Post-pure _ w h)

  pub heartbeat-Sound :
      (s : SchedulerService) (k : ℕ) (owner : String) (token now : ℕ) (w : World)
      → Sound p w.tables
      → Sound p (heartbeat s k owner token now w).1.tables
  unfolding heartbeat
  heartbeat-Sound s k owner token now w h = transaction_keeps (Sound p) _ w h (
      Post-gets _ _ w (
        Post-gets _ _ w (
          Post-if _ _ _ w (λ _. Post-pure _ w h)
            (λ _. renew-Sound s k owner token now _ w refl h))))

  record_attempt-Sound :
      (c : Claim) (found : Option TaskAttemptRow) (w : World)
      → Sound p w.tables
      → Post (λ _ v. Sound p v.tables) (record_attempt c found w)
  unfolding record_attempt create_attempt utc_now
  record_attempt-Sound c none w h = unfold ◌>>=◌ in done h
  record_attempt-Sound c (some a) w h = Post-require _ _ w (λ _. h)

  -- A task that moves while it is leased must move to a state in flight.
  Moved-leased-Sound :
      {project_id k version : ℕ} {target : TaskStatus} {w : World} {after : TaskRow} {v : World}
      → Moved project_id k version target w after v
      → Sound p w.tables
      → is_some (get k w.leases) ≡ true
      → flies target ≡ true
      → Sound p v.tables
  Moved-leased-Sound {k} {target} {w} {after} m h held up = subst (Sound p) (sym m.tables) (
      IsSound-leased k (put_task-IsSoundBut k after (IsSoundBut-of k h))
        (rw (get-put, ==_refl k, m.moved) up) held)

  enter_running-Sound :
      (project_id k : ℕ) (row : TaskRow) (w : World)
      → Sound p w.tables
      → is_some (get k w.leases) ≡ true
      → Post (λ _ v. Sound p v.tables) (enter_running project_id k row w)
  unfolding enter_running
  enter_running-Sound project_id k row w h held =
      Post-if _ _ _ w
        (λ _.
          Post-bind _ _ w (transition_task-Moved project_id k row.version _ w)
            λ after v m. Post-pure _ v (Moved-leased-Sound m h held refl))
        (λ _. Post-require _ _ w (λ _. h))

  admit_running-Sound :
      (s : SchedulerService) (c : Claim) (now : ℕ) (row : TaskRow) (w : World)
      → Sound p w.tables
      → Post (λ _ v. Sound p v.tables) (admit_running s c now row w)
  unfolding admit_running
  admit_running-Sound s c now row w h = Post-gets _ _ w (
      Post-guard _ _ _ w λ _. Post-gets _ _ w (
        Post-guard _ _ _ w λ live.
          Post-bind _ _ w
            (enter_running-Sound c.project_id c.task_id row w h
              (live_lease-held c.owner c.token now _ live))
            λ _ v k. Post-gets _ _ v (record_attempt-Sound c _ v k)))

  admit_claim-Sound :
      (s : SchedulerService) (c : Claim) (now : ℕ) (w : World)
      → Sound p w.tables
      → Post (λ _ v. Sound p v.tables) (admit_claim s c now w)
  unfolding admit_claim admit_completed
  admit_claim-Sound s c now w h = Post-gets _ _ w (
      Post-or_raise _ _ _ w λ row found. Post-gets _ _ w (
        Post-or_raise _ _ _ w λ run found_run. Post-gets _ _ w (
          Post-or_raise _ _ _ w λ repository found_repository.
            Post-if _ _ _ w (λ _. Post-gets _ _ w (Post-guard _ _ _ w λ _. Post-pure _ w h))
              (λ _.
                Post-bind _ _ w (admit_running-Sound s c now row w h) λ _ v k. Post-pure _ v k))))

  after_admission-Sound :
      (c : Claim) (now : ℕ) (r : Result TaskExecutionLease) (w : World)
      → Sound p w.tables
      → Sound p (after_admission c now r w).1.tables
  unfolding after_admission throw
  after_admission-Sound c now (return a) w h = h
  after_admission-Sound c now (raise budget_exhausted) w h =
      keeps_bind (Sound p) _ _ w
        (transaction_keeps (Sound p) _ w h (refuse_exhausted_task-Sound c now w h)) λ _ u k. k
  after_admission-Sound c now (raise _) w h = h

  pub start_claim-Sound :
      (s : SchedulerService) (c : Claim) (now : ℕ) (w : World)
      → Sound p w.tables
      → Sound p (start_claim s c now w).1.tables
  unfolding start_claim
  start_claim-Sound s c now w h =
      let (r, v) = transaction (admit_claim s c now) w in
      after_admission-Sound c now r v
        (transaction_keeps (Sound p) _ w h (admit_claim-Sound s c now w h))

  replay_finish-Sound :
      (c : Claim) (now : ℕ) (lease : Option LeaseRow) (w : World)
      → Sound p w.tables
      → Post (λ _ v. Sound p v.tables) (replay_finish c now lease w)
  unfolding replay_finish
  replay_finish-Sound c now none w h = Post-pure _ w h
  replay_finish-Sound c now (some l) w h =
      Post-guard _ _ _ w λ _. clean_up-Sound c.task_id now w (IsSoundBut-of c.task_id h)

  close_attempt-SoundBut :
      (c : Claim) (now k : ℕ) (target : TaskStatus) (w : World)
      → SoundBut p k w.tables
      → Post (λ _ v. SoundBut p k v.tables) (close_attempt c now target w)
  unfolding close_attempt
  close_attempt-SoundBut c now k target w h =
      Post-gets _ _ w
        (Post-or_raise _ _ _ w λ attempt _. Post-guard _ _ _ w λ _. unfold ◌>>=◌ in done h)

  finish_owned-Sound :
      (s : SchedulerService) (c : Claim) (target : TaskStatus) (now : ℕ) (row : TaskRow)
      (lease : Option LeaseRow) (w : World)
      → Sound p w.tables
      → Post (λ _ v. Sound p v.tables) (finish_owned s c target now row lease w)
  unfolding finish_owned
  finish_owned-Sound s c target now row lease w h = Post-guard _ _ _ w λ _.
      Post-or_raise _ _ _ w λ held _. Post-guard _ _ _ w λ _. Post-gets _ _ w (
        Post-guard _ _ _ w λ _.
          Post-bind _ _ w
            (transition_task-SoundBut c.project_id c.task_id row.version target w
              (IsSoundBut-of c.task_id h))
            λ _ v k.
              Post-bind _ _ v (close_attempt-SoundBut c now c.task_id target v k)
                λ _ u j. clean_up-Sound c.task_id now u j)

  finish_body-Sound :
      (s : SchedulerService) (c : Claim) (target : TaskStatus) (now : ℕ) (w : World)
      → Sound p w.tables
      → Post (λ _ v. Sound p v.tables) (finish_body s c target now w)
  unfolding finish_body
  finish_body-Sound s c target now w h = Post-gets _ _ w (
      Post-or_raise _ _ _ w λ row _. Post-gets _ _ w (
        Post-if _ _ _ w (λ _. replay_finish-Sound c now _ w h)
          (λ _. finish_owned-Sound s c target now row _ w h)))

  pub finish_claim-Sound :
      (s : SchedulerService) (c : Claim) (target : TaskStatus) (w : World)
      → Sound p w.tables
      → Sound p (finish_claim s c target w).1.tables
  unfolding finish_claim utc_now ◌>>=◌
  finish_claim-Sound s c target w h = elim (Bool-cases (terminal_task target)) [
    | inl e ↦ rw e (transaction_keeps (Sound p) _ _ h (finish_body-Sound s c target _ _ h))
    | inr e ↦ rw e h
  ]
