-- ===== src/Scheduler/Soundness/Cancelling.antt =====
-- `cancel_task`, `reclaim_expired` and `_refuse_exhausted_task`, execution/scheduler/service.py, and
-- the invariant.
use autonomous_swe.Prelude.{ℕ, Bool, Option, none, some}
use autonomous_swe.Domain.Enums.{TaskStatus}
use autonomous_swe.Persistence.Rows.{TaskRow, LeaseRow}
use autonomous_swe.Persistence.Session.{World, utc_now, ◌>>=◌}
use autonomous_swe.Persistence.Transition.{transition_task-Moved}
use autonomous_swe.Persistence.Post.{
  Post, Post-pure, Post-gets, Post-bind, Post-or_raise, Post-if, Post-when, transaction_keeps,
  Post-for_each,
}
use autonomous_swe.Scheduler.Policy.{ConcurrencyPolicy}
use autonomous_swe.Scheduler.Execution.{Claim, refuse_row, refuse_exhausted_task}
use autonomous_swe.Scheduler.Upkeep.{
  move_to, cancel_body, cancel_task, reclaim_row, reclaim_found, reclaim_one, reclaim_expired,
}
use autonomous_swe.Scheduler.Invariant.{IsSoundBut-of}
use autonomous_swe.Scheduler.Soundness.Steps.{
  Sound, SoundBut, Sound-done, Moved-SoundBut, Moved-Clear, transition_task-SoundBut,
  clean_up-Clear, clean_up-Sound,
}

module _ {p : ConcurrencyPolicy} where
  move_to-SoundBut :
      (target : TaskStatus) (k : ℕ) (row : TaskRow) (w : World)
      → SoundBut p k w.tables
      → Post (λ _ v. SoundBut p k v.tables) (move_to target (k, row) w)
  unfolding move_to
  move_to-SoundBut target k row w h =
      Post-bind _ _ w (transition_task-SoundBut row.project_id k row.version target w h)
        λ after v s. Post-pure _ v s

  cancel_body-Sound :
      (project_id task_id now : ℕ) (w : World)
      → Sound p w.tables
      → Post (λ _ v. Sound p v.tables) (cancel_body project_id task_id now w)
  unfolding cancel_body
  cancel_body-Sound project_id task_id now w h = Post-gets _ _ w (
      Post-or_raise _ _ _ w λ row found.
        Post-bind _ _ w
          (Post-when _ _ w
            (λ _.
              Post-bind _ _ w
                (transition_task-SoundBut project_id task_id row.version _ w
                  (IsSoundBut-of task_id h))
                λ after v s. Post-pure _ v s)
            (λ _. IsSoundBut-of task_id h))
          λ _ v s. clean_up-Sound task_id now v s)

  pub cancel_task-Sound :
      (project_id task_id : ℕ) (w : World)
      → Sound p w.tables
      → Sound p (cancel_task project_id task_id w).1.tables
  unfolding cancel_task utc_now ◌>>=◌
  cancel_task-Sound project_id task_id w h =
      transaction_keeps (Sound p) _ _ h (cancel_body-Sound project_id task_id _ _ h)

  reclaim_row-Sound :
      (now task_id : ℕ) (row : TaskRow) (w : World)
      → Sound p w.tables
      → Post (λ _ v. Sound p v.tables) (reclaim_row now task_id row w)
  unfolding reclaim_row
  reclaim_row-Sound now task_id row w h =
      Post-if _ _ _ w (λ _. Post-pure _ w h)
        (λ _.
          Post-bind _ _ w
            (Post-when _ _ w (λ _. move_to-SoundBut _ task_id row w (IsSoundBut-of task_id h))
              (λ _. IsSoundBut-of task_id h))
            λ _ v s. Post-bind _ _ v (clean_up-Sound task_id now v s) λ _ u t. Post-pure _ u t)

  reclaim_found-Sound :
      (now task_id : ℕ) (found : Option TaskRow) (stale : Bool) (w : World)
      → Sound p w.tables
      → Post (λ _ v. Sound p v.tables) (reclaim_found now task_id found stale w)
  unfolding reclaim_found
  reclaim_found-Sound now task_id none stale w h = Post-pure _ w h
  reclaim_found-Sound now task_id (some row) stale w h =
      Post-if _ _ _ w (λ _. reclaim_row-Sound now task_id row w h) (λ _. Post-pure _ w h)

  reclaim_one-Sound :
      (now : ℕ) (seen : ℕ × LeaseRow) (w : World)
      → Sound p w.tables
      → Post (λ _ v. Sound p v.tables) (reclaim_one now seen w)
  unfolding reclaim_one
  reclaim_one-Sound now (task_id, l) w h =
      Post-gets _ _ w (Post-gets _ _ w (reclaim_found-Sound now task_id _ _ w h))

  pub reclaim_expired-Sound :
      (now limit : ℕ) (w : World)
      → Sound p w.tables
      → Sound p (reclaim_expired now limit w).1.tables
  unfolding reclaim_expired
  reclaim_expired-Sound now limit w h = transaction_keeps (Sound p) _ w h (
      Post-gets _ _ w (
        Post-bind _ _ w
          (Post-for_each (λ v. Sound p v.tables) (reclaim_one now) (reclaim_one-Sound now) _ w h)
          λ counts v s. Post-pure _ v s))

  refuse_row-Sound :
      (c : Claim) (now : ℕ) (found : Option TaskRow) (w : World)
      → Sound p w.tables
      → Post (λ _ v. Sound p v.tables) (refuse_row c now found w)
  unfolding refuse_row
  refuse_row-Sound c now none w h = Post-pure _ w h
  refuse_row-Sound c now (some row) w h =
      Post-if _ _ _ w (λ _. Post-pure _ w h)
        (λ _. Post-bind _ _ w (clean_up-Clear c.task_id now w (IsSoundBut-of c.task_id h)) λ _ v s.
          Post-bind _ _ v (transition_task-Moved c.project_id c.task_id row.version _ v)
            λ after u m.
              Post-pure _ u
                (Sound-done c.task_id u.tables (Moved-SoundBut m s.0) (Moved-Clear m s.1)))

  pub refuse_exhausted_task-Sound :
      (c : Claim) (now : ℕ) (w : World)
      → Sound p w.tables
      → Post (λ _ v. Sound p v.tables) (refuse_exhausted_task c now w)
  unfolding refuse_exhausted_task
  refuse_exhausted_task-Sound c now w h = Post-gets _ _ w (refuse_row-Sound c now _ w h)
