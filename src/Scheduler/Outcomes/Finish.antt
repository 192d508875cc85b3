-- ===== src/Scheduler/Outcomes/Finish.antt =====
-- `finish_claim`, execution/scheduler/service.py: when it returns, and what it leaves.
use autonomous_swe.Prelude.{
  ℕ, ◌+◌, ◌≡◌, refl, sym, ◌∙◌, ap, subst, true, false, ◌⊎◌, Option, none, some, get, put, remove,
  get-put, get-remove, ==_refl, ◌==◌, arith, inl, inr,
}
use autonomous_swe.Domain.Enums.{TaskStatus}
use autonomous_swe.Domain.Equality.{task_is}
use autonomous_swe.Domain.Transitions.{terminal_task, require_task_transition}
use autonomous_swe.Persistence.Rows.{TaskRow, LeaseRow, TaskAttemptRow}
use autonomous_swe.Persistence.Session.{Tables, World, utc_now, ◌>>=◌}
use autonomous_swe.Persistence.Repository.{in_project}
use autonomous_swe.Persistence.Transition.{Moved, transition_task-Moved}
use autonomous_swe.Persistence.Post.{
  Post, Post-bind, Post-gets, Post-guard, Post-or_raise, Post-if, Post-weaken, Post-always,
  Post-transaction,
}
use autonomous_swe.Persistence.Total.{
  Total, finished, Total-bind, Total-gets, Total-guard, Total-or_raise, Total-if, Total-transaction,
  transition_task-Total,
}
use autonomous_swe.Scheduler.Reservations.{held_by, held_by-released, release_reservations}
use autonomous_swe.Scheduler.Service.{SchedulerService, clean_up, owned_by}
use autonomous_swe.Scheduler.Execution.{
  Claim, required_graph_state, graph_at, within_grace, close_attempt, finish_owned, finish_body,
  finish_claim,
}

-- The task is done with: it stands in the state, holds nothing, and its attempt is closed.
pub record Finished (c : Claim) (target : TaskStatus) (now : ℕ) (v : World) : Type 0 where
  pub task : TaskRow
  pub stands : get c.task_id v.tasks ≡ some task
  pub placed : task.state ≡ target
  pub free : get c.task_id v.leases ≡ none
  pub idle : held_by c.task_id v.reservations ≡ 0
  pub attempt : TaskAttemptRow
  pub closed : get c.attempt_id v.attempts ≡ some attempt
  pub ended : attempt.status ≡ target
  pub dated : attempt.ended_at ≡ some now

-- What a caller needs to finish a task: its lease, at most one term after its expiry, a move that
-- is in the table, the graph execution in the state that agrees, and an attempt of the task.
pub record MayFinish (s : SchedulerService) (c : Claim) (target : TaskStatus) (now : ℕ) (t : Tables)
    : Type 0 where
  pub task : TaskRow
  pub stands : in_project c.project_id (get c.task_id t.tasks) ≡ some task
  pub ends : terminal_task target ≡ true
  pub legal : require_task_transition task.state target ≡ true
  pub lease : LeaseRow
  pub leased : get c.task_id t.leases ≡ some lease
  pub owned : owned_by c.owner c.token (some lease) ≡ true
  pub in_time : within_grace s now lease ≡ true
  pub agrees : graph_at (required_graph_state target) (get c.task_id t.graphs) ≡ true
  pub attempt : TaskAttemptRow
  pub attempted : get c.attempt_id t.attempts ≡ some attempt
  pub mine : (attempt.task_id == c.task_id) ≡ true

-- What a transition of the task leaves of the others' rows.
pub task_stands :
    {project_id k version : ℕ} {target : TaskStatus} {w : World} {after : TaskRow} {v : World}
    → Moved project_id k version target w after v
    → get k v.tasks ≡ some after
task_stands {k} m = ap (λ t. get k t.tasks) m.tables ∙ rw (get-put, ==_refl k) refl

finish_tail-Total :
    (c : Claim) (now : ℕ) (target : TaskStatus) (after : TaskRow) (a : TaskAttemptRow) (w : World)
    → get c.task_id w.tasks ≡ some after
    → after.state ≡ target
    → get c.attempt_id w.attempts ≡ some a
    → (a.task_id == c.task_id) ≡ true
    → Total
        (λ _ v. Finished c target now v)
        ((close_attempt c now target >>= λ _. clean_up c.task_id now) w)
unfolding close_attempt clean_up release_reservations ◌>>=◌
finish_tail-Total c now target after a w stands placed attempted mine =
    rw (attempted, mine)
      (finished record {
        task = after;
        stands = stands;
        placed = placed;
        free = no_lease c.task_id w.tables;
        idle = held_by-released c.task_id now w.reservations;
        attempt = record a { status = target; ended_at = some now };
        closed = attempt_put c.attempt_id _ w.tables;
        ended = refl;
        dated = refl;
      })
  where
    no_lease : (k : ℕ) (t : Tables) → get k (remove k t.leases) ≡ none
    no_lease k t = rw (get-remove, ==_refl k) refl

    attempt_put : (k : ℕ) (r : TaskAttemptRow) (t : Tables) → get k (put k r t.attempts) ≡ some r
    attempt_put k r t = rw (get-put, ==_refl k) refl

terminal_moves :
    (s t : TaskStatus)
    → task_is s t ≡ true
    → terminal_task t ≡ true
    → require_task_transition s t ≡ false
unfolding require_task_transition
terminal_moves s t e f = ground arith

finish_body-Total :
    (s : SchedulerService) (c : Claim) (target : TaskStatus) (now : ℕ) (w : World)
    → MayFinish s c target now w.tables
    → Total (λ _ v. Finished c target now v) (finish_body s c target now w)
unfolding finish_body finish_owned
finish_body-Total s c target now w m = Total-gets _ _ w (
    Total-or_raise _ _ _ w m.task m.stands (
      Total-gets _ _ w (
        Total-if _ _ _ w
          (λ same. absurd (ground (arith, terminal_moves m.task.state target same m.ends, m.legal)))
          λ _. Total-guard _ _ _ w (rw m.leased m.owned) (
            Total-or_raise _ _ _ w m.lease m.leased (
              Total-guard _ _ _ w m.in_time (
                Total-gets _ _ w (
                  Total-guard _ _ _ w m.agrees (
                    Total-bind _ _ w
                      (transition_task-Total c.project_id c.task_id target w m.task m.stands
                        m.legal)
                      λ after v t.
                        finish_tail-Total c now target after m.attempt v (task_stands t)
                          (ap (λ r. r.state) t.moved)
                          (ap (λ u. get c.attempt_id u.attempts) t.tables ∙ m.attempted)
                          m.mine))))))))

-- A caller that has what it needs finishes the task: `finish_claim` returns, the task is in the
-- target state without a lease and without a reservation, and its attempt has the same status and ended
-- when the caller finished it.
pub finish_claim-Total :
    (s : SchedulerService) (c : Claim) (target : TaskStatus) (w : World)
    → MayFinish s c target (w.ticks w.ticked) w.tables
    → Total (λ _ v. Finished c target (w.ticks w.ticked) v) (finish_claim s c target w)
unfolding finish_claim utc_now ◌>>=◌
finish_claim-Total s c target w m =
    rw m.ends (Total-transaction _ _ (finish_body-Total s c target (w.ticks w.ticked) _ m))

task_is→eq : (a b : TaskStatus) → task_is a b ≡ true → a ≡ b
task_is→eq a b h = ground (arith, h)

-- What `finish_body` lets through.
abbrev pub Passed : SchedulerService → Claim → TaskStatus → ℕ → Tables → Type 0
Passed s c target now t =
    ((task : TaskRow) × (in_project c.project_id (get c.task_id t.tasks) ≡ some task)
      × (task.state ≡ target))
    ⊎ MayFinish s c target now t

close_attempt-Passed :
    (c : Claim) (now : ℕ) (target : TaskStatus) (v : World)
    → Post
        (λ _ _.
          (a : TaskAttemptRow) × (get c.attempt_id v.attempts ≡ some a)
          × ((a.task_id == c.task_id) ≡ true))
        (close_attempt c now target v)
unfolding close_attempt
close_attempt-Passed c now target v = Post-gets _ _ v (
    Post-or_raise _ _ _ v
      λ attempt found. Post-guard _ _ _ v λ mine. Post-always _ λ _ u. (attempt, found, mine))

legal_for :
    (o : Option TaskRow) (a b : TaskRow) (t : TaskStatus)
    → o ≡ some a
    → o ≡ some b
    → require_task_transition a.state t ≡ true
    → require_task_transition b.state t ≡ true
legal_for o a b t h j l =
    let same : a ≡ b = cc (h, j) in
    subst (λ (r : TaskRow). require_task_transition r.state t ≡ true) same l

finish_owned-Passed :
    (s : SchedulerService) (c : Claim) (target : TaskStatus) (now : ℕ) (task : TaskRow) (w : World)
    → terminal_task target ≡ true
    → in_project c.project_id (get c.task_id w.tasks) ≡ some task
    → Post
        (λ _ v. MayFinish s c target now w.tables)
        (finish_owned s c target now task (get c.task_id w.leases) w)
unfolding finish_owned
finish_owned-Passed s c target now task w ends stands = Post-guard _ _ _ w λ owned.
    Post-or_raise _ _ _ w λ lease leased. Post-guard _ _ _ w λ in_time. Post-gets _ _ w (
      Post-guard _ _ _ w λ agrees.
        Post-bind _ _ w (transition_task-Moved c.project_id c.task_id task.version target w)
          λ after v m.
            Post-bind _ _ v (close_attempt-Passed c now target v) λ _ u (attempt, found, mine).
              Post-always _ λ _ t. record {
                task = task;
                stands = stands;
                ends = ends;
                legal = legal_for _ m.before task target m.found stands m.legal;
                lease = lease;
                leased = leased;
                owned = subst (λ o. owned_by c.owner c.token o ≡ true) leased owned;
                in_time = in_time;
                agrees = agrees;
                attempt = attempt;
                attempted = sym (ap (λ u. get c.attempt_id u.attempts) m.tables) ∙ found;
                mine = mine;
              })

-- `finish_claim` finishes nothing for a caller that does not have what it needs: if it returns,
-- the task was in the target state before, or the caller had the task's lease (by owner and token,
-- and not later than a term after its expiry), the move was in the table, the graph execution
-- agreed, and the attempt was the task's.
pub finish_claim-Passed :
    (s : SchedulerService) (c : Claim) (target : TaskStatus) (w : World)
    → Post (λ _ v. Passed s c target (w.ticks w.ticked) w.tables) (finish_claim s c target w)
unfolding finish_claim finish_body utc_now
finish_claim-Passed s c target w =
    Post-guard _ _ _ w
      λ ends. unfold ◌>>=◌ in Post-transaction _ _ (passes ends record w { ticked = w.ticked + 1 })
  where
    passes :
        terminal_task target ≡ true
        → (v : World)
        → Post
            (λ _ u. Passed s c target (w.ticks w.ticked) v.tables)
            (finish_body s c target (w.ticks w.ticked) v)
    passes ends v = Post-gets _ _ v (
        Post-or_raise _ _ _ v λ task stands. Post-gets _ _ v (
          Post-if _ _ _ v
            (λ same. Post-always _ λ _ u. inl (task, stands, task_is→eq task.state target same))
            λ _. Post-weaken (finish_owned-Passed s c target _ task v ends stands) λ _ u j. inr j))
