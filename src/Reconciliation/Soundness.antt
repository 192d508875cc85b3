-- ===== src/Reconciliation/Soundness.antt =====
-- execution/scheduler/reconciliation.py and the invariant of the scheduler.
use autonomous_swe.Prelude.{ℕ, Option, none, some}
use autonomous_swe.Domain.Enums.{TaskStatus}
use autonomous_swe.Persistence.Rows.{TaskRow, GraphExecutionRow, Action, Resolution}
use autonomous_swe.Persistence.Session.{World, utc_now, pure, ◌>>=◌}
use autonomous_swe.Persistence.Transition.{transition_task-Moved}
use autonomous_swe.Persistence.Graphs.{publish-keeps, transition_graph_execution-keeps}
use autonomous_swe.Persistence.Post.{
  Post, done, Post-pure, Post-gets, Post-bind, Post-or_raise, Post-if, transaction_keeps,
  keeps_for_each, keeps_gets,
}
use autonomous_swe.Scheduler.Policy.{ConcurrencyPolicy}
use autonomous_swe.Scheduler.Invariant.{IsSound, IsSoundBut, IsSoundBut-of, put_task-IsSoundBut}
use autonomous_swe.Scheduler.Soundness.Steps.{Sound, SoundBut, Moved-SoundBut, clean_up-Sound}
use autonomous_swe.Reconciliation.Service.{
  set_task_state, park, quarantine_task, settle_task, settle_graph, carry_out, act, reconcile_body,
  reconcile, reconcile_each, reconcile_due, fail_task, resolve_task, resolve_parked, resolve_body,
  resolve_needs_reconciliation,
}

module _ {p : ConcurrencyPolicy} (k : ℕ) where
  set_task_state-SoundBut :
      (task : TaskRow) (target : TaskStatus) (w : World)
      → SoundBut p k w.tables
      → Post (λ _ v. SoundBut p k v.tables) (set_task_state k task target w)
  unfolding set_task_state utc_now
  set_task_state-SoundBut task target w h =
      Post-bind _ _ w (transition_task-Moved task.project_id k task.version target w)
        λ after v m. unfold ◌>>=◌ in done (put_task-IsSoundBut k _ (Moved-SoundBut m h))

  settle_task-SoundBut :
      (a : Action) (task : TaskRow) (w : World)
      → SoundBut p k w.tables
      → Post (λ _ v. SoundBut p k v.tables) (settle_task a k task w)
  unfolding settle_task quarantine_task
  settle_task-SoundBut Action.noop task w h = Post-pure _ w h
  settle_task-SoundBut Action.resume_checkpoint task w h = set_task_state-SoundBut task _ w h
  settle_task-SoundBut Action.finalize_domain task w h = set_task_state-SoundBut task _ w h
  settle_task-SoundBut Action.requeue_missing_checkpoint task w h =
      set_task_state-SoundBut task _ w h
  settle_task-SoundBut Action.domain_terminal_wins task w h = Post-pure _ w h
  settle_task-SoundBut Action.graph_terminal_wins task w h = set_task_state-SoundBut task _ w h
  settle_task-SoundBut Action.quarantine task w h =
      Post-if _ _ _ w (λ _. Post-pure _ w h) (λ _. set_task_state-SoundBut task _ w h)

  settle_graph-SoundBut :
      (a : Action) (now : ℕ) (g : Option GraphExecutionRow) (w : World)
      → SoundBut p k w.tables
      → Post (λ _ v. SoundBut p k v.tables) (settle_graph a k now g w)
  unfolding settle_graph park ◌>>=◌
  settle_graph-SoundBut Action.domain_terminal_wins now none w h = done h
  settle_graph-SoundBut Action.domain_terminal_wins now (some g) w h = done h
  settle_graph-SoundBut Action.quarantine now none w h = done h
  settle_graph-SoundBut Action.quarantine now (some g) w h = done h
  settle_graph-SoundBut Action.noop now g w h = done h
  settle_graph-SoundBut Action.resume_checkpoint now g w h = done h
  settle_graph-SoundBut Action.finalize_domain now g w h = done h
  settle_graph-SoundBut Action.requeue_missing_checkpoint now g w h = done h
  settle_graph-SoundBut Action.graph_terminal_wins now g w h = done h

  act-Sound :
      (a : Action) (now : ℕ) (task : TaskRow) (g : Option GraphExecutionRow) (w : World)
      → Sound p w.tables
      → Post (λ _ v. Sound p v.tables) (act a k now task g w)
  unfolding act carry_out
  act-Sound a now task g w h =
      Post-if _ _ _ w (λ _. Post-pure _ w h)
        λ _. Post-bind _ _ w (settle_task-SoundBut a task w (IsSoundBut-of k h)) λ after v i.
          Post-bind _ _ v (settle_graph-SoundBut a now g v i) λ _ u j.
            Post-bind _ _ u (clean_up-Sound k now u j) λ _ t s.
              Post-gets _ _ t
                (Post-bind _ _ t (publish-keeps (IsSound p) _ _ _ _ t s) λ _ x y. Post-pure _ x y)

  pub reconcile-Sound :
      (project_id now : ℕ) (w : World)
      → Sound p w.tables
      → Sound p (reconcile project_id k now w).1.tables
  unfolding reconcile reconcile_body
  reconcile-Sound project_id now w h = transaction_keeps (Sound p) _ w h (
      Post-gets _ _ w (
        Post-or_raise _ _ _ w
          λ task found. Post-gets _ _ w (Post-gets _ _ w (act-Sound _ now task _ w h))))

  resolve_task-SoundBut :
      (r : Resolution) (task : TaskRow) (w : World)
      → SoundBut p k w.tables
      → Post (λ _ v. SoundBut p k v.tables) (resolve_task r k task w)
  unfolding resolve_task fail_task
  resolve_task-SoundBut Resolution.fail task w h =
      Post-if _ _ _ w (λ _. Post-pure _ w h) (λ _. set_task_state-SoundBut task _ w h)
  resolve_task-SoundBut Resolution.retry task w h = set_task_state-SoundBut task _ w h

  pub resolve_needs_reconciliation-Sound :
      (project_id : ℕ) (r : Resolution) (now : ℕ) (w : World)
      → Sound p w.tables
      → Sound p (resolve_needs_reconciliation project_id k r now w).1.tables
  unfolding resolve_needs_reconciliation resolve_body resolve_parked
  resolve_needs_reconciliation-Sound project_id r now w h = transaction_keeps (Sound p) _ w h (
      Post-gets _ _ w (
        Post-or_raise _ _ _ w λ task found. Post-gets _ _ w (
          Post-or_raise _ _ _ w λ graph waiting.
            Post-bind _ _ w
              (transition_graph_execution-keeps (IsSoundBut p k) _ _ _ w (IsSoundBut-of k h))
              λ moved v i. Post-bind _ _ v (resolve_task-SoundBut r task v i) λ after u j.
                Post-bind _ _ u (clean_up-Sound k now u j) λ _ t s.
                  Post-bind _ _ t (publish-keeps (IsSound p) _ _ _ _ t s)
                    λ _ x y. Post-pure _ x y)))

module _ {p : ConcurrencyPolicy} where
  pub reconcile_due-Sound :
      (limit now : ℕ) (w : World) → Sound p w.tables → Sound p (reconcile_due limit now w).1.tables
  unfolding reconcile_due reconcile_each pure
  reconcile_due-Sound limit now w h = keeps_gets (Sound p) _ _ w (
      keeps_for_each (Sound p) (reconcile_each now)
        (λ (k, task) v s. reconcile-Sound k task.project_id now v s) _ w h)
