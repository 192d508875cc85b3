-- ===== src/Persistence/Graphs.antt =====
-- `transition_graph_execution`, persistence/repositories.py, and the tables of the scheduler.
use autonomous_swe.Prelude.{ℕ, String, Option, none, some, List, Table}
use autonomous_swe.Domain.Enums.{GraphExecutionState}
use autonomous_swe.Persistence.Rows.{
  TaskRow, LeaseRow, ReservationRow, GraphExecutionRow, Topic, Payload,
}
use autonomous_swe.Persistence.Session.{World, utc_now, uuid4, ◌>>=◌}
use autonomous_swe.Persistence.Repository.{
  GraphIdentity, write_graph, record_graph_execution, announce, settle, roll_over, keep_state,
  advance, move_graph, record_state_duration, publish, transition_graph_execution,
}
use autonomous_swe.Persistence.Post.{Post, done, Post-bind, Post-gets, Post-guard, Post-if}

module _ (I : Table TaskRow → Table LeaseRow → List ReservationRow → Type 0) where
  pub publish-keeps :
      (topic : Topic) (aggregate_id correlation_id : ℕ) (payload : Payload) (w : World)
      → I w.tasks w.leases w.reservations
      → Post
          (λ _ v. I v.tasks v.leases v.reservations)
          (publish topic aggregate_id correlation_id payload w)
  unfolding publish utc_now uuid4 ◌>>=◌
  publish-keeps topic aggregate_id correlation_id payload w h = done h

  utc_now-keeps :
      (w : World)
      → I w.tasks w.leases w.reservations
      → Post (λ _ v. I v.tasks v.leases v.reservations) (utc_now w)
  unfolding utc_now
  utc_now-keeps w h = done h

  settle-keeps :
      (i : GraphIdentity) (target : GraphExecutionState) (checkpoint : Option String) (now : ℕ)
      (row : GraphExecutionRow) (w : World)
      → I w.tasks w.leases w.reservations
      → Post (λ _ v. I v.tasks v.leases v.reservations) (settle i target checkpoint now row w)
  unfolding settle announce record_state_duration write_graph publish utc_now uuid4 ◌>>=◌
  settle-keeps i target checkpoint now row w h = done h

  roll_over-keeps :
      (i : GraphIdentity) (target : GraphExecutionState) (checkpoint : Option String) (now : ℕ)
      (row : GraphExecutionRow) (w : World)
      → I w.tasks w.leases w.reservations
      → Post (λ _ v. I v.tasks v.leases v.reservations) (roll_over i target checkpoint now row w)
  unfolding roll_over
  roll_over-keeps i target checkpoint now row w h = Post-guard _ _ _ w λ _.
      Post-bind _ _ w (publish-keeps _ _ _ _ w h)
        λ _ v j. settle-keeps i target checkpoint now _ v j

  move_graph-keeps :
      (i : GraphIdentity) (target : GraphExecutionState) (checkpoint : Option String) (now : ℕ)
      (found : Option GraphExecutionRow) (w : World)
      → I w.tasks w.leases w.reservations
      → Post (λ _ v. I v.tasks v.leases v.reservations) (move_graph i target checkpoint now found w)
  unfolding move_graph advance keep_state
  move_graph-keeps i target checkpoint now none w h =
      Post-guard _ _ _ w λ _.
        unfold record_graph_execution announce write_graph publish utc_now uuid4 ◌>>=◌ in done h
  move_graph-keeps i target checkpoint now (some row) w h = Post-guard _ _ _ w λ _.
      Post-if _ _ _ w (λ _. roll_over-keeps i target checkpoint now row w h)
        λ _.
          Post-if _ _ _ w (λ _. unfold write_graph ◌>>=◌ in done h)
            λ _. Post-guard _ _ _ w λ _. settle-keeps i target checkpoint now row w h

  pub transition_graph_execution-keeps :
      (i : GraphIdentity) (target : GraphExecutionState) (checkpoint : Option String) (w : World)
      → I w.tasks w.leases w.reservations
      → Post
          (λ _ v. I v.tasks v.leases v.reservations)
          (transition_graph_execution i target checkpoint w)
  unfolding transition_graph_execution
  transition_graph_execution-keeps i target checkpoint w h =
      Post-bind _ _ w (utc_now-keeps w h)
        λ now v j. Post-gets _ _ v (move_graph-keeps i target checkpoint now _ v j)
