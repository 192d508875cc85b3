-- ===== src/Persistence/Transition.antt =====
-- `transition_task`, persistence/repositories.py: the rows that a transition leaves.
use autonomous_swe.Prelude.{ℕ, ◌+◌, ◌≡◌, refl, true, some, [], ◌∷◌, ◌++◌, get, put, ==→eq}
use autonomous_swe.Domain.Enums.{TaskStatus}
use autonomous_swe.Domain.Transitions.{require_task_transition}
use autonomous_swe.Persistence.Rows.{TaskRow, task_state_changed, OutboxRow}
use autonomous_swe.Persistence.Session.{World, utc_now, uuid4, ◌>>=◌}
use autonomous_swe.Persistence.Repository.{in_project, transition_task}
use autonomous_swe.Persistence.Post.{Post, done, Post-or_raise, Post-guard}

abbrev pub move : TaskRow → TaskStatus → ℕ → TaskRow
move row target now = record row {
  state = target;
  version = row.version + 1;
  state_entered_at = now;
}

-- The row moved along the table of transitions and its version counted up; every other row of
-- every table but the three journals stayed.
pub record Moved (project_id task_id expected_version : ℕ) (target : TaskStatus) (w : World)
    (after : TaskRow) (v : World) : Type 0 where
  pub before : TaskRow
  pub now : ℕ
  pub found : in_project project_id (get task_id w.tasks) ≡ some before
  pub fresh : before.version ≡ expected_version
  pub legal : require_task_transition before.state target ≡ true
  pub moved : after ≡ move before target now
  pub tables : v.tables ≡ record w.tables {
    tasks = put task_id after w.tasks;
    durations = v.durations;
    audit = v.audit;
    outbox = v.outbox;
  }
  pub event_id : ℕ
  pub queued : OutboxRow
  pub audited :
      v.audit
      ≡ w.audit
        ++ record {
          id = event_id;
          aggregate_id = task_id;
          payload = task_state_changed task_id project_id before.state target after.version;
          correlation_id = before.run_id;
          causation_id = event_id;
        }
          ∷ []
  pub published : v.outbox ≡ w.outbox ++ (event_id, queued) ∷ []
  pub announced :
      queued.payload ≡ task_state_changed task_id project_id before.state target after.version

-- A transition that returns has found the task in the project at the expected version and made a
-- move that is in the table; it has counted the version up, changed no row of a table but this one
-- and those of the three journals, and appended one audit event and one outbox event, with the same
-- identifier and the same payload.
pub transition_task-Moved :
    (project_id task_id expected_version : ℕ) (target : TaskStatus) (w : World)
    → Post
        (Moved project_id task_id expected_version target w)
        (transition_task project_id task_id expected_version target w)
unfolding transition_task utc_now uuid4 ◌>>=◌
transition_task-Moved project_id task_id expected_version target w =
    Post-or_raise (in_project project_id (get task_id w.tasks)) _ _ w λ row found.
      Post-guard _ _ _ w λ fresh. Post-guard _ _ _ w λ legal. done (record {
        before = row;
        now = w.ticks w.ticked;
        found = found;
        fresh = ==→eq _ _ fresh;
        legal = legal;
        moved = refl;
        tables = refl;
        event_id = w.draws w.drawn;
        queued = _;
        audited = refl;
        published = refl;
        announced = refl;
      })
