-- ===== src/Persistence/Refusals.antt =====
-- `transition_task`, persistence/repositories.py: its refusals and its version check.
use autonomous_swe.Prelude.{
  ℕ, ◌≡◌, refl, ap, ◌∙◌, not, Option, none, some, get, get-put, ==_refl, ◌==◌, if◌then◌else◌, arith,
  Bool-cases, inl, inr,
}
use autonomous_swe.Domain.Enums.{TaskStatus}
use autonomous_swe.Domain.Transitions.{require_task_transition}
use autonomous_swe.Persistence.Rows.{TaskRow}
use autonomous_swe.Persistence.Session.{
  World, Error, raise, lookup_error, stale_state, invalid_state_transition, ◌>>=◌,
}
use autonomous_swe.Persistence.Repository.{in_project, transition_task}
use autonomous_swe.Persistence.Post.{Post, Post-weaken}
use autonomous_swe.Persistence.Transition.{Moved, move, transition_task-Moved}

-- The first of the three tests that fails.
abbrev refusal : Option TaskRow → ℕ → TaskStatus → Option Error
refusal none expected_version target = some lookup_error
refusal (some row) expected_version target =
    if not (row.version == expected_version)
    then some stale_state
    else if not (require_task_transition row.state target)
    then some invalid_state_transition
    else none

refusal_of :
    (project_id k version : ℕ) (target : TaskStatus) (o : Option TaskRow) (e : Error) (w : World)
    → in_project project_id (get k w.tasks) ≡ o
    → refusal o version target ≡ some e
    → transition_task project_id k version target w ≡ (raise e, w)
unfolding transition_task ◌>>=◌
refusal_of project_id k version target none e w h f = rw h (ground arith)
refusal_of project_id k version target (some row) e w h f =
    elim (Bool-cases (row.version == version)) [
      | inr stale ↦ rw (h, stale) (ground arith)
      | inl fresh ↦ elim (Bool-cases (require_task_transition row.state target)) [
        | inl legal ↦ absurd (ground arith)
        | inr illegal ↦ rw (h, fresh, illegal) (ground arith)
      ]
    ]

-- A transition that a test refuses (no such task in the project, another version, or a move that
-- is not in the table, the first that holds) raises that test's exception and changes nothing.
pub transition_task-refused :
    (project_id k version : ℕ) (target : TaskStatus) (e : Error) (w : World)
    → refusal (in_project project_id (get k w.tasks)) version target ≡ some e
    → transition_task project_id k version target w ≡ (raise e, w)
transition_task-refused project_id k version target e w h =
    refusal_of project_id k version target _ e w refl h

moved_on :
    (project_id version : ℕ) (target other : TaskStatus) (now : ℕ) (o : Option TaskRow)
    (before : TaskRow)
    → in_project project_id o ≡ some before
    → before.version ≡ version
    → refusal (in_project project_id (some (move before target now))) version other
      ≡ some stale_state
moved_on project_id version target other now none before h e = absurd (ground (arith, h))
moved_on project_id version target other now (some r) before h e = ground (arith, h, e)

stored :
    {project_id k version : ℕ} {target : TaskStatus} {w : World} {after : TaskRow} {v : World}
    (m : Moved project_id k version target w after v)
    → get k v.tasks ≡ some (move m.before target m.now)
stored {k} {w} {after} m =
    ap (λ t. get k t.tasks) m.tables ∙ rw (get-put, ==_refl k) (ap some m.moved)

-- Of two transitions that expect the same version, one after the other, the second raises
-- StaleStateError and changes nothing, whatever states they ask for.
pub transition_task-once :
    (project_id k version : ℕ) (target other : TaskStatus) (w : World)
    → Post
        (λ _ v. transition_task project_id k version other v ≡ (raise stale_state, v))
        (transition_task project_id k version target w)
transition_task-once project_id k version target other w =
    Post-weaken (transition_task-Moved project_id k version target w) λ after v m.
      transition_task-refused project_id k version other stale_state v
        (rw (stored m) (moved_on project_id version target other m.now _ m.before m.found m.fresh))
