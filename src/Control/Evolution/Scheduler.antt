-- ===== src/Control/Evolution/Scheduler.antt =====
-- execution/scheduler/service.py: no operation moves a task but by a legal transition.
use autonomous_swe.Prelude.{
  ℕ, String, ◌≡◌, refl, Bool, true, false, Option, none, some, if◌then◌else◌,
}
use autonomous_swe.Domain.Enums.{TaskStatus}
use autonomous_swe.Persistence.Rows.{
  TaskRow, RunRow, LeaseRow, TaskAttemptRow, RepositoryRow, Resource, StateName, Payload, Topic,
}
use autonomous_swe.Persistence.Session.{
  Tables, Result, return, raise, pure, throw, lookup_error, stale_state, invalid_state_transition,
  permission_error, value_error, runtime_error, overflow_error, budget_exhausted, integrity_error,
  transaction,
}
use autonomous_swe.Persistence.Repository.{
  record_state_duration, append_audit, enqueue_event, publish, create_attempt, create_lease,
}
use autonomous_swe.Persistence.Evolution.{
  Evolves-refl, Evolves-trans, Evolving, Evolving-pure, Evolving-throw, Evolving-modify,
  Evolving-bind, Evolving-test, Evolving-transaction, evolving_rules, transition_task-Evolving,
}
use autonomous_swe.Scheduler.Service.{SchedulerService, clean_up}
use autonomous_swe.Scheduler.Reservations.{reserve_with_global_cap, release_reservations}
use autonomous_swe.Scheduler.Claiming.{
  observe_dispatch, grant, reserve_slots, reserve_and_grant, try_claim, claim_ready,
}
use autonomous_swe.Scheduler.Execution.{
  Claim, TaskExecutionLease, renew, heartbeat, enter_running, record_attempt, admit_running,
  admit_completed, admit_claim, refuse_row, refuse_exhausted_task, after_admission, start_claim,
  replay_finish, close_attempt, finish_owned, finish_body, finish_claim,
}

pub record_state_duration-Evolving :
    (k : ℕ) (s : StateName) (a b : ℕ) → Evolving (record_state_duration k s a b)
unfolding record_state_duration
record_state_duration-Evolving k s a b = Evolving-modify _ λ t. refl

append_audit-Evolving : (e k : ℕ) (p : Payload) (c : ℕ) → Evolving (append_audit e k p c)
unfolding append_audit
append_audit-Evolving e k p c = Evolving-modify _ λ t. refl

enqueue_event-Evolving : (e : ℕ) (t : Topic) (p : Payload) → Evolving (enqueue_event e t p)
unfolding enqueue_event
enqueue_event-Evolving e t p =
    Evolving-bind _ _ (search evolving_rules) λ now. Evolving-modify _ λ t. refl

pub publish-Evolving : (t : Topic) (k c : ℕ) (p : Payload) → Evolving (publish t k c p)
unfolding publish
publish-Evolving t k c p = search (evolving_rules, append_audit-Evolving, enqueue_event-Evolving)

pub create_attempt-Evolving : (a k : ℕ) (h : String) → Evolving (create_attempt a k h)
unfolding create_attempt
create_attempt-Evolving a k h =
    Evolving-bind _ _ (search evolving_rules) λ now. Evolving-modify _ λ t. refl

pub release_reservations-Evolving : (k now : ℕ) → Evolving (release_reservations k now)
unfolding release_reservations
release_reservations-Evolving k now = Evolving-modify _ λ t. refl

pub clean_up-Evolving : (k now : ℕ) → Evolving (clean_up k now)
unfolding clean_up
clean_up-Evolving k now =
    Evolving-bind _ _ (release_reservations-Evolving k now) λ u. Evolving-modify _ λ t. refl

pub create_lease-Evolving :
    (k : ℕ) (owner : String) (token e : ℕ) → Evolving (create_lease k owner token e)
unfolding create_lease
create_lease-Evolving k owner token e = Evolving-bind _ _ (search evolving_rules) λ present.
    Evolving-bind _ _ (search evolving_rules)
      λ u. Evolving-bind _ _ (search evolving_rules) λ now. Evolving-modify _ λ t. refl

pub observe_dispatch-Evolving : (n : ℕ) → Evolving (observe_dispatch n)
unfolding pure
observe_dispatch-Evolving n = record { runs = λ w. Evolves-refl w.tasks }

room_evolves :
    (room : Bool) (t u : Tables) → u.tasks ≡ t.tasks → (if room then u else t).tasks ≡ t.tasks
room_evolves true t u e = e
room_evolves false t u e = refl

pub reserve_with_global_cap-Evolving :
    (k p : ℕ) (r : Resource) (units ceiling : ℕ)
    → Evolving (reserve_with_global_cap k p r units ceiling)
unfolding reserve_with_global_cap
reserve_with_global_cap-Evolving k p r units ceiling =
    Evolving-bind _ _ (search evolving_rules) λ now.
      Evolving-bind _ _ (search evolving_rules) λ room.
        Evolving-bind _ _ (Evolving-modify _ λ t. room_evolves room t _ refl)
          λ u. Evolving-pure room

pub ruleset row_rules = (
  evolving_rules, transition_task-Evolving, record_state_duration-Evolving, publish-Evolving,
  create_attempt-Evolving, release_reservations-Evolving, clean_up-Evolving, create_lease-Evolving,
  observe_dispatch-Evolving, reserve_with_global_cap-Evolving,
)

grant-Evolving :
    (s : SchedulerService) (o : String) (now token k : ℕ) (row : TaskRow)
    → Evolving (grant s o now token k row)
unfolding grant
grant-Evolving s o now token k row = search row_rules depth 12

reserve_slots-Evolving :
    (k : ℕ) (row : TaskRow) (r : Resource) (n ceiling : ℕ)
    → Evolving (reserve_slots k row r n ceiling)
unfolding reserve_slots
reserve_slots-Evolving k row r n ceiling = search row_rules depth 12

reserve_and_grant-Evolving :
    (s : SchedulerService) (o : String) (now token k : ℕ) (row : TaskRow)
    → Evolving (reserve_and_grant s o now token k row)
unfolding reserve_and_grant
reserve_and_grant-Evolving s o now token k row =
    search (row_rules, reserve_slots-Evolving, grant-Evolving) depth 20

try_claim-Evolving :
    (s : SchedulerService) (o : String) (now : ℕ) (c : ℕ × TaskRow) → Evolving (try_claim s o now c)
unfolding try_claim
try_claim-Evolving s o now (k, row) = search (row_rules, reserve_and_grant-Evolving) depth 20

pub claim_ready-Evolving :
    (s : SchedulerService) (o : String) (limit now : ℕ) (locked : ℕ → Bool)
    → Evolving (claim_ready s o limit now locked)
unfolding claim_ready
claim_ready-Evolving s o limit now locked = search (row_rules, try_claim-Evolving) depth 20

heartbeat-renew :
    (s : SchedulerService) (k : ℕ) (o : String) (token now : ℕ) (l : Option LeaseRow)
    → Evolving (renew s k o token now l)
unfolding renew
heartbeat-renew s k o token now none = Evolving-pure false
heartbeat-renew s k o token now (some l) =
    Evolving-test _ _ _ (Evolving-bind _ _ (Evolving-modify _ λ t. refl) λ u. Evolving-pure true)
      (Evolving-pure false)

pub heartbeat-Evolving :
    (s : SchedulerService) (k : ℕ) (o : String) (token now : ℕ)
    → Evolving (heartbeat s k o token now)
unfolding heartbeat
heartbeat-Evolving s k o token now = search (row_rules, heartbeat-renew) depth 12

enter_running-Evolving : (p k : ℕ) (row : TaskRow) → Evolving (enter_running p k row)
unfolding enter_running
enter_running-Evolving p k row = search row_rules depth 12

record_attempt-Evolving : (c : Claim) (a : Option TaskAttemptRow) → Evolving (record_attempt c a)
unfolding record_attempt
record_attempt-Evolving c none = search row_rules
record_attempt-Evolving c (some a) = search row_rules

admit_running-Evolving :
    (s : SchedulerService) (c : Claim) (now : ℕ) (row : TaskRow)
    → Evolving (admit_running s c now row)
unfolding admit_running
admit_running-Evolving s c now row =
    search (row_rules, enter_running-Evolving, record_attempt-Evolving) depth 20

admit_completed-Evolving :
    (c : Claim) (t : TaskRow) (r : RunRow) (q : RepositoryRow) → Evolving (admit_completed c t r q)
unfolding admit_completed
admit_completed-Evolving c t r q = search row_rules depth 12

admit_claim-Evolving : (s : SchedulerService) (c : Claim) (now : ℕ) → Evolving (admit_claim s c now)
unfolding admit_claim
admit_claim-Evolving s c now =
    search (row_rules, admit_running-Evolving, admit_completed-Evolving) depth 30

refuse_row-Evolving : (c : Claim) (now : ℕ) (o : Option TaskRow) → Evolving (refuse_row c now o)
unfolding refuse_row
refuse_row-Evolving c now none = search row_rules
refuse_row-Evolving c now (some t) = search row_rules depth 12

refuse_exhausted_task-Evolving : (c : Claim) (now : ℕ) → Evolving (refuse_exhausted_task c now)
unfolding refuse_exhausted_task
refuse_exhausted_task-Evolving c now = search (row_rules, refuse_row-Evolving)

after_admission-Evolving :
    (c : Claim) (now : ℕ) (r : Result TaskExecutionLease) → Evolving (after_admission c now r)
unfolding after_admission pure throw
after_admission-Evolving c now (raise budget_exhausted) =
    search (row_rules, refuse_exhausted_task-Evolving) depth 12
after_admission-Evolving c now (return a) = Evolving-pure (a)
after_admission-Evolving c now (raise lookup_error) = Evolving-throw lookup_error
after_admission-Evolving c now (raise stale_state) = Evolving-throw stale_state
after_admission-Evolving c now (raise invalid_state_transition) =
    Evolving-throw invalid_state_transition
after_admission-Evolving c now (raise permission_error) = Evolving-throw permission_error
after_admission-Evolving c now (raise value_error) = Evolving-throw value_error
after_admission-Evolving c now (raise runtime_error) = Evolving-throw runtime_error
after_admission-Evolving c now (raise overflow_error) = Evolving-throw overflow_error
after_admission-Evolving c now (raise integrity_error) = Evolving-throw integrity_error

pub start_claim-Evolving :
    (s : SchedulerService) (c : Claim) (now : ℕ) → Evolving (start_claim s c now)
unfolding start_claim
start_claim-Evolving s c now = record {
  runs = λ w.
      let m = transaction (admit_claim s c now) in
      Evolves-trans w.tasks (m w).1.tasks _
        ((Evolving-transaction _ (admit_claim-Evolving s c now)).runs w)
        ((after_admission-Evolving c now (m w).0).runs (m w).1);
}

replay_finish-Evolving :
    (c : Claim) (now : ℕ) (o : Option LeaseRow) → Evolving (replay_finish c now o)
unfolding replay_finish
replay_finish-Evolving c now none = search row_rules
replay_finish-Evolving c now (some l) = search row_rules depth 12

close_attempt-Evolving : (c : Claim) (now : ℕ) (t : TaskStatus) → Evolving (close_attempt c now t)
unfolding close_attempt
close_attempt-Evolving c now t = Evolving-bind _ _ (search row_rules) λ found.
    Evolving-bind _ _ (search row_rules)
      λ a. Evolving-bind _ _ (search row_rules) λ u. Evolving-modify _ λ x. refl

finish_owned-Evolving :
    (s : SchedulerService) (c : Claim) (target : TaskStatus) (now : ℕ) (t : TaskRow)
    (l : Option LeaseRow)
    → Evolving (finish_owned s c target now t l)
unfolding finish_owned
finish_owned-Evolving s c target now t l = search (row_rules, close_attempt-Evolving) depth 30

finish_body-Evolving :
    (s : SchedulerService) (c : Claim) (target : TaskStatus) (now : ℕ)
    → Evolving (finish_body s c target now)
unfolding finish_body
finish_body-Evolving s c target now =
    search (row_rules, replay_finish-Evolving, finish_owned-Evolving) depth 12

pub finish_claim-Evolving :
    (s : SchedulerService) (c : Claim) (target : TaskStatus) → Evolving (finish_claim s c target)
unfolding finish_claim
finish_claim-Evolving s c target = search (row_rules, finish_body-Evolving) depth 12
