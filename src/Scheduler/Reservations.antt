-- ===== src/Scheduler/Reservations.antt =====
-- execution/scheduler/service.py: the reservations and what they sum to.
use autonomous_swe.Prelude.{
  ℕ, ◌+◌, ◌≤◌, ◌≡◌, refl, Bool, true, false, ◌&&◌, none, some, List, [], ◌∷◌, ◌++◌, map, leb, ◌==◌,
  is_some, not, if◌then◌else◌, arith,
}
use autonomous_swe.Persistence.Rows.{Resource, ReservationRow}
use autonomous_swe.Persistence.Session.{World, Exec, pure, gets, modify, utc_now, ◌>>=◌, ◌>>◌}
use autonomous_swe.Scheduler.Policy.{AdmissionSnapshot}

abbrev pub resource_is : Resource → Resource → Bool
resource_is Resource.task Resource.task = true
resource_is Resource.model Resource.model = true
resource_is Resource.sandbox Resource.sandbox = true
resource_is _ _ = false

-- `released_at IS NULL`
abbrev pub is_active : ReservationRow → Bool
is_active r = not (is_some r.released_at)

-- `sum(units)` over the rows that pass a test
unfoldable pub units_where : (ReservationRow → Bool) → List ReservationRow → ℕ
units_where p [] = 0
units_where p (r ∷ rs) = (if p r then r.units else 0) + units_where p rs

abbrev pub of_resource : Resource → ReservationRow → Bool
of_resource resource r = is_active r && resource_is r.resource resource

abbrev pub of_project : ℕ → Resource → ReservationRow → Bool
of_project project_id resource r = of_resource resource r && r.project_id == project_id

-- The units of a resource that are reserved now, in every project.
abbrev pub active_units : Resource → List ReservationRow → ℕ
active_units resource rs = units_where (of_resource resource) rs

-- The units that a task holds.
abbrev pub held_by : ℕ → List ReservationRow → ℕ
held_by task_id rs = units_where (λ r. is_active r && r.task_id == task_id) rs

unfoldable pub admission_snapshot : ℕ → World → AdmissionSnapshot
admission_snapshot project_id w = record {
  active_tasks = active_units Resource.task w.reservations;
  active_project_tasks = units_where (of_project project_id Resource.task) w.reservations;
  active_model_slots = active_units Resource.model w.reservations;
  active_sandbox_slots = active_units Resource.sandbox w.reservations;
}

-- The advisory lock makes the test and the insertion one step.
unfoldable pub reserve_with_global_cap : ℕ → ℕ → Resource → ℕ → ℕ → Exec Bool
reserve_with_global_cap task_id project_id resource units cap = do
  now ← utc_now
  room ← gets (λ w. leb (active_units resource w.reservations + units) cap)
  modify λ t.
      if room
      then record t {
        reservations =
            t.reservations
            ++ record {
              task_id = task_id;
              project_id = project_id;
              resource = resource;
              units = units;
              created_at = now;
              released_at = none;
            }
              ∷ [];
      }
      else t
  pure room

abbrev release_row : ℕ → ℕ → ReservationRow → ReservationRow
release_row task_id released_at r =
    if r.task_id == task_id && is_active r then record r { released_at = some released_at } else r

unfoldable pub released : ℕ → ℕ → List ReservationRow → List ReservationRow
released task_id released_at rs = map (release_row task_id released_at) rs

unfoldable pub release_reservations : ℕ → ℕ → Exec Unit
unfolding released
release_reservations task_id released_at =
    modify (λ t. record t { reservations = released task_id released_at t.reservations })

pub units_where-append :
    (p : ReservationRow → Bool) (xs ys : List ReservationRow)
    → units_where p (xs ++ ys) ≡ units_where p xs + units_where p ys
unfolding units_where
units_where-append p [] ys = omega arith
units_where-append p (x ∷ xs) ys = omega (arith, units_where-append p xs ys)

-- A release leaves nothing with the task.
pub held_by-released :
    (task_id now : ℕ) (rs : List ReservationRow) → held_by task_id (released task_id now rs) ≡ 0
unfolding released units_where
held_by-released task_id now [] = refl
held_by-released task_id now (r ∷ rs) = ground (arith, held_by-released task_id now rs)

-- It takes nothing from another task.
pub held_by-released_ne :
    (task_id j now : ℕ) (rs : List ReservationRow)
    → (task_id == j) ≡ false
    → held_by j (released task_id now rs) ≡ held_by j rs
unfolding released units_where
held_by-released_ne task_id j now [] h = refl
held_by-released_ne task_id j now (r ∷ rs) h =
    ground (arith, held_by-released_ne task_id j now rs h)

-- It never raises what is reserved of a resource.
pub active_units-released_le :
    (resource : Resource) (task_id now : ℕ) (rs : List ReservationRow)
    → active_units resource (released task_id now rs) ≤ active_units resource rs
unfolding released units_where
active_units-released_le resource task_id now [] = omega arith
active_units-released_le resource task_id now (r ∷ rs) =
    ground (arith, active_units-released_le resource task_id now rs)
