-- ===== src/Persistence/Evolution.antt =====
-- Actions under which every task stays in the table and moves along `TASK_TRANSITIONS`, whether the
-- action returns or raises, with one rule for each way to build an action.
use autonomous_swe.Prelude.{
  ℕ, ◌≡◌, refl, ap, subst, Bool, true, false, Option, none, some, List, [], ◌∷◌, get, put, get-put,
  ◌==◌, ==→eq, ==_refl, if◌then◌else◌, Bool-cases, inl, inr, Table,
}
use autonomous_swe.Domain.Enums.{TaskStatus}
use autonomous_swe.Domain.Transitions.{TaskPath, here, next, require_task_transition}
use autonomous_swe.Persistence.Rows.{TaskRow}
use autonomous_swe.Persistence.Session.{
  Tables, World, Error, Result, return, raise, Exec, pure, throw, gets, modify, test◌then◌else◌,
  or_raise, guard, when, continue, ended, transaction, for_each, utc_now, uuid4, ◌>>=◌,
}
use autonomous_swe.Persistence.Repository.{in_project, transition_task}
use autonomous_swe.Persistence.Post.{Post, done, failed, Post-weaken}
use autonomous_swe.Persistence.Transition.{Moved, move, transition_task-Moved}

TaskPath-trans : {a b c : TaskStatus} → TaskPath a b → TaskPath b c → TaskPath a c
TaskPath-trans p here = p
TaskPath-trans p (next q e) = next (TaskPath-trans p q) e

-- A task of the first table is in the second, in a state that a chain of legal transitions leads to.
abbrev pub Evolves : Table TaskRow → Table TaskRow → Type 0
Evolves t u =
    (k : ℕ) (row : TaskRow)
    → get k t ≡ some row
    → (row' : TaskRow) × (get k u ≡ some row') × TaskPath row.state row'.state

pub Evolves-refl : (t : Table TaskRow) → Evolves t t
Evolves-refl t k row e = (row, e, here)

pub Evolves-eq : (t u : Table TaskRow) → u ≡ t → Evolves t u
Evolves-eq t u same k row e = (row, rw same e, here)

pub Evolves-trans : (t u v : Table TaskRow) → Evolves t u → Evolves u v → Evolves t v
Evolves-trans t u v p q k row e =
    let (row', found, path) = p k row e in
    let (row'', found', path') = q k row' found in (row'', found', TaskPath-trans path path')

pub record Evolving {A : Type 0} (m : Exec A) : Type 0 where
  pub runs : (w : World) → Evolves w.tasks (m w).1.tasks

module _ {A : Type 0} where
  pub Evolving-pure : (a : A) → Evolving (pure a)
  unfolding pure
  Evolving-pure a = record { runs = λ w. Evolves-refl w.tasks }

  pub Evolving-throw : (e : Error) → Evolving (throw {A = A} e)
  unfolding throw
  Evolving-throw e = record { runs = λ w. Evolves-refl w.tasks }

  pub Evolving-gets : (f : World → A) → Evolving (gets f)
  unfolding gets
  Evolving-gets f = record { runs = λ w. Evolves-refl w.tasks }

  pub Evolving-or_raise : (o : Option A) (e : Error) → Evolving (or_raise o e)
  unfolding or_raise
  Evolving-or_raise none e = Evolving-throw e
  Evolving-or_raise (some a) e = Evolving-pure a

  pub Evolving-test :
      (b : Bool) (m n : Exec A) → Evolving m → Evolving n → Evolving (test b then m else n)
  unfolding test◌then◌else◌
  Evolving-test true m n p q = p
  Evolving-test false m n p q = q

  ended-Evolves :
      (before v : World) (r : Result A)
      → Evolves before.tasks v.tasks
      → Evolves before.tasks (ended before r v).1.tasks
  ended-Evolves before v (return a) p = p
  ended-Evolves before v (raise e) p = Evolves-refl before.tasks

  pub Evolving-transaction : (m : Exec A) → Evolving m → Evolving (transaction m)
  unfolding transaction
  Evolving-transaction m p = record { runs = λ w. ended-Evolves w (m w).1 (m w).0 (p.runs w) }

pub Evolving-guard : (b : Bool) (e : Error) → Evolving (guard b e)
unfolding guard
Evolving-guard true e = Evolving-pure tt
Evolving-guard false e = Evolving-throw e

pub Evolving-when : (b : Bool) (m : Exec Unit) → Evolving m → Evolving (when b m)
unfolding when
Evolving-when true m p = p
Evolving-when false m p = Evolving-pure tt

pub Evolving-utc_now : Evolving utc_now
unfolding utc_now
Evolving-utc_now = record { runs = λ w. Evolves-refl w.tasks }

pub Evolving-uuid4 : Evolving uuid4
unfolding uuid4
Evolving-uuid4 = record { runs = λ w. Evolves-refl w.tasks }

-- An update of other tables.
pub Evolving-modify :
    (f : Tables → Tables) → ((t : Tables) → (f t).tasks ≡ t.tasks) → Evolving (modify f)
unfolding modify
Evolving-modify f same = record {
  runs = λ w. Evolves-eq w.tasks (f w.tables).tasks (same w.tables);
}

module _ {A B : Type 0} where
  continue-Evolves :
      (f : A → Exec B) (r : Result A) (v : World)
      → ((a : A) → Evolving (f a))
      → Evolves v.tasks (continue r f v).1.tasks
  continue-Evolves f (return a) v q = (q a).runs v
  continue-Evolves f (raise e) v q = Evolves-refl v.tasks

  pub Evolving-bind :
      (m : Exec A) (f : A → Exec B) → Evolving m → ((a : A) → Evolving (f a)) → Evolving (m >>= f)
  unfolding ◌>>=◌
  Evolving-bind m f p q = record {
    runs = λ w.
        Evolves-trans w.tasks (m w).1.tasks _ (p.runs w) (continue-Evolves f (m w).0 (m w).1 q);
  }

module _ {A B : Type 0} where
  pub Evolving-for_each :
      (xs : List A) (body : A → Exec B)
      → ((a : A) → Evolving (body a))
      → Evolving (for_each xs body)
  unfolding for_each
  Evolving-for_each [] body p = Evolving-pure []
  Evolving-for_each (x ∷ xs) body p =
      Evolving-bind _ _ (p x)
        (λ b. Evolving-bind _ _ (Evolving-for_each xs body p) (λ bs. Evolving-pure _))

pub ruleset evolving_rules = (
  Evolving-pure, Evolving-throw, Evolving-gets, Evolving-or_raise, Evolving-test,
  Evolving-transaction, Evolving-guard, Evolving-when, Evolving-utc_now, Evolving-uuid4,
  Evolving-bind, Evolving-for_each,
)

-- One row of the table makes a move.
pub put-Evolves :
    (t : Table TaskRow) (task_id : ℕ) (before after : TaskRow)
    → get task_id t ≡ some before
    → TaskPath before.state after.state
    → Evolves t (put task_id after t)
put-Evolves t task_id before after found path k row e = elim (Bool-cases (task_id == k)) [
  | inl s ↦
      let same : before ≡ row = cc (rw (==→eq task_id k s) at found, e) in
      (after, rw (get-put, s) refl, subst (λ (r : TaskRow). TaskPath r.state after.state) same path)
  | inr s ↦ (row, rw (get-put, s) e, here)
]

-- An action that raises has written nothing.
data Clean {B : Type 0} (w : World) : Result B × World → Type 0 where
  wrote : {b : B} {v : World} → Clean w (return b, v)
  untouched : {e : Error} → Clean w (raise e, w)

module _ {B : Type 0} where
  at_or_raise :
      {A : Type 0} (o : Option A) (e : Error) (f : A → Exec B) (w : World)
      → ((a : A) → Clean w (f a w))
      → Clean w ((or_raise o e >>= f) w)
  unfolding ◌>>=◌
  at_or_raise none e f w k = untouched
  at_or_raise (some a) e f w k = k a

in_project_found :
    (project_id : ℕ) (o : Option TaskRow) (row : TaskRow)
    → in_project project_id o ≡ some row
    → o ≡ some row
in_project_found project_id none row e = absurd (cc e)
in_project_found project_id (some r) row e = elim (Bool-cases (r.project_id == project_id)) [
  | inl s ↦ rw s at e
  | inr s ↦ absurd (cc (rw s at e))
]

transition_task-Clean :
    (project_id task_id version : ℕ) (target : TaskStatus) (w : World)
    → Clean w (transition_task project_id task_id version target w)
unfolding transition_task utc_now uuid4 ◌>>=◌
transition_task-Clean project_id task_id version target w =
    at_or_raise (in_project project_id (get task_id w.tasks)) _ _ w λ row.
      elim (Bool-cases (row.version == version)) [
        | inr e ↦ rw e untouched
        | inl e ↦ elim (Bool-cases (require_task_transition row.state target)) [
          | inr l ↦ rw (e, l) untouched
          | inl l ↦ rw (e, l) wrote
        ]
      ]

Moved-row :
    (project_id task_id version : ℕ) (target : TaskStatus) (w : World) (after : TaskRow) (v : World)
    → Moved project_id task_id version target w after v
    → Evolves w.tasks v.tasks
Moved-row project_id task_id version target w after v m =
    rw (ap (λ (t : Tables). t.tasks) m.tables, m.moved)
      (put-Evolves w.tasks task_id m.before (move m.before target m.now)
        (in_project_found project_id (get task_id w.tasks) m.before m.found) (next here m.legal))

settled :
    {B : Type 0} {o : Result B × World} (w : World)
    → Clean w o
    → Post (λ _ v. Evolves w.tasks v.tasks) o
    → Evolves w.tasks o.1.tasks
settled w wrote (done h) = h
settled w untouched failed = Evolves-refl w.tasks

pub transition_task-Evolving :
    (project_id task_id version : ℕ) (target : TaskStatus)
    → Evolving (transition_task project_id task_id version target)
transition_task-Evolving project_id task_id version target = record {
  runs = λ w. settled w (transition_task-Clean project_id task_id version target w) (
      Post-weaken (transition_task-Moved project_id task_id version target w)
        (Moved-row project_id task_id version target w));
}

Moved-found :
    (project_id task_id version : ℕ) (target : TaskStatus) (w : World) (after : TaskRow) (v : World)
    → Moved project_id task_id version target w after v
    → get task_id v.tasks ≡ some after
Moved-found project_id task_id version target w after v m =
    rw (ap (λ (t : Tables). t.tasks) m.tables) (simp (get-put, ==_refl))

-- After a transition the row may be written again in the same state.
module _ {B : Type 0} (project_id task_id version : ℕ) (target : TaskStatus) (f : TaskRow → Exec B)
    (again : (after : TaskRow) (v : World)
      → get task_id v.tasks ≡ some after
      → Evolves v.tasks (f after v).1.tasks) where
  continue-Moved :
      (w : World) {o : Result TaskRow × World}
      → Clean w o
      → Post (Moved project_id task_id version target w) o
      → Evolves w.tasks (continue o.0 f o.1).1.tasks
  continue-Moved w wrote (done {a} {w = v} m) =
      Evolves-trans w.tasks v.tasks _ (Moved-row project_id task_id version target w a v m)
        (again a v (Moved-found project_id task_id version target w a v m))
  continue-Moved w untouched failed = Evolves-refl w.tasks

  pub Evolving-after_transition : Evolving (transition_task project_id task_id version target >>= f)
  unfolding ◌>>=◌
  Evolving-after_transition = record {
    runs = λ w.
        continue-Moved w (transition_task-Clean project_id task_id version target w)
          (transition_task-Moved project_id task_id version target w);
  }
