-- ===== src/Persistence/Total.antt =====
-- What an action that raises nothing establishes.
use autonomous_swe.Prelude.{ℕ, ◌≡◌, refl, Bool, true, false, Option, some, get, ==_refl, arith}
use autonomous_swe.Domain.Enums.{TaskStatus}
use autonomous_swe.Domain.Transitions.{require_task_transition}
use autonomous_swe.Persistence.Rows.{TaskRow}
use autonomous_swe.Persistence.Session.{
  World, Error, Result, return, raise, Exec, pure, gets, test◌then◌else◌, or_raise, guard, continue,
  transaction, ended, utc_now, uuid4, ◌>>=◌, ◌>>◌,
}
use autonomous_swe.Persistence.Repository.{in_project, transition_task}
use autonomous_swe.Persistence.Post.{Post, done, failed}
use autonomous_swe.Persistence.Transition.{Moved, transition_task-Moved}

-- The action returned, and `Q` holds of the result and the world.
pub data Total {A : Type 0} (Q : A → World → Type 0) : Result A × World → Type 0 where
  finished : {a : A} {w : World} → Q a w → Total Q (return a, w)

abbrev pub returned : {A : Type 0} → Result A → Bool
returned (return a) = true
returned (raise e) = false

module _ {A : Type 0} {Q R : A → World → Type 0} where
  pub Total-weaken :
      {o : Result A × World} → Total R o → ((a : A) (v : World) → R a v → Q a v) → Total Q o
  Total-weaken (finished {a} {w} h) k = finished (k a w h)

  -- A postcondition of every action that returned is one of this action.
  pub Total-Post : {o : Result A × World} → Post Q o → Total R o → Total Q o
  Total-Post (done h) (finished j) = finished h
  Total-Post failed t = elim t [ ]

module _ {A : Type 0} {Q : A → World → Type 0} where
  pub Total-pure : (a : A) (w : World) → Q a w → Total Q (pure a w)
  unfolding pure
  Total-pure a w h = finished h

  pub Total-if :
      (b : Bool) (m n : Exec A) (w : World)
      → (b ≡ true → Total Q (m w))
      → (b ≡ false → Total Q (n w))
      → Total Q ((test b then m else n) w)
  unfolding ◌>>=◌
  Total-if true m n w km kn = km refl
  Total-if false m n w km kn = kn refl

  pub Total-transaction : (m : Exec A) (w : World) → Total Q (m w) → Total Q (transaction m w)
  unfolding transaction
  Total-transaction m w p = go p
    where
      go : {o : Result A × World} → Total Q o → Total Q (ended w o.0 o.1)
      go (finished h) = finished h

module _ {A B : Type 0} {Q : B → World → Type 0} where
  pub Total-gets :
      (f : World → A) (k : A → Exec B) (w : World)
      → Total Q (k (f w) w)
      → Total Q ((gets f >>= k) w)
  unfolding ◌>>=◌
  Total-gets f k w p = p

  pub Total-or_raise :
      (o : Option A) (e : Error) (f : A → Exec B) (w : World) (a : A)
      → o ≡ some a
      → Total Q (f a w)
      → Total Q ((or_raise o e >>= f) w)
  unfolding ◌>>=◌
  Total-or_raise o e f w a h p = rw h p

module _ {B : Type 0} {Q : B → World → Type 0} where
  pub Total-guard :
      (b : Bool) (e : Error) (m : Exec B) (w : World)
      → b ≡ true
      → Total Q (m w)
      → Total Q ((guard b e >> m) w)
  unfolding ◌>>=◌
  Total-guard true e m w h p = p
  Total-guard false e m w h p = absurd (false_true h)
    where
      false_true : false ≡ true → ⊥
      false_true h = ground arith

module _ {A B : Type 0} {Q : B → World → Type 0} {R : A → World → Type 0} where
  Total-continue :
      (f : A → Exec B) {o : Result A × World}
      → Total R o
      → ((a : A) (v : World) → R a v → Total Q (f a v))
      → Total Q (continue o.0 f o.1)
  Total-continue f (finished {a} {w} h) k = k a w h

  pub Total-bind :
      (m : Exec A) (f : A → Exec B) (w : World)
      → Total R (m w)
      → ((a : A) (v : World) → R a v → Total Q (f a v))
      → Total Q ((m >>= f) w)
  unfolding ◌>>=◌
  Total-bind m f w p k = Total-continue f p k

-- A transition that the three tests allow is made.
transition_task-returns :
    (project_id task_id : ℕ) (target : TaskStatus) (w : World) (row : TaskRow)
    → in_project project_id (get task_id w.tasks) ≡ some row
    → require_task_transition row.state target ≡ true
    → Total (λ _ _. Unit {0}) (transition_task project_id task_id row.version target w)
unfolding transition_task utc_now uuid4 ◌>>=◌
transition_task-returns project_id task_id target w row found legal =
    rw (found, ==_refl row.version, legal) (finished tt)

pub transition_task-Total :
    (project_id task_id : ℕ) (target : TaskStatus) (w : World) (row : TaskRow)
    → in_project project_id (get task_id w.tasks) ≡ some row
    → require_task_transition row.state target ≡ true
    → Total
        (Moved project_id task_id row.version target w)
        (transition_task project_id task_id row.version target w)
transition_task-Total project_id task_id target w row found legal =
    Total-Post (transition_task-Moved project_id task_id row.version target w)
      (transition_task-returns project_id task_id target w row found legal)
