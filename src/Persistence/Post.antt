-- ===== src/Persistence/Post.antt =====
-- What holds after an action that returned, with one rule for each way to build an action.
use autonomous_swe.Prelude.{◌≡◌, refl, Bool, true, false, Option, none, some, List, [], ◌∷◌}
use autonomous_swe.Persistence.Session.{
  Tables, World, Error, Result, return, raise, Exec, pure, gets, modify, test◌then◌else◌, or_raise,
  guard, when, continue, ended, transaction, for_each, ◌>>=◌, ◌>>◌,
}

-- `Q` holds of the result and the world, unless an exception was raised.
pub data Post {A : Type 0} (Q : A → World → Type 0) : Result A × World → Type 0 where
  done : {a : A} {w : World} → Q a w → Post Q (return a, w)
  failed : {e : Error} {w : World} → Post Q (raise e, w)

module _ {A : Type 0} {Q R : A → World → Type 0} where
  pub Post-weaken :
      {o : Result A × World} → Post R o → ((a : A) (v : World) → R a v → Q a v) → Post Q o
  Post-weaken (done {a} {w} h) k = done (k a w h)
  Post-weaken failed k = failed

module _ {A : Type 0} {Q : A → World → Type 0} where
  pub Post-always : (o : Result A × World) → ((a : A) (v : World) → Q a v) → Post Q o
  Post-always (return a, v) k = done (k a v)
  Post-always (raise e, v) k = failed

  pub post_return : {a : A} {w : World} → Post Q (return a, w) → Q a w
  post_return (done h) = h

module _ {A : Type 0} {Q : A → World → Type 0} where
  pub Post-pure : (a : A) (w : World) → Q a w → Post Q (pure a w)
  unfolding pure
  Post-pure a w h = done h

module _ {A B : Type 0} {Q : B → World → Type 0} where
  pub Post-gets :
      (f : World → A) (k : A → Exec B) (w : World) → Post Q (k (f w) w) → Post Q ((gets f >>= k) w)
  unfolding ◌>>=◌
  Post-gets f k w p = p

module _ {A B : Type 0} {Q : B → World → Type 0} {R : A → World → Type 0} where
  Post-continue :
      (f : A → Exec B) {o : Result A × World}
      → Post R o
      → ((a : A) (v : World) → R a v → Post Q (f a v))
      → Post Q (continue o.0 f o.1)
  Post-continue f (done {a} {w} h) k = k a w h
  Post-continue f failed k = failed

  pub Post-bind :
      (m : Exec A) (f : A → Exec B) (w : World)
      → Post R (m w)
      → ((a : A) (v : World) → R a v → Post Q (f a v))
      → Post Q ((m >>= f) w)
  unfolding ◌>>=◌
  Post-bind m f w p k = Post-continue f p k

module _ {B : Type 0} {Q : B → World → Type 0} where
  pub Post-modify :
      (f : Tables → Tables) (m : Exec B) (w : World)
      → Post Q (m (record w { tables = f w.tables }))
      → Post Q ((modify f >> m) w)
  unfolding ◌>>=◌
  Post-modify f m w p = p

  pub Post-or_raise :
      {A : Type 0} (o : Option A) (e : Error) (f : A → Exec B) (w : World)
      → ((a : A) → o ≡ some a → Post Q (f a w))
      → Post Q ((or_raise o e >>= f) w)
  unfolding ◌>>=◌
  Post-or_raise none e f w k = failed
  Post-or_raise (some a) e f w k = k a refl

  pub Post-guard :
      (b : Bool) (e : Error) (m : Exec B) (w : World)
      → (b ≡ true → Post Q (m w))
      → Post Q ((guard b e >> m) w)
  unfolding ◌>>=◌
  Post-guard false e m w k = failed
  Post-guard true e m w k = k refl

  pub Post-if :
      (b : Bool) (m n : Exec B) (w : World)
      → (b ≡ true → Post Q (m w))
      → (b ≡ false → Post Q (n w))
      → Post Q ((test b then m else n) w)
  unfolding ◌>>=◌
  Post-if true m n w km kn = km refl
  Post-if false m n w km kn = kn refl

pub Post-when :
    {R : Unit {0} → World → Type 0} (b : Bool) (m : Exec Unit) (w : World)
    → (b ≡ true → Post R (m w))
    → (b ≡ false → R tt w)
    → Post R (when b m w)
unfolding ◌>>=◌
Post-when true m w km kn = km refl
Post-when false m w km kn = done (kn refl)

-- A committed transaction keeps what its action establishes, and a rolled back one the tables.
module _ {A : Type 0} {Q : A → World → Type 0} where
  pub Post-transaction : (m : Exec A) (w : World) → Post Q (m w) → Post Q (transaction m w)
  unfolding transaction
  Post-transaction m w p = go p
    where
      go : {o : Result A × World} → Post Q o → Post Q (ended w o.0 o.1)
      go (done h) = done h
      go failed = failed

module _ {A : Type 0} where
  -- So the tables satisfy an invariant after it, whatever its result.
  pub transaction_keeps :
      (I : Tables → Type 0) (m : Exec A) (w : World)
      → I w.tables
      → Post (λ _ v. I v.tables) (m w)
      → I (transaction m w).1.tables
  unfolding transaction
  transaction_keeps I m w before p = go p
    where
      go : {o : Result A × World} → Post (λ _ v. I v.tables) o → I (ended w o.0 o.1).1.tables
      go (done h) = h
      go failed = before

module _ {A B : Type 0} (I : World → Type 0) (body : A → Exec B)
    (round : (a : A) (w : World) → I w → Post (λ _ v. I v) (body a w)) where
  pub Post-for_each : (xs : List A) (w : World) → I w → Post (λ _ v. I v) (for_each xs body w)
  unfolding for_each
  Post-for_each [] w h = Post-pure _ w h
  Post-for_each (x ∷ xs) w h =
      Post-bind _ _ w (round x w h)
        λ b v i. Post-bind _ _ v (Post-for_each xs v i) λ bs u j. Post-pure _ u j

-- A guard that ends an action.
pub Post-require :
    {Q : Unit {0} → World → Type 0} (b : Bool) (e : Error) (w : World)
    → (b ≡ true → Q tt w)
    → Post Q (guard b e w)
unfolding ◌>>=◌
Post-require false e w k = failed
Post-require true e w k = done (k refl)

-- Outside a transaction: an invariant of the tables after each step, whatever its result.
module _ {A B : Type 0} (I : Tables → Type 0) where
  keeps_continue :
      (f : A → Exec B) (r : Result A) (v : World)
      → I v.tables
      → ((a : A) (u : World) → I u.tables → I (f a u).1.tables)
      → I (continue r f v).1.tables
  keeps_continue f (return a) v h k = k a v h
  keeps_continue f (raise e) v h k = h

  pub keeps_bind :
      (m : Exec A) (f : A → Exec B) (w : World)
      → I (m w).1.tables
      → ((a : A) (u : World) → I u.tables → I (f a u).1.tables)
      → I ((m >>= f) w).1.tables
  unfolding ◌>>=◌
  keeps_bind m f w h k = let (r, v) = m w in keeps_continue f r v h k

module _ {A B : Type 0} (I : Tables → Type 0) where
  pub keeps_for_each :
      (body : A → Exec B)
      → ((a : A) (w : World) → I w.tables → I (body a w).1.tables)
      → (xs : List A) (w : World) → I w.tables
      → I (for_each xs body w).1.tables
  unfolding for_each pure
  keeps_for_each body round [] w h = h
  keeps_for_each body round (x ∷ xs) w h =
      keeps_bind I _ _ w (round x w h)
        λ b v i. keeps_bind I _ _ v (keeps_for_each body round xs v i) λ bs u j. j

module _ {A : Type 0} (I : Tables → Type 0) where
  pub keeps_test :
      (b : Bool) (m n : Exec A) (w : World)
      → I (m w).1.tables
      → I (n w).1.tables
      → I ((test b then m else n) w).1.tables
  unfolding ◌>>=◌
  keeps_test true m n w km kn = km
  keeps_test false m n w km kn = kn

  -- Reading is free.
  pub keeps_gets :
      {B : Type 0} (f : World → B) (k : B → Exec A) (w : World)
      → I (k (f w) w).1.tables
      → I ((gets f >>= k) w).1.tables
  unfolding ◌>>=◌
  keeps_gets f k w h = h
