-- ===== src/Change/Actions.antt =====
-- Actions of the store that make nothing but primitive changes, one rule for each way to build one.
use orchestra_threads.Prelude.{
  Bool, true, false, Option, none, some, Error, Result, ok, err, Exec, pure, raise, lift, gets,
  check, or_raise, ◌>>=◌,
}
use orchestra_threads.Rows.{Db}
use orchestra_threads.Change.{Changes, here, Changes-trans}

-- Whether it returns or raises, `m` leaves a store that such changes lead to.
pub record Makes {A : Type 0} (m : Exec Db A) : Type 0 where
  pub at : (db : Db) → Changes db (m db).1

module _ {A : Type 0} where
  pub Makes-pure : (a : A) → Makes (pure a)
  Makes-pure a = record { at = λ db. here }

  pub Makes-raise : (e : Error) → Makes {A = A} (raise e)
  Makes-raise e = record { at = λ db. here }

  pub Makes-lift : (r : Result A) → Makes (lift r)
  Makes-lift r = record { at = λ db. here }

  pub Makes-gets : (f : Db → A) → Makes (gets f)
  Makes-gets f = record { at = λ db. here }

  pub Makes-or_raise : (e : Error) (o : Option A) → Makes (or_raise e o)
  Makes-or_raise e none = record { at = λ db. here }
  Makes-or_raise e (some a) = record { at = λ db. here }

pub Makes-check : (b : Bool) (e : Error) → Makes (check b e)
Makes-check true e = record { at = λ db. here }
Makes-check false e = record { at = λ db. here }

module _ {A B : Type 0} where
  after :
      (r : Result A) (db u : Db) (f : A → Exec Db B)
      → Changes db u
      → ((a : A) → Makes (f a))
      → Changes db ((lift r >>= f) u).1
  after (ok a) db u f h k = Changes-trans h ((k a).at u)
  after (err e) db u f h k = h

  pub Makes->>= :
      (m : Exec Db A) (f : A → Exec Db B) → Makes m → ((a : A) → Makes (f a)) → Makes (m >>= f)
  Makes->>= m f h k = record { at = λ db. let (r, u) = m db in after r db u f (h.at db) k }

pub ruleset makes_rules =
    (Makes-pure, Makes-raise, Makes-lift, Makes-gets, Makes-or_raise, Makes-check, Makes->>=)
