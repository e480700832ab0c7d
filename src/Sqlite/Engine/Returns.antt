-- ===== src/Sqlite/Engine/Returns.antt =====
-- Actions that return, with a value or an error: a rule for each way to build an action.
use jobsd.Common.{Bool, true, false, ◌≡◌, ◌≢◌, refl, arith, if◌then◌else◌}
use jobsd.Result.{Error, Result, ok, err, hang}
use jobsd.Action.{Action, pure, lift, continue, ◌>>=◌, refuse_if, logged}
use jobsd.Sqlite.{Tables}
use jobsd.Sqlite.Engine.{Db, exec, query, transaction, tick, answer, finish}

pub record Returns {A : Type 0} (m : Action Db A) : Type 0 where
  pub at : (db : Db) → (m db).0 ≢ hang

module _ {A : Type 0} where
  pub Returns-pure : (a : A) → Returns (pure a)
  Returns-pure a = record { at = λ db e. cc }

  pub Returns-lift : (r : Result A) → r ≢ hang → Returns (lift r)
  Returns-lift r h = record { at = λ db e. h e }

  pub Returns-query : (f : Tables → A) → Returns (query f)
  Returns-query f = record { at = λ db e. ground arith }

  answer_returns : (r : Result (A × Tables)) (db : Db) → r ≢ hang → (answer r db).0 ≢ hang
  answer_returns (ok (a, t)) db h e = cc
  answer_returns (err x) db h e = cc
  answer_returns hang db h e = h refl

  pub Returns-exec :
      (f : Tables → Result (A × Tables)) → ((t : Tables) → f t ≢ hang) → Returns (exec f)
  Returns-exec f h = record {
    at = λ db e. ground (arith, answer_returns (f db.tables) (tick db) (h db.tables));
  }

  finish_returns :
      (before : Tables) (r : Result A) (db : Db) → r ≢ hang → (finish before (r, db)).0 ≢ hang
  finish_returns before (ok a) db h e = ground arith
  finish_returns before (err x) db h e = cc
  finish_returns before hang db h e = h refl

  pub Returns-transaction : (m : Action Db A) → Returns m → Returns (transaction m)
  Returns-transaction m h = record {
    at = λ db e.
        ground (arith, finish_returns db.tables (m (tick db)).0 (m (tick db)).1 (h.at (tick db)));
  }

  pub Returns-if :
      (b : Bool) (m n : Action Db A) → Returns m → Returns n → Returns (if b then m else n)
  Returns-if true m n k l = k
  Returns-if false m n k l = l

module _ {A B : Type 0} where
  continue-Returns :
      (r : Result A) (f : A → Action Db B) (db : Db)
      → r ≢ hang
      → ((a : A) → Returns (f a))
      → (continue r f db).0 ≢ hang
  continue-Returns (ok a) f db h k e = (k a).at db e
  continue-Returns (err x) f db h k e = cc
  continue-Returns hang f db h k e = h refl

  pub Returns-bind :
      (m : Action Db A) (f : A → Action Db B)
      → Returns m
      → ((a : A) → Returns (f a))
      → Returns (m >>= f)
  Returns-bind m f k l = record { at = λ db. continue-Returns (m db).0 f (m db).1 (k.at db) l }

pub Returns-refuse_if : (b : Bool) (e : Error) → Returns (refuse_if b e)
Returns-refuse_if true e = record { at = λ db p. cc }
Returns-refuse_if false e = record { at = λ db p. cc }

-- What is logged and dropped leaves nothing of its error.
pub logged_ok : (m : Action Db Unit) (db : Db) → Returns m → (logged m db).0 ≡ ok tt
logged_ok m db h = go (m db).0 refl
  where
    go : (r : Result Unit) → (m db).0 ≡ r → (logged m db).0 ≡ ok tt
    go (ok u) e = ground arith
    go (err x) e = ground arith
    go hang e = absurd (h.at db e)
