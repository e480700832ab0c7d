-- ===== src/Sqlite/Engine/Keeps.antt =====
-- A property of the tables that an action keeps, whether it succeeds or fails: a rule for each way
-- to build an action.
use jobsd.Common.{Bool, true, false, ◌≡◌, refl, subst, arith, if◌then◌else◌}
use jobsd.Result.{Error, Result, ok, err, hang}
use jobsd.Action.{Action, pure, lift, continue, ◌>>=◌, refuse_if, logged}
use jobsd.Sqlite.{Tables}
use jobsd.Sqlite.Engine.{Db, tick, answer, exec, query, finish, transaction}

pub record Keeps (P : Tables → Type 0) {A : Type 0} (m : Action Db A) : Type 0 where
  pub at : (db : Db) → P db.tables → P (m db).1.tables

branch_keeps {ℓ} :
    {A : Type ℓ} (P : Tables → Type 0) (b : Bool) (x y : Result A × Db)
    → P x.1.tables
    → P y.1.tables
    → P (if b then x else y).1.tables
branch_keeps P true x y h k = h
branch_keeps P false x y h k = k

module _ {A : Type 0} (P : Tables → Type 0) where
  answer_keeps :
      (r : Result (A × Tables)) (db : Db)
      → P db.tables
      → ((a : A) (t : Tables) → r ≡ ok (a, t) → P t)
      → P (answer r db).1.tables
  answer_keeps (ok (a, t)) db h k = k a t refl
  answer_keeps (err e) db h k = h
  answer_keeps hang db h k = h

  finish_keeps :
      (before : Tables) (r : Result A) (db : Db)
      → P before
      → P db.tables
      → P (finish before (r, db)).1.tables
  finish_keeps before (ok a) db h k = branch_keeps P (db.refuses db.statements) _ _ h k
  finish_keeps before (err e) db h k = h
  finish_keeps before hang db h k = k

module _ {P : Tables → Type 0} {A : Type 0} where
  pub Keeps-lift : (r : Result A) → Keeps P (lift r)
  Keeps-lift r = record { at = λ db h. h }

  pub Keeps-pure : (a : A) → Keeps P (pure a)
  Keeps-pure a = record { at = λ db h. h }

  pub Keeps-query : (f : Tables → A) → Keeps P (query f)
  Keeps-query f = record { at = λ db h. branch_keeps P (db.refuses db.statements) _ _ h h }

  pub Keeps-exec :
      (f : Tables → Result (A × Tables))
      → ((t : Tables) → P t → (a : A) (t' : Tables) → f t ≡ ok (a, t') → P t')
      → Keeps P (exec f)
  Keeps-exec f k = record {
    at = λ db h.
        branch_keeps P (db.refuses db.statements) _ _ h
          (answer_keeps P (f db.tables) (tick db) h (k db.tables h));
  }

  pub Keeps-transaction : (m : Action Db A) → Keeps P m → Keeps P (transaction m)
  Keeps-transaction m k = record {
    at = λ db h.
        branch_keeps P (db.refuses db.statements) _ _ h
          (finish_keeps P db.tables (m (tick db)).0 (m (tick db)).1 h (k.at (tick db) h));
  }

  pub Keeps-if :
      (b : Bool) (m n : Action Db A) → Keeps P m → Keeps P n → Keeps P (if b then m else n)
  Keeps-if true m n k l = k
  Keeps-if false m n k l = l

module _ {P : Tables → Type 0} {A B : Type 0} where
  continue_keeps :
      (r : Result A) (f : A → Action Db B) (db : Db)
      → ((a : A) → Keeps P (f a))
      → P db.tables
      → P (continue r f db).1.tables
  continue_keeps (ok a) f db k h = (k a).at db h
  continue_keeps (err e) f db k h = h
  continue_keeps hang f db k h = h

  pub Keeps-bind :
      (m : Action Db A) (f : A → Action Db B)
      → Keeps P m
      → ((a : A) → Keeps P (f a))
      → Keeps P (m >>= f)
  Keeps-bind m f k l = record { at = λ db h. continue_keeps (m db).0 f (m db).1 l (k.at db h) }

pub Keeps-refuse_if : {P : Tables → Type 0} (b : Bool) (e : Error) → Keeps P (refuse_if b e)
Keeps-refuse_if true e = record { at = λ db h. h }
Keeps-refuse_if false e = record { at = λ db h. h }

pub Keeps-logged : {P : Tables → Type 0} (m : Action Db Unit) → Keeps P m → Keeps P (logged m)
Keeps-logged {P} m k = record { at = λ db h. go db (m db).0 refl (k.at db h) }
  where
    go : (db : Db) (r : Result Unit) → (m db).0 ≡ r → P (m db).1.tables → P (logged m db).1.tables
    go db (ok u) e h = subst P (ground arith) h
    go db (err x) e h = subst P (ground arith) h
    go db hang e h = subst P (ground arith) h
