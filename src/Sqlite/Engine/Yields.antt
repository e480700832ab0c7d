-- ===== src/Sqlite/Engine/Yields.antt =====
-- Actions that keep a property of the tables and, from tables that have it, return values that have
-- another: a rule for each way to build an action.
use jobsd.Common.{Bool, true, false, ◌≡◌, refl, if◌then◌else◌}
use jobsd.Result.{engine, Result, ok, err, hang, Ensures}
use jobsd.Action.{Action, pure, lift, continue, ◌>>=◌}
use jobsd.Sqlite.{Tables}
use jobsd.Sqlite.Engine.{Db, tick, query}
use jobsd.Sqlite.Engine.Keeps.{Keeps}

pub record Yields (P : Tables → Type 0) {A : Type 0} (Q : A → Type 0) (m : Action Db A)
    : Type 0 where
  pub at : (db : Db) → P db.tables → P (m db).1.tables × Ensures Q (m db).0

anything : {A : Type 0} (r : Result A) → Ensures (λ a. Unit {0}) r
anything (ok a) = tt
anything (err e) = tt
anything hang = tt

module _ {P : Tables → Type 0} {A : Type 0} where
  pub Yields-Keeps : {Q : A → Type 0} (m : Action Db A) → Yields P Q m → Keeps P m
  Yields-Keeps m y = record { at = λ db h. (y.at db h).0 }

  pub Keeps-Yields : (m : Action Db A) → Keeps P m → Yields P (λ a. Unit {0}) m
  Keeps-Yields m k = record { at = λ db h. (k.at db h, anything (m db).0) }

  pub Yields-pure : {Q : A → Type 0} (a : A) → Q a → Yields P Q (pure a)
  Yields-pure a q = record { at = λ db h. (h, q) }

  pub Yields-lift : {Q : A → Type 0} (r : Result A) → Ensures Q r → Yields P Q (lift r)
  Yields-lift r q = record { at = λ db h. (h, q) }

  pub Yields-query :
      {Q : A → Type 0} (f : Tables → A) → ((t : Tables) → P t → Q (f t)) → Yields P Q (query f)
  Yields-query {Q} f k = record { at = λ db h. go db h (db.refuses db.statements) }
    where
      out : Db → Bool → Result A × Db
      out db b = if b then (err engine, tick db) else (ok (f db.tables), tick db)

      go : (db : Db) → P db.tables → (b : Bool) → P (out db b).1.tables × Ensures Q (out db b).0
      go db h true = (h, tt)
      go db h false = (h, k db.tables h)

  pub Yields-if :
      {Q : A → Type 0} (b : Bool) (m n : Action Db A)
      → (b ≡ true → Yields P Q m)
      → (b ≡ false → Yields P Q n)
      → Yields P Q (if b then m else n)
  Yields-if true m n k l = k refl
  Yields-if false m n k l = l refl

module _ {P : Tables → Type 0} {A B : Type 0} where
  continue-Yields :
      {Q : A → Type 0} {R : B → Type 0} (r : Result A) (f : A → Action Db B) (db : Db)
      → ((a : A) → Q a → Yields P R (f a))
      → P db.tables
      → Ensures Q r
      → P (continue r f db).1.tables × Ensures R (continue r f db).0
  continue-Yields (ok a) f db k h q = (k a q).at db h
  continue-Yields (err e) f db k h q = (h, tt)
  continue-Yields hang f db k h q = (h, tt)

  pub Yields-bind :
      {Q : A → Type 0} {R : B → Type 0} (m : Action Db A) (f : A → Action Db B)
      → Yields P Q m
      → ((a : A) → Q a → Yields P R (f a))
      → Yields P R (m >>= f)
  Yields-bind m f y k = record {
    at = λ db h. let first = y.at db h in continue-Yields (m db).0 f (m db).1 k first.0 first.1;
  }
