-- ===== src/Sqlite/Engine.antt =====
-- Statements and transactions. The engine may refuse any statement (a full disk, a lock, a context
-- that is done): `refuses n` says so of the n-th. A refused statement changes no row.
pub mod Keeps
pub mod Returns
pub mod Yields
use jobsd.Common.{ℕ, suc, Bool, true, false, if◌then◌else◌}
use jobsd.Result.{Error, engine, constraint, Result, ok, err, hang}
use jobsd.Action.{Action}
use jobsd.Sqlite.{Tables}

pub record Db : Type 0 where
  pub tables : Tables
  pub refuses : ℕ → Bool
  pub statements : ℕ

abbrev pub tick : Db → Db
tick db = record db { statements = suc db.statements }

-- What a statement answers, and the tables that it leaves: none change if it fails.
abbrev pub answer {ℓ} : {A : Type ℓ} → Result (A × Tables) → Db → Result A × Db
answer (ok (a, t)) db = (ok a, record db { tables = t })
answer (err e) db = (err e, db)
answer hang db = (hang, db)

-- db.ExecContext
abbrev pub exec : {A : Type 0} → (Tables → Result (A × Tables)) → Action Db A
exec f db =
    if db.refuses db.statements then (err engine, tick db) else answer (f db.tables) (tick db)

-- db.QueryContext
abbrev pub query : {A : Type 0} → (Tables → A) → Action Db A
query f db = if db.refuses db.statements then (err engine, tick db) else (ok (f db.tables), tick db)

-- tx.Commit after a body that succeeded, tx.Rollback after one that failed
abbrev pub finish : {A : Type 0} → Tables → Result A × Db → Result A × Db
finish before (ok a, db) =
    if db.refuses db.statements
    then (err engine, record (tick db) { tables = before })
    else (ok a, tick db)
finish before (err e, db) = (err e, record db { tables = before })
finish before (hang, db) = (hang, db)

-- db.BeginTx, the body, and the end of the transaction
abbrev pub transaction : {A : Type 0} → Action Db A → Action Db A
transaction body db =
    if db.refuses db.statements then (err engine, tick db) else finish db.tables (body (tick db))
