-- ===== src/Sqlite/Runs/Claims.antt =====
-- A pending run is claimed by one runner at most.
use jobsd.Common.{
  ℕ, Bool, true, some, List, [], ◌∷◌, String, update_where, count_where, ◌≡◌, ◌≢◌, refl, arith,
}
use jobsd.Result.{ok}
use jobsd.Sqlite.{RunRow}
use jobsd.Sqlite.Engine.{Db}
use jobsd.Sqlite.Runs.{claims, try_claim_pending}

-- once claimed, a run passes the test no more
claims_after :
    (id : ℕ) (runner : String) (rs : List RunRow)
    → count_where
        (claims id)
        (update_where (claims id) (λ r. record r { runner_id = some runner }) rs)
      ≡ 0
unfolding count_where update_where
claims_after id runner [] = refl
claims_after id runner (r ∷ rs) = ground (arith, claims_after id runner rs)

update_where_none :
    (p : RunRow → Bool) (f : RunRow → RunRow) (rs : List RunRow)
    → count_where p rs ≡ 0
    → update_where p f rs ≡ rs
unfolding count_where update_where
update_where_none p f [] h = refl
update_where_none p f (r ∷ rs) h = ground (arith, update_where_none p f rs)

-- After a claim that succeeded no other runner claims the run.
pub try_claim_pending_once :
    (id : ℕ) (a b : String) (db : Db) {db' : Db}
    → try_claim_pending id a db ≡ (ok true, db')
    → (try_claim_pending id b db').0 ≢ ok true
unfolding try_claim_pending
try_claim_pending_once id a b db h = ground (arith, claims_after id a db.tables.runs)

-- A claim that did not succeed has changed no row.
try_claim_pending_fails :
    (id : ℕ) (a : String) (db : Db)
    → (try_claim_pending id a db).0 ≢ ok true
    → (try_claim_pending id a db).1.tables ≡ db.tables
unfolding try_claim_pending
try_claim_pending_fails id a db h =
    ground
      (arith, update_where_none (claims id) (λ r. record r { runner_id = some a }) db.tables.runs)
