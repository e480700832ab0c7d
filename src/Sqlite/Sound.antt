-- ===== src/Sqlite/Sound.antt =====
-- What holds between the tables: names and ids that no two jobs share, and references that lead to a row.
pub mod Changes
pub mod Jobs
pub mod Runs
pub mod Preserved
use text.Mathlib.Text.{◌==◌ as str_eq}
use jobsd.Common.{ℕ, ◌≤◌, ◌==◌, Bool, true, List, All, ◌≡◌}
use jobsd.Common.Lists.Counting.{Differ}
use jobsd.Sqlite.{Tables, JobRow}
use jobsd.Sqlite.Jobs.{has_id, has_name, run_of, among_runs}

abbrev pub same_id : JobRow → JobRow → Bool
same_id i = has_id i.id

abbrev pub same_name : JobRow → JobRow → Bool
same_name i = has_name i.name

-- The jobs have different names and different ids, ids that AUTOINCREMENT has given out; every run is one of
-- a job that is there, and every output and every hook delivery is one of a run that is there.
pub record TablesAreSound (t : Tables) : Type 0 where
  pub names : Differ same_name t.jobs
  pub ids : Differ same_id t.jobs
  pub given : All (λ j. j.id ≤ t.job_seq) t.jobs
  pub runs : All (λ r. run_of t.jobs r ≡ true) t.runs
  pub outputs : All (λ o. among_runs t.runs o.run_id ≡ true) t.outputs
  pub deliveries : All (λ d. among_runs t.runs d.run_id ≡ true) t.deliveries
