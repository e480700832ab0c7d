-- ===== src/App/CommandLine/Deleted.antt =====
-- `job delete` from its flags to the closing of the database.
use jobsd.Common.{
  Bool, not, List, [], ◌∷◌, String, ◌≡◌, refl, subst, arith, count_where, select, Bool-cases, inl,
  inr,
}
use jobsd.Common.Text.{Runes, runes, is_blank}
use jobsd.Result.{ok}
use jobsd.Action.{Action, lift}
use jobsd.Sqlite.Engine.{Db}
use jobsd.Sqlite.Engine.Keeps.{Keeps}
use jobsd.Sqlite.Engine.Returns.{Returns}
use jobsd.Sqlite.Jobs.{has_name, delete_job, delete_by_name}
use jobsd.Sqlite.Migrate.Kept.{ScriptKeeps}
use jobsd.Sqlite.Operations.{StoreOperation, perform}
use jobsd.Sqlite.Sound.{TablesAreSound}
use jobsd.Sqlite.Sound.Preserved.{perform-TablesAreSound, TablesAreSound-IgnoresVersions}
use jobsd.Env.{Env, Codec}
use jobsd.Output.{Format, Terminal, parse_format, print_fields}
use jobsd.Output.Ends.{Ends, Ends-bind, Ends-show, Ends-print_fields, parse_format_returns}
use jobsd.App.Print.{Formats, DeleteResult, field, bool_string, in_format, print_delete_result}
use jobsd.App.InstanceDb.{Setup, Session}
use jobsd.App.InstanceDb.Closed.{LeftClosed, Done, with_instance_db-LeftClosed}
use jobsd.App.InstanceDb.Work.{with_instance_db_ok}
use jobsd.App.CommandLine.{delete_work, job_delete}

none_left :
    {A : Type 0} (p : A → Bool) (xs : List A) → count_where p (select (λ x. not (p x)) xs) ≡ 0
unfolding count_where select
none_left p [] = refl
none_left p (x ∷ xs) = let rest = none_left p xs in ground arith

delete_work_gone :
    (name : String) (db : Db) {a : DeleteResult}
    → (delete_work name db).0 ≡ ok a
    → count_where (has_name name) (delete_work name db).1.tables.jobs ≡ 0
unfolding delete_by_name delete_job
delete_work_gone name db e = let gone = none_left (has_name name) db.tables.jobs in ground arith

pub delete_work-Returns : (name : String) → Returns (delete_work name)
unfolding delete_by_name delete_job
delete_work-Returns name = record { at = λ db e. ground arith }

in_format-Ends :
    {A : Type 0} (encode : A → Runes) (tabled : A → Action Terminal Unit) (a : A)
    → Ends (tabled a)
    → (format : Format) → Ends (in_format encode tabled a format)
in_format-Ends encode tabled a h Format.json = Ends-show (encode a)
in_format-Ends encode tabled a h Format.table = h

pub print_delete_result-Ends :
    (f : Formats) (flag : String) (encode : DeleteResult → Runes) (a : DeleteResult)
    → Ends (print_delete_result f flag encode a)
unfolding print_delete_result
print_delete_result-Ends f flag encode a =
    let fields = field "NAME" (runes a.name) ∷ field "DELETED" (bool_string a.deleted) ∷ [] in
    let tabled : DeleteResult → Action Terminal Unit = λ item.
      print_fields f.align Format.table
        (field "NAME" (runes item.name) ∷ field "DELETED" (bool_string item.deleted) ∷ []) in
    Ends-bind (lift (parse_format flag)) (in_format encode tabled a)
      (λ t. parse_format_returns flag)
      (in_format-Ends encode tabled a (Ends-print_fields f.align fields))

pub delete_work_kept :
    (env : Env) (codec : Codec) (name : String) → Keeps TablesAreSound (delete_work name)
unfolding perform
delete_work_kept env codec name = record {
  at = λ db h.
      subst TablesAreSound (same db)
        (perform-TablesAreSound env codec (StoreOperation.remove_job name) db h);
}
  where
    same : (db : Db) → (delete_by_name name db).1.tables ≡ (delete_work name db).1.tables
    same db = ground arith

-- `job delete`, whatever call or statement fails, comes to an end, leaves the database closed and its tables
-- sound; if it succeeds, no job of that name is left. The scripts of the migrations have to end and to keep the
-- tables sound.
pub job_delete-LeftClosed :
    (s : Setup) (f : Formats) (flag instance_name name : String) (encode : DeleteResult → Runes)
    → ScriptKeeps TablesAreSound s.script
    → (c : Session) → LeftClosed TablesAreSound c.world
    → Done TablesAreSound (job_delete s f flag instance_name name encode c)
      × ((job_delete s f flag instance_name name encode c).0 ≡ ok tt
          → count_where
              (has_name name)
              (job_delete s f flag instance_name name encode c).1.world.db.tables.jobs
            ≡ 0)
unfolding job_delete
job_delete-LeftClosed s f flag instance_name name encode script c h =
    elim (Bool-cases (is_blank name)) [
      | inl blank ↦ rw blank (h, λ e. cc)
      | inr named ↦
          let print = print_delete_result f flag encode in
          let left =
            with_instance_db-LeftClosed TablesAreSound s script TablesAreSound-IgnoresVersions
              instance_name (delete_work name) print (delete_work-Returns name)
              (delete_work_kept f.env f.codec name) (print_delete_result-Ends f flag encode) c h in
          rw named (
            left,
            λ e.
                let (before, a, worked, same) =
                  with_instance_db_ok (delete_work name) print s instance_name c e in
                rw same (delete_work_gone name before {a = a} worked),
          )
    ]
