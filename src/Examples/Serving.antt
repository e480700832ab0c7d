-- ===== src/Examples/Serving.antt =====
-- A scheduler that serves an instance, and the client that asks it and stops it.
use jobsd.Common.{select, true, false, none, some, List, [], ◌∷◌, pos, ◌≡◌, refl}
use jobsd.Common.Text.{text_eq}
use jobsd.Result.{Error, err, system, ok}
use jobsd.Domain.{SchedulerStatus}
use jobsd.Domain.OnFinish.{marshal_on_finish_config_json}
use jobsd.Sqlite.Metadata.{
  get_metadata, upsert_metadata, decode_metadata, lookup, put_all, values_of,
}
use jobsd.Sqlite.Migrate.{migrate}
use jobsd.Config.{Paths, Places}
use jobsd.Daemon.State.{write_state, remove_state}
use jobsd.Daemon.Control.{Request, Method, Route, handle, ping_response, scheduler_response}
use jobsd.Daemon.Server.{World, ServeInput, Wake, Ended}
use jobsd.Daemon.Server.Serve.{serve}
use jobsd.Daemon.Server.Release.{serve-returned}
use jobsd.Daemon.Server.Excluded.{is_error, serve-held_elsewhere}
use jobsd.App.Client.{inspect_scheduler, get_scheduler, ping, shutdown}
use jobsd.App.Scheduler.{StopPoll, bare_output, stop_command}
use jobsd.App.Scheduler.Waiting.{seen_stopped, stop_request_of, stop_command-handle}
use jobsd.App.Client.Agreement.{served_by, inspect_scheduler-handle, handle-token}
use jobsd.Examples.{plain_codec, minute_env, small_db}
use jobsd.Examples.Instances.{plain_json, all_keys, two_entries, no_script, fresh_files, running}

inspect_scheduler-handle_example :
    ((inspect_scheduler (served_by running) (ok running)).status ≡ SchedulerStatus.running)
    × ((inspect_scheduler (served_by running) (ok running)).scheduler_info
        ≡ some (scheduler_response running))
    × ((inspect_scheduler (served_by running) (ok running)).ping ≡ some (ping_response running))
inspect_scheduler-handle_example = inspect_scheduler-handle running running refl

abbrev stop_request : Request
stop_request = record { method = Method.post; route = Route.shutdown; token = "secret" }

handle-token_example :
    (stop_request.token ≡ running.token)
    × (stop_request.method ≡ Method.post)
    × (stop_request.route ≡ Route.shutdown)
unfolding handle
handle-token_example = handle-token running stop_request refl

abbrev pub plain_places : Places
plain_places = record {
  xdg_data_home = "/data";
  user_home_dir = none;
  xdg_runtime_dir = "/run";
  temp_dir = "/tmp";
  uid = "1000";
  join = λ parts. "/joined";
}

abbrev home_paths : Paths
home_paths = record {
  instance_name = "home";
  data_dir = "/data";
  runtime_dir = "/run";
  database_path = "/data/jobs.db";
  lock_path = "/run/home.lock";
  state_path = "/run/state.json";
}

-- a scheduler that a request stops
abbrev home_input : ServeInput
home_input = record {
  instance_name = "home";
  port = pos 0;
  version = "1.0";
  paths = home_paths;
  places = plain_places;
  pid = pos 8080;
  token = "secret";
  started_at = 60_000_000_500;
  now = 70_000_000_000;
  keys = all_keys;
  bound = λ port. some (pos 8080);
  part = "{";
  rounds = 2;
  retries = false;
  script = no_script;
  applied_at = λ v. 50;
  atoi = λ text. some (pos 1);
  entries = two_entries;
  wake = Wake.requested;
  control_end = Ended.cleanly;
  loop_end = Ended.cleanly;
  while_serving = λ db. db;
}

abbrev pub idle_world : World
idle_world = record {
  files = record fresh_files { fails = λ n. false };
  db = small_db;
  held_elsewhere = false;
  lock_held = false;
  db_open = false;
  listening = false;
  loop_running = false;
  control_received = false;
  loop_received = false;
  release_lock = false;
  close_db = false;
  close_listener = false;
  remove_file = false;
}

serve-returned_example :
    ((serve minute_env plain_codec plain_json home_input idle_world).1.lock_held ≡ false)
    × ((serve minute_env plain_codec plain_json home_input idle_world).1.db_open ≡ false)
unfolding serve migrate text_eq get_metadata decode_metadata lookup select upsert_metadata
    marshal_on_finish_config_json put_all values_of write_state remove_state
serve-returned_example =
    serve-returned minute_env plain_codec plain_json home_input idle_world refl refl refl

abbrev taken_world : World
taken_world = record idle_world { held_elsewhere = true }

serve-held_elsewhere_example :
    (is_error (serve minute_env plain_codec plain_json home_input taken_world).0 ≡ true)
    × ((serve minute_env plain_codec plain_json home_input taken_world).1.db ≡ small_db)
    × ((serve minute_env plain_codec plain_json home_input taken_world).1.files.state_file ≡ none)
    × ((serve minute_env plain_codec plain_json home_input taken_world).1.lock_held ≡ false)
    × ((serve minute_env plain_codec plain_json home_input taken_world).1.listening ≡ false)
    × ((serve minute_env plain_codec plain_json home_input taken_world).1.loop_running ≡ false)
serve-held_elsewhere_example =
    serve-held_elsewhere minute_env plain_codec plain_json home_input taken_world refl

-- a wait whose second round finds the scheduler gone
abbrev two_polls : List StopPoll
two_polls =
    (record { state = ok running; ping = err system; canceled = false })
    ∷ (record { state = err Error.state_not_found; ping = err system; canceled = false })
    ∷ []

stop_command-handle_example :
    (running.token ≡ running.token)
    × ((handle running (stop_request_of running)).1 ≡ true)
    × (seen_stopped two_polls ≡ true)
    × ((bare_output "home" SchedulerStatus.stopped none).status ≡ SchedulerStatus.stopped)
unfolding stop_command inspect_scheduler handle get_scheduler ping shutdown
stop_command-handle_example =
    stop_command-handle "home" (served_by running) running running two_polls
      {out = bare_output "home" SchedulerStatus.stopped none} refl refl
