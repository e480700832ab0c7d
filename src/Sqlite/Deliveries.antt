-- ===== src/Sqlite/Deliveries.antt =====
-- internal/sqlite/run_hook_deliveries_store.go
use text.Mathlib.Text.{◌==◌ as str_eq}
use jobsd.Common.{
  ℕ, suc, ltb, leb, ◌==◌, Bool, not, ◌&&◌, ◌||◌, List, [], ◌∷◌, ◌++◌, if◌then◌else◌, is_none,
  select, find_where, sort_by,
}
use jobsd.Result.{Error, constraint, invalid, Result, ok, err, hang}
use jobsd.Result
use jobsd.Action.{Action, pure, lift, ◌>>=◌, ◌>>◌, refuse_if}
use jobsd.Domain.{RunHookDelivery, sink_type_is_valid, delivery_status_is_valid, is_zero_time}
use jobsd.Sqlite.{Tables, DeliveryRow, format_time, parse_time}
use jobsd.Sqlite.Engine.{Db, exec, query}

-- INSERT INTO run_hook_deliveries: the schema wants the run to be there
unfoldable pub insert_delivery : RunHookDelivery → Tables → Result (ℕ × Tables)
insert_delivery d t =
    if is_none (find_where (λ r. r.id == d.run_id) t.runs)
    then err constraint
    else ok (
      suc t.delivery_seq,
      record t {
        delivery_seq = suc t.delivery_seq;
        deliveries =
            t.deliveries
            ++ record {
              id = suc t.delivery_seq;
              run_id = d.run_id;
              event = d.event;
              sink_type = d.sink_type;
              attempt = d.attempt;
              status = d.status;
              http_status_code = d.http_status_code;
              error_message = d.error_message;
              started_at = format_time d.started_at;
              finished_at = format_time d.finished_at;
            }
              ∷ [];
      },
    )

unfoldable pub create_delivery : RunHookDelivery → Action Db RunHookDelivery
unfolding insert_delivery
create_delivery d = do
  refuse_if (d.run_id == 0) (invalid "run_id must be set")
  refuse_if (str_eq d.event "") (invalid "event must be set")
  refuse_if (not (sink_type_is_valid d.sink_type)) (invalid "invalid sink type")
  refuse_if (d.attempt == 0) (invalid "attempt must be >= 1")
  refuse_if (not (delivery_status_is_valid d.status)) (invalid "invalid delivery status")
  refuse_if (is_zero_time d.started_at || is_zero_time d.finished_at)
      (invalid "started_at and finished_at must be set")
  id ← exec (insert_delivery d)
  pure (record d { id = id })

-- scanRunHookDelivery
unfoldable pub scan_delivery : DeliveryRow → Result RunHookDelivery
scan_delivery r =
    if not (sink_type_is_valid r.sink_type)
    then err (invalid "invalid sink type")
    else if not (delivery_status_is_valid r.status)
    then err (invalid "invalid delivery status")
    else ok (record {
      id = r.id;
      run_id = r.run_id;
      event = r.event;
      sink_type = r.sink_type;
      attempt = r.attempt;
      status = r.status;
      http_status_code = r.http_status_code;
      error_message = r.error_message;
      started_at = parse_time r.started_at;
      finished_at = parse_time r.finished_at;
    })

unfoldable pub scan_deliveries : List DeliveryRow → Result (List RunHookDelivery)
unfolding scan_delivery
scan_deliveries [] = ok []
scan_deliveries (row ∷ rows) =
    Result.◌>>=◌ (scan_delivery row) λ d. Result.◌>>=◌ (scan_deliveries rows) λ ds. ok (d ∷ ds)

-- ORDER BY attempt ASC, id ASC
abbrev pub attempted_before : DeliveryRow → DeliveryRow → Bool
attempted_before d e = ltb d.attempt e.attempt || (d.attempt == e.attempt && leb d.id e.id)

unfoldable pub list_by_run_id : ℕ → Action Db (List RunHookDelivery)
unfolding scan_deliveries
list_by_run_id run_id = do
  rows ← query (λ t. sort_by attempted_before (select (λ d. d.run_id == run_id) t.deliveries))
  lift (scan_deliveries rows)
