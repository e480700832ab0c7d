-- ===== src/Daemon/State/File.antt =====
-- The state file as one cell: it holds what the last write that succeeded stored, and never a part of
-- a write.
use jobsd.Common.{
  ℕ, zero, suc, Bool, true, none, some, List, [], ◌∷◌, String, if◌then◌else◌, All, ◌≡◌, inl, inr,
  refl, sym, arith, Bool-cases,
}
use jobsd.Result.{is_ok, state_not_found, Result, ok, err, hang}
use jobsd.Domain.{SchedulerState}
use jobsd.Env.{Codec, CodecRoundTrip}
use jobsd.Sqlite.{format_time, parse_time}
use jobsd.Daemon.State.{
  StateJson, Files, called, raw_of, validate_scheduler_state, decode_scheduler_state,
  marshal_scheduler_state, fill_temp, store_payload, store_marshaled, write_state, decode_payload,
  read_payload, read_state, remove_state,
}

abbrev pub FileResult : Type 0
FileResult = Result (Unit {0}) × Files

-- the state, its start to the second
abbrev pub to_seconds : SchedulerState → SchedulerState
to_seconds state = record state { started_at = parse_time (format_time state.started_at) }

store_payload_lem :
    (payload part : String) (fs : Files)
    → (store_payload payload part fs).1.state_file
      ≡ (if is_ok (store_payload payload part fs).0 then some payload else fs.state_file)
unfolding store_payload fill_temp
store_payload_lem payload part fs = ground arith

module _ (codec : Codec) (json : StateJson) where
  -- What reading the file gives, if the system lets it.
  abbrev pub cell : Files → Result SchedulerState
  cell fs = read_payload codec json fs.state_file

  -- encoding/json reads the state back, and package time its start.
  pub record StateReadsBack (state : SchedulerState) : Type 0 where
    pub object : json.unmarshal (json.marshal (raw_of codec state)) ≡ some (raw_of codec state)
    pub start : CodecRoundTrip codec state.pid (format_time state.started_at)

  marshaled_back :
      (state : SchedulerState) {payload : String}
      → StateReadsBack state
      → marshal_scheduler_state codec json state ≡ ok payload
      → read_payload codec json (some payload) ≡ ok (to_seconds state)
  unfolding marshal_scheduler_state validate_scheduler_state read_payload decode_payload
      decode_scheduler_state
  marshaled_back state {payload} back h =
      let object = back.object in
      let start = back.start.time_back in let shown = back.start.time_visible in ground arith

  -- A call on the file, with what the outside adds: how much a write that fails has written, and how
  -- many rounds a removal has.
  pub data FileCall : Type 0 where
    write : SchedulerState → String → FileCall
    read : FileCall
    remove : ℕ → Bool → FileCall

  abbrev pub read_result : Result SchedulerState × Files → FileResult
  read_result (r, fs) = (ok tt, fs)

  -- the call, whose success is kept; a read changes nothing whether it succeeds or not
  unfoldable pub call : FileCall → Files → FileResult
  call (write state part) fs = write_state codec json state part fs
  call read fs = read_result (read_state codec json fs)
  call (remove rounds retries) fs = remove_state rounds retries fs

  -- the same calls on a cell that holds a state or none
  unfoldable pub cell_call : FileCall → Bool → Result SchedulerState → Result SchedulerState
  cell_call (write state part) true old = ok (to_seconds state)
  cell_call (remove rounds retries) true old = err state_not_found
  cell_call _ _ old = old

  abbrev pub CallReadsBack : FileCall → Type 0
  CallReadsBack (write state part) = StateReadsBack state
  CallReadsBack _ = Unit

  write_lem :
      (state : SchedulerState) (part : String) (fs : Files) (r : Result String)
      → marshal_scheduler_state codec json state ≡ r
      → StateReadsBack state
      → let out = store_marshaled r part fs in
        cell out.1 ≡ cell_call (write state part) (is_ok out.0) (cell fs)
  unfolding cell_call
  write_lem state part fs (ok payload) e back =
      let stored = store_payload_lem payload part fs in
      let read = marshaled_back state {payload = payload} back e in
      elim (Bool-cases (is_ok (store_payload payload part fs).0)) [
        | inl s ↦ rw (stored, s) read
        | inr s ↦ rw (stored, s) refl
      ]
  write_lem state part fs (err x) e back = refl
  write_lem state part fs hang e back = refl

  remove_lem :
      (rounds : ℕ) (retries : Bool) (fs : Files)
      → (remove_state rounds retries fs).1.state_file
        ≡ (if is_ok (remove_state rounds retries fs).0 then none else fs.state_file)
  unfolding remove_state
  remove_lem zero retries fs = ground arith
  remove_lem (suc rounds) retries fs = ground (arith, remove_lem rounds retries (called fs))

  read_lem : (fs : Files) → (read_state codec json fs).1.state_file ≡ fs.state_file
  unfolding read_state
  read_lem fs = ground arith

  call-cell :
      (c : FileCall) (fs : Files)
      → CallReadsBack c
      → cell (call c fs).1 ≡ cell_call c (is_ok (call c fs).0) (cell fs)
  unfolding call
  call-cell (write state part) fs back =
      unfold write_state in
      write_lem state part fs (marshal_scheduler_state codec json state) refl back
  call-cell read fs back = rw (read_lem fs) (unfold cell_call in refl)
  call-cell (remove rounds retries) fs back =
      elim (Bool-cases (is_ok (remove_state rounds retries fs).0)) [
        | inl s ↦
            rw (remove_lem rounds retries fs, s) (unfold cell_call in unfold read_payload in refl)
        | inr s ↦ rw (remove_lem rounds retries fs, s) (unfold cell_call in refl)
      ]

  -- the calls in turn, with the success of each
  pub run : List FileCall → Files → List Bool × Files
  run [] fs = ([], fs)
  run (c ∷ cs) fs = let rest = run cs (call c fs).1 in (is_ok (call c fs).0 ∷ rest.0, rest.1)

  -- the same on the cell
  pub replay : List FileCall → List Bool → Result SchedulerState → Result SchedulerState
  replay [] done old = old
  replay (c ∷ cs) [] old = old
  replay (c ∷ cs) (d ∷ done) old = replay cs done (cell_call c d old)

  -- Whatever calls of WriteState, ReadState and RemoveState are made, and wherever the system makes
  -- them fail, the file reads as a cell does that each write that succeeds sets and each removal that
  -- succeeds empties, so a call that fails leaves no trace in it, if the states that are written read
  -- back from their texts.
  pub run-replay :
      (cs : List FileCall) (fs : Files)
      → All CallReadsBack cs
      → cell (run cs fs).1 ≡ replay cs (run cs fs).0 (cell fs)
  unfolding run replay
  run-replay [] fs h = refl
  run-replay (c ∷ cs) fs h = rw (sym (call-cell c fs h.0)) (run-replay cs (call c fs).1 h.1)
