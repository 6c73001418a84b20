-- ===== src/Tools/Calls.antt =====
-- A whole call: `ToolExecutor.execute` of src/chassis/tools/executor.py. Durations and telemetry are
-- left out. With a replay session the recording answers, or the tool does.
use chassis.Prelude.{
  String, Bool, false, ◌&&◌, not, Option, none, some, nat_eq, string_eq, if◌then◌else◌,
}
use chassis.Replay.{
  tool, missing, exhausted, Replayed, answer, mismatch, Captured, captured, uncaptured,
  is_recording, is_replaying, falls_back, has_remaining, has, replay, write, record_fallback,
}
use chassis.Tools.{
  RegisteredTool, ToolSnapshot, ToolRequest, ToolExecutionResult, ToolStatus, ok, error, timeout,
  is_ok, tool_named, tool_not_found, refused_by_hook, replay_mismatch, execution_failed, cancelled,
  Payload, absent, call, outcome, before_tool_execute, after_tool_execute, tool_error, Invoked,
  returned, timed_out, failed, interrupted, Boundary,
}
use chassis.Tools.Executor.{
  invoked, replayed, Session, State, Run, done, raised, andthen, at_world, note, with_session,
  Setting, dispatch, authorize, charge,
}

unfoldable pub or_else {ℓ} : {A : Type ℓ} → Option A → A → A
or_else none d = d
or_else (some a) d = a

unfoldable pub first_of : Option String → Option String → Option String
first_of none b = b
first_of (some a) b = some a

module _ (World : Type 0) (Value : Type 0) (b : Boundary Value World)
    (set : Setting World Value) where
  -- `from_payload`, whose defaults a payload of another shape is read with; it is not called on None.
  unfoldable pub from_payload : Payload Value → ToolExecutionResult Value
  from_payload (outcome r) = r
  from_payload absent = record {
    name = "";
    status = ok;
    content = b.no_value;
    artifact = b.no_value;
    error = none;
    tool_call_id = none;
    generation_id = none;
    run_id = none;
    redacted = false;
  }
  from_payload (call name args) = record {
    name = name;
    status = ok;
    content = b.no_value;
    artifact = b.no_value;
    error = none;
    tool_call_id = none;
    generation_id = none;
    run_id = none;
    redacted = false;
  }

  unfoldable pub result_of :
      RegisteredTool
      → ToolRequest Value
      → String
      → ToolStatus
      → (content artifact : Value) → Option String
      → (redacted : Bool) → ToolExecutionResult Value
  unfolding first_of
  result_of entry request generation_id status content artifact message redacted = record {
    name = entry.name;
    status = status;
    content = content;
    artifact = artifact;
    error = message;
    tool_call_id = request.tool_call_id;
    generation_id = first_of request.generation_id (some generation_id);
    run_id = request.run_id;
    redacted = redacted;
  }

  unfoldable pub captured_or :
      Session World Value → Captured (Payload Value) b.redact_value → Session World Value
  captured_or r (captured r') = r'
  captured_or r (uncaptured e) = r

  -- The part of `_recorded` that changes the session.
  unfoldable pub keep :
      String
      → Payload Value
      → Payload Value
      → ToolRequest Value
      → Session World Value
      → Session World Value
  unfolding is_recording is_replaying falls_back write record_fallback captured_or
  keep key asked result request r =
      if is_recording (Payload Value) r
      then write (Payload Value) b.redact_value tool key asked result request.generation_id
          request.run_id r
      else if is_replaying (Payload Value) r && falls_back (Payload Value) r
      then captured_or r (
          record_fallback (Payload Value) b.redact_value tool key asked result request.generation_id
            request.run_id r)
      else r

  unfoldable pub kept :
      String
      → Payload Value
      → Payload Value
      → ToolRequest Value
      → Option (Session World Value)
      → Option (Session World Value)
  unfolding keep
  kept key asked result request none = none
  kept key asked result request (some r) = some (keep key asked result request r)

  -- `_recorded`
  unfoldable pub recorded :
      String
      → RegisteredTool
      → Value
      → ToolRequest Value
      → ToolExecutionResult Value
      → State World Value
      → State World Value
  unfolding kept with_session
  recorded key entry args request r s =
      with_session World Value (kept key (call entry.name args) (outcome r) request s.session) s

  -- After a call that did not fail.
  unfoldable pub conclude :
      RegisteredTool
      → ToolExecutionResult Value
      → State World Value
      → Run World Value (ToolExecutionResult Value)
  unfolding andthen dispatch
  conclude entry r s =
      andthen World Value (dispatch World Value b set (after_tool_execute entry.name r.status) s)
        (λ s' _. done s' r)

  -- After a call that failed, now or when it was recorded.
  unfoldable pub fail :
      RegisteredTool
      → ToolExecutionResult Value
      → (State World Value → State World Value)
      → State World Value
      → Run World Value (ToolExecutionResult Value)
  unfolding andthen dispatch or_else
  fail entry r keeping s =
      let message = or_else r.error "" in
      andthen World Value (dispatch World Value b set (tool_error entry.name message) s) (λ s' _.
        if set.raise_on_error
        then raised s' (execution_failed r.status message)
        else done (keeping s') r)

  unfoldable pub replay_result :
      RegisteredTool
      → ToolRequest Value
      → String
      → ToolExecutionResult Value
      → ToolExecutionResult Value
  unfolding result_of
  replay_result entry request generation_id prior =
      result_of entry request generation_id prior.status prior.content prior.artifact prior.error
        prior.redacted

  unfoldable pub finish_replayed :
      RegisteredTool
      → ToolRequest Value
      → String
      → Payload Value
      → State World Value
      → Run World Value (ToolExecutionResult Value)
  unfolding from_payload replay_result fail conclude note is_ok
  finish_replayed entry request generation_id response s =
      let r = replay_result entry request generation_id (from_payload response) in
      let s' = note World Value (replayed entry.name) s in
      if is_ok r.status then conclude entry r s' else fail entry r (λ x. x) s'

  unfoldable pub finish_invoked :
      RegisteredTool
      → ToolRequest Value
      → String
      → Value
      → Invoked Value
      → State World Value
      → Run World Value (ToolExecutionResult Value)
  unfolding recorded fail conclude result_of
  finish_invoked entry request generation_id args (returned content artifact) s =
      let r = result_of entry request generation_id ok content artifact none false in
      conclude entry r (recorded (b.boundary_key entry.name args) entry args request r s)
  finish_invoked entry request generation_id args timed_out s =
      let text = b.redact_and_report (b.deadline_message entry.name) in
      let r =
        result_of entry request generation_id timeout b.no_value b.no_value (some text.0) text.1 in
      fail entry r (recorded (b.boundary_key entry.name args) entry args request r) s
  finish_invoked entry request generation_id args (failed message) s =
      let text = b.redact_and_report message in
      let r =
        result_of entry request generation_id error b.no_value b.no_value (some text.0) text.1 in
      fail entry r (recorded (b.boundary_key entry.name args) entry args request r) s
  finish_invoked entry request generation_id args interrupted s = raised s cancelled

  unfoldable pub perform :
      RegisteredTool
      → ToolRequest Value
      → String
      → Value
      → Option (Payload Value)
      → State World Value
      → Run World Value (ToolExecutionResult Value)
  unfolding finish_replayed finish_invoked note at_world
  perform entry request generation_id args (some response) s =
      finish_replayed entry request generation_id response s
  perform entry request generation_id args none s =
      let r = b.ainvoke entry.name args s.world in
      finish_invoked entry request generation_id args r.1
        (note World Value (invoked entry.name) (at_world World Value r.0 s))

  -- A recorded None counts as no answer: the tool is invoked, though the record has been taken.
  unfoldable pub replayed_of : Payload Value → Option (Payload Value)
  replayed_of absent = none
  replayed_of (call name args) = some (call name args)
  replayed_of (outcome r) = some (outcome r)

  unfoldable pub answered_by :
      Replayed (Payload Value) × Session World Value
      → State World Value
      → Run World Value (Option (Payload Value))
  unfolding with_session replayed_of
  answered_by (answer r, session) s =
      done (with_session World Value (some session) s) (replayed_of r.response)
  answered_by (mismatch m n k, session) s = raised s (replay_mismatch m)

  unfoldable pub look_in :
      String → Session World Value → State World Value → Run World Value (Option (Payload Value))
  unfolding is_replaying has_remaining has replay falls_back answered_by
  look_in key r s =
      if not (is_replaying (Payload Value) r)
      then done s none
      else if has_remaining (Payload Value) tool key r
      then answered_by (replay (Payload Value) tool key r) s
      else if falls_back (Payload Value) r
      then done s none
      else raised s
          (replay_mismatch (if has (Payload Value) tool key r then exhausted else missing))

  unfoldable pub look_up :
      RegisteredTool → Value → State World Value → Run World Value (Option (Payload Value))
  unfolding look_in
  look_up entry args s = elim s.session [
    | none ↦ done s none
    | some r ↦ look_in (b.boundary_key entry.name args) r s
  ]

  -- What follows the hook that may refuse or rewrite the call.
  unfoldable pub proceed :
      RegisteredTool
      → ToolRequest Value
      → String
      → Value
      → State World Value
      → Run World Value (ToolExecutionResult Value)
  unfolding andthen authorize charge look_up perform
  proceed entry request generation_id args s =
      andthen World Value (authorize World Value b set entry args s) (λ s1 _.
        andthen World Value (charge World Value b set s1) (λ s2 _.
          andthen World Value (look_up entry args s2)
            (λ s3 response. perform entry request generation_id args response s3)))

  unfoldable pub begin_call :
      ToolRequest Value
      → String
      → Option RegisteredTool
      → State World Value
      → Run World Value (ToolExecutionResult Value)
  unfolding andthen dispatch proceed or_else
  begin_call request generation_id none s = raised s tool_not_found
  begin_call request generation_id (some entry) s =
      andthen World Value
        (dispatch World Value b set (before_tool_execute entry.name request.args) s)
        (λ s' r.
          if r.0
          then raised s' refused_by_hook
          else proceed entry request generation_id (or_else r.1 request.args) s')

  unfoldable pub execute :
      ToolSnapshot
      → ToolRequest Value
      → State World Value
      → Run World Value (ToolExecutionResult Value)
  unfolding begin_call tool_named
  execute snapshot request s =
      begin_call request snapshot.generation_id (tool_named request.name snapshot) s
