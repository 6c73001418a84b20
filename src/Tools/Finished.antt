-- ===== src/Tools/Finished.antt =====
-- How a call ends once it may run: the end of `ToolExecutor.execute` of src/chassis/tools/executor.py.
use chassis.Prelude.{
  String, ◌≡◌, refl, sym, Bool, true, false, ◌&&◌, ◌||◌, not, Option, none, some, List, [], ◌∷◌,
  arith, nat_eq, string_eq, if_ind, any, count_if,
}
use mathlib.Core.Path.{subst}
use chassis.Tools.{
  RegisteredTool, ToolRequest, ToolExecutionResult, Payload, Notice, after_tool_execute, tool_error,
  Invoked, returned, timed_out, failed, interrupted, Boundary, parse_permissions, is_ok, error,
  timeout,
}
use chassis.Tools.Executor.{
  Act, invoked, replayed, State, Run, andthen, at_world, note, with_session, Setting, dispatch,
}
use chassis.Tools.Calls.{
  or_else, from_payload, replay_result, result_of, recorded, conclude, fail, finish_replayed,
  finish_invoked, perform,
}
use chassis.Tools.Runs.{
  is_run, flags, is_approval, is_charge, all_granted, Ensures, Ensures-andthen, dispatch-trace,
}

pub count_if-any : (t : List Act) → any is_run t ≡ false → count_if is_run t ≡ 0
count_if-any [] h = refl
count_if-any (a ∷ t) h = ground (arith, count_if-any t)

module _ (World : Type 0) (Value : Type 0) (b : Boundary Value World)
    (set : Setting World Value) where
  -- The policy allowed each permission, approval was given where the tool or the policy asks for it,
  -- and the budget was charged.
  abbrev pub cleared : RegisteredTool → List Act → Bool
  cleared entry t =
      (not set.has_policy || all_granted (parse_permissions entry.policy.permissions) t)
      && (not (entry.policy.approval_required || any flags t) || any is_approval t)
      && (not set.has_budget || any is_charge t)

  -- A run of the tool, or of its recording, stands only above such acts.
  abbrev pub guarded : RegisteredTool → List Act → Bool
  guarded entry [] = true
  guarded entry (a ∷ t) = (not (is_run a) || cleared entry t) && guarded entry t

  pub guarded-quiet :
      (entry : RegisteredTool) (t : List Act) → any is_run t ≡ false → guarded entry t ≡ true
  guarded-quiet entry [] h = refl
  guarded-quiet entry (a ∷ t) h = ground (arith, guarded-quiet entry t)

  -- The trace of a call that has run once, with leave.
  pub record Ran (entry : RegisteredTool) (t : List Act) : Type 0 where
    pub leave : guarded entry t ≡ true
    pub once : count_if is_run t ≡ 1

  pub record Cleared (entry : RegisteredTool) (t : List Act) : Type 0 where
    pub quiet : any is_run t ≡ false
    pub leave : cleared entry t ≡ true

  Ran-note :
      (entry : RegisteredTool) (a : Act) (t : List Act)
      → is_run a ≡ true
      → Cleared entry t
      → Ran entry (a ∷ t)
  Ran-note entry a t e h = record {
    leave = ground (arith, e, h.leave, guarded-quiet entry t h.quiet);
    once = ground (arith, e, count_if-any t h.quiet);
  }

  -- After a dispatch a trace is what it was.
  dispatch-same :
      {A : Type 0} (P : List Act → Type 0) (n : Notice Value) (s : State World Value)
      (k : State World Value → Bool × Option Value → Run World Value A)
      → P s.trace
      → ((s' : State World Value) (r : Bool × Option Value)
          → P s'.trace
          → Ensures World Value (λ x a. P x.trace) (λ x. P x.trace) (k s' r))
      → Ensures World Value
          (λ x a. P x.trace)
          (λ x. P x.trace)
          (andthen World Value (dispatch World Value b set n s) k)
  dispatch-same P n s k h f =
      Ensures-andthen World Value _ _ _ _ (dispatch World Value b set n s) k
        (dispatch-trace World Value b set n s) (λ s' r e. f s' r (subst P (sym e) h))
        (λ s' e. subst P (sym e) h)

  conclude-trace :
      (P : List Act → Type 0) (entry : RegisteredTool) (r : ToolExecutionResult Value)
      (s : State World Value)
      → P s.trace
      → Ensures World Value
          (λ x a. P x.trace)
          (λ x. P x.trace)
          (conclude World Value b set entry r s)
  unfolding conclude
  conclude-trace P entry r s h =
      dispatch-same P (after_tool_execute entry.name r.status) s _ h (λ s' x k. k)

  fail-trace :
      (P : List Act → Type 0) (entry : RegisteredTool) (r : ToolExecutionResult Value)
      (keeping : State World Value → State World Value) (s : State World Value)
      → P s.trace
      → ((x : State World Value) → P x.trace → P (keeping x).trace)
      → Ensures World Value
          (λ x a. P x.trace)
          (λ x. P x.trace)
          (fail World Value b set entry r keeping s)
  unfolding fail
  fail-trace P entry r keeping s h f =
      dispatch-same P (tool_error entry.name (or_else r.error "")) s _ h (λ s' x k.
        if_ind {A = Run World Value (ToolExecutionResult Value)}
          (Ensures World Value (λ x a. P x.trace) (λ x. P x.trace)) set.raise_on_error (λ e. k)
          (λ e. f s' k))

  finish_invoked-trace :
      (P : List Act → Type 0) (entry : RegisteredTool) (request : ToolRequest Value)
      (generation_id : String) (args : Value) (i : Invoked Value) (s : State World Value)
      → P s.trace
      → Ensures World Value
          (λ x a. P x.trace)
          (λ x. P x.trace)
          (finish_invoked World Value b set entry request generation_id args i s)
  unfolding finish_invoked recorded with_session
  finish_invoked-trace P entry request generation_id args (returned content artifact) s h =
      conclude-trace P entry _ _ h
  finish_invoked-trace P entry request generation_id args timed_out s h =
      let text = b.redact_and_report (b.deadline_message entry.name) in
      let r =
        result_of World Value b set entry request generation_id timeout b.no_value b.no_value
          (some text.0) text.1 in
      fail-trace P entry r
        (recorded World Value b set (b.boundary_key entry.name args) entry args request r) s h
        (λ x k. k)
  finish_invoked-trace P entry request generation_id args (failed message) s h =
      let text = b.redact_and_report (message) in
      let r =
        result_of World Value b set entry request generation_id error b.no_value b.no_value
          (some text.0) text.1 in
      fail-trace P entry r
        (recorded World Value b set (b.boundary_key entry.name args) entry args request r) s h
        (λ x k. k)
  finish_invoked-trace P entry request generation_id args interrupted s h = h

  finish_replayed-Ran :
      (entry : RegisteredTool) (request : ToolRequest Value) (generation_id : String)
      (response : Payload Value) (s : State World Value)
      → Cleared entry s.trace
      → Ensures World Value
          (λ x a. Ran entry x.trace)
          (λ x. Ran entry x.trace)
          (finish_replayed World Value b set entry request generation_id response s)
  unfolding finish_replayed note
  finish_replayed-Ran entry request generation_id response s h =
      let r =
        replay_result World Value b set entry request generation_id
          (from_payload World Value b set response) in
      let ran = Ran-note entry (replayed entry.name) s.trace refl h in
      let s' = note World Value (replayed entry.name) s in
      if_ind {A = Run World Value (ToolExecutionResult Value)}
        (Ensures World Value (λ x a. Ran entry x.trace) (λ x. Ran entry x.trace)) (is_ok r.status)
        (λ e. conclude-trace (Ran entry) entry r s' ran)
        (λ e. fail-trace (Ran entry) entry r (λ x. x) s' ran (λ x k. k))

  pub perform-Ran :
      (entry : RegisteredTool) (request : ToolRequest Value) (generation_id : String) (args : Value)
      (o : Option (Payload Value)) (s : State World Value)
      → Cleared entry s.trace
      → Ensures World Value
          (λ x a. Ran entry x.trace)
          (λ x. Ran entry x.trace)
          (perform World Value b set entry request generation_id args o s)
  unfolding perform note at_world
  perform-Ran entry request generation_id args (some response) s h =
      finish_replayed-Ran entry request generation_id response s h
  perform-Ran entry request generation_id args none s h =
      let r = b.ainvoke entry.name args s.world in
      finish_invoked-trace (Ran entry) entry request generation_id args r.1
        (note World Value (invoked entry.name) (at_world World Value r.0 s))
        (Ran-note entry (invoked entry.name) s.trace refl h)
