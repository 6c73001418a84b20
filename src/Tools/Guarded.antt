-- ===== src/Tools/Guarded.antt =====
-- No tool call without leave: `ToolExecutor.execute` of src/chassis/tools/executor.py.
use chassis.Prelude.{
  ◌≤◌, String, ◌≡◌, refl, ap, ◌∙◌, true, false, not, Option, none, some, List, [], arith, nat_eq,
  string_eq, if_ind, any, count_if,
}
use chassis.Replay.{
  Replayed, answer, mismatch, is_replaying, has_remaining, falls_back, replay, tool,
}
use chassis.Tools.{
  RegisteredTool, ToolSnapshot, ToolRequest, ToolExecutionResult, Payload, before_tool_execute,
  Boundary, parse_permissions, tool_named,
}
use chassis.Tools.Executor.{
  Act, charged, Session, State, Run, done, raised, at_world, note, with_session, Setting, dispatch,
  authorize, charge,
}
use chassis.Tools.Calls.{
  or_else, perform, answered_by, look_in, look_up, proceed, begin_call, execute,
}
use chassis.Tools.Runs.{
  is_run, flags, granted-cons, Ensures, Ensures-andthen, Ensures-map, Quiet, dispatch-trace,
}
use chassis.Tools.Authorized.{Authorized, authorize-Authorized}
use chassis.Tools.Finished.{count_if-any, guarded, guarded-quiet, Ran, Cleared, perform-Ran}

module _ (World : Type 0) (Value : Type 0) (b : Boundary Value World)
    (set : Setting World Value) where
  -- Looking an answer up notes nothing.
  answered_by-trace :
      (P : List Act → Type 0) (r : Replayed (Payload Value) × Session World Value)
      (s : State World Value)
      → P s.trace
      → Ensures World Value (λ x a. P x.trace) (λ x. P x.trace) (answered_by World Value b set r s)
  unfolding answered_by with_session
  answered_by-trace P (answer r, session) s h = h
  answered_by-trace P (mismatch m n k, session) s h = h

  look_in-trace :
      (P : List Act → Type 0) (key : String) (r : Session World Value) (s : State World Value)
      → P s.trace
      → Ensures World Value (λ x a. P x.trace) (λ x. P x.trace) (look_in World Value b set key r s)
  unfolding look_in
  look_in-trace P key r s h =
      let Holds : Run World Value (Option (Payload Value)) → Type 0 =
        Ensures World Value (λ x a. P x.trace) (λ x. P x.trace) in
      if_ind {A = Run World Value (Option (Payload Value))} Holds
        (not (is_replaying (Payload Value) r)) (λ e. h)
        (λ e.
          if_ind {A = Run World Value (Option (Payload Value))} Holds
            (has_remaining (Payload Value) tool key r)
            (λ e. answered_by-trace P (replay (Payload Value) tool key r) s h)
            (λ e.
              if_ind {A = Run World Value (Option (Payload Value))} Holds
                (falls_back (Payload Value) r) (λ e. h) (λ e. h)))

  look_up-trace :
      (P : List Act → Type 0) (entry : RegisteredTool) (args : Value) (s : State World Value)
      (o : Option (Session World Value))
      → P s.trace
      → Ensures World Value
          (λ x a. P x.trace)
          (λ x. P x.trace)
          (elim o as (λ x. Run World Value (Option (Payload Value))) [
            | none ↦ done s none
            | some r ↦ look_in World Value b set (b.boundary_key entry.name args) r s
          ])
  look_up-trace P entry args s none h = h
  look_up-trace P entry args s (some r) h = look_in-trace P (b.boundary_key entry.name args) r s h

  charge-Cleared :
      (entry : RegisteredTool) (s : State World Value)
      → Authorized World Value b set entry s.trace
      → Ensures World Value
          (λ x a. Cleared World Value b set entry x.trace)
          (Quiet World Value)
          (charge World Value b set s)
  unfolding charge note at_world
  charge-Cleared entry s h =
      let consumed = b.consume s.world in
      let checked = b.check consumed.0 in
      let Holds : Run World Value Unit → Type 0 =
        Ensures World Value (λ x a. Cleared World Value b set entry x.trace) (Quiet World Value) in
      if_ind {A = Run World Value Unit} Holds (not set.has_budget)
        (λ e. record { quiet = h.quiet; leave = ground (arith, e, h.allowed, h.approval) })
        (λ e.
          if_ind {A = Run World Value Unit} Holds (not consumed.1) (λ e. h.quiet)
            (λ e.
              if_ind {A = Run World Value Unit} Holds (not checked.1) (λ e. h.quiet)
                (λ e. record {
                  quiet = h.quiet;
                  leave = ground (
                    arith,
                    granted-cons set.has_policy (parse_permissions entry.policy.permissions) charged
                        s.trace (λ x. refl) h.allowed,
                    h.approval,
                  );
                })))

  -- A call that returns has run once, and one that raises at most once; it ran only with leave.
  abbrev pub IsGuarded : {A : Type 0} → RegisteredTool → Run World Value A → Type 0
  IsGuarded entry (done s a) =
      (guarded World Value b set entry s.trace ≡ true) × (count_if is_run s.trace ≡ 1)
  IsGuarded entry (raised s e) =
      (guarded World Value b set entry s.trace ≡ true) × (count_if is_run s.trace ≤ 1)

  IsGuarded-Ran :
      (entry : RegisteredTool) (r : Run World Value (ToolExecutionResult Value))
      → Ensures World Value
          (λ x a. Ran World Value b set entry x.trace)
          (λ x. (guarded World Value b set entry x.trace ≡ true) × (count_if is_run x.trace ≤ 1))
          r
      → IsGuarded entry r
  IsGuarded-Ran entry (done s a) h = (h.leave, h.once)
  IsGuarded-Ran entry (raised s e) h = h

  abbrev Stopped : RegisteredTool → List Act → Type 0
  Stopped entry t = (guarded World Value b set entry t ≡ true) × (count_if is_run t ≤ 1)

  Stopped-quiet : (entry : RegisteredTool) (t : List Act) → any is_run t ≡ false → Stopped entry t
  Stopped-quiet entry t h =
      (guarded-quiet World Value b set entry t h, omega (arith, count_if-any t h))

  Stopped-Ran :
      (entry : RegisteredTool) (t : List Act) → Ran World Value b set entry t → Stopped entry t
  Stopped-Ran entry t h = (h.leave, omega (arith, h.once))

  proceed-Ran :
      (entry : RegisteredTool) (request : ToolRequest Value) (generation_id : String) (args : Value)
      (s : State World Value)
      → Quiet World Value s
      → any flags s.trace ≡ false
      → Ensures World Value
          (λ x a. Ran World Value b set entry x.trace)
          (λ x. Stopped entry x.trace)
          (proceed World Value b set entry request generation_id args s)
  unfolding proceed look_up
  proceed-Ran entry request generation_id args s q f =
      Ensures-andthen World Value _ _ _ _ (authorize World Value b set entry args s) _
        (authorize-Authorized World Value b set entry args s q f)
        (λ s1 x h1.
          Ensures-andthen World Value _ _ _ _ (charge World Value b set s1) _
            (charge-Cleared entry s1 h1)
            (λ s2 y h2.
              Ensures-andthen World Value _ _ _ _ (look_up World Value b set entry args s2) _
                (look_up-trace (Cleared World Value b set entry) entry args s2 s2.session h2)
                (λ s3 response h3.
                  Ensures-map World Value _ _ _ _
                    (perform World Value b set entry request generation_id args response s3)
                    (perform-Ran World Value b set entry request generation_id args response s3 h3)
                    (λ x a k. k) (λ x k. Stopped-Ran entry x.trace k))
                (λ x k. Stopped-quiet entry x.trace k.quiet))
            (λ x k. Stopped-quiet entry x.trace k))
        (λ x k. Stopped-quiet entry x.trace k)

  begin_call-Ran :
      (entry : RegisteredTool) (request : ToolRequest Value) (generation_id : String)
      (s : State World Value)
      → Quiet World Value s
      → any flags s.trace ≡ false
      → Ensures World Value
          (λ x a. Ran World Value b set entry x.trace)
          (λ x. Stopped entry x.trace)
          (begin_call World Value b set request generation_id (some entry) s)
  unfolding begin_call
  begin_call-Ran entry request generation_id s q f =
      Ensures-andthen World Value _ _ _ _
        (dispatch World Value b set (before_tool_execute entry.name request.args) s) _
        (dispatch-trace World Value b set (before_tool_execute entry.name request.args) s)
        (λ s1 r e.
          let quiet = ap (any is_run) e ∙ q in
          if_ind {A = Run World Value (ToolExecutionResult Value)}
            (Ensures World Value (λ x a. Ran World Value b set entry x.trace)
              (λ x. Stopped entry x.trace))
            r.0 (λ stop. Stopped-quiet entry s1.trace quiet)
            (λ go.
              proceed-Ran entry request generation_id (or_else r.1 request.args) s1 quiet
                (ap (any flags) e ∙ f)))
        (λ s1 e. Stopped-quiet entry s1.trace (ap (any is_run) e ∙ q))

  -- Whatever hooks, policy engine, approval gate, budget, tool and recording do, a call runs its tool,
  -- or the recording of it, only after the policy engine, if there is one, has allowed every permission
  -- of the tool, approval was given if the tool or the policy asks for it, and the budget, if there is
  -- one, was charged. A call that returns a result has run once, and one that raises at most once.
  pub execute-IsGuarded :
      (snapshot : ToolSnapshot) (request : ToolRequest Value) (entry : RegisteredTool)
      (world : World) (session : Option (Session World Value))
      → tool_named request.name snapshot ≡ some entry
      → IsGuarded entry (
          execute World Value b set snapshot request
            (record { world = world; session = session; trace = [] }))
  unfolding execute
  execute-IsGuarded snapshot request entry world session h =
      let s : State World Value = record { world = world; session = session; trace = [] } in
      rw h (
        IsGuarded-Ran entry
          (begin_call World Value b set request snapshot.generation_id (some entry) s)
          (begin_call-Ran entry request snapshot.generation_id s refl refl))
