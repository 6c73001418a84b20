-- ===== src/Tools/Executor.antt =====
-- The execution of a tool call: `ToolExecutor` of src/chassis/tools/executor.py. A call is a run from
-- state to state that ends with a value or raises; what it decides is noted in a trace, the newest first.
use chassis.Prelude.{
  String, Bool, true, false, ◌||◌, not, Option, none, some, List, [], ◌∷◌, nat_eq, string_eq,
  if◌then◌else◌,
}
use chassis.Policy.{Permission, text_of}
use chassis.Replay.{ReplaySession}
use chassis.Tools.{
  RegisteredTool, parse_permissions, ToolError, policy_failed, policy_denied, hook_failed,
  bad_permission, approval_failed, approval_denied, budget_exceeded, Decision, undecided, decided,
  Payload, Notice, policy_decision, Dispatched, dispatch_failed, dispatched, Boundary,
}
use chassis.Tools.{
  hook_failed, policy_decision, dispatch_failed, Decision, approval_failed, bad_permission,
  Dispatched, Notice, budget_exceeded, parse_permissions, RegisteredTool, ToolError, Boundary,
  Payload,
}

pub data Act : Type 0 where
  asked : (permission : String) (allowed approval_required : Bool) → Act
  approved : Bool → Act
  charged : Act
  invoked : String → Act
  replayed : String → Act

module _ (World : Type 0) (Value : Type 0) where
  abbrev pub Session : Type 0
  Session = ReplaySession (Payload Value)

  pub record State : Type 0 where
    pub world : World
    pub session : Option Session
    pub trace : List Act

  pub data Run (A : Type 0) : Type 0 where
    done : State → A → Run A
    raised : State → ToolError → Run A

  unfoldable pub andthen : {A B : Type 0} → Run A → (State → A → Run B) → Run B
  andthen (done s a) k = k s a
  andthen (raised s e) k = raised s e

  unfoldable pub at_world : World → State → State
  at_world w s = record { world = w; session = s.session; trace = s.trace }

  unfoldable pub note : Act → State → State
  note a s = record { world = s.world; session = s.session; trace = a ∷ s.trace }

  unfoldable pub with_session : Option Session → State → State
  with_session r s = record { world = s.world; session = r; trace = s.trace }

  -- The policy engine, the hooks and the budget that there are.
  pub record Setting : Type 0 where
    pub has_hooks : Bool
    pub has_policy : Bool
    pub has_budget : Bool
    pub raise_on_error : Bool

  module _ (b : Boundary Value World) (set : Setting) where
    unfoldable pub noticed : State → Dispatched Value → Run (Bool × Option Value)
    noticed s (dispatch_failed e) = raised s (hook_failed e)
    noticed s (dispatched stopped args) = done s (stopped, args)

    -- `_dispatch`
    unfoldable pub dispatch : Notice Value → State → Run (Bool × Option Value)
    unfolding noticed at_world
    dispatch n s =
        let r = b.dispatch n s.world in
        if not set.has_hooks then done s (false, none) else noticed (at_world r.0 s) r.1

    unfoldable pub decide : RegisteredTool → Permission → Decision → State → Run Bool
    unfolding andthen dispatch note text_of
    decide entry p undecided s =
        andthen (dispatch (policy_decision entry.name (some p) false) s)
          (λ s' _. raised s' (policy_failed p))
    decide entry p (decided r) s =
        andthen
          (dispatch (policy_decision entry.name (some p) r.allowed)
            (note (asked (text_of p) r.allowed r.approval_required) s))
          (λ s' _. if r.allowed then done s' r.approval_required else raised s' (policy_denied p))

    -- The loop over the permissions, which gathers whether approval is required.
    unfoldable pub ask : RegisteredTool → List Permission → Bool → State → Run Bool
    unfolding andthen decide at_world
    ask entry [] approval s = done s approval
    ask entry (p ∷ ps) approval s =
        let r = b.evaluate p s.world in
        andthen (decide entry p r.1 (at_world r.0 s))
          (λ s' more. ask entry ps (approval || more) s')

    unfoldable pub ask_parsed : RegisteredTool → Option (List Permission) → State → Run Bool
    unfolding andthen ask dispatch
    ask_parsed entry none s = raised s bad_permission
    ask_parsed entry (some ps) s =
        andthen (ask entry ps entry.policy.approval_required s) (λ s' approval.
          andthen (dispatch (policy_decision entry.name none true) s') (λ s'' _. done s'' approval))

    unfoldable pub gated : RegisteredTool → Option Bool → State → Run Unit
    unfolding andthen dispatch note
    gated entry none s = raised s approval_failed
    gated entry (some true) s = done (note (approved true) s) tt
    gated entry (some false) s =
        andthen (dispatch (policy_decision entry.name none false) (note (approved false) s))
          (λ s' _. raised s' approval_denied)

    unfoldable pub gate : RegisteredTool → Value → Bool → State → Run Unit
    unfolding gated at_world
    gate entry args approval s =
        let r = b.approve entry.name args s.world in
        if approval then gated entry r.1 (at_world r.0 s) else done s tt

    -- `_authorize`
    unfoldable pub authorize : RegisteredTool → Value → State → Run Unit
    unfolding andthen ask_parsed gate parse_permissions
    authorize entry args s =
        let asking = ask_parsed entry (parse_permissions entry.policy.permissions) s in
        andthen (if set.has_policy then asking else done s entry.policy.approval_required)
          (λ s' approval. gate entry args approval s')

    -- `_charge`
    unfoldable pub charge : State → Run Unit
    unfolding at_world note
    charge s =
        let consumed = b.consume s.world in
        let checked = b.check consumed.0 in
        if not set.has_budget
        then done s tt
        else if not consumed.1
        then raised (at_world consumed.0 s) budget_exceeded
        else if not checked.1
        then raised (at_world checked.0 s) budget_exceeded
        else done (note charged (at_world checked.0 s)) tt
