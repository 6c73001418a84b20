-- ===== src/Tools.antt =====
-- Registered tools, requests and results: src/chassis/tools/metadata.py, registry.py and executor.py.
pub mod Executor
pub mod Snapshots
mod Registrations
pub mod Histories
pub mod Released
pub mod Indexed
pub mod Registry
pub mod Runs
pub mod Finished
mod Examples
pub mod Guarded
pub mod Authorized
pub mod Calls
use chassis.Prelude.{
  ℕ, zero, suc, ◌+◌, ◌-◌, ◌*◌, ◌/◌, ◌%◌, ◌≤◌, ◌<◌, String, ◌≡◌, refl, sym, ap, ◌∙◌, ◌≢◌, ◌↔◌, ◌⊎◌,
  inl, inr, Bool, true, false, ◌&&◌, ◌||◌, not, Option, none, some, List, [], ◌∷◌, ◌++◌, map, arith,
  ltb, leb, nat_beq, nat_beq_iff, Eq, ◌==◌, eq_beq, nat_eq, string_eq, if◌then◌else◌, Bool-cases,
  if_ind, Option-cases, length, drop, take, select, any, all, count_if, find, All, length-append,
  length-drop, any-append, select-append, All-append, elem, any-select, All-select, select-All,
  find_passes, find-All, find-any, All-map, All-any,
}
use chassis.Policy.{Permission, Parsed, parsed, malformed, parse, PolicyResult}
use chassis.Replay.{Missing}

pub record ToolPolicy : Type 0 where
  pub permissions : List String
  pub approval_required : Bool

unfoldable pub add_parsed : Parsed → Option (List Permission) → Option (List Permission)
add_parsed (malformed e) ps = none
add_parsed (parsed p) none = none
add_parsed (parsed p) (some ps) = some (p ∷ ps)

-- `ToolPolicy.permission_objects`, which raises on a text that is not a permission.
unfoldable pub parse_permissions : List String → Option (List Permission)
unfolding add_parsed parse
parse_permissions [] = some []
parse_permissions (t ∷ ts) = add_parsed (parse t) (parse_permissions ts)

pub record RegisteredTool : Type 0 where
  pub name : String
  pub owner_id : String
  pub policy : ToolPolicy

pub record ToolSnapshot : Type 0 where
  pub generation_id : String
  pub entries : List RegisteredTool

-- `ToolSnapshot.get`
unfoldable pub tool_named : String → ToolSnapshot → Option RegisteredTool
tool_named name s = find (λ e. e.name == name) s.entries

pub data ToolStatus : Type 0 where
  ok error timeout : ToolStatus

unfoldable pub is_ok : ToolStatus → Bool
is_ok ok = true
is_ok error = false
is_ok timeout = false

-- What `execute` raises.
pub data ToolError : Type 0 where
  tool_not_found refused_by_hook bad_permission : ToolError
  hook_failed : String → ToolError
  policy_failed policy_denied : Permission → ToolError
  approval_failed approval_denied budget_exceeded cancelled : ToolError
  replay_mismatch : Missing → ToolError
  execution_failed : ToolStatus → String → ToolError

-- What a policy engine does with a request: it raises or decides.
pub data Decision : Type 0 where
  undecided : Decision
  decided : PolicyResult → Decision

module _ (Value : Type 0) where
  pub record ToolRequest : Type 0 where
    pub name : String
    pub args : Value
    pub tool_call_id : Option String
    pub generation_id : Option String
    pub run_id : Option String

  pub record ToolExecutionResult : Type 0 where
    pub name : String
    pub status : ToolStatus
    pub content : Value
    pub artifact : Value
    pub error : Option String
    pub tool_call_id : Option String
    pub generation_id : Option String
    pub run_id : Option String
    pub redacted : Bool

  -- What a recording holds of a call: the request, and the result as `to_payload` writes it. A
  -- recorded response may also be None.
  pub data Payload : Type 0 where
    absent : Payload
    call : String → Value → Payload
    outcome : ToolExecutionResult → Payload

  -- The events that the executor dispatches, with what they carry.
  pub data Notice : Type 0 where
    before_tool_execute : String → Value → Notice
    after_tool_execute : String → ToolStatus → Notice
    tool_error : String → String → Notice
    policy_decision : String → Option Permission → Bool → Notice

  pub data Dispatched : Type 0 where
    dispatch_failed : String → Dispatched
    dispatched : (stopped : Bool) (args : Option Value) → Dispatched

  pub data Invoked : Type 0 where
    returned : (content artifact : Value) → Invoked
    timed_out : Invoked
    failed : String → Invoked
    interrupted : Invoked

  -- What a call reaches outside of the executor: hooks, policy engine, approval gate, budget and tool.
  pub record Boundary (World : Type 0) : Type 0 where
    pub dispatch : Notice → World → World × Dispatched
    pub evaluate : Permission → World → World × Decision
    pub approve : String → Value → World → World × Option Bool
    pub consume : World → World × Bool
    pub check : World → World × Bool
    pub ainvoke : String → Value → World → World × Invoked
    pub redact_and_report : String → String × Bool
    pub redact_value : Payload → Payload
    pub boundary_key : String → Value → String
    pub deadline_message : String → String
    pub no_value : Value
