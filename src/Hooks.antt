-- ===== src/Hooks.antt =====
-- Hook registrations, owned by scopes, and the dispatch of events: src/chassis/hooks/types.py and
-- registry.py. Payload values and errors are parameters; handlers are functions of the payload.
mod Examples
pub mod Ownership
pub mod Order
pub mod Chains
pub mod Dispatch
use chassis.Prelude.{
  ℕ, zero, suc, ◌+◌, ◌-◌, ◌*◌, ◌/◌, ◌%◌, ◌≤◌, ◌<◌, String, ◌≡◌, refl, sym, ap, ◌∙◌, ◌≢◌, ◌↔◌, ◌⊎◌,
  inl, inr, Bool, true, false, ◌&&◌, ◌||◌, not, Option, none, some, List, [], ◌∷◌, ◌++◌, map, arith,
  ltb, leb, nat_beq, nat_beq_iff, Eq, ◌==◌, eq_beq, nat_eq, string_eq, if◌then◌else◌, Bool-cases,
  if_ind, Option-cases, length, drop, take, select, any, all, count_if, find, All, length-append,
  length-drop, any-append, select-append, All-append, elem, any-select, All-select, select-All,
  find_passes, find-All, find-any, All-map, All-any,
}
use chassis.Prelude.Dict.{Dict, values, get, has, put, pop}
use chassis.Prelude.Sorting.{sort}
use chassis.Prelude.Texts.{text_leb}
use chassis.Prelude.Integers.{ℤ, pos, negsuc, int_leb}
use chassis.Scopes
use chassis.Scopes.{Effects, Disposal, done, Scope, is_open, cleanup}

pub data HookEvent : Type 0 where
  plugin_mounting plugin_mounted plugin_unmounting plugin_unmounted : HookEvent
  before_agent_run after_agent_run agent_error : HookEvent
  before_tool_execute after_tool_execute tool_error : HookEvent
  generation_published generation_draining policy_decision : HookEvent

pub data HookMode : Type 0 where
  observe transform bail : HookMode

pub data HookErrorPolicy : Type 0 where
  record_policy raise_policy : HookErrorPolicy

unfoldable pub event_value : HookEvent → String
event_value plugin_mounting = "plugin_mounting"
event_value plugin_mounted = "plugin_mounted"
event_value plugin_unmounting = "plugin_unmounting"
event_value plugin_unmounted = "plugin_unmounted"
event_value before_agent_run = "before_agent_run"
event_value after_agent_run = "after_agent_run"
event_value agent_error = "agent_error"
event_value before_tool_execute = "before_tool_execute"
event_value after_tool_execute = "after_tool_execute"
event_value tool_error = "tool_error"
event_value generation_published = "generation_published"
event_value generation_draining = "generation_draining"
event_value policy_decision = "policy_decision"

module _ (Value Error : Type 0) where
  abbrev pub HookPayload : Type 0
  HookPayload = Dict String Value

  -- What awaiting a handler gives: an Exception, a BaseException that is none (CancelledError, say),
  -- or a value; of a value that is no mapping only its truth is read.
  pub data Reply : Type 0 where
    failure : Error → Reply
    interruption : Error → Reply
    no_value : Reply
    mapping : HookPayload → Reply
    other : Bool → Reply

  pub record HookRegistration : Type 0 where
    pub registration_id : String
    pub event : HookEvent
    pub handler : HookPayload → Reply
    pub handler_name : String
    pub mode : HookMode
    pub priority : ℤ
    pub error_policy : HookErrorPolicy
    pub sequence : ℕ
    pub owner_id : String
    pub scope_id : String

  pub record HookRegistry : Type 0 where
    pub registrations : Dict String HookRegistration
    pub sequence : ℕ

  pub record HookSnapshot : Type 0 where
    pub generation_id : String
    pub registrations : List HookRegistration

  -- `item.event is event`: members of the enumeration differ in their values.
  unfoldable pub is_event : HookEvent → HookRegistration → Bool
  unfolding event_value
  is_event event item = event_value item.event == event_value event

  -- `order_key`: priority first, registration order second.
  unfoldable pub order_leb : HookRegistration → HookRegistration → Bool
  unfolding int_leb
  order_leb a b =
      if int_leb a.priority b.priority
      then (if int_leb b.priority a.priority then leb a.sequence b.sequence else true)
      else false

  unfoldable pub event_leb : HookRegistration → HookRegistration → Bool
  unfolding event_value order_leb text_leb
  event_leb a b =
      if event_value a.event == event_value b.event
      then order_leb a b
      else text_leb (event_value a.event) (event_value b.event)

  -- The live registry.

  unfoldable pub handlers : HookEvent → HookRegistry → List HookRegistration
  unfolding sort order_leb is_event
  handlers event r = sort order_leb (select (is_event event) (values r.registrations))

  unfoldable pub registrations : HookRegistry → List HookRegistration
  unfolding sort event_leb
  registrations r = sort event_leb (values r.registrations)

  unfoldable pub unregister : String → HookRegistry → Bool × HookRegistry
  unfolding has pop
  unregister i r = (has i r.registrations, record r { registrations = pop i r.registrations })

  -- What a scope undoes for its hooks.
  abbrev pub hook_effects : Effects
  hook_effects = record {
    Action = String;
    World = HookRegistry;
    Error = Error;
    perform = λ i r. (done, (unregister i r).1);
  }

  pub data Registered : Type 0 where
    registered : HookRegistration → Registered
    scope_closed : Registered

  unfoldable pub register :
      (event : HookEvent)
      → (HookPayload → Reply)
      → (handler_name : String) → HookMode
      → ℤ
      → HookErrorPolicy
      → (owner_id registration_id : String) → Scope hook_effects
      → HookRegistry
      → Registered × Scope hook_effects × HookRegistry
  unfolding is_open put cleanup event_value
  register event handler handler_name mode priority error_policy owner_id registration_id s r =
      let item : HookRegistration = record {
        registration_id = registration_id;
        event = event;
        handler = handler;
        handler_name = handler_name;
        mode = mode;
        priority = priority;
        error_policy = error_policy;
        sequence = r.sequence + 1;
        owner_id = owner_id;
        scope_id = s.id;
      } in
      if is_open hook_effects s
      then (
        registered item,
        (cleanup hook_effects "hook" handler_name registration_id s).1,
        record {
          registrations = put registration_id item r.registrations;
          sequence = r.sequence + 1;
        },
      )
      else (scope_closed, s, r)

  unfoldable pub snapshot : String → Option (List String) → HookRegistry → HookSnapshot
  unfolding registrations
  snapshot generation_id none r = record {
    generation_id = generation_id;
    registrations = registrations r;
  }
  snapshot generation_id (some owner_ids) r = record {
    generation_id = generation_id;
    registrations = select (λ item. elem item.owner_id owner_ids) (registrations r);
  }

  unfoldable pub snapshot_handlers : HookEvent → HookSnapshot → List HookRegistration
  unfolding sort order_leb is_event
  snapshot_handlers event s = sort order_leb (select (is_event event) s.registrations)

  -- `ScopedHooks.registrations`.
  unfoldable pub owned_registrations : String → HookRegistry → List HookRegistration
  unfolding registrations
  owned_registrations owner_id r = select (λ item. item.owner_id == owner_id) (registrations r)
