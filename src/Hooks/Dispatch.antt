-- ===== src/Hooks/Dispatch.antt =====
-- The chain of handlers for an event: `HookRegistry.dispatch` of src/chassis/hooks/registry.py.
use chassis.Prelude.{
  String, Bool, true, false, Option, none, some, List, [], ◌∷◌, ◌++◌, nat_eq, string_eq,
  if◌then◌else◌,
}
use chassis.Hooks.{
  HookEvent, HookMode, observe, transform, bail, HookErrorPolicy, record_policy, raise_policy,
  HookPayload, Reply, failure, interruption, no_value, mapping, other, HookRegistration,
  HookRegistry, HookSnapshot, handlers, snapshot_handlers,
}

unfoldable pub raises : HookErrorPolicy → Bool
raises record_policy = false
raises raise_policy = true

module _ (Value Error : Type 0) where
  pub data HookFault : Type 0 where
    handler_failed : Error → HookFault
    not_a_mapping : HookFault

  pub record HookFailure : Type 0 where
    pub handler_name : String
    pub error : HookFault

  pub record HookResult : Type 0 where
    pub payload : HookPayload Value Error
    pub stopped : Bool
    pub failures : List HookFailure

  -- HookExecutionError names the handler and its owner.
  pub record HookExecutionError : Type 0 where
    pub handler_name : String
    pub owner_id : String
    pub error : HookFault

  pub data Dispatched : Type 0 where
    result : HookResult → Dispatched
    execution_error : HookExecutionError → Dispatched
    base_exception : Error → Dispatched

  -- What a handler's turn does to the chain. `except Exception` leaves any other BaseException to the
  -- caller, whatever the error policy is.
  pub data Turn : Type 0 where
    next : Turn
    replace : HookPayload Value Error → Turn
    fault : HookFault → Turn
    abort : Error → Turn
    stop : Turn

  -- Python's truth of a mapping.
  unfoldable pub is_nonempty : HookPayload Value Error → Bool
  is_nonempty [] = false
  is_nonempty (e ∷ es) = true

  unfoldable pub turn : HookMode → Reply Value Error → Turn
  unfolding is_nonempty
  turn mode (failure e) = fault (handler_failed e)
  turn mode (interruption e) = abort e
  turn mode no_value = next
  turn observe (mapping p) = next
  turn observe (other b) = next
  turn transform (mapping p) = replace p
  turn transform (other b) = fault not_a_mapping
  turn bail (mapping p) = if is_nonempty p then stop else next
  turn bail (other b) = if b then stop else next

  -- The loop: its variables, or how it was left.
  pub data Chain : Type 0 where
    running : HookPayload Value Error → List HookFailure → Chain
    ended : Dispatched → Chain

  unfoldable pub take_turn :
      HookRegistration Value Error → HookPayload Value Error → List HookFailure → Turn → Chain
  unfolding raises
  take_turn item current failures next = running current failures
  take_turn item current failures (replace p) = running p failures
  take_turn item current failures (fault e) =
      if raises item.error_policy
      then ended (
          execution_error
            (record { handler_name = item.handler_name; owner_id = item.owner_id; error = e }))
      else running current (failures ++ record { handler_name = item.handler_name; error = e } ∷ [])
  take_turn item current failures (abort e) = ended (base_exception e)
  take_turn item current failures stop =
      ended (result (record { payload = current; stopped = true; failures = failures }))

  unfoldable pub advance : HookRegistration Value Error → Chain → Chain
  unfolding turn take_turn
  advance item (running current failures) =
      take_turn item current failures (turn item.mode (item.handler current))
  advance item (ended d) = ended d

  unfoldable pub run_chain : List (HookRegistration Value Error) → Chain → Chain
  unfolding advance
  run_chain [] c = c
  run_chain (item ∷ items) c = run_chain items (advance item c)

  unfoldable pub finish_chain : Chain → Dispatched
  finish_chain (running current failures) =
      result (record { payload = current; stopped = false; failures = failures })
  finish_chain (ended d) = d

  unfoldable pub listening :
      HookEvent
      → Option (HookSnapshot Value Error)
      → HookRegistry Value Error
      → List (HookRegistration Value Error)
  unfolding handlers snapshot_handlers
  listening event none r = handlers Value Error event r
  listening event (some s) r = snapshot_handlers Value Error event s

  unfoldable pub dispatch :
      HookEvent
      → HookPayload Value Error
      → Option (HookSnapshot Value Error)
      → HookRegistry Value Error
      → Dispatched
  unfolding run_chain finish_chain listening
  dispatch event payload hooks r =
      finish_chain (run_chain (listening event hooks r) (running payload []))
