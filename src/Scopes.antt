-- ===== src/Scopes.antt =====
-- Scopes that own reversible effects and tasks: src/chassis/core/scope.py.
-- The actions that undo effects, the world that they act on and their errors are behind an interface.
pub mod Closing
pub mod Unwinding
pub mod Released
pub mod Outcomes
mod Examples
use chassis.Prelude.{
  ℕ, zero, suc, ◌+◌, ◌-◌, ◌*◌, ◌/◌, ◌%◌, ◌≤◌, ◌<◌, String, ◌≡◌, refl, sym, ap, ◌∙◌, ◌≢◌, ◌↔◌, ◌⊎◌,
  inl, inr, Bool, true, false, ◌&&◌, ◌||◌, not, Option, none, some, List, [], ◌∷◌, ◌++◌, map, arith,
  ltb, leb, nat_beq, nat_beq_iff, Eq, ◌==◌, eq_beq, nat_eq, string_eq, if◌then◌else◌, Bool-cases,
  if_ind, Option-cases, length, drop, take, select, any, all, count_if, find, All, length-append,
  length-drop, any-append, select-append, All-append, elem, any-select, All-select, select-All,
  find_passes, find-All, find-any, All-map, All-any,
}
use chassis.Prelude.Dict.{Dict, get, has, put, pop}
use chassis.Prelude.Sorting.{sort}
use chassis.Prelude.Texts.{text_leb}

-- How a disposer ends: normally, with an `Exception`, or with another `BaseException`.
pub data Disposal (Error : Type 0) : Type 0 where
  done : Disposal Error
  failed escaped : Error → Disposal Error

pub record Effects : Type 1 where
  pub Action : Type 0
  pub World : Type 0
  pub Error : Type 0
  pub perform : Action → World → Disposal Error × World

pub data ScopeState : Type 0 where
  open_state closing closed : ScopeState

-- Identifiers count the effects of the scope, in place of uuid4.
pub record EffectRecord : Type 0 where
  pub effect_id : ℕ
  pub kind : String
  pub description : String

pub record Task : Type 0 where
  pub task_id : ℕ
  pub name : String
  pub is_done : Bool

pub data ScopeError : Type 0 where
  scope_closed : ScopeError

unfoldable pub is_open_state : ScopeState → Bool
is_open_state open_state = true
is_open_state closing = false
is_open_state closed = false

unfoldable pub is_closed_state : ScopeState → Bool
is_closed_state open_state = false
is_closed_state closing = false
is_closed_state closed = true

unfoldable pub is_empty {ℓ} : {A : Type ℓ} → List A → Bool
is_empty [] = true
is_empty (x ∷ xs) = false

module _ (fx : Effects) where
  open fx use {Action, World, Error, perform}

  pub data Cause : Type 0 where
    raised : Error → Cause
    timed_out : Cause

  pub record CleanupFailure : Type 0 where
    pub description : String
    pub error : Cause

  -- How a task ends, when it does within the time that the scope waits.
  pub data Ending : Type 0 where
    cancelled finished : Ending
    crashed : Error → Ending

  pub record Entry : Type 0 where
    pub owned : EffectRecord
    pub action : Action

  -- What `aclose` returns or raises: EffectCleanupError with the failures.
  pub data CloseOutcome : Type 0 where
    disposed : CloseOutcome
    cleanup_error : List CleanupFailure → CloseOutcome

  -- The newest disposer stands first on the exit stack.
  pub record Scope : Type 0 where
    pub id : String
    pub state : ScopeState
    pub stack : List Entry
    pub effects : Dict ℕ EffectRecord
    pub children : List String
    pub tasks : List Task
    pub failures : List CleanupFailure
    pub stragglers : List Task
    pub close_task : Option CloseOutcome
    pub next_effect : ℕ

  pub data Result (A : Type 0) : Type 0 where
    made : A → Result A
    refused : ScopeError → Result A

  unfoldable pub fresh : String → Scope
  fresh id = record {
    id = id;
    state = open_state;
    stack = [];
    effects = [];
    children = [];
    tasks = [];
    failures = [];
    stragglers = [];
    close_task = none;
    next_effect = 0;
  }

  unfoldable pub is_open : Scope → Bool
  unfolding is_open_state
  is_open s = is_open_state s.state

  unfoldable pub fully_disposed : Scope → Bool
  unfolding is_empty is_closed_state
  fully_disposed s =
      is_closed_state s.state && is_empty s.stragglers && is_empty s.effects && is_empty s.failures

  unfoldable pub record_failure : String → Cause → Scope → Scope
  record_failure description error s = record s {
    failures = s.failures ++ record { description = description; error = error } ∷ [];
  }

  unfoldable pub release_effect : EffectRecord → Scope → Scope
  unfolding pop
  release_effect r s = record s { effects = pop r.effect_id s.effects }

  unfoldable pub register_effect : (kind description : String) → Scope → Result EffectRecord × Scope
  unfolding is_open put
  register_effect kind description s =
      let r : EffectRecord = record {
        effect_id = s.next_effect;
        kind = kind;
        description = description;
      } in
      if is_open s
      then (
        made r,
        record s { effects = put s.next_effect r s.effects; next_effect = s.next_effect + 1 },
      )
      else (refused scope_closed, s)

  unfoldable pub push : EffectRecord → Action → Scope → Scope
  push r action s = record s { stack = record { owned = r; action = action } ∷ s.stack }

  unfoldable pub cleanup_after : Action → Result EffectRecord × Scope → Result EffectRecord × Scope
  unfolding push
  cleanup_after action (made r, s) = (made r, push r action s)
  cleanup_after action (refused e, s) = (refused e, s)

  unfoldable pub cleanup :
      (kind description : String) → Action → Scope → Result EffectRecord × Scope
  unfolding register_effect cleanup_after
  cleanup kind description action s = cleanup_after action (register_effect kind description s)

  -- The child's `aclose` is the action that undoes it.
  unfoldable pub child : (name : String) → Action → Scope → Result EffectRecord × Scope
  unfolding cleanup is_open
  child name close_child s =
      if is_open s
      then cleanup "child" name close_child (record s { children = s.children ++ name ∷ [] })
      else (refused scope_closed, s)

  unfoldable pub create_task : Task → Scope → Result Task × Scope
  unfolding is_open
  create_task t s =
      if is_open s
      then (made t, record s { tasks = s.tasks ++ t ∷ [] })
      else (refused scope_closed, s)
