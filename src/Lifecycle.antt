-- ===== src/Lifecycle.antt =====
-- Ownership states of a plugin instance: src/chassis/plugins/lifecycle.py.
pub mod Histories
mod Examples
use chassis.Prelude.{
  ℕ, zero, suc, ◌+◌, ◌-◌, ◌*◌, ◌/◌, ◌%◌, ◌≤◌, ◌<◌, String, ◌≡◌, refl, sym, ap, ◌∙◌, ◌≢◌, ◌↔◌, ◌⊎◌,
  inl, inr, Bool, true, false, ◌&&◌, ◌||◌, not, Option, none, some, List, [], ◌∷◌, ◌++◌, map, arith,
  ltb, leb, nat_beq, nat_beq_iff, Eq, ◌==◌, eq_beq, nat_eq, string_eq, if◌then◌else◌, Bool-cases,
  if_ind, Option-cases, length, drop, take, select, any, all, count_if, find, All, length-append,
  length-drop, any-append, select-append, All-append, elem, any-select, All-select, select-All,
  find_passes, find-All, find-any, All-map, All-any,
}

pub data PluginState : Type 0 where
  pending loading active unloading disposed failed : PluginState

pub data PluginHealth : Type 0 where
  unknown healthy degraded unhealthy : PluginHealth

-- What `transition` reads and writes of an instance, beside what identifies it.
pub record PluginInstance : Type 0 where
  pub instance_id : String
  pub entry_id : String
  pub state : PluginState
  pub health : PluginHealth
  pub generation_refs : ℕ

pub data Transition : Type 0 where
  moved : Transition
  illegal_transition : (current requested : PluginState) → Transition

unfoldable pub value : PluginState → String
value pending = "pending"
value loading = "loading"
value active = "active"
value unloading = "unloading"
value disposed = "disposed"
value failed = "failed"

-- Members of the enumeration are equal when their values are.
unfoldable pub is_same : PluginState → PluginState → Bool
unfolding value
is_same a b = value a == value b

-- `_ALLOWED_TRANSITIONS`
unfoldable pub allowed_transitions : PluginState → List PluginState
allowed_transitions pending = loading ∷ disposed ∷ []
allowed_transitions loading = active ∷ failed ∷ []
allowed_transitions active = unloading ∷ failed ∷ []
allowed_transitions unloading = disposed ∷ []
allowed_transitions failed = loading ∷ disposed ∷ []
allowed_transitions disposed = []

unfoldable pub transition : PluginState → PluginInstance → Transition × PluginInstance
unfolding is_same allowed_transitions
transition new_state p =
    if is_same new_state p.state
    then (moved, p)
    else if not (any (is_same new_state) (allowed_transitions p.state))
    then (illegal_transition p.state new_state, p)
    else (moved, record p { state = new_state })
