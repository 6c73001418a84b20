-- ===== src/Lifecycle/Histories.antt =====
-- Which states an instance can pass through (src/chassis/plugins/lifecycle.py).
use chassis.Prelude.{arith, any, ◌∷◌, inr, true, inl, List, String, ◌≡◌, refl, nat_eq, string_eq}
use chassis.Prelude.{
  String, ◌≡◌, refl, sym, ap, ◌∙◌, ◌≢◌, ◌↔◌, ◌⊎◌, inl, inr, Bool, true, false, ◌||◌, List, [], ◌∷◌,
  arith, ◌==◌, eq_beq, nat_eq, string_eq, if◌then◌else◌, Bool-cases, any, All,
}
use mathlib.Core.Path.{subst}
use chassis.Lifecycle.{
  illegal_transition, is_same, allowed_transitions, value, PluginState, pending, loading, active,
  unloading, disposed, failed, PluginInstance, moved, transition,
}

-- The steps of the diagram in docs/lifecycle.md.
pub data Documented : PluginState → PluginState → Type 0 where
  load : Documented pending loading
  activate : Documented loading active
  fail_setup : Documented loading failed
  unload : Documented active unloading
  dispose : Documented unloading disposed

-- The steps that the table adds to those of the diagram.
pub data Undocumented : PluginState → PluginState → Type 0 where
  abandon : Undocumented pending disposed
  fail_active : Undocumented active failed
  retry : Undocumented failed loading
  dispose_failed : Undocumented failed disposed

abbrev pub Step : PluginState → PluginState → Type 0
Step s t = Documented s t ⊎ Undocumented s t

-- The member that a value names.
parse : String → PluginState
parse s =
    if s == "pending"
    then pending
    else if s == "loading"
    then loading
    else if s == "active"
    then active
    else if s == "unloading"
    then unloading
    else if s == "disposed"
    then disposed
    else failed

parse-value : (a : PluginState) → parse (value a) ≡ a
unfolding parse value
parse-value pending = refl
parse-value loading = refl
parse-value active = refl
parse-value unloading = refl
parse-value disposed = refl
parse-value failed = refl

is_same_iff : (a b : PluginState) → (is_same a b ≡ true) ↔ (a ≡ b)
unfolding is_same
is_same_iff a b = (
  λ e. sym (parse-value a) ∙ ap parse ((eq_beq (value a) (value b)).0 e) ∙ parse-value b,
  λ e. (eq_beq (value a) (value b)).1 (ap value e),
)

Step-allowed : (s t : PluginState) → Step s t → any (is_same t) (allowed_transitions s) ≡ true
unfolding allowed_transitions is_same
Step-allowed s t (inl load) = refl
Step-allowed s t (inr abandon) = refl
Step-allowed s t (inl activate) = refl
Step-allowed s t (inl fail_setup) = refl
Step-allowed s t (inl unload) = refl
Step-allowed s t (inr fail_active) = refl
Step-allowed s t (inl dispose) = refl
Step-allowed s t (inr retry) = refl
Step-allowed s t (inr dispose_failed) = refl

-- A member of a table with one or two entries.
one_of :
    (s t a b : PluginState)
    → Step s a
    → Step s b
    → (is_same t a || (is_same t b || false)) ≡ true
    → Step s t
one_of s t a b p q e = elim (Bool-cases (is_same t a)) [
  | inl h ↦ subst (Step s) (sym ((is_same_iff t a).0 h)) p
  | inr h ↦ subst (Step s) (sym ((is_same_iff t b).0 (ground arith))) q
]

allowed-Step : (s t : PluginState) → any (is_same t) (allowed_transitions s) ≡ true → Step s t
unfolding allowed_transitions
allowed-Step pending t e = one_of pending t loading disposed (inl load) (inr abandon) e
allowed-Step loading t e = one_of loading t active failed (inl activate) (inl fail_setup) e
allowed-Step active t e = one_of active t unloading failed (inl unload) (inr fail_active) e
allowed-Step unloading t e =
    one_of unloading t disposed disposed (inl dispose) (inl dispose) (ground arith)
allowed-Step failed t e = one_of failed t loading disposed (inr retry) (inr dispose_failed) e
allowed-Step disposed t e = absurd (ground arith)

-- A request for the present state is accepted and changes nothing. A step of the diagram in the docs,
-- or one of four that it does not show (PENDING to DISPOSED, ACTIVE to FAILED, FAILED to LOADING and
-- FAILED to DISPOSED), is taken and changes the state only. Every other request is refused with both
-- states and changes nothing.
pub transition_lem :
    (t : PluginState) (p : PluginInstance)
    → ((p.state ≡ t) × (transition t p ≡ (moved, p)))
      ⊎ (Step p.state t × (transition t p ≡ (moved, record p { state = t })))
      ⊎ (¬ Documented p.state t
          × ¬ Undocumented p.state t
          × (p.state ≢ t)
          × (transition t p ≡ (illegal_transition p.state t, p)))
unfolding transition
transition_lem t p = elim (Bool-cases (is_same t p.state)) [
  | inl e ↦ inl (sym ((is_same_iff t p.state).0 e), simp e)
  | inr e ↦ elim (Bool-cases (any (is_same t) (allowed_transitions p.state))) [
    | inl k ↦ inr (inl (allowed-Step p.state t k, simp (e, k)))
    | inr k ↦ inr (
        inr (
          λ step. ground (arith, Step-allowed p.state t (inl step)),
          λ step. ground (arith, Step-allowed p.state t (inr step)),
          λ same. ground (arith, (is_same_iff t p.state).1 (sym same)),
          simp (e, k),
        ))
  ]
]

-- The instance after some requests, whatever became of each.
abbrev pub run : List PluginState → PluginInstance → PluginInstance
run [] p = p
run (t ∷ ts) p = run ts (transition t p).1

next_state :
    (P : PluginState → Type 0) (t : PluginState) (p : PluginInstance)
    → P p.state
    → (Step p.state t → P t)
    → P (transition t p).1.state
next_state P t p h step = elim (transition_lem t p) [
  | inl (e, k) ↦ subst P (sym (ap (λ r. r.1.state) k)) h
  | inr (inl (s, k)) ↦ subst P (sym (ap (λ r. r.1.state) k)) (step s)
  | inr (inr (n, u, d, k)) ↦ subst P (sym (ap (λ r. r.1.state) k)) h
]

-- An instance on its way out, and one that was never set up.
abbrev pub is_ending : PluginState → Bool
is_ending pending = false
is_ending loading = false
is_ending active = false
is_ending failed = false
is_ending unloading = true
is_ending disposed = true

abbrev pub is_unused : PluginState → Bool
is_unused pending = true
is_unused loading = false
is_unused active = false
is_unused failed = false
is_unused unloading = false
is_unused disposed = true

ending-Step : (s t : PluginState) → Step s t → is_ending s ≡ true → is_ending t ≡ true
ending-Step s t (inl load) h = absurd (ground arith)
ending-Step s t (inr abandon) h = refl
ending-Step s t (inl activate) h = absurd (ground arith)
ending-Step s t (inl fail_setup) h = absurd (ground arith)
ending-Step s t (inl unload) h = refl
ending-Step s t (inr fail_active) h = absurd (ground arith)
ending-Step s t (inl dispose) h = refl
ending-Step s t (inr retry) h = absurd (ground arith)
ending-Step s t (inr dispose_failed) h = refl

unused-Step : (s t : PluginState) → Step s t → t ≢ loading → is_unused s ≡ true → is_unused t ≡ true
unused-Step s t (inl load) d h = absurd (d refl)
unused-Step s t (inr abandon) d h = refl
unused-Step s t (inl activate) d h = absurd (ground arith)
unused-Step s t (inl fail_setup) d h = absurd (ground arith)
unused-Step s t (inl unload) d h = absurd (ground arith)
unused-Step s t (inr fail_active) d h = absurd (ground arith)
unused-Step s t (inl dispose) d h = refl
unused-Step s t (inr retry) d h = absurd (ground arith)
unused-Step s t (inr dispose_failed) d h = refl

-- An instance that is unloading or disposed stays so.
run_ending :
    (ts : List PluginState) (p : PluginInstance)
    → is_ending p.state ≡ true
    → is_ending (run ts p).state ≡ true
run_ending [] p h = h
run_ending (t ∷ ts) p h =
    run_ending ts (transition t p).1
      (next_state (λ s. is_ending s ≡ true) t p h (λ step. ending-Step p.state t step h))

-- Whatever transitions are requested of an instance that is pending or disposed, legal or not, it is
-- pending or disposed afterwards, unless loading is among the requests.
pub run_unused :
    (ts : List PluginState) (p : PluginInstance)
    → All (λ t. t ≢ loading) ts
    → is_unused p.state ≡ true
    → is_unused (run ts p).state ≡ true
run_unused [] p d h = h
run_unused (t ∷ ts) p d h =
    run_unused ts (transition t p).1 d.1
      (next_state (λ s. is_unused s ≡ true) t p h (λ step. unused-Step p.state t step d.0 h))

from_disposed : PluginState → Bool
from_disposed pending = false
from_disposed loading = false
from_disposed active = false
from_disposed failed = false
from_disposed unloading = false
from_disposed disposed = true

Step-from_disposed : (s t : PluginState) → Step s t → from_disposed s ≡ false
unfolding from_disposed
Step-from_disposed s t (inl load) = refl
Step-from_disposed s t (inr abandon) = refl
Step-from_disposed s t (inl activate) = refl
Step-from_disposed s t (inl fail_setup) = refl
Step-from_disposed s t (inl unload) = refl
Step-from_disposed s t (inr fail_active) = refl
Step-from_disposed s t (inl dispose) = refl
Step-from_disposed s t (inr retry) = refl
Step-from_disposed s t (inr dispose_failed) = refl

disposed-Step : (s t : PluginState) → Step s t → s ≡ disposed → ⊥
unfolding from_disposed
disposed-Step s t step e = ground (arith, Step-from_disposed s t step, ap from_disposed e)

run_disposed : (ts : List PluginState) (p : PluginInstance) → p.state ≡ disposed → run ts p ≡ p
run_disposed [] p h = refl
run_disposed (t ∷ ts) p h = elim (transition_lem t p) [
  | inl (e, k) ↦ ap (λ r. run ts r.1) k ∙ run_disposed ts p h
  | inr (inl (s, k)) ↦ absurd (disposed-Step p.state t s h)
  | inr (inr (n, u, d, k)) ↦ ap (λ r. run ts r.1) k ∙ run_disposed ts p h
]
