-- ===== src/Generations.antt =====
-- GenerationManager of src/chassis/core/generations.py, and the parts of RuntimeGeneration
-- (core/generation.py) that it reads. Generations are shared objects: they stand in a store, `pool`,
-- under their sequence numbers, which the ids `gen_0001`, … spell out.
pub mod Invariant
pub mod Safety
pub mod References
pub mod History
pub mod Pinned
mod Examples
use mathlib.Core.List.{reverse}
use chassis.Prelude.{
  ℕ, zero, suc, ◌+◌, ◌-◌, ◌*◌, ◌/◌, ◌%◌, ◌≤◌, ◌<◌, String, ◌≡◌, refl, sym, ap, ◌∙◌, ◌≢◌, ◌↔◌, ◌⊎◌,
  inl, inr, Bool, true, false, ◌&&◌, ◌||◌, not, Option, none, some, List, [], ◌∷◌, ◌++◌, map, arith,
  ltb, leb, nat_beq, nat_beq_iff, Eq, ◌==◌, eq_beq, nat_eq, string_eq, if◌then◌else◌, Bool-cases,
  Option-cases, length, drop, take, select, any, all, count_if, find, All, length-append,
  length-drop, any-append, select-append, All-append, elem,
}
use chassis.Prelude.Sorting.{sort}
use chassis.Leases
use chassis.Leases.{
  GenerationState, building, active, draining, retired, Accounting, Release, released, refused,
  acquire, release,
}

pub record Generation : Type 0 where
  pub instances : List String
  pub accounting : Accounting

abbrev pub unbuilt : Generation
unbuilt = record { instances = []; accounting = Leases.fresh }

-- `dict[key] = …` and `dict.pop(key, None)` on a dict whose values are named by their keys.
unfoldable pub add_key : ℕ → List ℕ → List ℕ
add_key g ds = if elem g ds then ds else ds ++ g ∷ []

unfoldable pub pop_key : ℕ → List ℕ → List ℕ
pop_key g ds = select (λ d. not (d == g)) ds

pub record Manager : Type 0 where
  pub current : Option ℕ
  pub draining : List ℕ
  pub retired : List ℕ
  pub history_limit : ℕ
  pub evicted : ℕ
  pub shutting_down : Bool
  pub counter : ℕ
  pub pool : ℕ → Generation

abbrev pub init : (history_limit : ℕ) → Manager
init history_limit = record {
  current = none;
  draining = [];
  retired = [];
  history_limit = history_limit;
  evicted = 0;
  shutting_down = false;
  counter = 1;
  pool = λ g. unbuilt;
}

pub data ManagerError : Type 0 where
  generation_conflict harness_state : ManagerError

pub data Outcome {ℓ} (A : Type ℓ) : Type ℓ where
  ok : A → Outcome A
  err : ManagerError → Outcome A

unfoldable pub state_of : Manager → ℕ → GenerationState
state_of m g = (m.pool g).accounting.state

unfoldable pub lease_count : Manager → ℕ → ℕ
lease_count m g = (m.pool g).accounting.leases

unfoldable pub with_accounting : ℕ → Accounting → Manager → Manager
with_accounting g a m = record m {
  pool = λ h. if h == g then record (m.pool h) { accounting = a } else m.pool h;
}

unfoldable pub set_state : ℕ → GenerationState → Manager → Manager
unfolding with_accounting
set_state g s m = with_accounting g (record (m.pool g).accounting { state = s }) m

unfoldable pub is_state : GenerationState → GenerationState → Bool
is_state building building = true
is_state active active = true
is_state draining draining = true
is_state retired retired = true
is_state _ _ = false

unfoldable pub live : Manager → List ℕ
live m = elim m.current [ none ↦ m.draining | some g ↦ g ∷ m.draining ]

unfoldable pub history : Manager → List ℕ
history m = reverse m.retired

unfoldable pub all_generations : Manager → List ℕ
unfolding live sort
all_generations m = sort (λ g h. leb h g) (live m ++ m.retired)

instances_of : (ℕ → Generation) → List ℕ → List String
instances_of pool [] = []
instances_of pool (g ∷ gs) = (pool g).instances ++ instances_of pool gs

unfoldable pub reachable_instance_ids : Manager → List String
unfolding live instances_of
reachable_instance_ids m = instances_of m.pool (live m)

unfoldable pub build : (instances : List String) → Manager → ℕ × Manager
build instances m = (
  m.counter,
  record m {
    counter = m.counter + 1;
    pool = λ h.
        if h == m.counter
        then record { instances = instances; accounting = Leases.fresh }
        else m.pool h;
  },
)

-- The outgoing generation is marked DRAINING before the current pointer is swapped.
retire_current : Option ℕ → ℕ → Manager → Manager
unfolding set_state add_key
retire_current none g m = m
retire_current (some p) g m =
    if p == g then m else record (set_state p draining m) { draining = add_key p m.draining }

unfoldable pub publish : ℕ → Manager → Outcome (Option ℕ) × Manager
unfolding state_of is_state set_state retire_current
publish g m = if not (is_state (state_of m g) building) then (err generation_conflict, m) else (
  ok m.current,
  record (set_state g active (retire_current m.current g m)) { current = some g },
)

-- Appends to the diagnostics buffer and evicts what overflows it, the oldest first.
remember : ℕ → Manager → Manager
remember g m =
    let kept = m.retired ++ g ∷ [] in
    let overflow = length kept - m.history_limit in
    record m { retired = drop overflow kept; evicted = m.evicted + overflow }

-- The last guard of `retire`: a retired generation is never left current.
unfoldable pub forget_current : ℕ → Option ℕ → Option ℕ
forget_current g none = none
forget_current g (some p) = if p == g then none else some p

unfoldable pub retire : ℕ → Manager → Outcome Bool × Manager
unfolding state_of lease_count is_state set_state pop_key remember forget_current
retire g m =
    if is_state (state_of m g) retired
    then (ok false, m)
    else if is_state (state_of m g) active
    then (err generation_conflict, m)
    else if ltb 0 (lease_count m g) && not m.shutting_down
    then (err generation_conflict, m)
    else let m' = remember g (record (set_state g retired m) { draining = pop_key g m.draining }) in
      (ok true, record m' { current = forget_current g m'.current })

unfoldable pub discard : ℕ → Manager → Outcome Bool × Manager
unfolding state_of is_state set_state
discard g m =
    if is_state (state_of m g) active
    then (err generation_conflict, m)
    else (ok true, set_state g retired m)

drain_current : Option ℕ → Manager → Manager
unfolding set_state add_key
drain_current none m = m
drain_current (some p) m = record (set_state p draining m) {
  draining = add_key p m.draining;
  current = none;
}

unfoldable pub begin_shutdown : Manager → List ℕ × Manager
unfolding drain_current
begin_shutdown m =
    let m' = drain_current m.current (record m { shutting_down = true }) in (m'.draining, m')

-- A lease is the generation that it holds and its id there.
take_lease : Option ℕ → (now : ℕ) → Manager → Outcome (ℕ × ℕ) × Manager
unfolding state_of is_state with_accounting acquire
take_lease none now m = (err harness_state, m)
take_lease (some g) now m =
    if not (is_state (state_of m g) active)
    then (err harness_state, m)
    else let (lease_id, a) = acquire now (m.pool g).accounting in
      (ok (g, lease_id), with_accounting g a m)

unfoldable pub acquire_lease : (now : ℕ) → Manager → Outcome (ℕ × ℕ) × Manager
unfolding take_lease
acquire_lease now m = take_lease m.current now m

became_idle : Release → GenerationState → Release
unfolding is_state
became_idle (released idle) s = released (idle && is_state s draining)
became_idle (refused e) s = refused e

-- Whether that was the last lease of a draining generation; an unknown lease is refused.
unfoldable pub release_lease : (g lease_id : ℕ) → Manager → Release × Manager
unfolding with_accounting release state_of became_idle
release_lease g lease_id m =
    let (r, a) = release lease_id (m.pool g).accounting in
    let m' = with_accounting g a m in (became_idle r (state_of m' g), m')

-- What `drain` returns when its wait is over: the idle and the busy generations, in input order.
unfoldable pub drain_split : List ℕ → Manager → List ℕ × List ℕ
unfolding lease_count
drain_split gs m = (select (λ g. lease_count m g == 0) gs, select (λ g. ltb 0 (lease_count m g)) gs)

-- `refresh_references`: for each instance, how many live generations reach it.
has_instance : Generation → String → Bool
has_instance g i = elem i g.instances

unfoldable pub generation_refs : Manager → String → ℕ
unfolding live has_instance
generation_refs m i = count_if (λ g. has_instance (m.pool g) i) (live m)
