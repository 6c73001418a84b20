-- ===== src/Leases.antt =====
-- GenerationState and GenerationAccounting of src/chassis/core/generation.py.
-- A clock reading is an argument, `now`, in microseconds; an asyncio.Event is its flag.
pub mod Balance
pub mod Ages
use Prim.Native.Nat.{min}
use chassis.Prelude.{
  ℕ, zero, suc, ◌+◌, ◌-◌, ◌*◌, ◌/◌, ◌%◌, ◌≤◌, ◌<◌, String, ◌≡◌, refl, sym, ap, ◌∙◌, ◌≢◌, ◌↔◌, ◌⊎◌,
  inl, inr, Bool, true, false, ◌&&◌, ◌||◌, not, Option, none, some, List, [], ◌∷◌, ◌++◌, map, arith,
  ltb, leb, nat_beq, nat_beq_iff, Eq, ◌==◌, eq_beq, nat_eq, string_eq, if◌then◌else◌, Bool-cases,
  Option-cases, length, drop, take, select, any, all, count_if, find, All, length-append,
  length-drop, any-append, select-append, All-append, elem,
}
use chassis.Prelude.Dict.{Dict, values, has, put, pop}
use chassis.Prelude.Sorting.{sort}

pub data GenerationState : Type 0 where
  building active draining retired : GenerationState

pub data LeaseError : Type 0 where
  unknown_lease : LeaseError

pub data Release : Type 0 where
  released : Bool → Release
  refused : LeaseError → Release

pub record Accounting : Type 0 where
  pub state : GenerationState
  pub leases : ℕ
  pub zero : Bool
  pub starts : Dict ℕ ℕ
  pub next_lease : ℕ

abbrev pub fresh : Accounting
fresh = record { state = building; leases = 0; zero = false; starts = []; next_lease = 0 }

unfoldable pub acquire : (now : ℕ) → Accounting → ℕ × Accounting
acquire now a = (
  a.next_lease,
  record a {
    zero = if nat_beq a.leases 0 then false else a.zero;
    next_lease = a.next_lease + 1;
    starts = put a.next_lease now a.starts;
    leases = a.leases + 1;
  },
)

-- After `del` and the decrement: the event is set when no lease is left.
settle : Accounting → Release × Accounting
settle a =
    if nat_beq a.leases 0 then (released true, record a { zero = true }) else (released false, a)

unfoldable pub release : (lease_id : ℕ) → Accounting → Release × Accounting
unfolding settle
release lease_id a =
    if has lease_id a.starts
    then settle (record a { starts = pop lease_id a.starts; leases = a.leases - 1 })
    else (refused unknown_lease, a)

min_of : ℕ → List ℕ → ℕ
min_of m [] = m
min_of m (t ∷ ts) = min_of (min m t) ts

-- `min(ts) if ts else None`
least : List ℕ → Option ℕ
unfolding min_of
least [] = none
least (t ∷ ts) = some (min_of t ts)

unfoldable pub oldest_lease_started_at : Accounting → Option ℕ
unfolding least
oldest_lease_started_at a = least (values a.starts)

-- `max(0.0, now - started)`: subtraction on ℕ stops at 0.
unfoldable pub oldest_lease_age : (now : ℕ) → Accounting → Option ℕ
unfolding oldest_lease_started_at
oldest_lease_age now a = elim (oldest_lease_started_at a) [ none ↦ none | some t ↦ some (now - t) ]

unfoldable pub lease_ages : (now : ℕ) → Accounting → List ℕ
unfolding sort
lease_ages now a = sort leb (map (λ t. now - t) (values a.starts))

-- `wait_idle` returns without waiting, or is woken by the event.
unfoldable pub is_idle_signalled : Accounting → Bool
is_idle_signalled a = if nat_beq a.leases 0 then true else a.zero
