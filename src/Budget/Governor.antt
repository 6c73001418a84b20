-- ===== src/Budget/Governor.antt =====
-- BudgetGovernor of src/chassis/budget/governor.py. Governors are shared objects: they stand in a
-- store, the newest first, and a governor's id is the number of those below it. A parent is older than
-- its children. `clock` gives the reading that each governor's `self._clock()` makes during the call.
pub mod Charges
pub mod Within
pub mod Calls
pub mod Covers
pub mod Atomic
pub mod Guarantee
pub mod Remaining
use chassis.Prelude.{
  ℕ, ◌+◌, ◌-◌, ◌%◌, Bool, true, false, ◌&&◌, not, Option, none, some, List, [], ◌∷◌, ltb, ◌==◌,
  nat_eq, string_eq, if◌then◌else◌, length,
}
use chassis.Budget.{
  Dimension, wall_clock_seconds, model_calls, tokens, estimated_cost, child_runs, Value, int, float,
  not_a_number, not_finite, not_an_integer, exceeded, Outcome, ok, err, ◌>>◌, unit, units, is_count,
  is_number, out_of_range, BudgetLimits, limit_for, Usage, started, consumed, add,
}

pub record Governor : Type 0 where
  pub limits : BudgetLimits
  pub parent : Option ℕ
  pub usage : Usage

abbrev pub Store : Type 0
Store = List Governor

-- Whether the governor above `rest` is the one that is called.
abbrev pub hits : Option ℕ → Store → Bool
hits none rest = false
hits (some i) rest = i == length rest

-- The governor to go on with below this one: its parent, if it was the one called.
unfoldable pub onward : Option ℕ → Governor → Store → Option ℕ
onward t g rest = if hits t rest then g.parent else t

unfoldable pub validate_amount : Dimension → Value → Outcome (Unit {0})
unfolding is_count is_number out_of_range units
validate_amount d v =
    if not (is_number v)
    then err (not_a_number d)
    else if out_of_range v
    then err (not_finite d)
    else if is_count d && not (units v % unit == 0)
    then err (not_an_integer d)
    else ok tt

-- `used + amount > limit`
unfoldable pub over : Governor → Dimension → (amount now : ℕ) → Bool
unfolding limit_for units consumed
over g d amount now = elim (limit_for g.limits d) [
  | none ↦ false
  | some l ↦ ltb (units l) (consumed g.usage d now + amount)
]

-- The chain of `check` calls from a governor up, for an amount that is valid.
unfoldable pub check_chain : (ℕ → ℕ) → Dimension → ℕ → Store → Option ℕ → Outcome (Unit {0})
unfolding over onward
check_chain clock d amount [] t = ok tt
check_chain clock d amount (g ∷ rest) t =
    let up = check_chain clock d amount rest (onward t g rest) in
    if hits t rest && over g d amount (clock (length rest))
    then err (exceeded d (length rest))
    else up

unfoldable pub check : (ℕ → ℕ) → Dimension → Value → ℕ → Store → Outcome (Unit {0})
unfolding validate_amount check_chain
check clock d v i s = do validate_amount d v; check_chain clock d (units v) s (some i)

-- `self._usage.add`, and `_record` on the chain of parents.
unfoldable pub charge : Dimension → ℕ → Store → Option ℕ → Store
unfolding add onward
charge d amount [] t = []
charge d amount (g ∷ rest) t =
    (if hits t rest then record g { usage = add g.usage d amount } else g)
    ∷ charge d amount rest (onward t g rest)

-- The store beside the outcome: an error leaves what was written before it.
unfoldable pub commit : Outcome (Unit {0}) → Store → Store → Outcome (Unit {0}) × Store
commit (ok tt) after before = (ok tt, after)
commit (err e) after before = (err e, before)

unfoldable pub consume : (ℕ → ℕ) → Dimension → Value → ℕ → Store → Outcome (Unit {0}) × Store
unfolding commit check charge
consume clock d v i s = commit (check clock d v i s) (charge d (units v) s (some i)) s

-- `if amount:`
unfoldable pub truthy : Value → Bool
truthy (int n) = not (n == 0)
truthy (float x) = not (x == 0)
truthy _ = true

unfoldable pub check_truthy : (ℕ → ℕ) → Dimension → Value → ℕ → Store → Outcome (Unit {0})
unfolding truthy check
check_truthy clock d v i s = if truthy v then check clock d v i s else ok tt

unfoldable pub charge_truthy : Dimension → Value → ℕ → Store → Store
unfolding truthy charge
charge_truthy d v i s = if truthy v then charge d (units v) s (some i) else s

-- Every charge is validated, then every charge is checked, and only then the usage changes.
unfoldable pub record_checks :
    (ℕ → ℕ) → (model_calls tokens estimated_cost : Value) → ℕ → Store → Outcome (Unit {0})
unfolding validate_amount check_truthy
record_checks clock m t c i s = do
  validate_amount model_calls m
  validate_amount tokens t
  validate_amount estimated_cost c
  check_truthy clock model_calls m i s
  check_truthy clock tokens t i s
  check_truthy clock estimated_cost c i s

unfoldable pub report :
    (ℕ → ℕ) → (model_calls tokens estimated_cost : Value) → ℕ → Store → Outcome (Unit {0}) × Store
unfolding commit record_checks charge_truthy
report clock m t c i s =
    commit (record_checks clock m t c i s)
      (charge_truthy estimated_cost c i
        (charge_truthy tokens t i (charge_truthy model_calls m i s)))
      s

-- A new governor's id is the size of the store before.
unfoldable pub spawn : BudgetLimits → ℕ → (now : ℕ) → Outcome (Unit {0}) × Store → Outcome ℕ × Store
spawn limits i now (ok tt, s) =
    (ok (length s), record { limits = limits; parent = some i; usage = started now } ∷ s)
spawn limits i now (err e, s) = (err e, s)

unfoldable pub child : (ℕ → ℕ) → BudgetLimits → ℕ → Store → Outcome ℕ × Store
unfolding spawn consume
child clock limits i s = spawn limits i (clock (length s)) (consume clock child_runs (int 1) i s)

-- `max(0.0, min(candidates))`: the local candidate is cut off at 0, and the parent's never is below.
unfoldable pub narrow : Option ℕ → Option ℕ → Option ℕ
narrow none up = up
narrow (some own) none = some own
narrow (some own) (some up) = some (if ltb own up then own else up)

unfoldable pub own_remaining : Governor → Dimension → (now : ℕ) → Option ℕ
unfolding limit_for units consumed
own_remaining g d now = elim (limit_for g.limits d) [
  | none ↦ none
  | some l ↦ some (units l - consumed g.usage d now)
]

unfoldable pub remaining : (ℕ → ℕ) → Dimension → Store → Option ℕ → Option ℕ
unfolding narrow own_remaining onward
remaining clock d [] t = none
remaining clock d (g ∷ rest) t =
    let up = remaining clock d rest (onward t g rest) in
    if hits t rest then narrow (own_remaining g d (clock (length rest))) up else up

deadline_of : Option ℕ → Option Value → Option ℕ
unfolding units
deadline_of (some t) (some l) = some (t + units l)
deadline_of _ _ = none

unfoldable pub deadline : Governor → Option ℕ
unfolding deadline_of
deadline g = deadline_of g.usage.started_at g.limits.wall_clock_seconds

unfoldable pub time_left : Option ℕ → ℕ → Option ℕ
time_left none now = none
time_left (some t) now = some (t - now)

unfoldable pub seconds_left : (ℕ → ℕ) → Store → Option ℕ → Option ℕ
unfolding narrow deadline time_left onward
seconds_left clock [] t = none
seconds_left clock (g ∷ rest) t =
    let up = seconds_left clock rest (onward t g rest) in
    if hits t rest then narrow (time_left (deadline g) (clock (length rest))) up else up

-- `none` is the ValueError of a call for another dimension.
unfoldable pub remaining_seconds : (ℕ → ℕ) → Dimension → ℕ → Store → Option (Option ℕ)
unfolding seconds_left
remaining_seconds clock wall_clock_seconds i s = some (seconds_left clock s (some i))
remaining_seconds clock _ i s = none
