-- ===== src/Budget.antt =====
-- Budget dimensions, limits and usage: src/chassis/budget/models.py.
-- Quantities are exact multiples of one millionth: `units` of a whole number is that many millions.
-- Rounding of floats is not modelled: sums are exact where the source's floats may round, which can
-- decide a comparison with a limit. Nor is the OverflowError of `float` on an int beyond its range.
pub mod Governor
pub mod Limits
mod Examples
use chassis.Prelude.{
  ℕ, zero, suc, ◌+◌, ◌-◌, ◌*◌, ◌/◌, ◌%◌, ◌≤◌, ◌<◌, String, ◌≡◌, refl, sym, ap, ◌∙◌, ◌≢◌, ◌↔◌, ◌⊎◌,
  inl, inr, Bool, true, false, ◌&&◌, ◌||◌, not, Option, none, some, List, [], ◌∷◌, ◌++◌, map, arith,
  ltb, leb, nat_beq, nat_beq_iff, Eq, ◌==◌, eq_beq, nat_eq, string_eq, if◌then◌else◌, Bool-cases,
  if_ind, Option-cases, length, drop, take, select, any, all, count_if, find, All, length-append,
  length-drop, any-append, select-append, All-append, elem,
}

pub data Dimension : Type 0 where
  wall_clock_seconds model_calls tool_calls tokens estimated_cost child_runs : Dimension

pub data Enforcement : Type 0 where
  enforced accounted : Enforcement

unfoldable pub enforcement : Dimension → Enforcement
enforcement wall_clock_seconds = enforced
enforcement tool_calls = enforced
enforcement child_runs = enforced
enforcement model_calls = accounted
enforcement tokens = accounted
enforcement estimated_cost = accounted

-- What a caller may pass for a number. `int` counts ones and `float` millionths; `neg_float`
-- is any negative float, minus infinity included.
pub data Value : Type 0 where
  int float : ℕ → Value
  neg_int neg_float nan infinity boolean other : Value

pub data BudgetError : Type 0 where
  not_an_integer not_a_number not_finite : Dimension → BudgetError
  exceeded : Dimension → (governor : ℕ) → BudgetError

pub data Outcome {ℓ} (A : Type ℓ) : Type ℓ where
  ok : A → Outcome A
  err : BudgetError → Outcome A

infixl 5 ◌>>=◌ ◌>>◌
abbrev pub ◌>>=◌ {ℓ κ} : {A : Type ℓ} {B : Type κ} → Outcome A → (A → Outcome B) → Outcome B
ok a >>= f = f a
err e >>= f = err e

abbrev pub ◌>>◌ {ℓ} : {B : Type ℓ} → Outcome (Unit {0}) → Outcome B → Outcome B
m >> k = m >>= λ _. k

abbrev pub unit : ℕ
unit = 1_000_000

unfoldable pub units : Value → ℕ
units (int n) = n * unit
units (float x) = x
units _ = 0

unfoldable pub is_count : Dimension → Bool
is_count model_calls = true
is_count tool_calls = true
is_count tokens = true
is_count child_runs = true
is_count _ = false

pub record BudgetLimits : Type 0 where
  pub wall_clock_seconds : Option Value
  pub model_calls : Option Value
  pub tool_calls : Option Value
  pub tokens : Option Value
  pub estimated_cost : Option Value
  pub child_runs : Option Value

abbrev pub unlimited : BudgetLimits
unlimited = record {
  wall_clock_seconds = none;
  model_calls = none;
  tool_calls = none;
  tokens = none;
  estimated_cost = none;
  child_runs = none;
}

unfoldable pub limit_for : BudgetLimits → Dimension → Option Value
limit_for l wall_clock_seconds = l.wall_clock_seconds
limit_for l model_calls = l.model_calls
limit_for l tool_calls = l.tool_calls
limit_for l tokens = l.tokens
limit_for l estimated_cost = l.estimated_cost
limit_for l child_runs = l.child_runs

abbrev pub dimensions : List Dimension
dimensions =
    wall_clock_seconds ∷ model_calls ∷ tool_calls ∷ tokens ∷ estimated_cost ∷ child_runs ∷ []

-- `isinstance(limit, int)` and `isinstance(limit, (int, float))`, Booleans refused.
is_int : Value → Bool
is_int (int n) = true
is_int neg_int = true
is_int _ = false

is_number : Value → Bool
is_number boolean = false
is_number other = false
is_number _ = true

-- `value < 0 or value != value or value == inf`
out_of_range : Value → Bool
out_of_range neg_int = true
out_of_range neg_float = true
out_of_range nan = true
out_of_range infinity = true
out_of_range _ = false

unfoldable pub validate_limit : Dimension → Option Value → Outcome (Unit {0})
unfolding is_count is_int is_number out_of_range
validate_limit d none = ok tt
validate_limit d (some v) =
    if is_count d && not (is_int v)
    then err (not_an_integer d)
    else if not (is_count d) && not (is_number v)
    then err (not_a_number d)
    else if out_of_range v
    then err (not_finite d)
    else ok tt

validate_each : BudgetLimits → List Dimension → Outcome (Unit {0})
unfolding validate_limit limit_for
validate_each l [] = ok tt
validate_each l (d ∷ ds) = validate_limit d (limit_for l d) >> validate_each l ds

-- The dataclass constructor: `__post_init__` refuses bad limits.
unfoldable pub make_limits : BudgetLimits → Outcome BudgetLimits
unfolding validate_each
make_limits l = do validate_each l dimensions; ok l

unfoldable pub is_enforced : BudgetLimits → Dimension → Bool
unfolding limit_for enforcement
is_enforced l d = elim (limit_for l d) [
  | none ↦ false
  | some v ↦ elim (enforcement d) [ enforced ↦ true | accounted ↦ false ]
]

unfoldable pub requires_accounting : BudgetLimits → Dimension → Bool
unfolding limit_for enforcement
requires_accounting l d = elim (limit_for l d) [
  | none ↦ false
  | some v ↦ elim (enforcement d) [ enforced ↦ false | accounted ↦ true ]
]

unfoldable pub enforced_dimensions : BudgetLimits → List Dimension
unfolding is_enforced
enforced_dimensions l = select (is_enforced l) dimensions

unfoldable pub accounted_dimensions : BudgetLimits → List Dimension
unfolding requires_accounting
accounted_dimensions l = select (requires_accounting l) dimensions

unfoldable pub is_unlimited : BudgetLimits → Bool
unfolding limit_for
is_unlimited l = all (λ d. elim (limit_for l d) [ none ↦ true | some v ↦ false ]) dimensions

pub record Usage : Type 0 where
  pub model_calls : ℕ
  pub tool_calls : ℕ
  pub tokens : ℕ
  pub estimated_cost : ℕ
  pub child_runs : ℕ
  pub started_at : Option ℕ

abbrev pub started : ℕ → Usage
started now = record {
  model_calls = 0;
  tool_calls = 0;
  tokens = 0;
  estimated_cost = 0;
  child_runs = 0;
  started_at = some now;
}

-- `max(0.0, now - started_at)`: subtraction on ℕ stops at 0.
elapsed : Option ℕ → ℕ → ℕ
elapsed none now = 0
elapsed (some t) now = now - t

-- The source converts the counts to floats, which is exact up to 2 ^ 53.
unfoldable pub consumed : Usage → Dimension → (now : ℕ) → ℕ
unfolding elapsed
consumed u wall_clock_seconds now = elapsed u.started_at now
consumed u model_calls now = u.model_calls * unit
consumed u tool_calls now = u.tool_calls * unit
consumed u tokens now = u.tokens * unit
consumed u estimated_cost now = u.estimated_cost
consumed u child_runs now = u.child_runs * unit

-- `int(amount)` is the whole part.
unfoldable pub add : Usage → Dimension → (amount : ℕ) → Usage
add u wall_clock_seconds amount = u
add u model_calls amount = record u { model_calls = u.model_calls + amount / unit }
add u tool_calls amount = record u { tool_calls = u.tool_calls + amount / unit }
add u tokens amount = record u { tokens = u.tokens + amount / unit }
add u estimated_cost amount = record u { estimated_cost = u.estimated_cost + amount }
add u child_runs amount = record u { child_runs = u.child_runs + amount / unit }
