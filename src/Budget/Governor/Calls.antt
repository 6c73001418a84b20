-- ===== src/Budget/Governor/Calls.antt =====
-- Histories of governor calls (budget/governor.py).
use chassis.Prelude.{ℕ, none, List, [], ◌∷◌, nat_eq, string_eq}
use chassis.Budget.{Dimension, Value, BudgetLimits, started}
use chassis.Budget.Governor.{Store, consume, report, child}

-- The calls that change governors, on any of them and in any order; `starts` is the constructor.
pub data Call : Type 0 where
  starts : BudgetLimits → (now : ℕ) → Call
  consumes : (ℕ → ℕ) → Dimension → Value → ℕ → Call
  reports : (ℕ → ℕ) → (model_calls tokens estimated_cost : Value) → ℕ → Call
  spawns : (ℕ → ℕ) → BudgetLimits → ℕ → Call

unfoldable pub step : Store → Call → Store
step s (starts limits now) = record { limits = limits; parent = none; usage = started now } ∷ s
step s (consumes clock d v i) = (consume clock d v i s).1
step s (reports clock m t c i) = (report clock m t c i s).1
step s (spawns clock limits i) = (child clock limits i s).1

unfoldable pub run : Store → List Call → Store
unfolding step
run s [] = s
run s (c ∷ cs) = run (step s c) cs
