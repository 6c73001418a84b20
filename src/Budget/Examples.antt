-- ===== src/Budget/Examples.antt =====
-- A parent with a limit on tool calls and elapsed time, its child, and the theorems at them.
use chassis.Prelude.{ℕ, ◌≡◌, refl, true, some, List, [], ◌∷◌, nat_eq, string_eq}
use chassis.Budget.{
  is_count, tool_calls, tokens, int, float, err, exceeded, nan, not_an_integer, BudgetLimits,
  unlimited, limit_for, consumed, make_limits,
}
use chassis.Budget.Limits.{make_limits_lem, made, is_sound}
use chassis.Budget.Governor.{
  Store, check_chain, check, consume, report, child, remaining, remaining_seconds,
}
use chassis.Budget.Governor.Charges.{same, is_wall, governor_at, on_chain}
use chassis.Budget.Governor.Calls.{Call, starts, consumes, reports, spawns, run}
use chassis.Budget.Governor.Within.{IsWithin}
use chassis.Budget.Governor.Guarantee.{run-IsWithin}
use chassis.Budget.Governor.Covers.{IsCovered, run-IsCovered}
use chassis.Budget.Governor.Atomic.{consume_effect, consumption}

runs : Unit {0}
unfolding consume report child check check_chain run governor_at on_chain same remaining
    remaining_seconds make_limits
runs = tt

abbrev limited : BudgetLimits
limited = record unlimited {
  tool_calls = some (int 2);
  wall_clock_seconds = some (float 5_000_000);
}

abbrev at_ten : ℕ → ℕ
at_ten i = 10

abbrev calls : List Call
calls =
    starts limited 0
    ∷ spawns at_ten unlimited 0
    ∷ consumes at_ten tool_calls (int 1) 1
    ∷ reports at_ten (int 1) (int 700) (float 2500) 1
    ∷ consumes at_ten tool_calls (int 1) 0
    ∷ consumes at_ten tool_calls (int 1) 1
    ∷ []

abbrev spent : Store
spent = run [] calls

-- The child has no limit of its own, and the parent refuses its second call.
parent_refuses : (consume at_ten tool_calls (int 1) 1 spent).0 ≡ err (exceeded tool_calls 0)
unfolding runs
parent_refuses = refl

make_limits_lem_example : made (make_limits limited) ≡ true
unfolding runs is_sound limit_for is_count
make_limits_lem_example = make_limits_lem limited

nan_refused : make_limits (record unlimited { tokens = some nan }) ≡ err (not_an_integer tokens)
unfolding runs
nan_refused = refl

run-IsWithin_example : IsWithin tool_calls spent
unfolding is_wall
run-IsWithin_example = run-IsWithin tool_calls calls refl

run-IsCovered_example : IsCovered tool_calls spent
run-IsCovered_example = run-IsCovered tool_calls calls

consume_effect_example :
    consumption tokens 10 (governor_at 0 (consume at_ten tokens (int 3) 1 spent).1)
    ≡ some 703_000_000
unfolding runs consumed is_wall
consume_effect_example = consume_effect at_ten tokens tokens (int 3) 1 0 10 spent refl
