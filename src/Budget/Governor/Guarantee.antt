-- ===== src/Budget/Governor/Guarantee.antt =====
-- No governor ever passes a limit (budget/governor.py).
use chassis.Prelude.{◌≡◌, false, none, List, [], ◌∷◌, nat_eq, string_eq}
use chassis.Budget.{Dimension}
use chassis.Budget.Governor.{Store}
use chassis.Budget.Governor.Charges.{is_wall}
use chassis.Budget.Governor.Calls.{Call, starts, consumes, reports, spawns, step, run}
use chassis.Budget.Governor.Within.{
  IsWithin, consume-IsWithin, report-IsWithin, child-IsWithin, fresh-within,
}

step-IsWithin :
    (e : Dimension) (s : Store) (c : Call)
    → is_wall e ≡ false
    → IsWithin e s
    → IsWithin e (step s c)
unfolding step
step-IsWithin e s (starts limits now) counted w = (fresh-within e limits none now counted, w)
step-IsWithin e s (consumes clock d v i) counted w = consume-IsWithin clock d e v i s counted w
step-IsWithin e s (reports clock m t c i) counted w = report-IsWithin clock e m t c i s counted w
step-IsWithin e s (spawns clock limits i) counted w = child-IsWithin clock e limits i s counted w

run_keeps :
    (e : Dimension) (s : Store) (cs : List Call)
    → is_wall e ≡ false
    → IsWithin e s
    → IsWithin e (run s cs)
unfolding run
run_keeps e s [] counted w = w
run_keeps e s (c ∷ cs) counted w = run_keeps e (step s c) cs counted (step-IsWithin e s c counted w)

-- Whatever governors are created and charged, with success or not and in whatever order, none ever
-- passes a limit of a dimension other than elapsed time: neither a child, nor an ancestor through its
-- children.
pub run-IsWithin : (e : Dimension) (cs : List Call) → is_wall e ≡ false → IsWithin e (run [] cs)
run-IsWithin e cs counted = run_keeps e [] cs counted tt
