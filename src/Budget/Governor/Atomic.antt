-- ===== src/Budget/Governor/Atomic.antt =====
-- A refused call changes nothing, and an accepted one exactly its chain (budget/governor.py).
use chassis.Prelude.{
  ℕ, ◌+◌, ◌≡◌, refl, ap, ◌≢◌, Bool, ◌&&◌, not, Option, none, some, arith, nat_eq, string_eq,
  if◌then◌else◌, length,
}
use chassis.Budget.{
  Dimension, child_runs, Value, int, Outcome, ok, err, units, BudgetLimits, consumed,
}
use chassis.Budget.Governor.{Governor, Store, check, charge, consume, commit, child, spawn}
use chassis.Budget.Governor.Charges.{
  is_wall, same, IsWhole, consumed-add, validate_amount-IsWhole, governor_at, on_chain,
  governor_at-charge, length-charge, charged,
}
use chassis.Budget.Governor.Within.{check-ok}

commit_refused :
    (r : Outcome (Unit {0})) (after before : Store)
    → (commit r after before).0 ≢ ok tt
    → (commit r after before).1 ≡ before
unfolding commit
commit_refused (ok tt) after before h = absurd (h refl)
commit_refused (err e) after before h = refl

commit_accepted :
    (r : Outcome (Unit {0})) (after before : Store)
    → (commit r after before).0 ≡ ok tt
    → (r ≡ ok tt) × ((commit r after before).1 ≡ after)
unfolding commit
commit_accepted (ok tt) after before h = (refl, refl)
commit_accepted (err e) after before h = cc

spawn_refused :
    (limits : BudgetLimits) (i now : ℕ) (r : Outcome (Unit {0})) (after before : Store)
    → length after ≡ length before
    → (spawn limits i now (commit r after before)).0 ≢ ok (length before)
    → (spawn limits i now (commit r after before)).1 ≡ before
unfolding spawn commit
spawn_refused limits i now (ok tt) after before same h = absurd (h (ap ok same))
spawn_refused limits i now (err e) after before same h = refl

-- Starting a child run that is refused has changed no governor and created none.
pub child_atomic :
    (clock : ℕ → ℕ) (limits : BudgetLimits) (i : ℕ) (s : Store)
    → (child clock limits i s).0 ≢ ok (length s)
    → (child clock limits i s).1 ≡ s
unfolding child consume
child_atomic clock limits i s h =
    spawn_refused limits i (clock (length s)) (check clock child_runs (int 1) i s) _ s
      (length-charge child_runs (units (int 1)) s (some i)) h

abbrev pub consumption : Dimension → ℕ → Option Governor → Option ℕ
consumption e now none = none
consumption e now (some g) = some (consumed g.usage e now)

abbrev pub plus : ℕ → Option ℕ → Option ℕ
plus a none = none
plus a (some n) = some (n + a)

charged-consumption :
    (d e : Dimension) (a now : ℕ) (hit : Bool) (o : Option Governor)
    → IsWhole d a
    → consumption e now (charged d a hit o)
      ≡ plus (if hit && (same d e && not (is_wall d)) then a else 0) (consumption e now o)
charged-consumption d e a now hit none w = refl
charged-consumption d e a now hit (some g) w = ground (arith, consumed-add d e a now g.usage w)

-- An accepted charge raises the consumption of the governor called and of each of its ancestors by
-- the amount, once, in its own dimension, and changes no other consumption; elapsed time is never
-- charged.
pub consume_effect :
    (clock : ℕ → ℕ) (d e : Dimension) (v : Value) (i j now : ℕ) (s : Store)
    → (consume clock d v i s).0 ≡ ok tt
    → consumption e now (governor_at j (consume clock d v i s).1)
      ≡ plus
          (if on_chain s (some i) j && (same d e && not (is_wall d)) then units v else 0)
          (consumption e now (governor_at j s))
unfolding consume
consume_effect clock d e v i j now s h =
    let (accepted, after) =
      commit_accepted (check clock d v i s) (charge d (units v) s (some i)) s h in
    let (valid, _) = check-ok clock d v i s accepted in
    rw after (
      rw governor_at-charge (
        charged-consumption d e (units v) now (on_chain s (some i) j) (governor_at j s)
          (validate_amount-IsWhole d v valid)))

-- A charge that is refused has changed no governor.
pub consume_atomic :
    (clock : ℕ → ℕ) (d : Dimension) (v : Value) (i : ℕ) (s : Store)
    → (consume clock d v i s).0 ≢ ok tt
    → (consume clock d v i s).1 ≡ s
unfolding consume
consume_atomic clock d v i s h = commit_refused (check clock d v i s) _ s h
