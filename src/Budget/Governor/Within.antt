-- ===== src/Budget/Governor/Within.antt =====
-- One call keeps every governor within its limits (budget/governor.py).
use chassis.Prelude.{
  Bool-cases, inl, inr, ◌∙◌, ℕ, ◌≡◌, refl, ◌∙◌, inl, inr, true, false, Option, some, [], ◌∷◌, arith,
  nat_eq, string_eq, Bool-cases, length, All,
}
use chassis.Budget.{
  Dimension, wall_clock_seconds, model_calls, tool_calls, tokens, estimated_cost, child_runs, Value,
  int, Outcome, ok, err, ◌>>◌, units, BudgetLimits, started, consumed, add,
}
use chassis.Budget.Governor.{
  Governor, Store, onward, over, check_chain, check, charge, validate_amount, consume, commit,
  truthy, check_truthy, charge_truthy, record_checks, report, child, spawn,
}
use chassis.Budget.Governor.Charges.{
  is_wall, same, IsWhole, consumed-add, validate_amount-IsWhole, length-charge,
}

-- In dimension `d`, which is not elapsed time, no governor of the store has passed its limit.
abbrev pub IsWithin : Dimension → Store → Type 0
IsWithin d = All (λ g. over g d 0 0 ≡ false)

over-add :
    (d e : Dimension) (a : ℕ) (g : Governor)
    → IsWhole d a
    → is_wall e ≡ false
    → over g e 0 0 ≡ false
    → (same d e ≡ true → over g e a 0 ≡ false)
    → over (record g { usage = add g.usage d a }) e 0 0 ≡ false
unfolding over
over-add d e a g w counted before fits = ground (arith, consumed-add d e a 0 g.usage w)

same-eq : (d e : Dimension) → same d e ≡ true → d ≡ e
unfolding same
same-eq wall_clock_seconds e h = ground arith
same-eq model_calls e h = ground arith
same-eq tool_calls e h = ground arith
same-eq tokens e h = ground arith
same-eq estimated_cost e h = ground arith
same-eq child_runs e h = ground arith

over_now :
    (d : Dimension) (g : Governor) (a now : ℕ) → is_wall d ≡ false → over g d a now ≡ over g d a 0
unfolding over consumed is_wall
over_now wall_clock_seconds g a now h = ground arith
over_now d g a now h = refl

charge-IsWithin :
    (clock : ℕ → ℕ) (d e : Dimension) (a : ℕ) (s : Store) (t : Option ℕ)
    → IsWhole d a
    → is_wall e ≡ false
    → check_chain clock d a s t ≡ ok tt
    → IsWithin e s
    → IsWithin e (charge d a s t)
unfolding check_chain charge
charge-IsWithin clock d e a [] t w counted h v = tt
charge-IsWithin clock d e a (g ∷ rest) t w counted h v = (
  ground (
    arith,
    over-add d e a g w counted v.0,
    same-eq d e,
    over_now e g a (clock (length rest)) counted,
  ),
  charge-IsWithin clock d e a rest (onward t g rest) w counted (ground arith) v.1,
)

over-other :
    (d e : Dimension) (a b now : ℕ) (g : Governor)
    → IsWhole d a
    → same d e ≡ false
    → over (record g { usage = add g.usage d a }) e b now ≡ over g e b now
unfolding over
over-other d e a b now g w other = ground (arith, consumed-add d e a now g.usage w)

pub done : (m k : Outcome (Unit {0})) → (m >> k) ≡ ok tt → (m ≡ ok tt) × (k ≡ ok tt)
done (ok tt) k h = (refl, h)
done (err e) k h = cc

-- A charge in one dimension does not change what a check of another dimension finds.
check_chain-charge :
    (clock : ℕ → ℕ) (d e : Dimension) (a b : ℕ) (s : Store) (t u : Option ℕ)
    → IsWhole d a
    → same d e ≡ false
    → check_chain clock e b (charge d a s t) u ≡ check_chain clock e b s u
unfolding check_chain charge
check_chain-charge clock d e a b [] t u w other = refl
check_chain-charge clock d e a b (g ∷ rest) t u w other =
    let now = clock (length rest) in
    ground (
      arith,
      length-charge d a rest (onward t g rest),
      over-other d e a b now g w other,
      check_chain-charge clock d e a b rest (onward t g rest) (onward u g rest) w other,
    )

-- What an accepted check says: the amount is valid, and the chain has room.
pub check-ok :
    (clock : ℕ → ℕ) (d : Dimension) (v : Value) (i : ℕ) (s : Store)
    → check clock d v i s ≡ ok tt
    → (validate_amount d v ≡ ok tt) × (check_chain clock d (units v) s (some i) ≡ ok tt)
unfolding check
check-ok clock d v i s h = done (validate_amount d v) (check_chain clock d (units v) s (some i)) h

pub commit_ind :
    (P : Store → Type 0) (r : Outcome (Unit {0})) (after before : Store)
    → (r ≡ ok tt → P after)
    → P before
    → P (commit r after before).1
unfolding commit
commit_ind P (ok tt) after before ha hb = ha refl
commit_ind P (err e) after before ha hb = hb

checked-IsWithin :
    (clock : ℕ → ℕ) (d e : Dimension) (v : Value) (i : ℕ) (s : Store)
    → is_wall e ≡ false
    → check clock d v i s ≡ ok tt
    → IsWithin e s
    → IsWithin e (charge d (units v) s (some i))
checked-IsWithin clock d e v i s counted h within =
    let (valid, room) = check-ok clock d v i s h in
    charge-IsWithin clock d e (units v) s (some i) (validate_amount-IsWhole d v valid) counted room
      within

pub consume-IsWithin :
    (clock : ℕ → ℕ) (d e : Dimension) (v : Value) (i : ℕ) (s : Store)
    → is_wall e ≡ false
    → IsWithin e s
    → IsWithin e (consume clock d v i s).1
unfolding consume
consume-IsWithin clock d e v i s counted within =
    commit_ind (IsWithin e) (check clock d v i s) (charge d (units v) s (some i)) s
      (λ h. checked-IsWithin clock d e v i s counted h within) within

-- One charge of a report.
truthy-IsWithin :
    (clock : ℕ → ℕ) (d e : Dimension) (v : Value) (i : ℕ) (s : Store)
    → is_wall e ≡ false
    → check_truthy clock d v i s ≡ ok tt
    → IsWithin e s
    → IsWithin e (charge_truthy d v i s)
unfolding check_truthy charge_truthy
truthy-IsWithin clock d e v i s counted h within = elim (Bool-cases (truthy v)) [
  | inl some_amount ↦
      rw some_amount (checked-IsWithin clock d e v i s counted (ground arith) within)
  | inr nothing ↦ rw nothing within
]

pub check_truthy-charge_truthy :
    (clock : ℕ → ℕ) (d e : Dimension) (v w : Value) (i : ℕ) (s : Store)
    → validate_amount d v ≡ ok tt
    → same d e ≡ false
    → check_truthy clock e w i (charge_truthy d v i s) ≡ check_truthy clock e w i s
unfolding check_truthy charge_truthy check
check_truthy-charge_truthy clock d e v w i s valid other = ground (
  arith,
  check_chain-charge clock d e (units v) (units w) s (some i) (some i)
      (validate_amount-IsWhole d v valid) other,
)

-- What an accepted report says of its three charges.
abbrev pub Accepted : (ℕ → ℕ) → (m t c : Value) → ℕ → Store → Type 0
Accepted clock m t c i s =
    (validate_amount model_calls m ≡ ok tt)
    × (validate_amount tokens t ≡ ok tt)
    × (validate_amount estimated_cost c ≡ ok tt)
    × (check_truthy clock model_calls m i s ≡ ok tt)
    × (check_truthy clock tokens t i s ≡ ok tt)
    × (check_truthy clock estimated_cost c i s ≡ ok tt)

pub record_checks-ok :
    (clock : ℕ → ℕ) (m t c : Value) (i : ℕ) (s : Store)
    → record_checks clock m t c i s ≡ ok tt
    → Accepted clock m t c i s
unfolding record_checks
record_checks-ok clock m t c i s h =
    let (vm, h1) = done (validate_amount model_calls m) _ h in
    let (vt, h2) = done (validate_amount tokens t) _ h1 in
    let (vc, h3) = done (validate_amount estimated_cost c) _ h2 in
    let (cm, h4) = done (check_truthy clock model_calls m i s) _ h3 in
    let (ct, cc') = done (check_truthy clock tokens t i s) _ h4 in (vm, vt, vc, cm, ct, cc')

pub report-IsWithin :
    (clock : ℕ → ℕ) (e : Dimension) (m t c : Value) (i : ℕ) (s : Store)
    → is_wall e ≡ false
    → IsWithin e s
    → IsWithin e (report clock m t c i s).1
unfolding report same
report-IsWithin clock e m t c i s counted within =
    let s1 = charge_truthy model_calls m i s in
    let s2 = charge_truthy tokens t i s1 in
    commit_ind (IsWithin e) (record_checks clock m t c i s) (charge_truthy estimated_cost c i s2) s
      (λ h.
        let (vm, vt, vc, cm, ct, cc') = record_checks-ok clock m t c i s h in
        let t1 = check_truthy-charge_truthy clock model_calls tokens m t i s vm refl in
        let c1 = check_truthy-charge_truthy clock model_calls estimated_cost m c i s vm refl in
        let c2 = check_truthy-charge_truthy clock tokens estimated_cost t c i s1 vt refl in
        let w1 = truthy-IsWithin clock model_calls e m i s counted cm within in
        let w2 = truthy-IsWithin clock tokens e t i s1 counted (t1 ∙ ct) w1 in
        truthy-IsWithin clock estimated_cost e c i s2 counted (c2 ∙ (c1 ∙ cc')) w2)
      within

pub fresh-within :
    (e : Dimension) (limits : BudgetLimits) (parent : Option ℕ) (now : ℕ)
    → is_wall e ≡ false
    → over (record { limits = limits; parent = parent; usage = started now }) e 0 0 ≡ false
unfolding over is_wall consumed
fresh-within wall_clock_seconds limits parent now h = cc
fresh-within e limits parent now h = ground arith

spawn-IsWithin :
    (e : Dimension) (limits : BudgetLimits) (i now : ℕ) (r : Outcome (Unit {0}) × Store)
    → is_wall e ≡ false
    → IsWithin e r.1
    → IsWithin e (spawn limits i now r).1
unfolding spawn
spawn-IsWithin e limits i now (ok tt, s) counted within =
    (fresh-within e limits (some i) now counted, within)
spawn-IsWithin e limits i now (err x, s) counted within = within

pub child-IsWithin :
    (clock : ℕ → ℕ) (e : Dimension) (limits : BudgetLimits) (i : ℕ) (s : Store)
    → is_wall e ≡ false
    → IsWithin e s
    → IsWithin e (child clock limits i s).1
unfolding child
child-IsWithin clock e limits i s counted within =
    spawn-IsWithin e limits i (clock (length s)) (consume clock child_runs (int 1) i s) counted
      (consume-IsWithin clock child_runs e (int 1) i s counted within)
