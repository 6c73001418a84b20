-- ===== src/Budget/Governor/Covers.antt =====
-- A parent has consumed at least what each of its children has (budget/governor.py).
use chassis.Prelude.{
  ℕ, ◌≤◌, ◌≡◌, refl, inl, inr, true, Option, none, some, List, [], ◌∷◌, arith, nat_eq, string_eq,
  Bool-cases, if_ind, length,
}
use chassis.Budget.{
  Dimension, wall_clock_seconds, model_calls, tokens, estimated_cost, child_runs, Value, int,
  Outcome, ok, err, units, BudgetLimits, Usage, started, consumed, add,
}
use chassis.Budget.Governor.{
  Governor, Store, hits, onward, check, charge, validate_amount, consume, truthy, charge_truthy,
  record_checks, report, child, spawn,
}
use chassis.Budget.Governor.Charges.{
  same, IsWhole, consumed-add, validate_amount-IsWhole, governor_at, on_chain, governor_at-charge,
  charged,
}
use chassis.Budget.Governor.Calls.{Call, starts, consumes, reports, spawns, step, run}
use chassis.Budget.Governor.Within.{commit_ind, check-ok, record_checks-ok}

abbrev CoveredBy : Dimension → Governor → Option Governor → Type 0
CoveredBy e g none = Unit
CoveredBy e g (some p) = consumed g.usage e 0 ≤ consumed p.usage e 0

abbrev parent_of : Option ℕ → Store → Option Governor
parent_of none s = none
parent_of (some i) s = governor_at i s

-- Every governor of the store is covered by its parent.
abbrev pub IsCovered : Dimension → Store → Type 0
IsCovered e [] = Unit
IsCovered e (g ∷ rest) = CoveredBy e g (parent_of g.parent rest) × IsCovered e rest

on_chain_self :
    (i : ℕ) (s : Store) (p : Governor) → governor_at i s ≡ some p → on_chain s (some i) i ≡ true
unfolding on_chain governor_at
on_chain_self i [] p h = cc
on_chain_self i (g ∷ rest) p h = ground (arith, on_chain_self i rest p)

consumed-add-le :
    (d e : Dimension) (a : ℕ) (u : Usage) → IsWhole d a → consumed u e 0 ≤ consumed (add u d a) e 0
consumed-add-le d e a u w = ground (arith, consumed-add d e a 0 u w)

-- A governor that is not called, below a chain that may reach its parent.
covered_still :
    (d e : Dimension) (a : ℕ) (g : Governor) (rest : Store) (t q : Option ℕ)
    → IsWhole d a
    → CoveredBy e g (parent_of q rest)
    → CoveredBy e g (parent_of q (charge d a rest t))
covered_still d e a g rest t none w h = tt
covered_still d e a g rest t (some i) w h = rw governor_at-charge (split (governor_at i rest) h)
  where
    split :
        (o : Option Governor) → CoveredBy e g o → CoveredBy e g (charged d a (on_chain rest t i) o)
    split none h = tt
    split (some p) h = ground (arith, consumed-add-le d e a p.usage w)

-- A governor that is called, with its parent next on the chain.
covered_both :
    (d e : Dimension) (a : ℕ) (g : Governor) (rest : Store) (q : Option ℕ)
    → IsWhole d a
    → CoveredBy e g (parent_of q rest)
    → CoveredBy e (record g { usage = add g.usage d a }) (parent_of q (charge d a rest q))
covered_both d e a g rest none w h = tt
covered_both d e a g rest (some i) w h = rw governor_at-charge (split (governor_at i rest) refl h)
  where
    split :
        (o : Option Governor)
        → governor_at i rest ≡ o
        → CoveredBy e g o
        → CoveredBy e
            (record g { usage = add g.usage d a })
            (charged d a (on_chain rest (some i) i) o)
    split none same h = tt
    split (some p) same h = ground (
      arith,
      on_chain_self i rest p same,
      consumed-add d e a 0 g.usage w,
      consumed-add d e a 0 p.usage w,
    )

charge-IsCovered :
    (d e : Dimension) (a : ℕ) (s : Store) (t : Option ℕ)
    → IsWhole d a
    → IsCovered e s
    → IsCovered e (charge d a s t)
unfolding charge onward
charge-IsCovered d e a [] t w h = tt
charge-IsCovered d e a (g ∷ rest) t w h = elim (Bool-cases (hits t rest)) [
  | inl hit ↦
      rw hit (covered_both d e a g rest g.parent w h.0, charge-IsCovered d e a rest g.parent w h.1)
  | inr miss ↦
      rw miss (covered_still d e a g rest t g.parent w h.0, charge-IsCovered d e a rest t w h.1)
]

truthy-IsCovered :
    (d e : Dimension) (v : Value) (i : ℕ) (s : Store)
    → validate_amount d v ≡ ok tt
    → IsCovered e s
    → IsCovered e (charge_truthy d v i s)
unfolding charge_truthy
truthy-IsCovered d e v i s valid h =
    if_ind (IsCovered e) (truthy v)
      (λ _. charge-IsCovered d e (units v) s (some i) (validate_amount-IsWhole d v valid) h)
      (λ _. h)

consume-IsCovered :
    (clock : ℕ → ℕ) (d e : Dimension) (v : Value) (i : ℕ) (s : Store)
    → IsCovered e s
    → IsCovered e (consume clock d v i s).1
unfolding consume
consume-IsCovered clock d e v i s h =
    commit_ind (IsCovered e) (check clock d v i s) (charge d (units v) s (some i)) s
      (λ accepted.
        let (valid, _) = check-ok clock d v i s accepted in
        charge-IsCovered d e (units v) s (some i) (validate_amount-IsWhole d v valid) h)
      h

report-IsCovered :
    (clock : ℕ → ℕ) (e : Dimension) (m t c : Value) (i : ℕ) (s : Store)
    → IsCovered e s
    → IsCovered e (report clock m t c i s).1
unfolding report
report-IsCovered clock e m t c i s h =
    let s1 = charge_truthy model_calls m i s in
    let s2 = charge_truthy tokens t i s1 in
    commit_ind (IsCovered e) (record_checks clock m t c i s) (charge_truthy estimated_cost c i s2) s
      (λ accepted.
        let (vm, vt, vc, _, _, _) = record_checks-ok clock m t c i s accepted in
        truthy-IsCovered estimated_cost e c i s2 vc
          (truthy-IsCovered tokens e t i s1 vt (truthy-IsCovered model_calls e m i s vm h)))
      h

fresh_covered :
    (e : Dimension) (g : Governor) (now : ℕ) (o : Option Governor)
    → g.usage ≡ started now
    → CoveredBy e g o
unfolding consumed
fresh_covered e g now none h = tt
fresh_covered wall_clock_seconds g now (some p) h = ground arith
fresh_covered e g now (some p) h = ground arith

spawn-IsCovered :
    (e : Dimension) (limits : BudgetLimits) (i now : ℕ) (r : Outcome (Unit {0}) × Store)
    → IsCovered e r.1
    → IsCovered e (spawn limits i now r).1
unfolding spawn
spawn-IsCovered e limits i now (ok tt, s) h = (
  let g : Governor = record { limits = limits; parent = some i; usage = started now } in
      fresh_covered e g now (governor_at i s) refl,
  h,
)
spawn-IsCovered e limits i now (err x, s) h = h

step-IsCovered : (e : Dimension) (s : Store) (c : Call) → IsCovered e s → IsCovered e (step s c)
unfolding step child
step-IsCovered e s (starts limits now) h = (tt, h)
step-IsCovered e s (consumes clock d v i) h = consume-IsCovered clock d e v i s h
step-IsCovered e s (reports clock m t c i) h = report-IsCovered clock e m t c i s h
step-IsCovered e s (spawns clock limits i) h =
    spawn-IsCovered e limits i (clock (length s)) (consume clock child_runs (int 1) i s)
      (consume-IsCovered clock child_runs e (int 1) i s h)

run_covers : (e : Dimension) (s : Store) (cs : List Call) → IsCovered e s → IsCovered e (run s cs)
unfolding run
run_covers e s [] h = h
run_covers e s (c ∷ cs) h = run_covers e (step s c) cs (step-IsCovered e s c h)

-- In every history, each governor has recorded at most what its parent has, in every dimension that
-- is recorded: the consumption of a child counts against its parent.
pub run-IsCovered : (e : Dimension) (cs : List Call) → IsCovered e (run [] cs)
run-IsCovered e cs = run_covers e [] cs tt
