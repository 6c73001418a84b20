-- ===== src/Generations/Invariant.antt =====
-- What every operation of GenerationManager keeps (core/generations.py): the state of a generation
-- and the manager's own lists agree, and only the current and the draining generations hold leases.
use chassis.Prelude.{
  ℕ, ◌-◌, ◌≤◌, ◌<◌, String, ◌≡◌, refl, ◌⊎◌, inl, inr, Bool, true, false, ◌&&◌, not, Option, none,
  some, List, [], ◌∷◌, ◌++◌, arith, ltb, ◌==◌, nat_eq, string_eq, if◌then◌else◌, Bool-cases, if_ind,
  length, length-drop, any-append, elem,
}
use chassis.Leases.{
  GenerationState, building, active, draining, retired, Accounting, acquire, release,
}
use chassis.Leases.Balance.{IsBalanced, fresh-IsBalanced, acquire-IsBalanced, release-IsBalanced}
use chassis.Generations.{
  Outcome, Manager, init, add_key, pop_key, state_of, lease_count, with_accounting, set_state,
  is_state, build, retire_current, publish, remember, forget_current, retire, discard,
  drain_current, begin_shutdown, take_lease, acquire_lease, release_lease,
}

state-cases : (s : GenerationState) → (s ≡ building) ⊎ (s ≡ active) ⊎ (s ≡ draining) ⊎ (s ≡ retired)
state-cases building = inl refl
state-cases active = inr (inl refl)
state-cases draining = inr (inr (inl refl))
state-cases retired = inr (inr (inr refl))

abbrev pub is_current : Option ℕ → ℕ → Bool
is_current none g = false
is_current (some c) g = c == g

-- What holds of one generation and of the manager's record of it. A generation that is discarded
-- while it drains is RETIRED, yet stays among the draining ones.
pub record Agrees (m : Manager) (g : ℕ) : Type 0 where
  pub current : is_current m.current g ≡ is_state (state_of m g) active
  pub draining :
      is_state (state_of m g) draining
      ≡ (elem g m.draining && not (is_state (state_of m g) retired))
  pub unleased : state_of m g ≡ building → lease_count m g ≡ 0
  pub idle :
      m.shutting_down ≡ false
      → state_of m g ≡ retired
      → elem g m.draining ≡ false
      → lease_count m g ≡ 0
  pub balanced : IsBalanced (m.pool g).accounting
  pub unborn : m.counter ≤ g → state_of m g ≡ building

pub record Inv (m : Manager) : Type 0 where
  pub agrees : (g : ℕ) → Agrees m g
  pub bounded : length m.retired ≤ m.history_limit

pub elem-add_key :
    (g h : ℕ) (ds : List ℕ) → elem h (add_key g ds) ≡ (if g == h then true else elem h ds)
unfolding add_key
elem-add_key g h ds = ground (arith, any-append (λ d. d == h) ds (g ∷ []))

pub elem-pop_key :
    (g h : ℕ) (ds : List ℕ) → elem h (pop_key g ds) ≡ (if g == h then false else elem h ds)
unfolding pop_key
elem-pop_key g h [] = ground arith
elem-pop_key g h (d ∷ ds) = ground (arith, elem-pop_key g h ds)

pub init-Inv : (limit : ℕ) → Inv (init limit)
unfolding state_of lease_count is_state
init-Inv limit = record {
  agrees = λ g. record {
    current = refl;
    draining = refl;
    unleased = λ _. refl;
    idle = λ _ _ _. refl;
    balanced = fresh-IsBalanced;
    unborn = λ _. refl;
  };
  bounded = omega arith;
}

IsBalanced-restate :
    (s : GenerationState) {a : Accounting} → IsBalanced a → IsBalanced (record a { state = s })
IsBalanced-restate s v = record {
  counted = v.counted;
  distinct = v.distinct;
  below = v.below;
  signalled = v.signalled;
}

IsBalanced-with_accounting :
    (g h : ℕ) {a : Accounting} (m : Manager)
    → IsBalanced a
    → IsBalanced (m.pool h).accounting
    → IsBalanced ((with_accounting g a m).pool h).accounting
unfolding with_accounting
IsBalanced-with_accounting g h m new old = elim (Bool-cases (h == g)) [
  | inl e ↦ rw e new
  | inr e ↦ rw e old
]

build-Agrees :
    (instances : List String) (m : Manager) (g : ℕ)
    → Agrees m g
    → Agrees m m.counter
    → Agrees (build instances m).1 g
unfolding build state_of lease_count is_state
build-Agrees instances m g v c = record {
  current = ground (arith, v.current, c.current, c.unborn);
  draining = ground (arith, v.draining, c.draining, c.unborn);
  unleased = ground (arith, v.unleased);
  idle = ground (arith, v.idle);
  balanced = elim (Bool-cases (g == m.counter)) [
    | inl e ↦ rw e fresh-IsBalanced
    | inr e ↦ rw e v.balanced
  ];
  unborn = ground (arith, v.unborn);
}

abbrev published : Option ℕ → ℕ → Manager → Manager
published c g m = record (set_state g active (retire_current c g m)) { current = some g }

set_state-IsBalanced :
    (s : GenerationState) (k : ℕ) (n : Manager)
    → ((j : ℕ) → IsBalanced (n.pool j).accounting)
    → (j : ℕ) → IsBalanced ((set_state k s n).pool j).accounting
unfolding set_state
set_state-IsBalanced s k n b j = IsBalanced-with_accounting k j n (IsBalanced-restate s (b k)) (b j)

retire_current-IsBalanced :
    (c : Option ℕ) (g : ℕ) (m : Manager)
    → ((j : ℕ) → IsBalanced (m.pool j).accounting)
    → (j : ℕ) → IsBalanced ((retire_current c g m).pool j).accounting
unfolding retire_current
retire_current-IsBalanced none g m b j = b j
retire_current-IsBalanced (some p) g m b j = elim (Bool-cases (p == g)) [
  | inl e ↦ rw e (b j)
  | inr e ↦ rw e (set_state-IsBalanced draining p m b j)
]

module _ (g : ℕ) (m : Manager) (h : ℕ) (v : Inv m) (born : g < m.counter)
    (candidate : state_of m g ≡ building) where
  published-Agrees : (c : Option ℕ) → m.current ≡ c → Agrees (published c g m) h
  unfolding state_of lease_count is_state set_state retire_current
  published-Agrees none e = record {
    current = ground (arith, (v.agrees h).current, (v.agrees g).current);
    draining = ground (arith, (v.agrees h).draining, (v.agrees g).draining);
    unleased = ground (arith, (v.agrees h).unleased);
    idle = ground (arith, (v.agrees h).idle, (v.agrees g).unleased);
    balanced = set_state-IsBalanced active g m (λ j. (v.agrees j).balanced) h;
    unborn = ground (arith, (v.agrees h).unborn);
  }
  published-Agrees (some p) e = record {
    current = ground (arith, (v.agrees h).current, (v.agrees g).current, (v.agrees p).current);
    draining = ground (
      arith,
      (v.agrees h).draining,
      (v.agrees g).draining,
      (v.agrees p).current,
      elem-add_key p h m.draining,
    );
    unleased = ground (arith, (v.agrees h).unleased);
    idle = ground (
      arith,
      (v.agrees h).idle,
      (v.agrees g).unleased,
      (v.agrees p).current,
      elem-add_key p h m.draining,
    );
    balanced =
        set_state-IsBalanced active g (retire_current (some p) g m)
          (retire_current-IsBalanced (some p) g m (λ j. (v.agrees j).balanced)) h;
    unborn = ground (arith, (v.agrees h).unborn, (v.agrees p).unborn, (v.agrees p).current);
  }

pub build-Inv : (instances : List String) (m : Manager) → Inv m → Inv (build instances m).1
unfolding build
build-Inv instances m v = record {
  agrees = λ g. build-Agrees instances m g (v.agrees g) (v.agrees m.counter);
  bounded = v.bounded;
}

pub publish-Inv : (g : ℕ) (m : Manager) → g < m.counter → Inv m → Inv (publish g m).1
unfolding publish
publish-Inv g m born v = elim (Bool-cases (is_state (state_of m g) building)) [
  | inl e ↦ rw e (record {
    agrees = λ h. published-Agrees g m h v born (ground arith) m.current refl;
    bounded = retired_bounded m.current;
  })
  | inr e ↦ rw e v
]
  where
    retired_bounded :
        (c : Option ℕ) → length (published c g m).retired ≤ (published c g m).history_limit
    retired_bounded none = v.bounded
    retired_bounded (some p) = ground (arith, v.bounded)

forget_current_lem : (g : ℕ) (c : Option ℕ) → is_current c g ≡ false → forget_current g c ≡ c
unfolding forget_current
forget_current_lem g none e = refl
forget_current_lem g (some p) e = ground arith

module _ (g : ℕ) (m : Manager) (v : Inv m) where
  retired-Agrees :
      (h : ℕ)
      → (ltb 0 (lease_count m g) && not m.shutting_down) ≡ false
      → is_state (state_of m g) active ≡ false
      → g < m.counter
      → Agrees (remember g (record (set_state g retired m) { draining = pop_key g m.draining })) h
  unfolding state_of lease_count is_state set_state remember
  retired-Agrees h idle inactive born = record {
    current = ground (arith, (v.agrees h).current, (v.agrees g).current);
    draining = ground (arith, (v.agrees h).draining, elem-pop_key g h m.draining);
    unleased = ground (arith, (v.agrees h).unleased);
    idle = ground (arith, (v.agrees h).idle, elem-pop_key g h m.draining);
    balanced = set_state-IsBalanced retired g m (λ j. (v.agrees j).balanced) h;
    unborn = ground (arith, (v.agrees h).unborn);
  }

  current_kept : is_state (state_of m g) active ≡ false → forget_current g m.current ≡ m.current
  current_kept inactive = forget_current_lem g m.current (ground (arith, (v.agrees g).current))

  discarded-Agrees :
      (h : ℕ)
      → g < m.counter
      → is_state (state_of m g) active ≡ false
      → Agrees (set_state g retired m) h
  unfolding state_of lease_count is_state set_state
  discarded-Agrees h born inactive = record {
    current = ground (arith, (v.agrees h).current, (v.agrees g).current);
    draining = ground (arith, (v.agrees h).draining, (v.agrees g).draining);
    unleased = ground (arith, (v.agrees h).unleased);
    idle = ground (
      arith,
      (v.agrees h).idle,
      (v.agrees g).unleased,
      (v.agrees g).draining,
      state-cases (state_of m g),
    );
    balanced = set_state-IsBalanced retired g m (λ j. (v.agrees j).balanced) h;
    unborn = ground (arith, (v.agrees h).unborn);
  }

  pub retire-Inv : g < m.counter → Inv (retire g m).1
  unfolding retire
  retire-Inv born =
      if_ind (λ (r : Outcome Bool × Manager). Inv r.1) (is_state (state_of m g) retired) (λ _. v)
        λ _.
          if_ind (λ (r : Outcome Bool × Manager). Inv r.1) (is_state (state_of m g) active) (λ _. v)
            λ inactive.
              if_ind (λ (r : Outcome Bool × Manager). Inv r.1)
                (ltb 0 (lease_count m g) && not m.shutting_down) (λ _. v)
                λ idle. rw (current_kept inactive) (record {
                  agrees = λ h. retired-Agrees h idle inactive born;
                  bounded = omega (
                    arith,
                    length-drop (length (m.retired ++ g ∷ []) - m.history_limit)
                        (m.retired ++ g ∷ []),
                  );
                })

  pub discard-Inv : g < m.counter → Inv (discard g m).1
  unfolding discard
  discard-Inv born =
      if_ind (λ (r : Outcome Bool × Manager). Inv r.1) (is_state (state_of m g) active) (λ _. v)
        λ inactive. record { agrees = λ h. discarded-Agrees h born inactive; bounded = v.bounded }

drained-Agrees :
    (c : Option ℕ) (m : Manager) (h : ℕ)
    → m.current ≡ c
    → Inv m
    → Agrees (drain_current c (record m { shutting_down = true })) h
unfolding state_of lease_count is_state set_state drain_current
drained-Agrees none m h e v = record {
  current = ground (arith, (v.agrees h).current);
  draining = ground (arith, (v.agrees h).draining);
  unleased = ground (arith, (v.agrees h).unleased);
  idle = ground (arith, (v.agrees h).idle);
  balanced = (v.agrees h).balanced;
  unborn = ground (arith, (v.agrees h).unborn);
}
drained-Agrees (some p) m h e v = record {
  current = ground (arith, (v.agrees h).current, (v.agrees p).current);
  draining =
      ground (arith, (v.agrees h).draining, (v.agrees p).current, elem-add_key p h m.draining);
  unleased = ground (arith, (v.agrees h).unleased);
  idle = ground (arith, (v.agrees h).idle);
  balanced = set_state-IsBalanced draining p m (λ j. (v.agrees j).balanced) h;
  unborn = ground (arith, (v.agrees h).unborn, (v.agrees p).unborn, (v.agrees p).current);
}

pub begin_shutdown-Inv : (m : Manager) → Inv m → Inv (begin_shutdown m).1
unfolding begin_shutdown
begin_shutdown-Inv m v = record {
  agrees = λ h. drained-Agrees m.current m h refl v;
  bounded = ground (arith, v.bounded);
}

-- A change of accounts that keeps the state and the balance, and takes no lease of an idle one.
recount-Agrees :
    (g : ℕ) (a : Accounting) (m : Manager) (h : ℕ)
    → Inv m
    → a.state ≡ state_of m g
    → IsBalanced a
    → (state_of m g ≡ active) ⊎ (a.leases ≤ lease_count m g)
    → Agrees (with_accounting g a m) h
unfolding state_of lease_count is_state with_accounting
recount-Agrees g a m h v same balanced fewer = record {
  current = ground (arith, (v.agrees h).current);
  draining = ground (arith, (v.agrees h).draining);
  unleased = ground (arith, (v.agrees h).unleased);
  idle = ground (arith, (v.agrees h).idle);
  balanced = IsBalanced-with_accounting g h m balanced (v.agrees h).balanced;
  unborn = ground (arith, (v.agrees h).unborn);
}

active_of : (s : GenerationState) → not (is_state s active) ≡ false → s ≡ active
unfolding is_state
active_of s h = ground arith

take_lease-Inv : (c : Option ℕ) (now : ℕ) (m : Manager) → Inv m → Inv (take_lease c now m).1
unfolding take_lease
take_lease-Inv none now m v = v
take_lease-Inv (some g) now m v =
    if_ind (λ (r : Outcome (ℕ × ℕ) × Manager). Inv r.1) (not (is_state (state_of m g) active))
      (λ _. v)
      λ e. record {
        agrees = λ h.
            recount-Agrees g (acquire now (m.pool g).accounting).1 m h v (unfold acquire in refl)
              (acquire-IsBalanced now (m.pool g).accounting (v.agrees g).balanced)
              (inl (active_of (state_of m g) e));
        bounded = v.bounded;
      }

pub acquire_lease-Inv : (now : ℕ) (m : Manager) → Inv m → Inv (acquire_lease now m).1
unfolding acquire_lease
acquire_lease-Inv now m v = take_lease-Inv m.current now m v

release-le : (i : ℕ) (a : Accounting) → (release i a).1.leases ≤ a.leases
unfolding release
release-le i a = ground arith

release-state : (i : ℕ) (a : Accounting) → (release i a).1.state ≡ a.state
unfolding release
release-state i a = ground arith

pub release_lease-Inv : (g i : ℕ) (m : Manager) → Inv m → Inv (release_lease g i m).1
unfolding release_lease lease_count
release_lease-Inv g i m v = record {
  agrees = λ h.
      recount-Agrees g (release i (m.pool g).accounting).1 m h v
        (unfold state_of in release-state i (m.pool g).accounting)
        (release-IsBalanced i (m.pool g).accounting (v.agrees g).balanced)
        (inr (release-le i (m.pool g).accounting));
  bounded = v.bounded;
}
