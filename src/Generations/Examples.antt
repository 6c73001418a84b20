-- ===== src/Generations/Examples.antt =====
-- A manager with a draining and a current generation, tests on it, and the theorems at it.
use chassis.Prelude.{
  ◌||◌, ◌&&◌, not, true, ◌≤◌, ◌<◌, ◌≡◌, refl, false, some, [], ◌∷◌, arith, ltb, leb, nat_beq,
  nat_eq, string_eq, length, All, elem,
}
use chassis.Prelude.Dict.{has, put, pop}
use chassis.Leases.{
  active, draining, retired, Accounting, fresh, released, refused, unknown_lease, acquire, release,
  oldest_lease_started_at, oldest_lease_age, lease_ages,
}
use chassis.Leases.Balance.{
  IsBalanced, fresh-IsBalanced, acquire-IsBalanced, release_twice, release-acquire,
}
use chassis.Leases.Ages.{lease_ages_ascending}
use chassis.Prelude.Sorting.{IsSorted}
use chassis.Generations.{
  Manager, ok, init, state_of, lease_count, live, is_state, reachable_instance_ids, generation_refs,
  build, publish, retire, discard, begin_shutdown, acquire_lease, release_lease,
}
use chassis.Generations.Safety.{
  acquire_lease_outcome, Reach, start, next, builds, publishes, acquires, discards, leased_IsLive,
  states_agree, idle_retires, publish_outcome,
}
use chassis.Generations.Invariant.{is_current}
use chassis.Generations.References.{refs-reachable}
use chassis.Generations.Pinned.{done, more, IsHeld, run_IsPinned}

runs : Unit {0}
unfolding build publish discard acquire_lease release_lease retire begin_shutdown state_of
    lease_count live acquire release oldest_lease_started_at oldest_lease_age lease_ages has put pop
runs = tt

-- Two leases, taken at times 10 and 25.
abbrev leased_once : Accounting
leased_once = (acquire 10 fresh).1

abbrev leased_twice : Accounting
leased_twice = (acquire 25 leased_once).1

leased_twice-IsBalanced : IsBalanced leased_twice
leased_twice-IsBalanced =
    acquire-IsBalanced 25 leased_once (acquire-IsBalanced 10 fresh fresh-IsBalanced)

release_twice_example :
    release 0 (release 0 leased_twice).1 ≡ (refused unknown_lease, (release 0 leased_twice).1)
release_twice_example = release_twice 0 leased_twice

release-acquire_example :
    let (i, taken) = acquire 40 leased_twice in
    ((release i taken).0 ≡ released (nat_beq leased_twice.leases 0))
    × ((release i taken).1.starts ≡ leased_twice.starts)
    × ((release i taken).1.leases ≡ leased_twice.leases)
    × (i < (release i taken).1.next_lease)
release-acquire_example = release-acquire 40 leased_twice leased_twice-IsBalanced

lease_ages_ascending_example :
    IsSorted leb (lease_ages 30 leased_twice)
    × (length (lease_ages 30 leased_twice) ≡ leased_twice.leases)
    × All (λ g. g ≤ 20) (lease_ages 30 leased_twice)
unfolding runs
lease_ages_ascending_example = lease_ages_ascending 30 20 leased_twice leased_twice-IsBalanced refl

-- The age of the youngest lease stands first.
lease_ages_youngest_first : lease_ages 30 leased_twice ≡ 5 ∷ 20 ∷ []
unfolding runs
lease_ages_youngest_first = refl

-- Generation 1 is published and leased; then generation 2 replaces it.
abbrev first : Manager
first = (publish 1 (build ("db" ∷ []) (init 2)).1).1

abbrev running : Manager
running = (acquire_lease 10 first).1

abbrev rebuilt : Manager
rebuilt = (build ("db" ∷ "web" ∷ []) running).1

abbrev replaced : Manager
replaced = (publish 2 rebuilt).1

first-Reach : Reach 2 first
unfolding runs
first-Reach = next (next start (builds ("db" ∷ []))) (publishes 1 (omega arith))

running-Reach : Reach 2 running
running-Reach = next first-Reach (acquires 10)

rebuilt-Reach : Reach 2 rebuilt
rebuilt-Reach = next running-Reach (builds ("db" ∷ "web" ∷ []))

replaced-Reach : Reach 2 replaced
unfolding runs
replaced-Reach = next rebuilt-Reach (publishes 2 (omega arith))

leased_IsLive_example : elem 1 (live replaced) ≡ true
unfolding runs
leased_IsLive_example = leased_IsLive 1 replaced-Reach refl (omega arith)

-- Generation 1 is discarded while it drains.
abbrev dropped : Manager
dropped = (discard 1 replaced).1

dropped-Reach : Reach 2 dropped
unfolding runs
dropped-Reach = next replaced-Reach (discards 1 (omega arith))

-- It is RETIRED then, yet it is waited for and stays among the live ones, and retiring it does nothing.
dropped_remains :
    (state_of dropped 1 ≡ retired)
    × (elem 1 dropped.draining ≡ true)
    × (retire 1 dropped ≡ (ok false, dropped))
unfolding runs
dropped_remains = (refl, refl, refl)

states_agree_example :
    (is_current dropped.current 1 ≡ is_state (state_of dropped 1) active)
    × (is_state (state_of dropped 1) draining
        ≡ (elem 1 dropped.draining && not (is_state (state_of dropped 1) retired)))
states_agree_example = states_agree 1 dropped-Reach

idle_retires_example : (retire 1 (release_lease 1 0 replaced).1).0 ≡ ok true
unfolding runs
idle_retires_example = idle_retires 1 0 replaced-Reach refl

acquire_lease_outcome_example :
    ((acquire_lease 10 first).0 ≡ ok (1, 0))
    × (has 0 (first.pool 1).accounting.starts ≡ false)
    × (has 0 (running.pool 1).accounting.starts ≡ true)
    × (lease_count running 1 ≡ 1)
    × (state_of running 1 ≡ active)
unfolding runs
acquire_lease_outcome_example = acquire_lease_outcome 1 10 1 first-Reach refl

publish_outcome_example :
    ((publish 2 rebuilt).0 ≡ ok (some 1))
    × (replaced.current ≡ some 2)
    × (state_of replaced 1 ≡ draining)
    × (lease_count replaced 1 ≡ 1)
unfolding runs
publish_outcome_example = publish_outcome 2 1 rebuilt-Reach refl

refs-reachable_example :
    ltb 0 (generation_refs replaced "web") ≡ elem "web" (reachable_instance_ids replaced)
refs-reachable_example = refs-reachable replaced "web"

run_IsPinned_example :
    IsHeld 1 0 replaced
    × ((replaced.pool 1).instances ≡ (running.pool 1).instances)
    × ((replaced.shutting_down || elem 1 (live replaced)) ≡ true)
unfolding runs
run_IsPinned_example =
    run_IsPinned 1 0 running-Reach refl
      (more (more done (builds ("db" ∷ "web" ∷ [])) tt) (publishes 2 (omega arith)) tt)
