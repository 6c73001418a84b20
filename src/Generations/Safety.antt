-- ===== src/Generations/Safety.antt =====
-- Histories of GenerationManager calls, in any order (core/generations.py).
use chassis.Prelude.{
  ℕ, ◌+◌, ◌≤◌, ◌<◌, String, ◌≡◌, refl, ◌≢◌, true, false, ◌||◌, ◌&&◌, not, Option, none, some, List,
  ◌∷◌, arith, ◌==◌, nat_eq, string_eq, if◌then◌else◌, length, elem,
}
use chassis.Prelude.Dict.{has, has-put}
use chassis.Leases.{building, active, draining, released}
use chassis.Generations.{
  retired, Manager, init, ok, err, generation_conflict, harness_state, state_of, lease_count,
  set_state, is_state, live, build, retire_current, publish, retire, discard, begin_shutdown,
  take_lease, acquire_lease, release_lease,
}
use chassis.Generations.Invariant.{
  Inv, Agrees, is_current, init-Inv, build-Inv, publish-Inv, retire-Inv, discard-Inv,
  begin_shutdown-Inv, acquire_lease-Inv, release_lease-Inv,
}

pub data Step (m : Manager) : Manager → Type 0 where
  builds : (instances : List String) → Step m (build instances m).1
  publishes : (g : ℕ) → g < m.counter → Step m (publish g m).1
  retires : (g : ℕ) → g < m.counter → Step m (retire g m).1
  discards : (g : ℕ) → g < m.counter → Step m (discard g m).1
  shuts_down : Step m (begin_shutdown m).1
  acquires : (now : ℕ) → Step m (acquire_lease now m).1
  releases : (g i : ℕ) → Step m (release_lease g i m).1

pub data Reach (limit : ℕ) : Manager → Type 0 where
  start : Reach limit (init limit)
  next : {m n : Manager} → Reach limit m → Step m n → Reach limit n

pub Step-Inv : {m n : Manager} → Step m n → Inv m → Inv n
Step-Inv {m} (builds is) v = build-Inv is m v
Step-Inv {m} (publishes g b) v = publish-Inv g m b v
Step-Inv {m} (retires g b) v = retire-Inv g m v b
Step-Inv {m} (discards g b) v = discard-Inv g m v b
Step-Inv {m} shuts_down v = begin_shutdown-Inv m v
Step-Inv {m} (acquires now) v = acquire_lease-Inv now m v
Step-Inv {m} (releases g i) v = release_lease-Inv g i m v

pub Reach-Inv : {limit : ℕ} {m : Manager} → Reach limit m → Inv m
Reach-Inv {limit} start = init-Inv limit
Reach-Inv (next r s) = Step-Inv s (Reach-Inv r)

pub elem-live :
    (m : Manager) (g : ℕ) → elem g (live m) ≡ (is_current m.current g || elem g m.draining)
unfolding live
elem-live m g = split m.current
  where
    split :
        (c : Option ℕ)
        → elem g (elim c [ none ↦ m.draining | some h ↦ h ∷ m.draining ])
          ≡ (is_current c g || elem g m.draining)
    split none = refl
    split (some h) = refl

pub leased-live :
    (m : Manager) (g : ℕ)
    → Agrees m g
    → m.shutting_down ≡ false
    → 0 < lease_count m g
    → elem g (live m) ≡ true
unfolding is_state
leased-live m g v running leased =
    rw elem-live (ground (arith, v.current, v.draining, v.unleased, v.idle))

-- In every history without a shutdown, a generation that holds a lease is current or draining: no run
-- loses the generation that it acquired.
pub leased_IsLive :
    {limit : ℕ} {m : Manager} (g : ℕ)
    → Reach limit m
    → m.shutting_down ≡ false
    → 0 < lease_count m g
    → elem g (live m) ≡ true
leased_IsLive {m = m} g r running leased = leased-live m g ((Reach-Inv r).agrees g) running leased

-- In every history, exactly the ACTIVE generation is the one that new runs acquire, and the DRAINING
-- ones are those that are waited for, except what was discarded (RETIRED) while it drained.
pub states_agree :
    {limit : ℕ} {m : Manager} (g : ℕ)
    → Reach limit m
    → (is_current m.current g ≡ is_state (state_of m g) active)
      × (is_state (state_of m g) draining
          ≡ (elem g m.draining && not (is_state (state_of m g) retired)))
states_agree g r = let v = (Reach-Inv r).agrees g in (v.current, v.draining)

-- In every history the diagnostics buffer holds at most `history_limit` generations.
pub history_bounded : {limit : ℕ} {m : Manager} → Reach limit m → length m.retired ≤ m.history_limit
history_bounded r = (Reach-Inv r).bounded

-- A release that reports the last lease of a draining generation lets that generation retire at once.
pub idle_retires :
    {limit : ℕ} {m : Manager} (g i : ℕ)
    → Reach limit m
    → (release_lease g i m).0 ≡ released true
    → (retire g (release_lease g i m).1).0 ≡ ok true
unfolding release_lease retire
idle_retires {m = m} g i r h = ground arith

module _ (g : ℕ) (m : Manager) (h : ℕ) (candidate : state_of m g ≡ building) where
  published-state :
      (c : Option ℕ)
      → (is_current c g ≡ is_state (state_of m g) active)
      → (state_of (set_state g active (retire_current c g m)) h
          ≡ (if h == g then active else if is_current c h then draining else state_of m h))
        × (lease_count (set_state g active (retire_current c g m)) h ≡ lease_count m h)
  unfolding state_of lease_count is_state set_state retire_current
  published-state none e = (ground arith, ground arith)
  published-state (some p) e = (ground arith, ground arith)

-- Publishing a candidate makes it current and ACTIVE, hands back the previous generation, which is
-- DRAINING from then on, and leaves every other state and every lease count as they were.
pub publish_outcome :
    {limit : ℕ} {m : Manager} (g h : ℕ)
    → Reach limit m
    → state_of m g ≡ building
    → ((publish g m).0 ≡ ok m.current)
      × ((publish g m).1.current ≡ some g)
      × (state_of (publish g m).1 h
          ≡ (if h == g then active else if is_current m.current h then draining else state_of m h))
      × (lease_count (publish g m).1 h ≡ lease_count m h)
unfolding publish lease_count
publish_outcome {m = m} g h r candidate =
    let (state, leases) =
      published-state g m h candidate m.current ((Reach-Inv r).agrees g).current in
    rw candidate (refl, refl, state, leases)

-- Whatever is not BUILDING is refused, and nothing changes.
pub publish_refused :
    (g : ℕ) (m : Manager) → state_of m g ≢ building → publish g m ≡ (err generation_conflict, m)
unfolding publish state_of is_state
publish_refused g m h = ground arith

-- A run acquires the current generation, under a lease id that was not outstanding there and is now;
-- no other generation's lease count changes, and no state does.
pub acquire_lease_outcome :
    {limit : ℕ} {m : Manager} (g now h : ℕ)
    → Reach limit m
    → m.current ≡ some g
    → ((acquire_lease now m).0 ≡ ok (g, (m.pool g).accounting.next_lease))
      × (has (m.pool g).accounting.next_lease (m.pool g).accounting.starts ≡ false)
      × (has (m.pool g).accounting.next_lease ((acquire_lease now m).1.pool g).accounting.starts
          ≡ true)
      × (lease_count (acquire_lease now m).1 h ≡ (if h == g then 1 else 0) + lease_count m h)
      × (state_of (acquire_lease now m).1 h ≡ state_of m h)
unfolding acquire_lease state_of lease_count
acquire_lease_outcome {m = m} g now h r e =
    let a = (m.pool g).accounting in
    let v = (Reach-Inv r).agrees g in
    let grown = has-put a.next_lease a.next_lease now a.starts in
    rw e (
      ground (arith, v.current),
      v.balanced.below a.next_lease (omega arith),
      ground (arith, v.current, grown),
      ground (arith, v.current),
      ground (arith, v.current),
    )

-- Without a current generation, as after a shutdown, a run is refused and nothing changes.
pub acquire_lease_refused :
    (now : ℕ) (m : Manager) → m.current ≡ none → acquire_lease now m ≡ (err harness_state, m)
unfolding acquire_lease
acquire_lease_refused now m e = rw (e, take_lease)
