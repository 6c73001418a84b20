-- ===== src/Generations/Pinned.antt =====
-- A run stays pinned to the generation that it acquired (core/generations.py).
use chassis.Prelude.{
  ◌||◌, Bool-cases, inl, inr, true, ℕ, ◌<◌, String, ◌≡◌, refl, ◌∙◌, ◌≢◌, ◌⊎◌, Option, none, some,
  List, [], ◌∷◌, arith, nat_eq, string_eq, length, elem,
}
use chassis.Prelude.Dict.{Dict, has, has-put, has-pop}
use chassis.Leases.{GenerationState}
use chassis.Generations.{
  Manager, lease_count, set_state, live, build, retire_current, publish, retire, discard,
  drain_current, begin_shutdown, take_lease, acquire_lease, release_lease,
}
use chassis.Generations.Invariant.{Inv, Agrees}
use chassis.Generations.Safety.{
  Reach, next, Step, Reach-Inv, leased-live, builds, publishes, retires, discards, shuts_down,
  acquires, releases,
}

-- Lease `i` of generation `g` is outstanding.
abbrev pub IsHeld : ℕ → ℕ → Manager → Type 0
IsHeld g i m = has i (m.pool g).accounting.starts ≡ true

-- The call is not the release of that lease.
abbrev pub Spares : ℕ → ℕ → {m n : Manager} → Step m n → Type 0
Spares g i (releases h j) = (h ≢ g) ⊎ (j ≢ i)
Spares g i _ = Unit

pub data Others (g i : ℕ) (m : Manager) : Manager → Type 0 where
  done : Others g i m m
  more : {n o : Manager} → Others g i m n → (s : Step n o) → Spares g i s → Others g i m o

-- What a call leaves of a generation: its members, and the lease.
abbrev Keeps : ℕ → ℕ → Manager → Manager → Type 0
Keeps g i m n = IsHeld g i n × ((n.pool g).instances ≡ (m.pool g).instances)

has-length : (i : ℕ) (d : Dict ℕ ℕ) → has i d ≡ true → 0 < length d
unfolding has
has-length i [] h = cc
has-length i ((j, t) ∷ d) h = omega arith

held-born :
    (g i : ℕ) (m : Manager) → Agrees m g → IsHeld g i m → (0 < lease_count m g) × (g < m.counter)
unfolding lease_count
held-born g i m v h =
    let some_lease = has-length i (m.pool g).accounting.starts h in
    let counted = v.balanced.counted in (omega arith, ground (arith, v.unborn, v.unleased))

build-Keeps :
    (g i : ℕ) (m : Manager) → Inv m → IsHeld g i m → (is : List String) → Keeps g i m (build is m).1
unfolding build
build-Keeps g i m v h is =
    let (_, born) = held-born g i m (v.agrees g) h in (ground arith, ground arith)

module _ (g i : ℕ) (m : Manager) (held : IsHeld g i m) where
  set_state-Keeps : (h : ℕ) (s : GenerationState) → Keeps g i m (set_state h s m)
  unfolding set_state
  set_state-Keeps h s = (ground arith, ground arith)

  retire_current-Keeps : (c : Option ℕ) (h : ℕ) → Keeps g i m (retire_current c h m)
  unfolding retire_current
  retire_current-Keeps none h = (held, refl)
  retire_current-Keeps (some p) h = (ground arith, ground arith)

  publish-Keeps : (h : ℕ) → Keeps g i m (publish h m).1
  unfolding publish
  publish-Keeps h =
      let (kept, same) = retire_current-Keeps m.current h in (ground arith, ground arith)

  retire-Keeps : (h : ℕ) → Keeps g i m (retire h m).1
  unfolding retire
  retire-Keeps h = (ground arith, ground arith)

  discard-Keeps : (h : ℕ) → Keeps g i m (discard h m).1
  unfolding discard
  discard-Keeps h = (ground arith, ground arith)

  shutdown-Keeps :
      (c : Option ℕ) → Keeps g i m (drain_current c (record m { shutting_down = true }))
  unfolding drain_current
  shutdown-Keeps none = (held, refl)
  shutdown-Keeps (some p) = (ground arith, ground arith)

  acquire-Keeps : (c : Option ℕ) (now : ℕ) → Keeps g i m (take_lease c now m).1
  unfolding take_lease
  acquire-Keeps none now = (held, refl)
  acquire-Keeps (some p) now = (
    ground (arith, has-put (m.pool p).accounting.next_lease i now (m.pool p).accounting.starts),
    ground arith,
  )

  release-Keeps : (h j : ℕ) → (h ≢ g) ⊎ (j ≢ i) → Keeps g i m (release_lease h j m).1
  unfolding release_lease
  release-Keeps h j other = (ground (arith, has-pop j i (m.pool h).accounting.starts), ground arith)

Step-Keeps :
    {m n : Manager} (g i : ℕ) → Inv m → IsHeld g i m → (s : Step m n) → Spares g i s → Keeps g i m n
Step-Keeps {m} g i v h (builds is) _ = build-Keeps g i m v h is
Step-Keeps {m} g i v h (publishes k b) _ = publish-Keeps g i m h k
Step-Keeps {m} g i v h (retires k b) _ = retire-Keeps g i m h k
Step-Keeps {m} g i v h (discards k b) _ = discard-Keeps g i m h k
Step-Keeps {m} g i v h shuts_down _ = unfold begin_shutdown in shutdown-Keeps g i m h m.current
Step-Keeps {m} g i v h (acquires now) _ =
    unfold acquire_lease in acquire-Keeps g i m h m.current now
Step-Keeps {m} g i v h (releases k j) other = release-Keeps g i m h k j other

Others-Reach : {limit g i : ℕ} {m n : Manager} → Reach limit m → Others g i m n → Reach limit n
Others-Reach r done = r
Others-Reach r (more os s _) = next (Others-Reach r os) s

Others-Keeps :
    {limit : ℕ} (g i : ℕ) {m n : Manager}
    → Reach limit m
    → IsHeld g i m
    → Others g i m n
    → Keeps g i m n
Others-Keeps g i r h done = (h, refl)
Others-Keeps g i r h (more os s spared) =
    let (held, same) = Others-Keeps g i r h os in
    let (held', same') = Step-Keeps g i (Reach-Inv (Others-Reach r os)) held s spared in
    (held', same' ∙ same)

-- While a lease is outstanding, whatever else is called and in whatever order, the lease stays
-- outstanding, its generation keeps its instances, and it stays live until a shutdown begins.
pub run_IsPinned :
    {limit : ℕ} {m n : Manager} (g i : ℕ)
    → Reach limit m
    → IsHeld g i m
    → Others g i m n
    → IsHeld g i n
      × ((n.pool g).instances ≡ (m.pool g).instances)
      × ((n.shutting_down || elem g (live n)) ≡ true)
run_IsPinned {n = n} g i r held steps =
    let (held', same) = Others-Keeps g i r held steps in
    let v = (Reach-Inv (Others-Reach r steps)).agrees g in
    (
      held',
      same,
      elim (Bool-cases n.shutting_down) [
        | inl down ↦ rw down refl
        | inr running ↦ ground (arith, leased-live n g v running (held-born g i n v held').0)
      ],
    )
