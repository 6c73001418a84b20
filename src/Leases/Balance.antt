-- ===== src/Leases/Balance.antt =====
-- The lease count of GenerationAccounting agrees with the outstanding leases (core/generation.py).
use chassis.Prelude.{
  ℕ, ◌-◌, ◌≤◌, ◌<◌, ◌≡◌, refl, true, false, arith, nat_beq, nat_eq, string_eq, if◌then◌else◌,
  length,
}
use chassis.Prelude.Dict.{
  has, IsDistinct, has-put, has-pop, IsDistinct-put, IsDistinct-pop, length-put_new, length-pop,
  pop-put_new,
}
use chassis.Leases.{
  Accounting, fresh, released, refused, unknown_lease, acquire, release, is_idle_signalled,
}

pub record IsBalanced (a : Accounting) : Type 0 where
  pub counted : length a.starts ≡ a.leases
  pub distinct : IsDistinct a.starts
  pub below : (i : ℕ) → a.next_lease ≤ i → has i a.starts ≡ false
  pub signalled : a.zero ≡ true → a.leases ≡ 0

pub fresh-IsBalanced : IsBalanced fresh
unfolding has
fresh-IsBalanced = record {
  counted = refl;
  distinct = tt;
  below = λ i h. refl;
  signalled = λ e. refl;
}

pub acquire-IsBalanced : (now : ℕ) (a : Accounting) → IsBalanced a → IsBalanced (acquire now a).1
unfolding acquire
acquire-IsBalanced now a v =
    let new = v.below a.next_lease (omega arith) in
    record {
      counted = omega (arith, length-put_new a.next_lease now a.starts new, v.counted);
      distinct = IsDistinct-put a.next_lease now a.starts v.distinct;
      below = λ i h. ground (arith, has-put a.next_lease i now a.starts, v.below i);
      signalled = λ e. ground (arith, v.signalled);
    }

pub release-IsBalanced : (i : ℕ) (a : Accounting) → IsBalanced a → IsBalanced (release i a).1
unfolding release
release-IsBalanced i a v = record {
  counted = ground (arith, length-pop i a.starts v.distinct, v.counted);
  distinct = ground (arith, IsDistinct-pop i a.starts v.distinct, v.distinct);
  below = λ j h. ground (arith, has-pop i j a.starts, v.below j);
  signalled = ground (arith, v.signalled);
}

-- A release succeeds exactly for an outstanding lease; it reports idleness exactly when that lease
-- was the only one, and a refused release changes nothing.
pub release_outcome :
    (i : ℕ) (a : Accounting)
    → ((release i a).0
        ≡ (if has i a.starts then released (nat_beq (a.leases - 1) 0) else refused unknown_lease))
      × (has i a.starts ≡ false → (release i a).1 ≡ a)
unfolding release
release_outcome i a = ground arith

-- A lease that was released cannot be released again: the second call is refused and changes nothing.
pub release_twice :
    (i : ℕ) (a : Accounting) → release i (release i a).1 ≡ (refused unknown_lease, (release i a).1)
unfolding release
release_twice i a = ground (arith, has-pop i i a.starts)

-- Releasing the lease that was just taken restores the outstanding leases, their start times and
-- their number, reports idleness exactly when there was no other lease, and never reuses its id.
pub release-acquire :
    (now : ℕ) (a : Accounting)
    → IsBalanced a
    → let (i, taken) = acquire now a in
      ((release i taken).0 ≡ released (nat_beq a.leases 0))
      × ((release i taken).1.starts ≡ a.starts)
      × ((release i taken).1.leases ≡ a.leases)
      × (i < (release i taken).1.next_lease)
unfolding acquire release
release-acquire now a v =
    let new = v.below a.next_lease (omega arith) in
    ground (
      arith,
      pop-put_new a.next_lease now a.starts new,
      has-put a.next_lease a.next_lease now a.starts,
    )

-- A waiter goes on exactly when no lease is outstanding: a signal of an earlier idle cycle is never
-- taken for the current one.
pub is_idle_signalled_iff :
    (a : Accounting) → IsBalanced a → is_idle_signalled a ≡ nat_beq (length a.starts) 0
unfolding is_idle_signalled
is_idle_signalled_iff a v = ground (arith, v.counted, v.signalled)
