-- ===== src/Leases/Ages.antt =====
-- Lease ages of GenerationAccounting (core/generation.py).
use Prim.Native.Nat.{min}
use mathlib.Core.Path.{subst}
use chassis.Prelude.{
  ℕ, suc, ◌-◌, ◌≤◌, ◌≡◌, refl, ap, inl, inr, true, some, List, [], ◌∷◌, map, arith, leb, nat_eq,
  string_eq, Option-cases, length, All, elem,
}
use chassis.Prelude.Dict.{values}
use chassis.Prelude.Sorting.{sort, sort, IsOrder, IsSorted, sort-IsSorted, length-sort, All-sort}
use chassis.Leases.{
  Accounting, min_of, least, oldest_lease_started_at, oldest_lease_age, lease_ages,
}
use chassis.Leases.Balance.{IsBalanced}

leb-IsOrder : IsOrder leb
leb-IsOrder = record { total = λ x y h. ground arith; trans = λ x y z h k. ground arith }

min_of-le : (m : ℕ) (ts : List ℕ) → (min_of m ts ≤ m) × All (λ t. min_of m ts ≤ t) ts
unfolding min_of
min_of-le m [] = (omega arith, tt)
min_of-le m (t ∷ ts) =
    let (head, rest) = min_of-le (min m t) ts in (omega arith, (omega arith, rest))

min_of-elem : (m : ℕ) (ts : List ℕ) → elem (min_of m ts) (m ∷ ts) ≡ true
unfolding min_of
min_of-elem m [] = ground arith
min_of-elem m (t ∷ ts) = ground (arith, min_of-elem (min m t) ts)

least-IsLeast : (ts : List ℕ) (t : ℕ) → least ts ≡ some t → (elem t ts ≡ true) × All (λ s. t ≤ s) ts
unfolding least
least-IsLeast [] t h = cc
least-IsLeast (s ∷ ss) t h =
    let e : min_of s ss ≡ t = ground arith in
    let (low, lows) = min_of-le s ss in
    subst (λ m. (elem m (s ∷ ss) ≡ true) × All (λ r. m ≤ r) (s ∷ ss)) e
      (min_of-elem s ss, (low, lows))

-- The oldest start time is one of the outstanding ones, and none of them is earlier.
pub oldest-IsLeast :
    (a : Accounting) (t : ℕ)
    → oldest_lease_started_at a ≡ some t
    → (elem t (values a.starts) ≡ true) × All (λ s. t ≤ s) (values a.starts)
unfolding oldest_lease_started_at
oldest-IsLeast a t h = least-IsLeast (values a.starts) t h

length-values : (d : List (ℕ × ℕ)) → length (values d) ≡ length d
length-values [] = refl
length-values ((i, t) ∷ d) = ap suc (length-values d)

length-map : (f : ℕ → ℕ) (ts : List ℕ) → length (map f ts) ≡ length ts
length-map f [] = refl
length-map f (t ∷ ts) = ap suc (length-map f ts)

ages-le :
    (now t : ℕ) (ts : List ℕ) → All (λ s. t ≤ s) ts → All (λ g. g ≤ now - t) (map (λ s. now - s) ts)
ages-le now t [] h = tt
ages-le now t (s ∷ ss) h = (omega arith, ages-le now t ss h.1)

ages_bounded :
    (now age : ℕ) (a : Accounting)
    → oldest_lease_age now a ≡ some age
    → All (λ g. g ≤ age) (sort leb (map (λ t. now - t) (values a.starts)))
unfolding oldest_lease_age
ages_bounded now age a h = elim (Option-cases (oldest_lease_started_at a)) [
  | inl e ↦ absurd (ground arith)
  | inr (t, e) ↦
      let same : now - t ≡ age = ground arith in
      let below = ages-le now t (values a.starts) (oldest-IsLeast a t e).1 in
      subst (λ g. All (λ x. x ≤ g) (sort leb (map (λ s. now - s) (values a.starts)))) same
        (All-sort leb (λ x. x ≤ now - t) (map (λ s. now - s) (values a.starts)) below)
]

-- The ages come out in ascending order, so the youngest lease stands first; there is one for each
-- lease, and none passes the age of the oldest lease.
pub lease_ages_ascending :
    (now age : ℕ) (a : Accounting)
    → IsBalanced a
    → oldest_lease_age now a ≡ some age
    → IsSorted leb (lease_ages now a)
      × (length (lease_ages now a) ≡ a.leases)
      × All (λ g. g ≤ age) (lease_ages now a)
unfolding lease_ages
lease_ages_ascending now age a v h =
    let ages = map (λ t. now - t) (values a.starts) in
    (
      sort-IsSorted leb-IsOrder ages,
      omega (
        arith,
        length-sort leb ages,
        length-map (λ t. now - t) (values a.starts),
        length-values a.starts,
        v.counted,
      ),
      ages_bounded now age a h,
    )
