-- ===== src/Generations/References.antt =====
-- Which instances live generations reach, and what gates their disposal (core/generations.py,
-- `reachable_instance_ids` and `refresh_references`).
use chassis.Prelude.{
  ℕ, String, ◌≡◌, refl, sym, ◌∙◌, Bool, List, [], ◌∷◌, arith, ltb, nat_eq, string_eq, any, count_if,
  any-append, elem,
}
use chassis.Generations.{
  Generation, Manager, live, instances_of, reachable_instance_ids, has_instance, generation_refs,
}

elem-instances_of :
    (i : String) (pool : ℕ → Generation) (gs : List ℕ)
    → elem i (instances_of pool gs) ≡ any (λ g. has_instance (pool g) i) gs
unfolding instances_of has_instance
elem-instances_of i pool [] = refl
elem-instances_of i pool (g ∷ gs) = rw any-append (rw (elem-instances_of i pool gs))

count_if-any : (p : ℕ → Bool) (gs : List ℕ) → ltb 0 (count_if p gs) ≡ any p gs
count_if-any p [] = ground arith
count_if-any p (g ∷ gs) = ground (arith, count_if-any p gs)

-- The reference count of an instance is positive exactly when some live generation reaches it.
pub refs-reachable :
    (m : Manager) (i : String) → ltb 0 (generation_refs m i) ≡ elem i (reachable_instance_ids m)
unfolding generation_refs reachable_instance_ids
refs-reachable m i =
    count_if-any (λ g. has_instance (m.pool g) i) (live m)
    ∙ sym (elem-instances_of i m.pool (live m))
