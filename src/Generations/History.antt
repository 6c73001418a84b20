-- ===== src/Generations/History.antt =====
-- The diagnostics buffer of retired generations (core/generations.py, `retire` and `history`).
use chassis.Prelude.{
  ℕ, zero, suc, ◌+◌, ◌-◌, ◌≤◌, ◌≡◌, refl, ap, true, List, [], ◌∷◌, ◌++◌, arith, nat_eq, string_eq,
  length, drop, take, length-append, length-drop,
}
use chassis.Generations.{Manager, ok, retire}

take-append {ℓ} :
    {A : Type ℓ} (n : ℕ) (xs ys : List A) → n ≤ length xs → take n (xs ++ ys) ≡ take n xs
take-append zero xs ys h = refl
take-append (suc n) [] ys h = absurd (omega arith)
take-append (suc n) (x ∷ xs) ys h = ap (λ l. x ∷ l) (take-append n xs ys (omega arith))

-- Retiring a generation evicts only what overflows the buffer, and counts it: the buffer holds as many
-- as it can, and every retired generation is either in it or counted as evicted.
pub retire_accounts :
    (g : ℕ) (m : Manager)
    → (retire g m).0 ≡ ok true
    → ((retire g m).1.evicted + length (retire g m).1.retired ≡ m.evicted + length m.retired + 1)
      × ((retire g m).1.retired
          ≡ drop (length m.retired + 1 - m.history_limit) (m.retired ++ g ∷ []))
unfolding retire
retire_accounts g m h =
    let kept = m.retired ++ g ∷ [] in
    let size = length-append m.retired (g ∷ []) in
    let left = length-drop (length kept - m.history_limit) kept in
    (ground (arith, size, left), ground (arith, size))
