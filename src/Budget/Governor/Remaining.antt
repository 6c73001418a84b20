-- ===== src/Budget/Governor/Remaining.antt =====
-- `remaining_seconds` agrees with `remaining` (budget/governor.py).
use chassis.Prelude.{
  ℕ, ◌≤◌, ◌≡◌, refl, ap, Option, none, some, [], ◌∷◌, arith, nat_eq, string_eq, length,
}
use chassis.Budget.{wall_clock_seconds}
use chassis.Budget.Governor.{
  Governor, Store, onward, own_remaining, remaining, deadline, time_left, seconds_left,
  remaining_seconds,
}

-- The governor has a start, and its clock reading is not before it.
abbrev pub IsElapsed : Option ℕ → ℕ → Type 0
IsElapsed none now = ⊥
IsElapsed (some t) now = t ≤ now

abbrev pub IsMonotonic : (ℕ → ℕ) → Store → Type 0
IsMonotonic clock [] = Unit
IsMonotonic clock (g ∷ rest) =
    IsElapsed g.usage.started_at (clock (length rest)) × IsMonotonic clock rest

own_seconds :
    (now : ℕ) (g : Governor)
    → IsElapsed g.usage.started_at now
    → time_left (deadline g) now ≡ own_remaining g wall_clock_seconds now
unfolding deadline time_left own_remaining
own_seconds now g h = ground arith

seconds_left-remaining :
    (clock : ℕ → ℕ) (s : Store) (t : Option ℕ)
    → IsMonotonic clock s
    → seconds_left clock s t ≡ remaining clock wall_clock_seconds s t
unfolding seconds_left remaining
seconds_left-remaining clock [] t h = refl
seconds_left-remaining clock (g ∷ rest) t h = rw (
  seconds_left-remaining clock rest (onward t g rest) h.1,
  own_seconds (clock (length rest)) g h.0,
)

-- With clocks that do not run backwards, the time until the nearest deadline of the chain is the
-- remaining allowance of elapsed time.
pub remaining_seconds-remaining :
    (clock : ℕ → ℕ) (i : ℕ) (s : Store)
    → IsMonotonic clock s
    → remaining_seconds clock wall_clock_seconds i s
      ≡ some (remaining clock wall_clock_seconds s (some i))
unfolding remaining_seconds
remaining_seconds-remaining clock i s h = ap some (seconds_left-remaining clock s (some i) h)
