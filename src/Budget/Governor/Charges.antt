-- ===== src/Budget/Governor/Charges.antt =====
-- What one charge does to one governor and to the store (budget/models.py `add`, budget/governor.py).
use chassis.Prelude.{
  ℕ, suc, ◌+◌, ◌%◌, ◌≡◌, refl, ap, Bool, true, false, ◌&&◌, not, Option, none, some, [], ◌∷◌, arith,
  ◌==◌, nat_eq, string_eq, if◌then◌else◌, length,
}
use chassis.Budget.{
  Dimension, wall_clock_seconds, model_calls, tool_calls, tokens, estimated_cost, child_runs, Value,
  ok, unit, units, is_count, Usage, consumed, add,
}
use chassis.Budget.Governor.{Governor, Store, hits, onward, charge, validate_amount}

unfoldable pub is_wall : Dimension → Bool
is_wall wall_clock_seconds = true
is_wall _ = false

unfoldable pub same : Dimension → Dimension → Bool
same wall_clock_seconds wall_clock_seconds = true
same model_calls model_calls = true
same tool_calls tool_calls = true
same tokens tokens = true
same estimated_cost estimated_cost = true
same child_runs child_runs = true
same _ _ = false

-- A validated amount is whole where the dimension counts.
abbrev pub IsWhole : Dimension → ℕ → Type 0
IsWhole d a = is_count d ≡ true → a % unit ≡ 0

-- Elapsed time is observed, never accumulated; every other dimension grows by exactly the amount.
pub consumed-add :
    (d e : Dimension) (a now : ℕ) (u : Usage)
    → IsWhole d a
    → consumed (add u d a) e now
      ≡ (if same d e && not (is_wall d) then consumed u e now + a else consumed u e now)
unfolding consumed add same is_wall is_count
consumed-add wall_clock_seconds e a now u w = ground arith
consumed-add model_calls e a now u w = ground arith
consumed-add tool_calls e a now u w = ground arith
consumed-add tokens e a now u w = ground arith
consumed-add estimated_cost e a now u w = ground arith
consumed-add child_runs e a now u w = ground arith

pub validate_amount-IsWhole :
    (d : Dimension) (v : Value) → validate_amount d v ≡ ok tt → IsWhole d (units v)
unfolding validate_amount
validate_amount-IsWhole d v h c = ground arith

-- Governor `i` of a store.
unfoldable pub governor_at : ℕ → Store → Option Governor
governor_at i [] = none
governor_at i (g ∷ rest) =
    let below = governor_at i rest in if i == length rest then some g else below

-- Whether governor `i` is the one called, or one of its ancestors.
unfoldable pub on_chain : Store → Option ℕ → ℕ → Bool
unfolding onward
on_chain [] t i = false
on_chain (g ∷ rest) t i =
    let up = on_chain rest (onward t g rest) i in if i == length rest then hits t rest else up

pub length-charge :
    (d : Dimension) (a : ℕ) (s : Store) (t : Option ℕ) → length (charge d a s t) ≡ length s
unfolding charge
length-charge d a [] t = refl
length-charge d a (g ∷ rest) t = ap suc (length-charge d a rest (onward t g rest))

abbrev pub charged : Dimension → ℕ → Bool → Option Governor → Option Governor
charged d a hit none = none
charged d a hit (some g) = some (if hit then record g { usage = add g.usage d a } else g)

-- A charge reaches exactly the governor that is called and its ancestors, each once.
pub governor_at-charge :
    (d : Dimension) (a : ℕ) (s : Store) (t : Option ℕ) (i : ℕ)
    → governor_at i (charge d a s t) ≡ charged d a (on_chain s t i) (governor_at i s)
unfolding charge governor_at on_chain
governor_at-charge d a [] t i = refl
governor_at-charge d a (g ∷ rest) t i = ground (
  arith,
  length-charge d a rest (onward t g rest),
  governor_at-charge d a rest (onward t g rest) i,
)
