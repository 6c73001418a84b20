-- ===== src/Budget/Limits.antt =====
-- Which limits are accepted, and who keeps them (budget/models.py).
use chassis.Prelude.{
  ◌≡◌, refl, ◌∙◌, Bool, true, false, ◌&&◌, not, Option, none, some, List, [], ◌∷◌, arith, nat_eq,
  string_eq, all,
}
use chassis.Budget.{
  Dimension, Value, int, float, Outcome, ok, err, ◌>>=◌, ◌>>◌, is_count, BudgetLimits, limit_for,
  dimensions, validate_limit, validate_each, make_limits,
}

-- A limit that stands for a quantity: absent, a non-negative whole number, or, where the dimension
-- does not count, a non-negative finite float.
unfoldable pub is_sound : Dimension → Option Value → Bool
is_sound d none = true
is_sound d (some (int n)) = true
is_sound d (some (float x)) = not (is_count d)
is_sound d _ = false

abbrev accepts : Outcome (Unit {0}) → Bool
accepts (ok _) = true
accepts (err _) = false

validate_limit_lem :
    (d : Dimension) (v : Option Value) → accepts (validate_limit d v) ≡ is_sound d v
unfolding validate_limit is_sound
validate_limit_lem d none = refl
validate_limit_lem d (some v) = ground arith

accepts-bind : (m k : Outcome (Unit {0})) → accepts (m >> k) ≡ (accepts m && accepts k)
accepts-bind (ok tt) k = refl
accepts-bind (err e) k = refl

validate_each_lem :
    (l : BudgetLimits) (ds : List Dimension)
    → accepts (validate_each l ds) ≡ all (λ d. is_sound d (limit_for l d)) ds
unfolding validate_each
validate_each_lem l [] = refl
validate_each_lem l (d ∷ ds) = rw (accepts-bind, validate_limit_lem, validate_each_lem l ds)

abbrev pub made : Outcome BudgetLimits → Bool
made (ok _) = true
made (err _) = false

-- Limits can be constructed exactly when each of the six is absent, a non-negative whole number or,
-- for a dimension that does not count, a non-negative finite float.
pub make_limits_lem :
    (l : BudgetLimits) → made (make_limits l) ≡ all (λ d. is_sound d (limit_for l d)) dimensions
unfolding make_limits
make_limits_lem l = split (validate_each l dimensions) ∙ validate_each_lem l dimensions
  where
    split : (m : Outcome (Unit {0})) → made (m >>= λ _. ok l) ≡ accepts m
    split (ok tt) = refl
    split (err e) = refl
