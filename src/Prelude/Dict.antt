-- ===== src/Prelude/Dict.antt =====
-- Python's insertion-ordered `dict`: a new key goes to the end, a known key keeps its place.
use Prim.Native.Nat.{◌+◌}
use mathlib.Core.Path.{◌≡◌, refl}
use mathlib.Core.Bool.{Bool, true, false}
use mathlib.Core.Option.{Option, none, some}
use mathlib.Core.List.{List, [], ◌∷◌}
use native.Mathlib.Omega.{arith}
use chassis.Prelude.Tests.{Eq, ◌==◌, if◌then◌else◌}
use chassis.Prelude.Lists.{length}

abbrev pub Dict {ℓ κ} : Type ℓ → Type κ → Type (ℓ ⊔ κ)
Dict K V = List (K × V)

abbrev pub values {ℓ κ} : {K : Type ℓ} {V : Type κ} → Dict K V → List V
values [] = []
values ((j, v) ∷ d) = v ∷ values d

abbrev pub keys {ℓ κ} : {K : Type ℓ} {V : Type κ} → Dict K V → List K
keys [] = []
keys ((j, v) ∷ d) = j ∷ keys d

module _ {ℓ κ} {K : Type ℓ} {V : Type κ} ⦃e : Eq K⦄ where
  unfoldable pub get : K → Dict K V → Option V
  get k [] = none
  get k ((j, v) ∷ d) = let rest = get k d in if j == k then some v else rest

  unfoldable pub has : K → Dict K V → Bool
  has k [] = false
  has k ((j, v) ∷ d) = let rest = has k d in if j == k then true else rest

  unfoldable pub put : K → V → Dict K V → Dict K V
  put k v [] = (k, v) ∷ []
  put k v ((j, w) ∷ d) = let rest = put k v d in if j == k then (j, v) ∷ d else (j, w) ∷ rest

  unfoldable pub pop : K → Dict K V → Dict K V
  pop k [] = []
  pop k ((j, v) ∷ d) = let rest = pop k d in if j == k then rest else (j, v) ∷ rest

  -- No key stands twice.
  abbrev pub IsDistinct : Dict K V → Type 0
  IsDistinct [] = Unit
  IsDistinct ((j, v) ∷ d) = (has j d ≡ false) × IsDistinct d

module _ {ℓ κ} {K : Type ℓ} {V : Type κ} ⦃e : Eq K⦄ where
  pub has-put :
      (k j : K) (v : V) (d : Dict K V) → has j (put k v d) ≡ (if k == j then true else has j d)
  unfolding has put
  has-put k j v [] = ground arith
  has-put k j v ((i, w) ∷ d) =
      ground (arith, has-put k j v d, e.beq_iff k j, e.beq_iff i k, e.beq_iff i j)

  pub has-pop : (k j : K) (d : Dict K V) → has j (pop k d) ≡ (if k == j then false else has j d)
  unfolding has pop
  has-pop k j [] = ground arith
  has-pop k j ((i, w) ∷ d) =
      ground (arith, has-pop k j d, e.beq_iff k j, e.beq_iff i k, e.beq_iff i j)

  pub get-put :
      (k j : K) (v : V) (d : Dict K V) → get j (put k v d) ≡ (if k == j then some v else get j d)
  unfolding get put
  get-put k j v [] = ground arith
  get-put k j v ((i, w) ∷ d) =
      ground (arith, get-put k j v d, e.beq_iff k j, e.beq_iff i k, e.beq_iff i j)

  pub get-pop : (k j : K) (d : Dict K V) → get j (pop k d) ≡ (if k == j then none else get j d)
  unfolding get pop
  get-pop k j [] = ground arith
  get-pop k j ((i, w) ∷ d) =
      ground (arith, get-pop k j d, e.beq_iff k j, e.beq_iff i k, e.beq_iff i j)

  pub IsDistinct-put : (k : K) (v : V) (d : Dict K V) → IsDistinct d → IsDistinct (put k v d)
  unfolding has put
  IsDistinct-put k v [] h = (refl, tt)
  IsDistinct-put k v ((i, w) ∷ d) h =
      ground (arith, IsDistinct-put k v d h.1, has-put k i v d, e.beq_iff i k, e.beq_iff k i)

  pub IsDistinct-pop : (k : K) (d : Dict K V) → IsDistinct d → IsDistinct (pop k d)
  unfolding has pop
  IsDistinct-pop k [] h = tt
  IsDistinct-pop k ((i, w) ∷ d) h = ground (arith, IsDistinct-pop k d h.1, has-pop k i d)

  pub pop-absent : (k : K) (d : Dict K V) → has k d ≡ false → pop k d ≡ d
  unfolding has pop
  pop-absent k [] h = refl
  pop-absent k ((i, w) ∷ d) h = ground (arith, pop-absent k d)

  pub length-put_new :
      (k : K) (v : V) (d : Dict K V) → has k d ≡ false → length (put k v d) ≡ length d + 1
  unfolding has put
  length-put_new k v [] h = omega arith
  length-put_new k v ((i, w) ∷ d) h = ground (arith, length-put_new k v d)

  pub length-pop :
      (k : K) (d : Dict K V) → IsDistinct d → has k d ≡ true → length (pop k d) + 1 ≡ length d
  unfolding has pop
  length-pop k [] h present = ground arith
  length-pop k ((i, w) ∷ d) h present =
      ground (arith, length-pop k d h.1, pop-absent k d, e.beq_iff i k)

  pub pop-put_new : (k : K) (v : V) (d : Dict K V) → has k d ≡ false → pop k (put k v d) ≡ d
  unfolding has put pop
  pop-put_new k v [] h = ground (arith, e.beq_iff k k)
  pop-put_new k v ((i, w) ∷ d) h = ground (arith, pop-put_new k v d)
