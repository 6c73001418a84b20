-- ===== src/Resolver/Ancestors.antt =====
-- The walk of `_lineage` finds a cycle exactly when a scope has more ancestors than there are scopes
-- (src/chassis/plugins/resolver.py).
use chassis.Prelude.{
  ℕ, zero, suc, ◌+◌, ◌-◌, ◌≤◌, String, ◌≡◌, refl, sym, ap, ◌∙◌, inl, inr, Bool, true, false, Option,
  none, some, List, [], ◌∷◌, arith, ◌==◌, eq_beq, nat_eq, string_eq, Bool-cases, length, elem,
}
use chassis.Capabilities.{Packaging}
use chassis.Resolver.Index.{Specs, Lineage, rooted, looped, parent_of, walk, lineage_of}

abbrev pub is_looped : Lineage → Bool
is_looped (rooted l) = false
is_looped (looped c) = true

abbrev pub is_some : Option String → Bool
is_some none = false
is_some (some x) = true

module _ (p : Packaging) (Value : Type 0) (d : Specs p Value) where
  -- The ancestor so many levels up, if there is one.
  abbrev pub climb : ℕ → Option String → Option String
  climb zero o = o
  climb (suc n) none = none
  climb (suc n) (some x) = climb n (parent_of p Value d x)

  climb-none : (n : ℕ) → climb n none ≡ none
  climb-none zero = refl
  climb-none (suc n) = refl

  climb-add : (m n : ℕ) (o : Option String) → climb (m + n) o ≡ climb n (climb m o)
  climb-add zero n o = ap (λ k. climb k o) (omega arith)
  climb-add (suc m) n none = climb-none (suc m + n) ∙ sym (climb-none n)
  climb-add (suc m) n (some x) =
      let one_up : suc m + n ≡ suc (m + n) = omega arith in
      ap (λ k. climb k (some x)) one_up ∙ climb-add m n (parent_of p Value d x)

  -- Whoever has an ancestor so far up has one at every level below.
  climb-below :
      (m n : ℕ) (o : Option String) → is_some (climb (m + n) o) ≡ true → is_some (climb m o) ≡ true
  climb-below m n o h = above (climb m o) (sym (ap is_some (climb-add m n o)) ∙ h)
    where
      above : (c : Option String) → is_some (climb n c) ≡ true → is_some c ≡ true
      above none e = sym (ap is_some (climb-none n)) ∙ e
      above (some x) e = refl

  laps : ℕ → ℕ → ℕ
  laps zero k = 0
  laps (suc j) k = suc k + laps j k

  climb-laps :
      (j k : ℕ) (x : String) → climb (suc k) (some x) ≡ some x → climb (laps j k) (some x) ≡ some x
  unfolding laps
  climb-laps zero k x h = refl
  climb-laps (suc j) k x h =
      climb-add (suc k) (laps j k) (some x) ∙ ap (climb (laps j k)) h ∙ climb-laps j k x h

  le-laps : (j k : ℕ) → j ≤ laps j k
  unfolding laps
  le-laps zero k = omega arith
  le-laps (suc j) k = omega (arith, le-laps j k)

  -- Who is its own ancestor has ancestors at every level.
  climb_endless :
      (n k : ℕ) (x : String) → climb (suc k) (some x) ≡ some x → is_some (climb n (some x)) ≡ true
  climb_endless n k x h =
      climb-below n (laps n k - n) (some x)
        (ap is_some (ap (λ m. climb m (some x)) (omega (arith, le-laps n k)) ∙ climb-laps n k x h))

  -- What stands on the chain has the present scope as an ancestor.
  abbrev IsChain : List String → Option String → Type 0
  IsChain chain o = (y : String) → elem y chain ≡ true → (k : ℕ) × (climb (suc k) (some y) ≡ o)

  IsChain-up :
      (chain : List String) (x : String)
      → IsChain chain (some x)
      → IsChain (x ∷ chain) (parent_of p Value d x)
  IsChain-up chain x h y e = elim (Bool-cases (x == y)) [
    | inl same ↦ (0, ap (λ z. parent_of p Value d z) (sym ((eq_beq x y).0 same)))
    | inr other ↦
        let (k, up) = h y (ground (arith, e, other)) in
        let one_up : suc (suc k) ≡ suc k + 1 = omega arith in
        (suc k, ap (λ n. climb n (some y)) one_up ∙ climb-add (suc k) 1 (some y) ∙ ap (climb 1) up)
  ]

  is_looped-walk :
      (fuel : ℕ) (chain : List String) (o : Option String)
      → IsChain chain o
      → is_looped (walk p Value fuel d chain o) ≡ is_some (climb fuel o)
  unfolding walk
  is_looped-walk fuel chain none h = sym (ap is_some (climb-none fuel))
  is_looped-walk zero chain (some x) h = refl
  is_looped-walk (suc fuel) chain (some x) h = elim (Bool-cases (elem x chain)) [
    | inl e ↦ let (k, around) = h x e in rw e (sym (climb_endless (suc fuel) k x around))
    | inr e ↦ rw e (is_looped-walk fuel (x ∷ chain) (parent_of p Value d x) (IsChain-up chain x h))
  ]

  pub is_looped-lineage_of :
      (path : String)
      → is_looped (lineage_of p Value d path) ≡ is_some (climb (suc (length d)) (some path))
  unfolding lineage_of
  is_looped-lineage_of path =
      is_looped-walk (suc (length d)) [] (some path) (λ y e. absurd (ground (arith, e)))
