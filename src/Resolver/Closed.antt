-- ===== src/Resolver/Closed.antt =====
-- The eligible plugins support one another (src/chassis/plugins/resolver.py).
use chassis.Prelude.{
  ℕ, zero, suc, ◌≤◌, ◌<◌, String, ◌≡◌, refl, sym, inl, inr, Bool, true, false, ◌&&◌, not, List, [],
  ◌∷◌, arith, ◌==◌, nat_eq, string_eq, Bool-cases, if_ind, length, select, All, elem,
}
use mathlib.Core.Path.{subst}
use chassis.Capabilities.{Packaging}
use chassis.Resolver.{PluginCandidate}
use chassis.Resolver.Eligibility.{discard, prune, fixpoint}

length-select {ℓ} : {A : Type ℓ} (q : A → Bool) (xs : List A) → length (select q xs) ≤ length xs
length-select q [] = omega arith
length-select q (x ∷ xs) = ground (arith, length-select q xs)

length-discard :
    (e : String) (xs : List String) → elem e xs ≡ true → length (discard e xs) < length xs
unfolding discard
length-discard e [] h = cc
length-discard e (x ∷ xs) h =
    ground (arith, length-discard e xs, length-select (λ x. not (x == e)) xs)

module _ (p : Packaging) (Value : Type 0) (unmet : PluginCandidate p Value → Bool) where
  -- A candidate that is eligible has what it needs.
  abbrev pub IsMet : List String → PluginCandidate p Value → Type 0
  IsMet eligible c = (elem c.entry_id eligible && unmet c) ≡ false

  prune-length :
      (cs : List (PluginCandidate p Value)) (eligible : List String) (changed : Bool)
      → length (prune p Value unmet cs eligible changed).0 ≤ length eligible
  unfolding prune
  prune-length [] eligible changed = omega arith
  prune-length (c ∷ cs) eligible changed = ground (
    arith,
    prune-length cs (discard c.entry_id eligible) true,
    prune-length cs eligible changed,
    length-discard c.entry_id eligible,
  )

  -- After a change the flag stays set.
  prune-changed :
      (cs : List (PluginCandidate p Value)) (eligible : List String)
      → (prune p Value unmet cs eligible true).1 ≡ true
  unfolding prune
  prune-changed [] eligible = refl
  prune-changed (c ∷ cs) eligible =
      ground (arith, prune-changed cs (discard c.entry_id eligible), prune-changed cs eligible)

  prune-shorter :
      (cs : List (PluginCandidate p Value)) (eligible : List String)
      → (prune p Value unmet cs eligible false).1 ≡ true
      → length (prune p Value unmet cs eligible false).0 < length eligible
  unfolding prune
  prune-shorter [] eligible h = absurd (ground arith)
  prune-shorter (c ∷ cs) eligible h = ground (
    arith,
    prune-length cs (discard c.entry_id eligible) true,
    prune-shorter cs eligible,
    length-discard c.entry_id eligible,
  )

  -- A pass that changes nothing found every eligible candidate met.
  prune-IsMet :
      (cs : List (PluginCandidate p Value)) (eligible : List String)
      → (prune p Value unmet cs eligible false).1 ≡ false
      → ((prune p Value unmet cs eligible false).0 ≡ eligible) × All (IsMet eligible) cs
  unfolding prune
  prune-IsMet [] eligible h = (refl, tt)
  prune-IsMet (c ∷ cs) eligible h = elim (Bool-cases (elem c.entry_id eligible)) [
    | inr out ↦
        let rest = prune-IsMet cs eligible (ground arith) in
        (ground (arith, rest.0), (ground arith, rest.1))
    | inl here ↦ elim (Bool-cases (unmet c)) [
      | inl bad ↦ absurd (ground (arith, prune-changed cs (discard c.entry_id eligible)))
      | inr good ↦
          let rest = prune-IsMet cs eligible (ground arith) in
          (ground (arith, rest.0), (ground arith, rest.1))
    ]
  ]

module _ (p : Packaging) (Value : Type 0) (unmet : List String → PluginCandidate p Value → Bool)
    (candidates : List (PluginCandidate p Value)) where
  -- With more fuel than plugins, whatever is asked of them, the loop ends in a fixpoint: every candidate that is left meets what is asked, among those left.
  pub fixpoint-IsMet :
      (fuel : ℕ) (eligible : List String)
      → length eligible < fuel
      → All
          (IsMet p Value
            (unmet (fixpoint p Value fuel unmet candidates eligible))
            (fixpoint p Value fuel unmet candidates eligible))
          candidates
  unfolding fixpoint
  fixpoint-IsMet zero eligible h = absurd (omega arith)
  fixpoint-IsMet (suc fuel) eligible h =
      let pass = prune p Value (unmet eligible) candidates eligible false in
      if_ind {A = List String} (λ e. All (IsMet p Value (unmet e) e) candidates) pass.1
        (λ more.
          fixpoint-IsMet fuel pass.0
            (omega (arith, prune-shorter p Value (unmet eligible) candidates eligible more)))
        (λ done.
          let met = prune-IsMet p Value (unmet eligible) candidates eligible done in
          subst (λ e. All (IsMet p Value (unmet e) e) candidates) (sym met.0) met.1)
