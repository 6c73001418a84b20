-- ===== src/Resolver/Matches.antt =====
-- What a resolved requirement is resolved to (src/chassis/plugins/resolver.py).
use chassis.Prelude.{
  String, ◌≡◌, refl, inl, inr, Bool, true, false, not, Option, none, some, List, [], ◌∷◌, arith,
  ◌==◌, nat_eq, string_eq, Bool-cases, if_ind, select, all, find, All, elem, All-select, All-map,
}
use chassis.Prelude.Dict.{Dict}
use chassis.Prelude.Sorting.{All-sort}
use chassis.Prelude.Texts.{texts_leb}
use chassis.Capabilities.{Packaging, CapabilityKey, accepts}
use chassis.Resolver.{
  Status, Requirement, ProviderOption, ScopeView, RequirementResolution, is_excluded, named,
  pool_for, sorted_options, option_order, matching_for, with_entry, among, matched, unmatched,
  resolution, resolve_one, satisfied,
}

module _ (p : Packaging) (Value : Type 0) where
  -- A provider that may be selected for a requirement in a view.
  pub record Fits (v : ScopeView p Value) (exclude : Option String) (r : Requirement p Value)
      (o : ProviderOption p Value) : Type 0 where
    pub available : elem o.entry_id v.eligible ≡ true
    pub distinct : is_excluded exclude o.entry_id ≡ false
    pub fits : accepts p Value r o.key o.version ≡ true

  All-keep {κ} :
      (P : ProviderOption p Value → Type κ) (q : ProviderOption p Value → Bool)
      (xs : List (ProviderOption p Value))
      → All P xs
      → All (λ o. P o × (q o ≡ true)) (select q xs)
  All-keep P q [] h = tt
  All-keep P q (x ∷ xs) h = elim (Bool-cases (q x)) [
    | inl e ↦ rw e ((h.0, e), All-keep P q xs h.1)
    | inr e ↦ rw e (All-keep P q xs h.1)
  ]

  -- What holds of every visible provider holds of those that match, with what makes them match.
  matching-Fits :
      (P : ProviderOption p Value → Type 0) (v : ScopeView p Value) (exclude : Option String)
      (r : Requirement p Value)
      → All P v.visible
      → All (λ o. P o × Fits v exclude r o) (matching_for p Value v exclude r)
  unfolding matching_for pool_for named sorted_options
  matching-Fits P v exclude r h =
      let before = λ (a b : ProviderOption p Value).
        texts_leb (option_order p Value a) (option_order p Value b) in
      let in_name = All-select P (λ o. o.key.name == r.key.name) v.visible h in
      let in_pool = All-sort before _ _ (
        All-keep P (λ o. elem o.entry_id v.eligible)
          (select (λ o. o.key.name == r.key.name) v.visible) in_name) in
      let others = All-keep _ (λ o. not (is_excluded exclude o.entry_id)) _ in_pool in
      let accepted = All-keep _ (λ o. accepts p Value r o.key o.version) _ others in
      All-sort before _ _ (
        All-map _ (λ o. P o × Fits v exclude r o) _
          (λ o k.
            (k.0.0.0, record { available = k.0.0.1; distinct = ground (arith, k.0.1); fits = k.1 }))
          accepted)

  -- A resolution is satisfied by one of its matches.
  abbrev pub IsBy {κ} :
      (P : ProviderOption p Value → Type κ) → RequirementResolution p Value → Type κ
  IsBy P s = (o : ProviderOption p Value) × (s.selected ≡ some o) × P o

  abbrev Passes {κ} : (ProviderOption p Value → Type κ) → Option (ProviderOption p Value) → Type κ
  Passes P none = Unit
  Passes P (some o) = P o

  find-Passes {κ} :
      (P : ProviderOption p Value → Type κ) (q : ProviderOption p Value → Bool)
      (os : List (ProviderOption p Value))
      → All P os
      → Passes P (find q os)
  find-Passes P q [] h = tt
  find-Passes P q (o ∷ os) h =
      if_ind {A = Option (ProviderOption p Value)} (Passes P) (q o) (λ e. h.0)
        (λ e. find-Passes P q os h.1)

  with_entry-Passes {κ} :
      (P : ProviderOption p Value → Type κ) (e : Option String) (os : List (ProviderOption p Value))
      → All P os
      → Passes P (with_entry p Value e os)
  unfolding with_entry
  with_entry-Passes P none os h = tt
  with_entry-Passes P (some e) os h = find-Passes P (λ o. o.entry_id == e) os h

  among-IsBy {κ} :
      (P : ProviderOption p Value → Type κ) (consumer : String) (r : Requirement p Value)
      (m : Option (ProviderOption p Value))
      → Passes P m
      → satisfied p Value (among p Value consumer r m) ≡ true
      → IsBy P (among p Value consumer r m)
  unfolding among resolution satisfied
  among-IsBy P consumer r none h s = absurd (ground arith)
  among-IsBy P consumer r (some o) h s = (o, refl, h)

  matched-IsBy {κ} :
      (P : ProviderOption p Value → Type κ) (consumer : String) (r : Requirement p Value)
      (preferred : Option String) (status : Status) (os : List (ProviderOption p Value))
      → All P os
      → satisfied p Value (resolution p Value consumer r status none none) ≡ false
      → satisfied p Value (matched p Value consumer r preferred status os) ≡ true
      → IsBy P (matched p Value consumer r preferred status os)
  unfolding matched resolution
  matched-IsBy P consumer r preferred status [] h n s = absurd (ground arith)
  matched-IsBy P consumer r preferred status (o ∷ []) h n s = (o, refl, h.0)
  matched-IsBy P consumer r preferred status (o ∷ o' ∷ os) h n s =
      among-IsBy P consumer r (with_entry p Value preferred (o ∷ o' ∷ os))
        (with_entry-Passes P preferred (o ∷ o' ∷ os) h) s

  unmatched-unsatisfied :
      (consumer : String) (pool visible elsewhere : List (ProviderOption p Value))
      (provided : List CapabilityKey) (r : Requirement p Value)
      → satisfied p Value (
          resolution p Value consumer r
            (unmatched p Value pool visible elsewhere provided r)
            none
            none)
        ≡ false
  unfolding unmatched resolution satisfied
  unmatched-unsatisfied consumer (o ∷ pool) visible elsewhere provided r = refl
  unmatched-unsatisfied consumer [] visible elsewhere provided r = ground arith

  -- A satisfied requirement is satisfied by a visible provider that is still eligible, is not the
  -- consumer itself and fits.
  pub resolve_one-IsBy :
      (P : ProviderOption p Value → Type 0) (consumer : String) (r : Requirement p Value)
      (v : ScopeView p Value) (selection : Dict String String) (all : List (ProviderOption p Value))
      (exclude : Option String) (provided : List CapabilityKey)
      → All P v.visible
      → satisfied p Value (resolve_one p Value consumer r v selection all exclude provided) ≡ true
      → IsBy
          (λ o. P o × Fits v exclude r o)
          (resolve_one p Value consumer r v selection all exclude provided)
  unfolding resolve_one
  resolve_one-IsBy P consumer r v selection all exclude provided h s =
      matched-IsBy (λ o. P o × Fits v exclude r o) consumer r _ _ (matching_for p Value v exclude r)
        (matching-Fits P v exclude r h) (unmatched-unsatisfied consumer _ _ _ provided r) s

  among-requirement :
      (consumer : String) (r : Requirement p Value) (m : Option (ProviderOption p Value))
      → (among p Value consumer r m).requirement ≡ r
  unfolding among resolution
  among-requirement consumer r none = refl
  among-requirement consumer r (some o) = refl

  matched-requirement :
      (consumer : String) (r : Requirement p Value) (preferred : Option String) (status : Status)
      (os : List (ProviderOption p Value))
      → (matched p Value consumer r preferred status os).requirement ≡ r
  unfolding matched resolution
  matched-requirement consumer r preferred status [] = refl
  matched-requirement consumer r preferred status (o ∷ []) = refl
  matched-requirement consumer r preferred status (o ∷ o' ∷ os) = among-requirement consumer r _

  -- A resolution is about the requirement that it was asked for.
  pub requirement-resolve_one :
      (consumer : String) (r : Requirement p Value) (v : ScopeView p Value)
      (selection : Dict String String) (all : List (ProviderOption p Value))
      (exclude : Option String) (provided : List CapabilityKey)
      → (resolve_one p Value consumer r v selection all exclude provided).requirement ≡ r
  unfolding resolve_one
  requirement-resolve_one consumer r v selection all exclude provided =
      matched-requirement consumer r _ _ (matching_for p Value v exclude r)
