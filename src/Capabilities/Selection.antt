-- ===== src/Capabilities/Selection.antt =====
-- What a resolution promises, and that registry and snapshot resolve alike (capabilities/registry.py,
-- capabilities/snapshot.py).
use chassis.Prelude.{
  select-All, find-All, find_passes, All-select, inr, inl, eq_beq, Option-cases, All-any, All,
  find-any, String, ◌≡◌, refl, Bool, true, false, ◌||◌, Option, none, some, List, [], ◌∷◌, arith,
  ◌==◌, nat_eq, string_eq, if◌then◌else◌, length, select, any, find,
}
use chassis.Prelude.Dict.{values}
use mathlib.Core.Path.{subst}
use chassis.Prelude.Sorting.{All-sort}
use chassis.Capabilities
use chassis.Capabilities.{
  Packaging, CapabilityKey, CapabilityRequirement, CapabilityRegistration, CapabilityResolution,
  Snapshot, Registry, Status, resolved, no_provider, version_mismatch, ambiguous, accepts, ordered,
  registrations, by_name, names_provider, first_preferred, apply_preference, resolution,
  no_candidate, decided, resolve_among,
}
use chassis.Capabilities.Snapshots
use chassis.Capabilities.Snapshots.{
  from_registrations, providers, named, first_match, preferred_of, settle, resolve_candidates,
}

module _ (p : Packaging) (Value : Type 0) where
  abbrev pub Requirement : Type 0
  Requirement = CapabilityRequirement p Value

  abbrev pub Registration : Type 0
  Registration = CapabilityRegistration p Value

  first_match-eq :
      (is : List String) (cs : List Registration)
      → first_match p Value is cs ≡ first_preferred p Value is cs
  unfolding first_match first_preferred
  first_match-eq [] cs = refl
  first_match-eq (i ∷ is) cs = λ j. elim (find (names_provider p Value i) cs) [
    | some r ↦ some r
    | none ↦ first_match-eq is cs j
  ]

  settle-eq :
      (r : Requirement) (o : Option Registration) (cs ss : List Registration)
      → settle p Value r o cs ss ≡ decided p Value r o cs ss
  unfolding settle decided
  settle-eq r none cs ss = refl
  settle-eq r (some c) cs ss = refl

  preference-eq :
      (prefer : Option (List String)) (cs : List Registration)
      → first_match p Value (preferred_of p Value prefer) cs ≡ apply_preference p Value cs prefer
  unfolding preferred_of apply_preference
  preference-eq none cs = unfold first_match in refl
  preference-eq (some is) cs = first_match-eq is cs

  resolve_candidates-eq :
      (r : Requirement) (prefer : Option (List String)) (cs ss : List Registration)
      → resolve_candidates p Value r prefer cs ss ≡ resolve_among p Value r prefer cs ss
  unfolding resolve_candidates resolve_among no_candidate
  resolve_candidates-eq r prefer [] [] = refl
  resolve_candidates-eq r prefer [] (s ∷ ss) = refl
  resolve_candidates-eq r prefer (c ∷ []) ss = refl
  resolve_candidates-eq r prefer (c ∷ d ∷ cs) ss =
      rw preference-eq (settle-eq r (apply_preference p Value (c ∷ d ∷ cs) prefer) (c ∷ d ∷ cs) ss)

  -- A snapshot of the whole registry resolves every requirement exactly as the registry does, whatever
  -- the preferences.
  pub snapshot-resolve :
      (generation_id : String) (r : Requirement) (prefer : Option (List String))
      (reg : Registry p Value)
      → Snapshots.resolve p Value r prefer (from_registrations p Value generation_id (values reg))
        ≡ Capabilities.resolve p Value r prefer reg
  unfolding Snapshots.resolve Capabilities.resolve from_registrations
  snapshot-resolve generation_id r prefer reg =
      resolve_candidates-eq r prefer
        (select (λ c. accepts p Value r c.key c.version) (by_name p Value r.key.name reg))
        (by_name p Value r.key.name reg)

  abbrev pub candidates_for : Requirement → Registry p Value → List Registration
  candidates_for r reg =
      select (λ c. accepts p Value r c.key c.version) (by_name p Value r.key.name reg)

  abbrev pub preferences : Option (List String) → List String
  preferences none = []
  preferences (some is) = is

  -- Whether some preference names one of the candidates.
  abbrev pub is_preferred : Option (List String) → List Registration → Bool
  is_preferred prefer cs = any (λ i. any (names_provider p Value i) cs) (preferences prefer)

  -- The status that the documentation describes.
  abbrev pub described : Option (List String) → (candidates same_name : List Registration) → Status
  described prefer cs ss =
      if length cs == 0
      then if length ss == 0 then no_provider else version_mismatch
      else if length cs == 1 || is_preferred prefer cs
      then resolved
      else ambiguous

  first_preferred-any :
      (is : List String) (cs : List Registration)
      → (elim (first_preferred p Value is cs) as (λ o. Bool) [ none ↦ false | some c ↦ true ])
        ≡ any (λ i. any (names_provider p Value i) cs) is
  unfolding first_preferred
  first_preferred-any [] cs = refl
  first_preferred-any (i ∷ is) cs =
      ground (arith, find-any (names_provider p Value i) cs, first_preferred-any is cs)

  among-status :
      (r : Requirement) (prefer : Option (List String)) (cs ss : List Registration)
      → (resolve_among p Value r prefer cs ss).status ≡ described prefer cs ss
  unfolding resolve_among no_candidate decided resolution
  among-status r prefer [] [] = refl
  among-status r prefer [] (s ∷ ss) = ground arith
  among-status r prefer (c ∷ []) ss = ground arith
  among-status r none (c ∷ d ∷ cs) ss = unfold apply_preference in ground arith
  among-status r (some is) (c ∷ d ∷ cs) ss =
      unfold apply_preference in ground (arith, first_preferred-any is (c ∷ d ∷ cs))

  -- A requirement is resolved exactly when a single provider fits it or a preference names one that
  -- does; several with no preference are ambiguous, and none is a mismatch if the name is known.
  pub resolve_status :
      (r : Requirement) (prefer : Option (List String)) (reg : Registry p Value)
      → (Capabilities.resolve p Value r prefer reg).status
        ≡ described prefer (candidates_for r reg) (by_name p Value r.key.name reg)
  unfolding Capabilities.resolve
  resolve_status r prefer reg =
      among-status r prefer (candidates_for r reg) (by_name p Value r.key.name reg)

  -- What a selected provider satisfies, on either way to be selected.
  first_preferred-All :
      (P : Registration → Type 0) (is : List String) (cs : List Registration) (c : Registration)
      → All P cs
      → first_preferred p Value is cs ≡ some c
      → P c × (any (λ i. names_provider p Value i c) is ≡ true)
  unfolding first_preferred
  first_preferred-All P [] cs c h e = absurd (ground arith)
  first_preferred-All P (i ∷ is) cs c h e =
      elim (Option-cases (find (names_provider p Value i) cs)) [
        | inl missed ↦
            let (holds, named) = first_preferred-All P is cs c h (ground arith) in
            (holds, ground arith)
        | inr (d, hit) ↦
            let same : d ≡ c = ground arith in
            let named = find_passes (names_provider p Value i) cs d hit in
            subst
              (λ x.
                P x
                × ((names_provider p Value i x || any (λ i. names_provider p Value i x) is) ≡ true))
              same (find-All P (names_provider p Value i) cs d h hit, ground arith)
      ]

  -- The registration is one of the registry's.
  abbrev pub is_registered : Registry p Value → Registration → Bool
  is_registered reg c = any (λ x. c.registration_id == x.registration_id) (values reg)

  abbrev pub Fits : Requirement → Registry p Value → Registration → Type 0
  Fits r reg c = (accepts p Value r c.key c.version ≡ true) × (is_registered reg c ≡ true)

  All-zip :
      (P Q : Registration → Type 0) (xs : List Registration)
      → All P xs
      → All Q xs
      → All (λ x. P x × Q x) xs
  All-zip P Q [] h k = tt
  All-zip P Q (x ∷ xs) h k = ((h.0, k.0), All-zip P Q xs h.1 k.1)

  candidates-Fit :
      (r : Requirement) (reg : Registry p Value) → All (Fits r reg) (candidates_for r reg)
  unfolding by_name registrations ordered
  candidates-Fit r reg =
      let known =
        All-any (λ c x. c.registration_id == x.registration_id) (values reg)
          (λ x. (eq_beq x.registration_id x.registration_id).1 refl) in
      let sorted = All-sort _ (λ c. is_registered reg c ≡ true) (values reg) known in
      let named =
        All-select (λ c. is_registered reg c ≡ true) (λ c. c.key.name == r.key.name)
          (registrations p Value reg) sorted in
      All-zip (λ c. accepts p Value r c.key c.version ≡ true) (λ c. is_registered reg c ≡ true)
        (candidates_for r reg)
        (select-All (λ c. accepts p Value r c.key c.version) (by_name p Value r.key.name reg))
        (All-select (λ c. is_registered reg c ≡ true) (λ c. accepts p Value r c.key c.version)
          (by_name p Value r.key.name reg) named)

  among-selected :
      (P : Registration → Type 0) (r : Requirement) (prefer : Option (List String))
      (cs ss : List Registration) (c : Registration)
      → All P cs
      → (resolve_among p Value r prefer cs ss).selected ≡ some c
      → P c
        × ((length cs == 1 || any (λ i. names_provider p Value i c) (preferences prefer)) ≡ true)
  unfolding resolve_among no_candidate decided resolution
  among-selected P r prefer [] [] c h e = absurd (ground arith)
  among-selected P r prefer [] (s ∷ ss) c h e = absurd (ground arith)
  among-selected P r prefer (d ∷ []) ss c h e =
      let same : d ≡ c = ground arith in (subst P same h.0, ground arith)
  among-selected P r none (d ∷ d' ∷ cs) ss c h e = unfold apply_preference in absurd (ground arith)
  among-selected P r (some is) (d ∷ d' ∷ cs) ss c h e =
      let (holds, named) =
        first_preferred-All P is (d ∷ d' ∷ cs) c h (unfold apply_preference in ground arith) in
      (holds, ground arith)

  -- A selected provider is registered and satisfies the requirement, and it was the only one that
  -- does or was named by a preference.
  pub resolve_selected :
      (r : Requirement) (prefer : Option (List String)) (reg : Registry p Value) (c : Registration)
      → (Capabilities.resolve p Value r prefer reg).selected ≡ some c
      → (accepts p Value r c.key c.version ≡ true)
        × (is_registered reg c ≡ true)
        × ((length (candidates_for r reg) == 1
              || any (λ i. names_provider p Value i c) (preferences prefer))
            ≡ true)
  unfolding Capabilities.resolve
  resolve_selected r prefer reg c h =
      let (fits, reason) =
        among-selected (Fits r reg) r prefer (candidates_for r reg) (by_name p Value r.key.name reg)
          c (candidates-Fit r reg) h in
      (fits.0, fits.1, reason)
