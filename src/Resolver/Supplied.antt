-- ===== src/Resolver/Supplied.antt =====
-- Each eligible plugin is supplied by eligible plugins that it can see (src/chassis/plugins/resolver.py).
use chassis.Prelude.{
  suc, String, ◌≡◌, refl, sym, ap, ◌∙◌, true, false, not, Option, none, some, List, [], ◌∷◌, ◌++◌,
  map, arith, ◌==◌, eq_beq, nat_eq, string_eq, if_ind, length, select, All, All-append, elem,
  All-map, All-any,
}
use mathlib.Core.Path.{subst}
use chassis.Prelude.Dict.{Dict}
use chassis.Capabilities.{Packaging, accepts}
use chassis.Resolver.{
  Requirement, PluginCandidate, ProviderOption, options_of, is_allowed, is_excluded, satisfied,
}
use chassis.Resolver.Index.{Specs, lineage_in, allowed_along, can_see}
use chassis.Resolver.Eligibility.{
  options_in, visible_options, build_view, all_options, resolve_requirement, resolve_requirements,
  is_unmet, eligible_entries,
}
use chassis.Resolver.Matches.{resolve_one-IsBy, requirement-resolve_one}
use chassis.Resolver.Closed.{IsMet, fixpoint-IsMet}

All-mapped {ℓ κ μ} :
    {A : Type ℓ} {B : Type κ} (P : B → Type μ) (f : A → B) (xs : List A)
    → ((x : A) → P (f x))
    → All P (map f xs)
All-mapped P f [] h = tt
All-mapped P f (x ∷ xs) h = (h x, All-mapped P f xs h)

length-map {ℓ κ} :
    {A : Type ℓ} {B : Type κ} (f : A → B) (xs : List A) → length (map f xs) ≡ length xs
length-map f [] = refl
length-map f (x ∷ xs) = ap suc (length-map f xs)

module _ (p : Packaging) (Value : Type 0) where
  abbrev Offer : Type 0
  Offer = ProviderOption p Value

  scope-options_of :
      (c : PluginCandidate p Value) → All (λ o. o.scope ≡ c.scope) (options_of p Value c)
  unfolding options_of
  scope-options_of c =
      if_ind {A = List Offer} (All (λ o. o.scope ≡ c.scope)) c.active
        (λ e. All-mapped (λ (o : Offer). o.scope ≡ c.scope) _ c.registrations (λ r. refl))
        (λ e.
          All-mapped (λ (o : Offer). o.scope ≡ c.scope) _ c.manifest.provided_contracts (λ d. refl))

  scope-options_in :
      (a : String) (cs : List (PluginCandidate p Value))
      → All (λ o. o.scope ≡ a) (options_in p Value a cs)
  unfolding options_in
  scope-options_in a [] = tt
  scope-options_in a (c ∷ cs) =
      if_ind {A = List Offer} (All (λ o. o.scope ≡ a)) (c.scope == a)
        (λ e.
          All-append (λ (o : Offer). o.scope ≡ a) (options_of p Value c) (options_in p Value a cs)
            (All-map (λ (o : Offer). o.scope ≡ c.scope) (λ o. o.scope ≡ a) (options_of p Value c)
              (λ o k. k ∙ (eq_beq c.scope a).0 e) (scope-options_of c))
            (scope-options_in a cs))
        (λ e. scope-options_in a cs)

  -- In the lineage, and not hidden by the view.
  abbrev Seen : Option (List String) → List String → Offer → Type 0
  Seen allowed whole o = (elem o.scope whole ≡ true) × (is_allowed allowed o.key.name ≡ true)

  Seen-in_scope :
      (allowed : Option (List String)) (whole : List String) (a : String)
      → elem a whole ≡ true
      → (os : List Offer) → All (λ o. o.scope ≡ a) os
      → All (Seen allowed whole) (select (λ o. is_allowed allowed o.key.name) os)
  Seen-in_scope allowed whole a h [] k = tt
  Seen-in_scope allowed whole a h (o ∷ os) k =
      if_ind {A = List Offer} (All (Seen allowed whole)) (is_allowed allowed o.key.name)
        (λ e. (
          (subst (λ x. elem x whole ≡ true) (sym k.0) h, e),
          Seen-in_scope allowed whole a h os k.1,
        ))
        (λ e. Seen-in_scope allowed whole a h os k.1)

  Seen-along :
      (allowed : Option (List String)) (whole : List String) (cs : List (PluginCandidate p Value))
      (lineage : List String)
      → All (λ a. elem a whole ≡ true) lineage
      → All (Seen allowed whole) (visible_options p Value allowed cs lineage)
  unfolding visible_options
  Seen-along allowed whole cs [] h = tt
  Seen-along allowed whole cs (a ∷ lineage) h =
      All-append (Seen allowed whole) _ (visible_options p Value allowed cs lineage)
        (Seen-in_scope allowed whole a h.0 (options_in p Value a cs) (scope-options_in a cs))
        (Seen-along allowed whole cs lineage h.1)

  module _ (d : Specs p Value) (candidates : List (PluginCandidate p Value))
      (selection : Dict String String) where
    -- Another plugin among the eligible ones, which fits and which the consumer can see.
    abbrev pub IsSupplied : List String → PluginCandidate p Value → Requirement p Value → Type 0
    IsSupplied eligible c r =
        (o : Offer) × ((resolve_requirement p Value d candidates selection eligible c r).selected
          ≡ some o)
        × (elem o.entry_id eligible ≡ true)
        × ((o.entry_id == c.entry_id) ≡ false)
        × (accepts p Value r o.key o.version ≡ true)
        × (can_see p Value d c.scope o.scope o.key.name ≡ true)

    IsSupplied-by :
        (eligible : List String) (c : PluginCandidate p Value) (r : Requirement p Value)
        → satisfied p Value (resolve_requirement p Value d candidates selection eligible c r) ≡ true
        → IsSupplied eligible c r
    unfolding resolve_requirement build_view can_see is_excluded
    IsSupplied-by eligible c r s =
        let lineage = lineage_in p Value d c.scope in
        let allowed = allowed_along p Value d none lineage in
        let found =
          resolve_one-IsBy p Value (Seen allowed lineage) c.entry_id r
            (build_view p Value d candidates eligible c.scope) selection
            (all_options p Value candidates) (some c.entry_id) _
            (Seen-along allowed lineage candidates lineage
              (All-any (λ (x y : String). y == x) lineage (λ x. (eq_beq x x).1 refl)))
            s in
        (
          found.0,
          found.1,
          found.2.1.available,
          found.2.1.distinct,
          found.2.1.fits,
          rw (found.2.0.0) (found.2.0.1),
        )

    optional-resolve_requirement :
        (eligible : List String) (c : PluginCandidate p Value) (r : Requirement p Value)
        → (resolve_requirement p Value d candidates selection eligible c r).requirement.optional
          ≡ r.optional
    unfolding resolve_requirement
    optional-resolve_requirement eligible c r =
        ap (λ (q : Requirement p Value). q.optional)
          (requirement-resolve_one p Value c.entry_id r
            (build_view p Value d candidates eligible c.scope) selection
            (all_options p Value candidates) (some c.entry_id) _)

    met-IsSupplied :
        (eligible : List String) (c : PluginCandidate p Value) (rs : List (Requirement p Value))
        → is_unmet p Value (map (resolve_requirement p Value d candidates selection eligible c) rs)
          ≡ false
        → All (IsSupplied eligible c) (select (λ r. not r.optional) rs)
    unfolding is_unmet
    met-IsSupplied eligible c [] h = tt
    met-IsSupplied eligible c (r ∷ rs) h =
        if_ind {A = List (Requirement p Value)} (All (IsSupplied eligible c)) (not r.optional)
          (λ e. (
            IsSupplied-by eligible c r (ground (arith, optional-resolve_requirement eligible c r)),
            met-IsSupplied eligible c rs (ground arith),
          ))
          (λ e. met-IsSupplied eligible c rs (ground arith))

    left-IsSupplied :
        (eligible : List String) (cs : List (PluginCandidate p Value))
        → All
            (IsMet p Value
              (λ c.
                is_unmet p Value (resolve_requirements p Value d candidates selection eligible c))
              eligible)
            cs
        → All
            (λ c. All (IsSupplied eligible c) (
              select
                (λ r. not r.optional)
                (c.manifest.required_capabilities ++ c.manifest.optional_capabilities)))
            (select (λ c. elem c.entry_id eligible) cs)
    unfolding resolve_requirements
    left-IsSupplied eligible [] h = tt
    left-IsSupplied eligible (c ∷ cs) h =
        if_ind {A = List (PluginCandidate p Value)}
          (All (λ c. All (IsSupplied eligible c) (
            select (λ r. not r.optional)
              (c.manifest.required_capabilities ++ c.manifest.optional_capabilities))))
          (elem c.entry_id eligible)
          (λ e. (
            met-IsSupplied eligible c
                (c.manifest.required_capabilities ++ c.manifest.optional_capabilities)
                (ground (arith, h.0)),
            left-IsSupplied eligible cs h.1,
          ))
          (λ e. left-IsSupplied eligible cs h.1)

    -- The eligible plugins are closed under their hard requirements: each is resolved, for every plugin
    -- that is left, to another plugin that is left, that offers an accepted version and that the
    -- consumer's scope can see through its lineage and its view.
    pub eligible_entries-IsSupplied :
        All
          (λ c. All (IsSupplied (eligible_entries p Value d candidates selection) c) (
            select
              (λ r. not r.optional)
              (c.manifest.required_capabilities ++ c.manifest.optional_capabilities)))
          (select
            (λ c. elem c.entry_id (eligible_entries p Value d candidates selection))
            candidates)
    unfolding eligible_entries
    eligible_entries-IsSupplied =
        let ids = map (λ (c : PluginCandidate p Value). c.entry_id) candidates in
        left-IsSupplied _ candidates (
          fixpoint-IsMet p Value
            (λ eligible c.
              is_unmet p Value (resolve_requirements p Value d candidates selection eligible c))
            candidates (suc (length ids)) ids (omega arith))
