-- ===== src/Resolver/Eligibility.antt =====
-- What each scope may see, and the fixpoint of the eligible plugins: `_build_views` and the loop of
-- `resolve` in src/chassis/plugins/resolver.py.
use chassis.Prelude.{
  ℕ, zero, suc, String, Bool, true, false, ◌&&◌, not, Option, none, some, List, [], ◌∷◌, ◌++◌, map,
  ◌==◌, nat_eq, string_eq, if◌then◌else◌, length, select, any, elem,
}
use chassis.Prelude.Dict.{Dict}
use chassis.Capabilities.{Packaging}
use chassis.Resolver.{
  Requirement, PluginCandidate, ProviderOption, ScopeView, RequirementResolution, provided_keys,
  options_of, is_allowed, satisfied, resolve_one,
}
use chassis.Resolver.Index.{Specs, lineage_in, allowed_along}

unfoldable pub discard : String → List String → List String
discard e eligible = select (λ x. not (x == e)) eligible

module _ (p : Packaging) (Value : Type 0) where
  unfoldable pub options_in :
      String → List (PluginCandidate p Value) → List (ProviderOption p Value)
  unfolding options_of
  options_in a [] = []
  options_in a (c ∷ cs) =
      let rest = options_in a cs in if c.scope == a then options_of p Value c ++ rest else rest

  -- The providers that the scopes of a lineage contribute, as far as the view allows them.
  unfoldable pub visible_options :
      Option (List String)
      → List (PluginCandidate p Value)
      → List String
      → List (ProviderOption p Value)
  unfolding options_in is_allowed
  visible_options allowed candidates [] = []
  visible_options allowed candidates (a ∷ lineage) =
      select (λ o. is_allowed allowed o.key.name) (options_in a candidates)
      ++ visible_options allowed candidates lineage

  unfoldable pub build_view :
      Specs p Value → List (PluginCandidate p Value) → List String → String → ScopeView p Value
  unfolding lineage_in allowed_along visible_options
  build_view d candidates eligible path =
      let lineage = lineage_in p Value d path in
      let allowed = allowed_along p Value d none lineage in
      record {
        path = path;
        lineage = lineage;
        allowed = allowed;
        eligible = eligible;
        visible = visible_options allowed candidates lineage;
      }

  -- The fixpoint.

  unfoldable pub all_options : List (PluginCandidate p Value) → List (ProviderOption p Value)
  unfolding options_of
  all_options [] = []
  all_options (c ∷ cs) = options_of p Value c ++ all_options cs

  unfoldable pub resolve_requirement :
      Specs p Value
      → List (PluginCandidate p Value)
      → Dict String String
      → List String
      → PluginCandidate p Value
      → Requirement p Value
      → RequirementResolution p Value
  unfolding resolve_one build_view all_options provided_keys
  resolve_requirement d candidates selection eligible c r =
      resolve_one p Value c.entry_id r (build_view d candidates eligible c.scope) selection
        (all_options candidates) (some c.entry_id) (provided_keys p Value c.manifest)

  -- `_resolve_requirements`
  unfoldable pub resolve_requirements :
      Specs p Value
      → List (PluginCandidate p Value)
      → Dict String String
      → List String
      → PluginCandidate p Value
      → List (RequirementResolution p Value)
  unfolding resolve_requirement
  resolve_requirements d candidates selection eligible c =
      map (resolve_requirement d candidates selection eligible c)
        (c.manifest.required_capabilities ++ c.manifest.optional_capabilities)

  unfoldable pub is_unmet : List (RequirementResolution p Value) → Bool
  unfolding satisfied
  is_unmet rs = any (λ r. not (satisfied p Value r) && not r.requirement.optional) rs

  -- One pass over the candidates, whose views stay those of its start.
  unfoldable pub prune :
      (PluginCandidate p Value → Bool)
      → List (PluginCandidate p Value)
      → List String
      → Bool
      → List String × Bool
  unfolding discard
  prune unmet [] eligible changed = (eligible, changed)
  prune unmet (c ∷ cs) eligible changed =
      let dropped = prune unmet cs (discard c.entry_id eligible) true in
      let kept = prune unmet cs eligible changed in
      if not (elem c.entry_id eligible) then kept else if unmet c then dropped else kept

  unfoldable pub fixpoint :
      ℕ
      → (List String → PluginCandidate p Value → Bool)
      → List (PluginCandidate p Value)
      → List String
      → List String
  unfolding prune
  fixpoint zero unmet candidates eligible = eligible
  fixpoint (suc fuel) unmet candidates eligible =
      let pass = prune (unmet eligible) candidates eligible false in
      let onward = fixpoint fuel unmet candidates pass.0 in if pass.1 then onward else pass.0

  unfoldable pub eligible_entries :
      Specs p Value → List (PluginCandidate p Value) → Dict String String → List String
  unfolding fixpoint is_unmet resolve_requirements
  eligible_entries d candidates selection =
      let ids = map (λ c. c.entry_id) candidates in
      fixpoint (suc (length ids))
        (λ eligible c. is_unmet (resolve_requirements d candidates selection eligible c)) candidates
        ids
