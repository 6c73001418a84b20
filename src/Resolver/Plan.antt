-- ===== src/Resolver/Plan.antt =====
-- The plan that the resolver makes: `DependencyResolver.resolve`, `_ordered_candidates` and
-- `_dependency_edges` of src/chassis/plugins/resolver.py. The members of declared cycles, which
-- `_detect_cycles` finds, are an argument, as they are of `_activation_order`.
use chassis.Prelude.{
  String, Bool, ◌&&◌, not, Option, none, some, List, [], ◌∷◌, ◌++◌, map, ◌==◌, nat_eq, string_eq,
  if◌then◌else◌, select, any, elem,
}
use chassis.Prelude.Dict.{Dict, has}
use chassis.Prelude.Sorting.{sort}
use chassis.Prelude.Texts.{text_leb}
use chassis.Capabilities.{Packaging}
use chassis.Activation.{Edge, activation_order}
use chassis.Resolver.{PluginCandidate, RequirementResolution}
use chassis.Resolver.Index.{ScopeSpec, Specs, IndexError, Indexed, indexed, rejected, scope_index}
use chassis.Resolver.Eligibility.{resolve_requirements, eligible_entries}

unfoldable pub edge_leb : Edge → Edge → Bool
unfolding text_leb
edge_leb a b = if a.0 == b.0 then text_leb a.1 b.1 else text_leb a.0 b.0

unfoldable pub has_edge : Edge → List Edge → Bool
has_edge x edges = any (λ e. e.0 == x.0 && e.1 == x.1) edges

-- `set.add`
unfoldable pub add_edge : Edge → List Edge → List Edge
unfolding has_edge
add_edge x edges = if has_edge x edges then edges else x ∷ edges

-- `_ordered_candidates` refuses an identifier that it has seen.
unfoldable pub first_duplicate : List String → List String → Option String
first_duplicate seen [] = none
first_duplicate seen (x ∷ xs) =
    let rest = first_duplicate (x ∷ seen) xs in if elem x seen then some x else rest

pub data PlanError : Type 0 where
  duplicate_entry : String → PlanError
  bad_scopes : IndexError → PlanError
  unknown_scope : String → PlanError

module _ (p : Packaging) (Value : Type 0) where
  unfoldable pub by_id : List (PluginCandidate p Value) → List (PluginCandidate p Value)
  unfolding sort text_leb
  by_id candidates = sort (λ a b. text_leb a.entry_id b.entry_id) candidates

  abbrev pub ids_of : List (PluginCandidate p Value) → List String
  ids_of = map (λ c. c.entry_id)

  unfoldable pub provider_entry_id : RequirementResolution p Value → Option String
  provider_entry_id r = elim r.selected [ none ↦ none | some o ↦ some o.entry_id ]

  unfoldable pub edges_to : String → List (RequirementResolution p Value) → List Edge → List Edge
  unfolding provider_entry_id add_edge
  edges_to consumer [] edges = edges
  edges_to consumer (r ∷ rs) edges = elim (provider_entry_id r) [
    | none ↦ edges_to consumer rs edges
    | some provider ↦
        edges_to consumer rs
          (if provider == consumer then edges else add_edge (provider, consumer) edges)
  ]

  unfoldable pub edges_of :
      List (PluginCandidate p Value)
      → (PluginCandidate p Value → List (RequirementResolution p Value))
      → List Edge
  unfolding edges_to
  edges_of [] resolve = []
  edges_of (c ∷ cs) resolve = edges_to c.entry_id (resolve c) (edges_of cs resolve)

  unfoldable pub dependency_edges :
      List (PluginCandidate p Value)
      → (PluginCandidate p Value → List (RequirementResolution p Value))
      → List Edge
  unfolding edges_of sort edge_leb
  dependency_edges eligible resolve = sort edge_leb (edges_of eligible resolve)

  pub record ResolutionPlan : Type 0 where
    pub eligible : List String
    pub activation_order : List String
    pub pending : List String
    pub edges : List Edge

  -- The candidates that are left out for a requirement that is not met.
  unfoldable pub pending_ids :
      List (PluginCandidate p Value) → List String → List String → List String
  pending_ids ordered eligible cycle_members =
      select (λ e. not (elem e eligible) && not (elem e cycle_members)) (ids_of ordered)

  unfoldable pub eligible_candidates :
      List String → List (PluginCandidate p Value) → List (PluginCandidate p Value)
  eligible_candidates eligible ordered = select (λ c. elem c.entry_id eligible) ordered

  unfoldable pub plan :
      Specs p Value
      → List (PluginCandidate p Value)
      → Dict String String
      → (cycle_members : List String) → ResolutionPlan
  unfolding eligible_entries eligible_candidates dependency_edges resolve_requirements
      activation_order pending_ids sort text_leb
  plan d ordered selection cycle_members =
      let eligible = eligible_entries p Value d ordered selection in
      let edges =
        dependency_edges (eligible_candidates eligible ordered)
          (resolve_requirements p Value d ordered selection eligible) in
      record {
        eligible = eligible;
        activation_order = activation_order eligible edges cycle_members;
        pending = sort text_leb (pending_ids ordered eligible cycle_members ++ cycle_members);
        edges = edges;
      }

  pub data Planned : Type 0 where
    planned : ResolutionPlan → Planned
    failed : PlanError → Planned

  unfoldable pub unknown : Specs p Value → List (PluginCandidate p Value) → Option String
  unfolding has
  unknown d [] = none
  unknown d (c ∷ cs) = let rest = unknown d cs in if has c.scope d then rest else some c.scope

  unfoldable pub unless_unknown : Option String → ResolutionPlan → Planned
  unless_unknown none r = planned r
  unless_unknown (some s) r = failed (unknown_scope s)

  unfoldable pub plan_in :
      List (PluginCandidate p Value) → Dict String String → List String → Indexed p Value → Planned
  unfolding unknown unless_unknown plan
  plan_in ordered selection cycle_members (rejected e) = failed (bad_scopes e)
  plan_in ordered selection cycle_members (indexed d) =
      unless_unknown (unknown d ordered) (plan d ordered selection cycle_members)

  unfoldable pub unless_duplicate : Option String → Planned → Planned
  unless_duplicate none r = r
  unless_duplicate (some e) r = failed (duplicate_entry e)

  unfoldable pub resolve :
      List (PluginCandidate p Value)
      → Dict String String
      → List (ScopeSpec p Value)
      → (cycle_members : List String) → Planned
  unfolding by_id first_duplicate unless_duplicate scope_index plan_in
  resolve candidates selection scopes cycle_members =
      let ordered = by_id candidates in
      unless_duplicate (first_duplicate [] (ids_of ordered))
        (plan_in ordered selection cycle_members (scope_index p Value scopes))
