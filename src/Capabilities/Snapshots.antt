-- ===== src/Capabilities/Snapshots.antt =====
-- CapabilitySnapshot of src/chassis/capabilities/snapshot.py.
use chassis.Prelude.{
  String, Option, none, some, List, [], ◌∷◌, ◌==◌, nat_eq, string_eq, if◌then◌else◌, select, find,
}
use chassis.Capabilities.{
  Packaging, CapabilityKey, CapabilityRequirement, CapabilityRegistration, CapabilityResolution,
  Snapshot, resolved, no_provider, version_mismatch, ambiguous, accepts, ordered, names_provider,
  resolution,
}

-- A capability is asked for by its key or by its name.
pub data Query : Type 0 where
  key : CapabilityKey → Query
  text : String → Query

unfoldable pub query_name : Query → String
query_name (key k) = k.name
query_name (text name) = name

module _ (p : Packaging) (Value : Type 0) where
  abbrev pub Registration : Type 0
  Registration = CapabilityRegistration p Value

  unfoldable pub from_registrations :
      (generation_id : String) → List Registration → Snapshot p Value
  unfolding ordered
  from_registrations generation_id rs = record {
    generation_id = generation_id;
    registrations = ordered p Value rs;
  }

  unfoldable pub named : Snapshot p Value → String → List Registration
  named s name = select (λ r. r.key.name == name) s.registrations

  unfoldable pub providers : Snapshot p Value → Query → List Registration
  unfolding named
  providers s (text name) = named s name
  providers s (key k) =
      if k.api_version == ""
      then named s k.name
      else select (λ r. r.key.api_version == k.api_version) (named s k.name)

  pub data Lookup : Type 0 where
    found : Value → Lookup
    not_found mismatch ambiguous_providers : Lookup

  -- `require`, past `get`: no provider of the key, and perhaps some of its name.
  absent : List Registration → Lookup
  absent [] = not_found
  absent _ = mismatch

  single : List Registration → List Registration → Lookup
  unfolding absent
  single [] registered = absent registered
  single (r ∷ []) registered = found r.value
  single (r ∷ r' ∷ rs) registered = ambiguous_providers

  unfoldable pub require : Snapshot p Value → Query → Lookup
  unfolding single providers named query_name
  require s q = single (providers s q) (named s (query_name q))

  unfoldable pub first_match : List String → List Registration → Option Registration
  unfolding names_provider
  first_match [] items = none
  first_match (i ∷ is) items = elim (find (names_provider p Value i) items) [
    | some r ↦ some r
    | none ↦ first_match is items
  ]

  unfoldable pub preferred_of : Option (List String) → List String
  preferred_of none = []
  preferred_of (some prefer) = prefer

  unfoldable pub settle :
      CapabilityRequirement p Value
      → Option Registration
      → (candidates same_name : List Registration) → CapabilityResolution p Value
  unfolding resolution
  settle r (some item) candidates same_name =
      resolution p Value r resolved (some item) candidates same_name
  settle r none candidates same_name = resolution p Value r ambiguous none candidates same_name

  unfoldable pub resolve_candidates :
      CapabilityRequirement p Value
      → Option (List String)
      → (candidates same_name : List Registration) → CapabilityResolution p Value
  unfolding resolution settle first_match preferred_of
  resolve_candidates r prefer [] [] = resolution p Value r no_provider none [] []
  resolve_candidates r prefer [] (s ∷ ss) = resolution p Value r version_mismatch none [] (s ∷ ss)
  resolve_candidates r prefer (c ∷ []) same_name =
      resolution p Value r resolved (some c) (c ∷ []) same_name
  resolve_candidates r prefer (c ∷ d ∷ cs) same_name =
      settle r (first_match (preferred_of prefer) (c ∷ d ∷ cs)) (c ∷ d ∷ cs) same_name

  unfoldable pub resolve :
      CapabilityRequirement p Value
      → Option (List String)
      → Snapshot p Value
      → CapabilityResolution p Value
  unfolding providers named accepts resolve_candidates
  resolve r prefer s =
      let same_name = providers s (text r.key.name) in
      resolve_candidates r prefer (select (λ c. accepts p Value r c.key c.version) same_name)
        same_name
