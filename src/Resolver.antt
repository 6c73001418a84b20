-- ===== src/Resolver.antt =====
-- Candidates, providers and composition scopes of the dependency resolver, and the resolution of one
-- requirement: src/chassis/plugins/resolver.py and manifest.py.
pub mod Index
pub mod Matches
pub mod Closed
pub mod Supplied
pub mod Eligibility
pub mod Plan
mod Examples
pub mod Ancestors
pub mod Forest
pub mod Partition
use chassis.Prelude.{
  ℕ, zero, suc, ◌+◌, ◌-◌, ◌*◌, ◌/◌, ◌%◌, ◌≤◌, ◌<◌, String, ◌≡◌, refl, sym, ap, ◌∙◌, ◌≢◌, ◌↔◌, ◌⊎◌,
  inl, inr, Bool, true, false, ◌&&◌, ◌||◌, not, Option, none, some, List, [], ◌∷◌, ◌++◌, map, arith,
  ltb, leb, nat_beq, nat_beq_iff, Eq, ◌==◌, eq_beq, nat_eq, string_eq, if◌then◌else◌, Bool-cases,
  if_ind, Option-cases, length, drop, take, select, any, all, count_if, find, All, length-append,
  length-drop, any-append, select-append, All-append, elem, any-select, All-select, select-All,
  find_passes, find-All, find-any, All-map, All-any,
}
use chassis.Prelude.Dict.{Dict, get, has, put, values}
use chassis.Prelude.Sorting.{sort}
use chassis.Prelude.Texts.{text_leb, texts_leb}
use Prim.Native.String.{◌++◌ as text_append}
use chassis.Capabilities.{
  Packaging, CapabilityKey, CapabilityRequirement, CapabilityRegistration, accepts,
}

pub data Status : Type 0 where
  resolved no_provider version_mismatch ambiguous : Status
  self_reference not_visible provider_pending : Status

pub data SelectionReason : Type 0 where
  only_eligible explicit_preference : SelectionReason

-- `frozenset.__contains__`, where `None` allows every name.
unfoldable pub is_allowed : Option (List String) → String → Bool
is_allowed none name = true
is_allowed (some names) name = elem name names

unfoldable pub or_empty : Option String → String
or_empty none = ""
or_empty (some s) = s

unfoldable pub is_excluded : Option String → String → Bool
is_excluded none entry_id = false
is_excluded (some e) entry_id = entry_id == e

-- The most specific preference: of the consumer, of the scope, of all.
unfoldable pub preference :
    Dict String String → (consumer capability scope : String) → Option String
unfolding get
preference selection consumer capability scope =
    elim (get (text_append consumer (text_append ":" capability)) selection) [
      | some e ↦ some e
      | none ↦
          elim (get (text_append "scope:" (text_append scope (text_append ":" capability)))
            selection) [ some e ↦ some e | none ↦ get capability selection ]
    ]

module _ (p : Packaging) (Value : Type 0) where
  open p use {Version, SpecifierSet, major, text}

  abbrev pub Requirement : Type 0
  Requirement = CapabilityRequirement p Value

  -- The parsed declarations of a manifest, in the order of its methods.
  pub record PluginManifest : Type 0 where
    pub name : String
    pub provided_contracts : List (String × Version)
    pub required_capabilities : List Requirement
    pub optional_capabilities : List Requirement

  pub record PluginCandidate : Type 0 where
    pub entry_id : String
    pub manifest : PluginManifest
    pub instance_id : Option String
    pub active : Bool
    pub registrations : List (CapabilityRegistration p Value)
    pub scope : String

  pub record ProviderOption : Type 0 where
    pub entry_id : String
    pub instance_id : Option String
    pub provider_name : String
    pub key : CapabilityKey
    pub version : Version
    pub active : Bool
    pub scope : String

  pub record ScopeView : Type 0 where
    pub path : String
    pub lineage : List String
    pub allowed : Option (List String)
    pub eligible : List String
    pub visible : List ProviderOption

  pub record RequirementResolution : Type 0 where
    pub requirement : Requirement
    pub status : Status
    pub selected : Option ProviderOption
    pub selection_reason : Option SelectionReason
    pub consumer : String

  unfoldable pub provided_keys : PluginManifest → List CapabilityKey
  provided_keys m = map (λ c. record { name = c.0; api_version = major c.1 }) m.provided_contracts

  unfoldable pub declared_options : PluginCandidate → List ProviderOption
  declared_options c =
      map
        (λ d. record {
          entry_id = c.entry_id;
          instance_id = c.instance_id;
          provider_name = c.manifest.name;
          key = record { name = d.0; api_version = major d.1 };
          version = d.1;
          active = c.active;
          scope = c.scope;
        })
        c.manifest.provided_contracts

  unfoldable pub registration_options : PluginCandidate → List ProviderOption
  registration_options c =
      map
        (λ r. record {
          entry_id = c.entry_id;
          instance_id = c.instance_id;
          provider_name = r.provider_name;
          key = r.key;
          version = r.version;
          active = true;
          scope = c.scope;
        })
        c.registrations

  -- What a candidate contributes: what it registered once it is active, else what it declares.
  unfoldable pub options_of : PluginCandidate → List ProviderOption
  unfolding declared_options registration_options
  options_of c = if c.active then registration_options c else declared_options c

  unfoldable pub option_order : ProviderOption → List String
  unfolding or_empty
  option_order o =
      o.provider_name ∷ o.entry_id ∷ or_empty o.instance_id ∷ text o.version ∷ o.scope ∷ []

  unfoldable pub sorted_options : List ProviderOption → List ProviderOption
  unfolding sort texts_leb option_order
  sorted_options = sort (λ a b. texts_leb (option_order a) (option_order b))

  unfoldable pub named : String → List ProviderOption → List ProviderOption
  named name options = select (λ o. o.key.name == name) options

  -- `view.visible.get(name, ())` and `view.pool.get(name, ())`.
  unfoldable pub visible_for : ScopeView → String → List ProviderOption
  unfolding sorted_options named
  visible_for v name = sorted_options (named name v.visible)

  unfoldable pub pool_for : ScopeView → String → List ProviderOption
  unfolding sorted_options named
  pool_for v name = sorted_options (select (λ o. elem o.entry_id v.eligible) (named name v.visible))

  unfoldable pub resolution :
      String
      → Requirement
      → Status
      → Option ProviderOption
      → Option SelectionReason
      → RequirementResolution
  resolution consumer r status selected reason = record {
    requirement = r;
    status = status;
    selected = selected;
    selection_reason = reason;
    consumer = consumer;
  }

  unfoldable pub satisfied : RequirementResolution → Bool
  satisfied r = elim r.status [ resolved ↦ true | _ ↦ false ]

  unfoldable pub with_entry : Option String → List ProviderOption → Option ProviderOption
  with_entry none options = none
  with_entry (some e) options = find (λ o. o.entry_id == e) options

  -- More than one match: the preference decides.
  unfoldable pub among : String → Requirement → Option ProviderOption → RequirementResolution
  unfolding resolution
  among consumer r (some o) = resolution consumer r resolved (some o) (some explicit_preference)
  among consumer r none = resolution consumer r ambiguous none none

  unfoldable pub unmatched :
      (pool visible : List ProviderOption) (elsewhere : List ProviderOption)
      → (provided : List CapabilityKey) → Requirement
      → Status
  unfolding accepts
  unmatched (o ∷ pool) visible elsewhere provided r = version_mismatch
  unmatched [] visible elsewhere provided r =
      if any (λ o. accepts p Value r o.key o.version) visible
      then provider_pending
      else if any (λ o. true) visible
      then version_mismatch
      else if any (λ o. true) elsewhere
      then not_visible
      else if any (λ k. k.name == r.key.name) provided
      then self_reference
      else no_provider

  unfoldable pub matched :
      String → Requirement → Option String → Status → List ProviderOption → RequirementResolution
  unfolding among with_entry resolution
  matched consumer r preferred status [] = resolution consumer r status none none
  matched consumer r preferred status (o ∷ []) =
      resolution consumer r resolved (some o) (some only_eligible)
  matched consumer r preferred status (o ∷ o' ∷ os) =
      among consumer r (with_entry preferred (o ∷ o' ∷ os))

  unfoldable pub matching_for : ScopeView → Option String → Requirement → List ProviderOption
  unfolding pool_for is_excluded accepts sorted_options
  matching_for v exclude r = sorted_options (
      select (λ o. accepts p Value r o.key o.version)
        (select (λ o. not (is_excluded exclude o.entry_id)) (pool_for v r.key.name)))

  -- `_resolve_one`: `all` are the providers of every scope.
  unfoldable pub resolve_one :
      (consumer : String)
      → Requirement
      → ScopeView
      → Dict String String
      → (all : List ProviderOption) → (exclude : Option String) → List CapabilityKey
      → RequirementResolution
  unfolding visible_for pool_for matching_for unmatched matched preference named is_excluded
  resolve_one consumer r v selection all exclude provided =
      let others = λ (o : ProviderOption). not (is_excluded exclude o.entry_id) in
      let pool = select others (pool_for v r.key.name) in
      let visible = select others (visible_for v r.key.name) in
      let elsewhere = select others (named r.key.name all) in
      matched consumer r (preference selection consumer r.key.name v.path)
        (unmatched pool visible elsewhere provided r) (matching_for v exclude r)
