-- ===== src/Capabilities.antt =====
-- Capability contracts, their registry and its snapshots: src/chassis/capabilities/keys.py, registry.py
-- and snapshot.py. Versions and specifiers are the `packaging` library's, behind an interface.
pub mod Snapshots
pub mod Selection
pub mod Composed
pub mod Withdrawal
mod Examples
use chassis.Prelude.{
  ℕ, zero, suc, ◌+◌, ◌-◌, ◌*◌, ◌/◌, ◌%◌, ◌≤◌, ◌<◌, String, ◌≡◌, refl, sym, ap, ◌∙◌, ◌≢◌, ◌↔◌, ◌⊎◌,
  inl, inr, Bool, true, false, ◌&&◌, ◌||◌, not, Option, none, some, List, [], ◌∷◌, ◌++◌, map, arith,
  ltb, leb, nat_beq, nat_beq_iff, Eq, ◌==◌, eq_beq, nat_eq, string_eq, if◌then◌else◌, Bool-cases,
  if_ind, Option-cases, length, drop, take, select, any, all, count_if, find, All, length-append,
  length-drop, any-append, select-append, All-append, elem,
}
use chassis.Prelude.Dict.{Dict, values, get, has, put, pop}
use chassis.Prelude.Sorting.{sort}
use chassis.Prelude.Texts.{pair_leb}

-- What is used of `packaging`: the text of a version and of its major number, and membership in a specifier.
pub record Packaging : Type 1 where
  pub Version : Type 0
  pub SpecifierSet : Type 0
  pub major : Version → String
  pub text : Version → String
  pub contains : Version → SpecifierSet → Bool

pub record CapabilityKey : Type 0 where
  pub name : String
  pub api_version : String

pub data Status : Type 0 where
  resolved no_provider version_mismatch ambiguous : Status

module _ (p : Packaging) (Value : Type 0) where
  open p use {Version, SpecifierSet, major, contains}

  pub record CapabilityRequirement : Type 0 where
    pub key : CapabilityKey
    pub specifier : SpecifierSet
    pub optional : Bool

  pub record CapabilityRegistration : Type 0 where
    pub registration_id : String
    pub key : CapabilityKey
    pub version : Version
    pub value : Value
    pub provider_id : String
    pub provider_name : String
    pub scope_id : String

  pub record CapabilityResolution : Type 0 where
    pub requirement : CapabilityRequirement
    pub status : Status
    pub selected : Option CapabilityRegistration
    pub candidates : List CapabilityRegistration
    pub same_name : List CapabilityRegistration

  abbrev pub Registry : Type 0
  Registry = Dict String CapabilityRegistration

  pub record Snapshot : Type 0 where
    pub generation_id : String
    pub registrations : List CapabilityRegistration

  unfoldable pub accepts : CapabilityRequirement → CapabilityKey → Version → Bool
  accepts r key version =
      if not (key.name == r.key.name)
      then false
      else if not (r.key.api_version == "") && not (key.api_version == r.key.api_version)
      then false
      else contains version r.specifier

  -- `sorted` by provider name and then provider id.
  unfoldable pub ordered : List CapabilityRegistration → List CapabilityRegistration
  unfolding sort pair_leb
  ordered = sort (λ a b. pair_leb a.provider_name a.provider_id b.provider_name b.provider_id)

  -- The registry.

  pub data ProvideError : Type 0 where
    scope_closed generation_agnostic generation_mismatch : ProvideError

  pub data Provided : Type 0 where
    provided : CapabilityRegistration → Provided
    refused : ProvideError → Provided

  -- `registration_id` is the fresh uuid. `version` is the parsed version, the key's own by default.
  unfoldable pub provide :
      (scope_open : Bool) (scope_id registration_id : String) (key : CapabilityKey) (value : Value)
      (version : Version) (provider_id provider_name : String)
      → Registry
      → Provided × Registry
  unfolding put
  provide scope_open scope_id registration_id key value version provider_id provider_name reg =
      if not scope_open
      then (refused scope_closed, reg)
      else if key.api_version == ""
      then (refused generation_agnostic, reg)
      else if not (major version == key.api_version)
      then (refused generation_mismatch, reg)
      else let r : CapabilityRegistration = record {
        registration_id = registration_id;
        key = key;
        version = version;
        value = value;
        provider_id = provider_id;
        provider_name = if provider_name == "" then provider_id else provider_name;
        scope_id = scope_id;
      } in
        (provided r, put registration_id r reg)

  unfoldable pub withdraw : String → Registry → Bool × Registry
  unfolding has pop
  withdraw registration_id reg = (has registration_id reg, pop registration_id reg)

  withdraw_each : List CapabilityRegistration → Registry → Registry
  unfolding withdraw
  withdraw_each [] reg = reg
  withdraw_each (r ∷ rs) reg = withdraw_each rs (withdraw r.registration_id reg).1

  unfoldable pub withdraw_provider : String → Registry → List CapabilityRegistration × Registry
  unfolding withdraw_each
  withdraw_provider provider_id reg =
      let removed = select (λ r. r.provider_id == provider_id) (values reg) in
      (removed, withdraw_each removed reg)

  unfoldable pub registrations : Registry → List CapabilityRegistration
  unfolding ordered
  registrations reg = ordered (values reg)

  unfoldable pub by_name : String → Registry → List CapabilityRegistration
  unfolding registrations
  by_name name reg = select (λ r. r.key.name == name) (registrations reg)

  unfoldable pub names_provider : String → CapabilityRegistration → Bool
  names_provider identifier r = identifier == r.registration_id || identifier == r.provider_id

  -- The two loops over preferences and candidates; the first hit is returned.
  unfoldable pub first_preferred :
      List String → List CapabilityRegistration → Option CapabilityRegistration
  unfolding names_provider
  first_preferred [] candidates = none
  first_preferred (i ∷ is) candidates = elim (find (names_provider i) candidates) [
    | some r ↦ some r
    | none ↦ first_preferred is candidates
  ]

  unfoldable pub apply_preference :
      List CapabilityRegistration → Option (List String) → Option CapabilityRegistration
  unfolding first_preferred
  apply_preference candidates none = none
  apply_preference candidates (some prefer) = first_preferred prefer candidates

  unfoldable pub resolution :
      CapabilityRequirement
      → Status
      → Option CapabilityRegistration
      → (candidates same_name : List CapabilityRegistration) → CapabilityResolution
  resolution r status selected candidates same_name = record {
    requirement = r;
    status = status;
    selected = selected;
    candidates = candidates;
    same_name = same_name;
  }

  unfoldable pub no_candidate :
      CapabilityRequirement → List CapabilityRegistration → CapabilityResolution
  unfolding resolution
  no_candidate r [] = resolution r no_provider none [] []
  no_candidate r same_name = resolution r version_mismatch none [] same_name

  -- What follows when more than one candidate is left.
  unfoldable pub decided :
      CapabilityRequirement
      → Option CapabilityRegistration
      → (candidates same_name : List CapabilityRegistration) → CapabilityResolution
  unfolding resolution
  decided r (some c) candidates same_name = resolution r resolved (some c) candidates same_name
  decided r none candidates same_name = resolution r ambiguous none candidates same_name

  unfoldable pub resolve_among :
      CapabilityRequirement
      → Option (List String)
      → (candidates same_name : List CapabilityRegistration) → CapabilityResolution
  unfolding no_candidate decided apply_preference
  resolve_among r prefer [] same_name = no_candidate r same_name
  resolve_among r prefer (c ∷ []) same_name = resolution r resolved (some c) (c ∷ []) same_name
  resolve_among r prefer (c ∷ d ∷ cs) same_name =
      decided r (apply_preference (c ∷ d ∷ cs) prefer) (c ∷ d ∷ cs) same_name

  unfoldable pub resolve :
      CapabilityRequirement → Option (List String) → Registry → CapabilityResolution
  unfolding by_name accepts resolve_among
  resolve r prefer reg =
      let same_name = by_name r.key.name reg in
      resolve_among r prefer (select (λ c. accepts r c.key c.version) same_name) same_name
