-- ===== src/Resolver/Index.antt =====
-- The hierarchy of composition scopes: `_ScopeIndex` of src/chassis/plugins/resolver.py.
use chassis.Prelude.{
  ℕ, zero, suc, String, Bool, true, false, not, Option, none, some, List, [], ◌∷◌, nat_eq,
  string_eq, if◌then◌else◌, length, select, all, elem,
}
use chassis.Prelude.Dict.{Dict, get, has, put, keys}
use chassis.Capabilities.{Packaging}
use chassis.Resolver.{Requirement, is_allowed}

-- `allowed & view`, where `None` is every capability.
unfoldable pub narrow : Option (List String) → Option (List String) → Option (List String)
narrow allowed none = allowed
narrow none (some view) = some view
narrow (some allowed) (some view) = some (select (λ n. elem n view) allowed)

pub data IndexError : Type 0 where
  duplicate_path no_root parent_not_declared scope_cycle : IndexError

pub data Lineage : Type 0 where
  rooted : List String → Lineage
  looped : String → Lineage

module _ (p : Packaging) (Value : Type 0) where
  pub record ScopeSpec : Type 0 where
    pub path : String
    pub parent : Option String
    pub capabilities : Option (List String)
    pub requirements : List (Requirement p Value)

  abbrev pub Specs : Type 0
  Specs = Dict String ScopeSpec

  unfoldable pub parent_of : Specs → String → Option String
  unfolding get
  parent_of specs path = elim (get path specs) [ none ↦ none | some s ↦ s.parent ]

  unfoldable pub capabilities_of : Specs → String → Option (List String)
  unfolding get
  capabilities_of specs path = elim (get path specs) [ none ↦ none | some s ↦ s.capabilities ]

  -- `_lineage`: the walk to the root, whose chain ends up reversed, the root first.
  unfoldable pub walk : ℕ → Specs → List String → Option String → Lineage
  unfolding parent_of
  walk fuel specs chain none = rooted chain
  walk zero specs chain (some current) = looped current
  walk (suc fuel) specs chain (some current) =
      let onward = walk fuel specs (current ∷ chain) (parent_of specs current) in
      if elem current chain then looped current else onward

  unfoldable pub lineage_of : Specs → String → Lineage
  unfolding walk
  lineage_of specs path = walk (suc (length specs)) specs [] (some path)

  unfoldable pub allowed_along : Specs → Option (List String) → List String → Option (List String)
  unfolding narrow capabilities_of
  allowed_along specs allowed [] = allowed
  allowed_along specs allowed (a ∷ as') =
      allowed_along specs (narrow allowed (capabilities_of specs a)) as'

  -- The first failing check of `_ScopeIndex.__init__`, in its order.
  unfoldable pub add_specs : List ScopeSpec → Specs → Option Specs
  unfolding has put
  add_specs [] d = some d
  add_specs (s ∷ ss) d =
      let rest = add_specs ss (put s.path s d) in if has s.path d then none else rest

  unfoldable pub has_parent : Specs → ScopeSpec → Bool
  unfolding has
  has_parent d s = elim s.parent [ none ↦ true | some q ↦ has q d ]

  unfoldable pub first_cycle : Specs → List String → Option IndexError
  unfolding lineage_of
  first_cycle d [] = none
  first_cycle d (path ∷ paths) = elim (lineage_of d path) [
    | rooted l ↦ first_cycle d paths
    | looped c ↦ some scope_cycle
  ]

  pub data Indexed : Type 0 where
    indexed : Specs → Indexed
    rejected : IndexError → Indexed

  unfoldable pub verdict : Specs → Option IndexError → Indexed
  verdict d none = indexed d
  verdict d (some e) = rejected e

  unfoldable pub checked : Specs → Indexed
  unfolding has has_parent first_cycle verdict
  checked d =
      if not (has "/" d)
      then rejected no_root
      else if not (all (λ e. has_parent d e.1) d)
      then rejected parent_not_declared
      else verdict d (first_cycle d (keys d))

  unfoldable pub scope_index : List ScopeSpec → Indexed
  unfolding add_specs checked
  scope_index specs = elim (add_specs specs []) [
    | none ↦ rejected duplicate_path
    | some d ↦ checked d
  ]

  -- The lineages that an accepted index has.
  unfoldable pub lineage_in : Specs → String → List String
  unfolding lineage_of
  lineage_in d path = elim (lineage_of d path) [ rooted l ↦ l | looped c ↦ [] ]

  unfoldable pub can_see : Specs → (consumer provider capability : String) → Bool
  unfolding lineage_in allowed_along is_allowed
  can_see d consumer provider capability =
      if not (elem provider (lineage_in d consumer))
      then false
      else is_allowed (allowed_along d none (lineage_in d consumer)) capability
