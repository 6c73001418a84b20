-- ===== src/Config.antt =====
-- Desired state and its difference from what is installed: src/chassis/config/models.py and
-- reconcile.py. The digest of a configuration is behind an interface.
pub mod Settled
pub mod Reconciled
mod Examples
use chassis.Prelude.{
  ℕ, zero, suc, ◌+◌, ◌-◌, ◌*◌, ◌/◌, ◌%◌, ◌≤◌, ◌<◌, String, ◌≡◌, refl, sym, ap, ◌∙◌, ◌≢◌, ◌↔◌, ◌⊎◌,
  inl, inr, Bool, true, false, ◌&&◌, ◌||◌, not, Option, none, some, List, [], ◌∷◌, ◌++◌, map, arith,
  ltb, leb, nat_beq, nat_beq_iff, Eq, ◌==◌, eq_beq, nat_eq, string_eq, if◌then◌else◌, Bool-cases,
  if_ind, Option-cases, length, drop, take, select, any, all, count_if, find, All, length-append,
  length-drop, any-append, select-append, All-append, elem, any-select, All-select, select-All,
  find_passes, find-All, find-any, All-map, All-any,
}
use chassis.Prelude.Dict.{Dict, keys, get, has, put, pop}
use chassis.Prelude.Sorting.{sort}
use chassis.Prelude.Texts.{text_leb}

-- `config_fingerprint`: the SHA-256 digest of the plugin's name and the configuration.
pub record Digests : Type 1 where
  pub Config : Type 0
  pub config_fingerprint : (plugin : String) → Config → String

pub data DesiredStateAction : Type 0 where
  add remove unchanged replace reconfigure : DesiredStateAction

pub data Reason : Type 0 where
  not_installed no_longer_desired configuration_changed no_reason : Reason
  implementation_changed : (from : String) → Reason

pub record DesiredStateChange : Type 0 where
  pub action : DesiredStateAction
  pub entry_id : String
  pub plugin : String
  pub reason : Reason

pub record InstalledEntry : Type 0 where
  pub entry_id : String
  pub plugin : String
  pub revision : ℕ
  pub config_fingerprint : String

unfoldable pub is_mutation : DesiredStateChange → Bool
is_mutation c = elim c.action [
  | add ↦ true
  | remove ↦ true
  | replace ↦ true
  | unchanged ↦ false
  | reconfigure ↦ false
]

module _ (h : Digests) where
  open h use {Config, config_fingerprint}

  pub record PluginEntryConfig : Type 0 where
    pub id : String
    pub plugin : String
    pub config : Config
    pub enabled : Bool

  pub data Validated : Type 0 where
    valid : List PluginEntryConfig → Validated
    duplicate_id : String → Validated

  unfoldable pub unique_from : (seen : List String) → List PluginEntryConfig → Option String
  unique_from seen [] = none
  unique_from seen (e ∷ es) =
      let rest = unique_from (e.id ∷ seen) es in if elem e.id seen then some e.id else rest

  unfoldable pub verdict : List PluginEntryConfig → Option String → Validated
  verdict es none = valid es
  verdict es (some id) = duplicate_id id

  unfoldable pub unique_ids : List PluginEntryConfig → Validated
  unfolding unique_from verdict
  unique_ids es = verdict es (unique_from [] es)

  unfoldable pub enabled_entries : List PluginEntryConfig → List PluginEntryConfig
  enabled_entries plugins = select (λ e. e.enabled) plugins

  unfoldable pub by_id :
      List PluginEntryConfig → Dict String PluginEntryConfig → Dict String PluginEntryConfig
  unfolding put
  by_id [] d = d
  by_id (e ∷ es) d = by_id es (put e.id e d)

  -- The set union of the keys, sorted.
  unfoldable pub union : List String → List String → List String
  union [] js = js
  union (i ∷ is) js = let rest = union is js in if elem i rest then rest else i ∷ rest

  abbrev pub change : DesiredStateAction → String → String → Reason → DesiredStateChange
  change action entry_id plugin reason = record {
    action = action;
    entry_id = entry_id;
    plugin = plugin;
    reason = reason;
  }

  -- The body of the loop; it has nothing for an entry that is neither desired nor installed, where
  -- the assertion fails.
  unfoldable pub change_for :
      String → Option PluginEntryConfig → Option InstalledEntry → Option DesiredStateChange
  change_for i (some e) none = some (change add i e.plugin not_installed)
  change_for i none (some c) = some (change remove i c.plugin no_longer_desired)
  change_for i none none = none
  change_for i (some e) (some c) =
      if not (e.plugin == c.plugin)
      then some (change replace i e.plugin (implementation_changed c.plugin))
      else if not (config_fingerprint e.plugin e.config == c.config_fingerprint)
      then some (change replace i e.plugin configuration_changed)
      else some (change unchanged i e.plugin no_reason)

  unfoldable pub prepend :
      Option DesiredStateChange
      → Option (List DesiredStateChange)
      → Option (List DesiredStateChange)
  prepend (some c) (some cs) = some (c ∷ cs)
  prepend (some c) none = none
  prepend none cs = none

  unfoldable pub changes_for :
      List String
      → Dict String PluginEntryConfig
      → Dict String InstalledEntry
      → Option (List DesiredStateChange)
  unfolding change_for get prepend
  changes_for [] wanted installed = some []
  changes_for (i ∷ is) wanted installed =
      prepend (change_for i (get i wanted) (get i installed)) (changes_for is wanted installed)

  unfoldable pub diff_desired_state :
      List PluginEntryConfig → Dict String InstalledEntry → Option (List DesiredStateChange)
  unfolding enabled_entries by_id union sort text_leb changes_for
  diff_desired_state plugins installed =
      let wanted = by_id (enabled_entries plugins) [] in
      changes_for (sort text_leb (union (keys wanted) (keys installed))) wanted installed
