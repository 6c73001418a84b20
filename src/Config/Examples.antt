-- ===== src/Config/Examples.antt =====
-- A desired state against an installed one, and the theorem there.
use chassis.Prelude.{
  String, ◌≡◌, refl, Bool, true, false, Option, none, some, List, [], ◌∷◌, map, nat_eq, string_eq,
}
use chassis.Prelude.Dict.{Dict}
use chassis.Config.{
  DesiredStateAction, Digests, add, remove, replace, InstalledEntry, PluginEntryConfig,
  DesiredStateChange, enabled_entries, by_id, diff_desired_state, unique_ids, duplicate_id,
}
use chassis.Config.Settled.{IsSettled, apply}
use chassis.Config.Reconciled.{diff_desired_state_lem}

-- A configuration is a text that is its own digest.
abbrev plain : Digests
plain = record { Config = String; config_fingerprint = λ p c. c }

abbrev entry : String → String → String → Bool → PluginEntryConfig plain
entry i p c on = record { id = i; plugin = p; config = c; enabled = on }

abbrev desired : List (PluginEntryConfig plain)
desired =
    entry "db" "pg" "v2" true ∷ entry "web" "http" "x" true ∷ entry "old" "cache" "y" false ∷ []

abbrev present : Dict String InstalledEntry
present =
    ("old", record { entry_id = "old"; plugin = "cache"; revision = 1; config_fingerprint = "y" })
    ∷ ("db", record { entry_id = "db"; plugin = "pg"; revision = 3; config_fingerprint = "v1" })
    ∷ []

abbrev listed : Option (List DesiredStateChange) → List (String × DesiredStateAction)
listed none = []
listed (some cs) = map (λ c. (c.entry_id, c.action)) cs

actions :
    listed (diff_desired_state plain desired present)
    ≡ ("db", replace) ∷ ("old", remove) ∷ ("web", add) ∷ []
unfolding diff_desired_state
actions = refl

duplicates :
    unique_ids plain (entry "db" "pg" "a" true ∷ entry "db" "pg" "b" false ∷ []) ≡ duplicate_id "db"
unfolding unique_ids
duplicates = refl

diff_desired_state_lem_example :
    (cs : List DesiredStateChange) × (diff_desired_state plain desired present ≡ some cs)
    × ((j : String)
        → IsSettled plain j
            (by_id plain (enabled_entries plain desired) [])
            (apply plain cs (by_id plain (enabled_entries plain desired) []) present))
diff_desired_state_lem_example = diff_desired_state_lem plain desired present
