-- ===== src/Capabilities/Examples.antt =====
-- Two database providers behind a toy version scheme, and the theorems at them.
use chassis.Prelude.{
  ℕ, String, ◌≡◌, refl, true, false, ◌||◌, none, some, List, [], ◌∷◌, ◌==◌, nat_eq, string_eq,
  length, elem,
}
use chassis.Prelude.Dict.{get}
use chassis.Capabilities
use chassis.Capabilities.{
  Packaging, CapabilityKey, CapabilityRequirement, CapabilityRegistration, Registry, Status,
  resolved, no_provider, version_mismatch, ambiguous, accepts, by_name, provide, withdraw_provider,
  provided, refused, generation_mismatch,
}
use chassis.Capabilities.Snapshots
use chassis.Capabilities.Snapshots.{from_registrations}
use chassis.Capabilities.Selection.{resolve_status, resolve_selected, candidates_for, is_registered}
use chassis.Capabilities.Composed.{generation_snapshot, provided_by, generation_snapshot-resolve}
use chassis.Capabilities.Withdrawal.{IsRegistry, provide-IsRegistry, get-withdraw_provider}

-- A version is its major number in words, and a specifier is the list of versions in it.
abbrev toy : Packaging
toy = record {
  Version = String;
  SpecifierSet = List String;
  major = λ v. v;
  text = λ v. v;
  contains = λ v s. elem v s;
}

abbrev database : CapabilityKey
database = record { name = "database"; api_version = "1" }

abbrev one : Registry toy ℕ
one = (provide toy ℕ true "s" "cap_1" database 10 "1" "pg" "" []).1

abbrev two : Registry toy ℕ
two = (provide toy ℕ true "s" "cap_2" database 20 "1" "lite" "" one).1

abbrev needs : CapabilityRequirement toy ℕ
needs = record { key = database; specifier = "1" ∷ []; optional = false }

runs : Unit {0}
unfolding provide withdraw_provider Capabilities.resolve Snapshots.resolve from_registrations get
    accepts by_name
runs = tt

nothing-IsRegistry : IsRegistry toy ℕ []
nothing-IsRegistry = record { keyed = tt; distinct = tt }

one-IsRegistry : IsRegistry toy ℕ one
one-IsRegistry =
    provide-IsRegistry toy ℕ true "s" "cap_1" database 10 "1" "pg" "" [] nothing-IsRegistry

two-IsRegistry : IsRegistry toy ℕ two
two-IsRegistry =
    provide-IsRegistry toy ℕ true "s" "cap_2" database 20 "1" "lite" "" one one-IsRegistry

wrong_generation :
    (provide toy ℕ true "s" "cap_3" database 30 "2" "pg" "" two).0 ≡ refused generation_mismatch
unfolding runs
wrong_generation = refl

two_ambiguous : (Capabilities.resolve toy ℕ needs none two).status ≡ ambiguous
unfolding runs
two_ambiguous = refl

generation_snapshot-resolve_example :
    Snapshots.resolve toy ℕ needs none (generation_snapshot toy ℕ ("pg" ∷ []) "gen_0001" two)
    ≡ Capabilities.resolve toy ℕ needs none (provided_by toy ℕ ("pg" ∷ []) two)
generation_snapshot-resolve_example =
    generation_snapshot-resolve toy ℕ ("pg" ∷ []) "gen_0001" needs none two

-- With one of the two instances the requirement is no longer ambiguous.
pg_only :
    (Snapshots.resolve toy ℕ needs none
      (generation_snapshot toy ℕ ("pg" ∷ []) "gen_0001" two)).status
    ≡ resolved
unfolding runs generation_snapshot
pg_only = refl

resolve_status_example : (Capabilities.resolve toy ℕ needs (some ("pg" ∷ [])) two).status ≡ resolved
unfolding runs
resolve_status_example = resolve_status toy ℕ needs (some ("pg" ∷ [])) two

abbrev pg : CapabilityRegistration toy ℕ
pg = record {
  registration_id = "cap_1";
  key = database;
  version = "1";
  value = 10;
  provider_id = "pg";
  provider_name = "pg";
  scope_id = "s";
}

resolve_selected_example :
    (accepts toy ℕ needs database "1" ≡ true)
    × (is_registered toy ℕ two pg ≡ true)
    × ((length (candidates_for toy ℕ needs two) == 1 || true) ≡ true)
unfolding runs
resolve_selected_example = resolve_selected toy ℕ needs (some ("pg" ∷ [])) two pg refl

get-withdraw_provider_example : get "cap_1" (withdraw_provider toy ℕ "pg" two).1 ≡ none
unfolding runs
get-withdraw_provider_example = get-withdraw_provider toy ℕ "cap_1" "pg" two two-IsRegistry
