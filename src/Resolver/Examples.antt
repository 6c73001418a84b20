-- ===== src/Resolver/Examples.antt =====
-- A web server below the root scope that uses the database of the root, and the theorems at it.
use chassis.Prelude.{
  ℕ, String, ◌≡◌, refl, Bool, false, not, Option, none, some, List, [], ◌∷◌, ◌++◌, arith, nat_beq,
  ◌==◌, nat_eq, string_eq, length, select, All, elem,
}
use chassis.Prelude.Dict.{get}
use chassis.Capabilities.{Packaging}
use chassis.Resolver.{Requirement, PluginCandidate}
use chassis.Resolver.Index.{
  ScopeSpec, Specs, scope_index, rejected, scope_cycle, can_see, lineage_of,
}
use chassis.Resolver.Eligibility.{eligible_entries}
use chassis.Resolver.Supplied.{IsSupplied, eligible_entries-IsSupplied}
use chassis.Resolver.Eligibility.{fixpoint}
use chassis.Resolver.Closed.{IsMet, fixpoint-IsMet}
use chassis.Resolver.Plan.{planned, failed, duplicate_entry, unknown_scope, resolve}
use chassis.Resolver.Partition.{IsOutcome, resolve-IsOutcome}

-- A version is its major number in words, and a specifier is the list of versions in it.
abbrev toy : Packaging
toy = record {
  Version = String;
  SpecifierSet = List String;
  major = λ v. v;
  text = λ v. v;
  contains = λ v s. elem v s;
}

abbrev spec : String → Option String → Option (List String) → ScopeSpec toy ℕ
spec path parent capabilities = record {
  path = path;
  parent = parent;
  capabilities = capabilities;
  requirements = [];
}

abbrev scopes : List (ScopeSpec toy ℕ)
scopes =
    spec "/" none none
    ∷ spec "/web" (some "/") (some ("database" ∷ []))
    ∷ spec "/blind" (some "/") (some [])
    ∷ []

abbrev specs : Specs toy ℕ
specs =
    ("/", spec "/" none none)
    ∷ ("/web", spec "/web" (some "/") (some ("database" ∷ [])))
    ∷ ("/blind", spec "/blind" (some "/") (some []))
    ∷ []

abbrev database : Requirement toy ℕ
database = record {
  key = record { name = "database"; api_version = "1" };
  specifier = "1" ∷ [];
  optional = false;
}

abbrev plugin :
    String → String → List (String × String) → List (Requirement toy ℕ) → PluginCandidate toy ℕ
plugin entry_id scope provided required = record {
  entry_id = entry_id;
  manifest = record {
    name = entry_id;
    provided_contracts = provided;
    required_capabilities = required;
    optional_capabilities = [];
  };
  instance_id = none;
  active = false;
  registrations = [];
  scope = scope;
}

abbrev candidates : List (PluginCandidate toy ℕ)
candidates =
    plugin "app" "/web" [] (database ∷ [])
    ∷ plugin "pg" "/" (("database", "1") ∷ []) []
    ∷ plugin "stray" "/blind" [] (database ∷ [])
    ∷ []

runs : Unit {0}
unfolding resolve eligible_entries scope_index can_see lineage_of get
runs = tt

blind_is_pending : eligible_entries toy ℕ specs candidates [] ≡ "app" ∷ "pg" ∷ []
unfolding runs
blind_is_pending = refl

plan_of_all :
    resolve toy ℕ candidates [] scopes []
    ≡ planned record {
      eligible = "app" ∷ "pg" ∷ [];
      activation_order = "pg" ∷ "app" ∷ [];
      pending = "stray" ∷ [];
      edges = ("pg", "app") ∷ [];
    }
unfolding runs
plan_of_all = refl

twice_refused :
    resolve toy ℕ (plugin "pg" "/" [] [] ∷ candidates) [] scopes [] ≡ failed (duplicate_entry "pg")
unfolding runs
twice_refused = refl

nowhere_refused :
    resolve toy ℕ (plugin "lost" "/none" [] [] ∷ candidates) [] scopes []
    ≡ failed (unknown_scope "/none")
unfolding runs
nowhere_refused = refl

circle_refused :
    scope_index toy ℕ
      (spec "/" none none ∷ spec "/a" (some "/b") none ∷ spec "/b" (some "/a") none ∷ [])
    ≡ rejected scope_cycle
unfolding runs
circle_refused = refl

eligible_entries-IsSupplied_example :
    All
      (λ c.
        All (IsSupplied toy ℕ specs candidates [] (eligible_entries toy ℕ specs candidates []) c) (
          select
            (λ r. not r.optional)
            (c.manifest.required_capabilities ++ c.manifest.optional_capabilities)))
      (select (λ c. elem c.entry_id (eligible_entries toy ℕ specs candidates [])) candidates)
eligible_entries-IsSupplied_example = eligible_entries-IsSupplied toy ℕ specs candidates []

resolve-IsOutcome_example :
    IsOutcome toy ℕ candidates scopes (resolve toy ℕ candidates [] scopes [])
resolve-IsOutcome_example = resolve-IsOutcome toy ℕ candidates [] scopes []

-- Every plugin needs the app.
abbrev needs_app : List String → PluginCandidate toy ℕ → Bool
needs_app eligible c = nat_beq (length (select (λ e. e == "app") eligible)) 0

fixpoint-IsMet_example :
    All
      (IsMet toy ℕ
        (needs_app (fixpoint toy ℕ 2 needs_app candidates ("pg" ∷ [])))
        (fixpoint toy ℕ 2 needs_app candidates ("pg" ∷ [])))
      candidates
fixpoint-IsMet_example = fixpoint-IsMet toy ℕ needs_app candidates 2 ("pg" ∷ []) (omega arith)
