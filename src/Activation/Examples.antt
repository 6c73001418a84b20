-- ===== src/Activation/Examples.antt =====
-- A web server that needs a database and a cache, and the theorems at it.
use chassis.Prelude.{
  ℕ, String, ◌≡◌, refl, List, [], ◌∷◌, arith, ◌==◌, nat_eq, string_eq, if◌then◌else◌,
}
use chassis.Activation.{Edge, names_of, between, activation_order}
use chassis.Activation.Topological.{Topo}
use chassis.Activation.Reached.{Nodup}
use chassis.Activation.Complete.{Ranked, activation_order-Topo}

abbrev plugins : List String
plugins = "web" ∷ "cache" ∷ "db" ∷ "app" ∷ []

abbrev needs : List Edge
needs = ("db", "web") ∷ ("cache", "web") ∷ ("db", "cache") ∷ ("web", "app") ∷ []

-- The rank of a plugin is the number of steps that it stands above the database.
abbrev height : String → ℕ
height n = if n == "db" then 0 else if n == "cache" then 1 else if n == "web" then 2 else 3

providers_first : activation_order plugins needs [] ≡ "db" ∷ "cache" ∷ "web" ∷ "app" ∷ []
unfolding activation_order
providers_first = refl

-- Two plugins that want each other come in the order of their names.
cycle_is_kept : activation_order ("b" ∷ "a" ∷ []) (("a", "b") ∷ ("b", "a") ∷ []) [] ≡ "a" ∷ "b" ∷ []
unfolding activation_order
cycle_is_kept = refl

plugins-Nodup : Nodup plugins
plugins-Nodup = (refl, (refl, (refl, (refl, tt))))

needs-Ranked : Ranked height (between (names_of plugins []) needs)
unfolding between names_of
needs-Ranked = omega arith

activation_order-Topo_example :
    Topo (between (names_of plugins []) needs) [] (activation_order plugins needs [])
activation_order-Topo_example =
    activation_order-Topo plugins needs [] height plugins-Nodup needs-Ranked
