-- ===== src/Activation.antt =====
-- The order in which plugins are mounted: `_activation_order` of src/chassis/plugins/resolver.py.
-- An edge is a provider with a consumer. The sets that the loop keeps for each entry, `incoming` and
-- `outgoing`, are the edges that are left and all edges.
use chassis.Prelude.{
  ℕ, zero, suc, ◌+◌, ◌-◌, ◌*◌, ◌/◌, ◌%◌, ◌≤◌, ◌<◌, String, ◌≡◌, refl, sym, ap, ◌∙◌, ◌≢◌, ◌↔◌, ◌⊎◌,
  inl, inr, Bool, true, false, ◌&&◌, ◌||◌, not, Option, none, some, List, [], ◌∷◌, ◌++◌, map, arith,
  ltb, leb, nat_beq, nat_beq_iff, Eq, ◌==◌, eq_beq, nat_eq, string_eq, if◌then◌else◌, Bool-cases,
  if_ind, Option-cases, length, drop, take, select, any, all, count_if, find, All, length-append,
  length-drop, any-append, select-append, All-append, elem, any-select, All-select, select-All,
  find_passes, find-All, find-any, All-map, All-any,
}
pub mod Topological
pub mod Reached
pub mod Counted
pub mod Ended
pub mod Finished
pub mod Complete
mod Examples
use chassis.Prelude.Sorting.{sort}
use chassis.Prelude.Texts.{text_leb}

abbrev pub Edge : Type 0
Edge = String × String

unfoldable pub names_of : List String → List String → List String
unfolding sort text_leb
names_of eligible excluded = sort text_leb (select (λ e. not (elem e excluded)) eligible)

-- The edges between nodes.
unfoldable pub between : List String → List Edge → List Edge
between nodes edges = select (λ e. elem e.0 nodes && elem e.1 nodes) edges

unfoldable pub has_incoming : List Edge → String → Bool
has_incoming edges n = any (λ e. e.1 == n) edges

unfoldable pub remove : Edge → List Edge → List Edge
remove (p, c) edges = select (λ e. not (e.0 == p && e.1 == c)) edges

unfoldable pub consumers : String → List Edge → List String
consumers p [] = []
consumers p ((q, c) ∷ edges) = let rest = consumers p edges in if q == p then c ∷ rest else rest

-- The inner loop: the edges that are left and the entries that are ready.
unfoldable pub relax :
    String → List String → List String → List Edge → List String → List Edge × List String
unfolding remove has_incoming
relax current order [] left ready = (left, ready)
relax current order (c ∷ cs) left ready =
    let left' = remove (current, c) left in
    let grown = relax current order cs left' (ready ++ c ∷ []) in
    let same = relax current order cs left' ready in
    if not (has_incoming left' c) && (not (elem c order) && not (elem c ready)) then grown else same

-- The outer loop, on fuel: each round activates one entry.
unfoldable pub rounds : ℕ → List Edge → List Edge → List String → List String → List String
unfolding sort text_leb relax consumers
rounds fuel edges left [] order = order
rounds zero edges left (current ∷ ready) order = order
rounds (suc fuel) edges left (current ∷ ready) order =
    let order' = order ++ current ∷ [] in
    let relaxed = relax current order' (sort text_leb (consumers current edges)) left ready in
    rounds fuel edges relaxed.0 (sort text_leb relaxed.1) order'

unfoldable pub kahn : List String → List Edge → List String
unfolding sort text_leb rounds between has_incoming
kahn nodes all_edges =
    let edges = between nodes all_edges in
    rounds (length nodes) edges edges
      (sort text_leb (select (λ n. not (has_incoming edges n)) nodes)) []

-- Entries that the loop did not reach come last.
unfoldable pub complete : List String → List String → List String
complete nodes order =
    if nat_beq (length order) (length nodes)
    then order
    else order ++ select (λ n. not (elem n order)) nodes

unfoldable pub activation_order : List String → List Edge → List String → List String
unfolding names_of kahn complete
activation_order eligible edges excluded =
    let nodes = names_of eligible excluded in complete nodes (kahn nodes edges)
