-- ===== src/Resolver/Partition.antt =====
-- What the resolver plans and why it refuses (src/chassis/plugins/resolver.py).
use chassis.Prelude.{
  ℕ, zero, suc, String, ◌≡◌, refl, sym, ap, ◌∙◌, inl, inr, Bool, true, false, ◌&&◌, ◌||◌, not,
  Option, none, some, List, [], ◌∷◌, ◌++◌, arith, ◌==◌, eq_beq, nat_eq, string_eq, Bool-cases,
  if_ind, length, select, any, All, elem,
}
use mathlib.Core.Path.{subst}
use chassis.Prelude.Dict.{has, Dict}
use chassis.Prelude.Sorting.{any-sort}
use chassis.Prelude.Texts.{text_leb}
use chassis.Capabilities.{Packaging}
use chassis.Activation.Reached.{Nodup}
use chassis.Activation.Topological.{elem-append}
use chassis.Activation.Complete.{activation_order-Nodup}
use chassis.Resolver.{PluginCandidate}
use chassis.Resolver.Index.{ScopeSpec, Specs, Indexed, indexed, rejected}
use chassis.Resolver.Eligibility.{
  discard, prune, fixpoint, eligible_entries, resolve_requirements, is_unmet,
}
use chassis.Resolver.Forest.{
  IsHierarchy, IsDefect, IsIndex, paths_of, declared, has-declared, scope_index-IsIndex,
}
use chassis.Resolver.Plan.{
  unknown_scope, bad_scopes, duplicate_entry, first_duplicate, by_id, ids_of, pending_ids, plan,
  ResolutionPlan, Planned, planned, failed, unknown, plan_in, unless_unknown, unless_duplicate,
  resolve,
}

elem-select :
    (q : String → Bool) (x : String) (xs : List String) → elem x (select q xs) ≡ (q x && elem x xs)
elem-select q x [] = ground arith
elem-select q x (y ∷ ys) = ground (arith, elem-select q x ys, eq_beq y x, ap q)

Nodup-select : (q : String → Bool) (xs : List String) → Nodup xs → Nodup (select q xs)
Nodup-select q [] n = tt
Nodup-select q (x ∷ xs) n =
    if_ind {A = List String} Nodup (q x)
      (λ e. (elem-select q x xs ∙ ground (arith, n.0), Nodup-select q xs n.1))
      (λ e. Nodup-select q xs n.1)

-- What is new to a list with one more element is new to the list, and differs from the element.
unseen :
    (x : String) (seen xs : List String)
    → All (λ y. elem y (x ∷ seen) ≡ false) xs
    → (elem x xs ≡ false) × All (λ y. elem y seen ≡ false) xs
unseen x seen [] h = (refl, tt)
unseen x seen (y ∷ ys) h =
    let rest = unseen x seen ys h.1 in
    (ground (arith, h.0, rest.0, eq_beq x y, eq_beq y x), (ground (arith, h.0), rest.1))

seen_more :
    (x : String) (seen xs : List String)
    → elem x xs ≡ false
    → All (λ y. elem y seen ≡ false) xs
    → All (λ y. elem y (x ∷ seen) ≡ false) xs
seen_more x seen [] n h = tt
seen_more x seen (y ∷ ys) n h =
    (ground (arith, h.0, n, eq_beq x y, eq_beq y x), seen_more x seen ys (ground (arith, n)) h.1)

-- A list that the scan finds no repetition in has none.
first_duplicate-Nodup :
    (seen xs : List String)
    → first_duplicate seen xs ≡ none
    → Nodup xs × All (λ x. elem x seen ≡ false) xs
unfolding first_duplicate
first_duplicate-Nodup seen [] h = (tt, tt)
first_duplicate-Nodup seen (x ∷ xs) h =
    let rest = first_duplicate-Nodup (x ∷ seen) xs (ground arith) in
    let new = unseen x seen xs rest.1 in ((new.0, rest.0), (ground arith, new.1))

Nodup-first_duplicate :
    (seen xs : List String)
    → Nodup xs
    → All (λ x. elem x seen ≡ false) xs
    → first_duplicate seen xs ≡ none
unfolding first_duplicate
Nodup-first_duplicate seen [] n h = refl
Nodup-first_duplicate seen (x ∷ xs) n h =
    rw (h.0) (Nodup-first_duplicate (x ∷ seen) xs n.1 (seen_more x seen xs n.0 h.1))

All-empty : (xs : List String) → All (λ x. elem x [] ≡ false) xs
All-empty [] = tt
All-empty (x ∷ xs) = (refl, All-empty xs)

module _ (p : Packaging) (Value : Type 0) where
  Nodup-prune :
      (unmet : PluginCandidate p Value → Bool) (cs : List (PluginCandidate p Value))
      (eligible : List String) (changed : Bool)
      → Nodup eligible
      → Nodup (prune p Value unmet cs eligible changed).0
  unfolding prune discard
  Nodup-prune unmet [] eligible changed n = n
  Nodup-prune unmet (c ∷ cs) eligible changed n =
      if_ind {A = List String × Bool} (λ r. Nodup r.0) (not (elem c.entry_id eligible))
        (λ e. Nodup-prune unmet cs eligible changed n)
        (λ e.
          if_ind {A = List String × Bool} (λ r. Nodup r.0) (unmet c)
            (λ e'.
              Nodup-prune unmet cs (discard c.entry_id eligible) true (Nodup-select _ eligible n))
            (λ e'. Nodup-prune unmet cs eligible changed n))

  Nodup-fixpoint :
      (fuel : ℕ) (unmet : List String → PluginCandidate p Value → Bool)
      (cs : List (PluginCandidate p Value)) (eligible : List String)
      → Nodup eligible
      → Nodup (fixpoint p Value fuel unmet cs eligible)
  unfolding fixpoint
  Nodup-fixpoint zero unmet cs eligible n = n
  Nodup-fixpoint (suc fuel) unmet cs eligible n =
      let next = Nodup-prune (unmet eligible) cs eligible false n in
      if_ind {A = List String} Nodup (prune p Value (unmet eligible) cs eligible false).1
        (λ e.
          Nodup-fixpoint fuel unmet cs (prune p Value (unmet eligible) cs eligible false).0 next)
        (λ e. next)

  -- Once: in the order or among the pending, and not in both.
  abbrev pub IsPartition : List (PluginCandidate p Value) → ResolutionPlan p Value → Type 0
  IsPartition ordered r =
      Nodup r.activation_order
      × ((n : String)
          → elem n (ids_of p Value ordered) ≡ true
          → elem n r.activation_order ≡ not (elem n r.pending))

  plan-IsPartition :
      (d : Specs p Value) (ordered : List (PluginCandidate p Value))
      (selection : Dict String String) (cycle_members : List String)
      → Nodup (ids_of p Value ordered)
      → IsPartition ordered (plan p Value d ordered selection cycle_members)
  unfolding plan pending_ids eligible_entries
  plan-IsPartition d ordered selection cycle_members n =
      let eligible = eligible_entries p Value d ordered selection in
      let distinct =
        Nodup-fixpoint (suc (length (ids_of p Value ordered)))
          (λ eligible c.
            is_unmet p Value (resolve_requirements p Value d ordered selection eligible c))
          ordered (ids_of p Value ordered) n in
      let edges = (plan p Value d ordered selection cycle_members).edges in
      (
        (activation_order-Nodup eligible edges cycle_members "" distinct).0,
        λ x h. ground (
          arith,
          (activation_order-Nodup eligible edges cycle_members x distinct).1,
          any-sort text_leb (λ y. y == x)
              (pending_ids p Value ordered eligible cycle_members ++ cycle_members),
          elem-append x (pending_ids p Value ordered eligible cycle_members) cycle_members,
          elem-select (λ e. not (elem e eligible) && not (elem e cycle_members)) x
              (ids_of p Value ordered),
        ),
      )

  elem-ids_of :
      (n : String) (cs : List (PluginCandidate p Value))
      → elem n (ids_of p Value cs) ≡ any (λ c. c.entry_id == n) cs
  elem-ids_of n [] = refl
  elem-ids_of n (c ∷ cs) = ap (λ b. (c.entry_id == n) || b) (elem-ids_of n cs)

  elem-by_id :
      (n : String) (cs : List (PluginCandidate p Value))
      → elem n (ids_of p Value (by_id p Value cs)) ≡ elem n (ids_of p Value cs)
  unfolding by_id
  elem-by_id n cs =
      elem-ids_of n (by_id p Value cs)
      ∙ any-sort (λ (a b : PluginCandidate p Value). text_leb a.entry_id b.entry_id)
          (λ c. c.entry_id == n) cs
      ∙ sym (elem-ids_of n cs)

  abbrev pub is_outside : List (ScopeSpec p Value) → PluginCandidate p Value → Bool
  is_outside scopes c = not (elem c.scope (paths_of p Value scopes))

  -- What each outcome of `resolve` says of its arguments.
  abbrev pub IsOutcome :
      List (PluginCandidate p Value) → List (ScopeSpec p Value) → Planned p Value → Type 0
  IsOutcome candidates scopes (planned r) =
      Nodup (ids_of p Value (by_id p Value candidates))
      × IsHierarchy p Value scopes
      × (any (is_outside scopes) candidates ≡ false)
      × IsPartition candidates r
  IsOutcome candidates scopes (failed (duplicate_entry e)) =
      ¬ Nodup (ids_of p Value (by_id p Value candidates))
  IsOutcome candidates scopes (failed (bad_scopes e)) = IsDefect p Value scopes e
  IsOutcome candidates scopes (failed (unknown_scope s)) =
      IsHierarchy p Value scopes
      × (elem s (paths_of p Value scopes) ≡ false)
      × (any (λ c. c.scope == s) candidates ≡ true)

  any-unknown :
      (d : Specs p Value) (s : String) (cs : List (PluginCandidate p Value))
      → unknown p Value d cs ≡ some s
      → (has s d ≡ false) × (any (λ c. c.scope == s) cs ≡ true)
  unfolding unknown
  any-unknown d s [] h = absurd (ground arith)
  any-unknown d s (c ∷ cs) h = elim (Bool-cases (has c.scope d)) [
    | inl e ↦
        let rest = any-unknown d s cs (ground (arith, h, e)) in (rest.0, ground (arith, rest.1))
    | inr e ↦
        let same : c.scope ≡ s = ground (arith, h, e) in
        (subst (λ x. has x d ≡ false) same e, ground (arith, (eq_beq c.scope s).1 same))
  ]

  none-unknown :
      (scopes : List (ScopeSpec p Value)) (cs : List (PluginCandidate p Value))
      → unknown p Value (declared p Value scopes) cs ≡ none
      → any (is_outside scopes) cs ≡ false
  unfolding unknown
  none-unknown scopes [] h = refl
  none-unknown scopes (c ∷ cs) h =
      ground (arith, h, has-declared p Value c.scope scopes, none-unknown scopes cs)

  known-IsOutcome :
      (candidates : List (PluginCandidate p Value)) (scopes : List (ScopeSpec p Value))
      (r : ResolutionPlan p Value) (u : Option String)
      → Nodup (ids_of p Value (by_id p Value candidates))
      → IsHierarchy p Value scopes
      → unknown p Value (declared p Value scopes) (by_id p Value candidates) ≡ u
      → IsPartition candidates r
      → IsOutcome candidates scopes (unless_unknown p Value u r)
  unfolding unless_unknown by_id
  known-IsOutcome candidates scopes r none n tree e whole = (
    n,
    tree,
    sym (
          any-sort (λ (a b : PluginCandidate p Value). text_leb a.entry_id b.entry_id)
            (is_outside scopes) candidates)
        ∙ none-unknown scopes (by_id p Value candidates) e,
    whole,
  )
  known-IsOutcome candidates scopes r (some s) n tree e whole =
      let found = any-unknown (declared p Value scopes) s (by_id p Value candidates) e in
      (
        tree,
        sym (has-declared p Value s scopes) ∙ found.0,
        sym (
              any-sort (λ (a b : PluginCandidate p Value). text_leb a.entry_id b.entry_id)
                (λ c. c.scope == s) candidates)
            ∙ found.1,
      )

  plan_in-IsOutcome :
      (candidates : List (PluginCandidate p Value)) (selection : Dict String String)
      (scopes : List (ScopeSpec p Value)) (cycle_members : List String) (x : Indexed p Value)
      → Nodup (ids_of p Value (by_id p Value candidates))
      → IsIndex p Value scopes x
      → IsOutcome candidates scopes
          (plan_in p Value (by_id p Value candidates) selection cycle_members x)
  unfolding plan_in
  plan_in-IsOutcome candidates selection scopes cycle_members (rejected e) n h = h
  plan_in-IsOutcome candidates selection scopes cycle_members (indexed d) n (tree, same) =
      let whole = plan-IsPartition d (by_id p Value candidates) selection cycle_members n in
      known-IsOutcome candidates scopes _ _ n tree
        (ap (λ x. unknown p Value x (by_id p Value candidates)) (sym same))
        (whole.0, λ x k. whole.1 x (elem-by_id x candidates ∙ k))

  distinct-IsOutcome :
      (candidates : List (PluginCandidate p Value)) (scopes : List (ScopeSpec p Value))
      (r : Planned p Value) (x : Option String)
      → first_duplicate [] (ids_of p Value (by_id p Value candidates)) ≡ x
      → (Nodup (ids_of p Value (by_id p Value candidates)) → IsOutcome candidates scopes r)
      → IsOutcome candidates scopes (unless_duplicate p Value x r)
  unfolding unless_duplicate
  distinct-IsOutcome candidates scopes r none e k =
      k (first_duplicate-Nodup [] (ids_of p Value (by_id p Value candidates)) e).0
  distinct-IsOutcome candidates scopes r (some x) e k = λ n. absurd (
      cc (
        e,
        Nodup-first_duplicate [] (ids_of p Value (by_id p Value candidates)) n
            (All-empty (ids_of p Value (by_id p Value candidates))),
      ))

  -- When the resolver plans, the identifiers are distinct, the scopes are a hierarchy (distinct paths,
  -- the root and every parent declared, no cycle) and every candidate's scope is one of them; the
  -- activation order has no repetition, and each desired plugin is in the order or among the pending,
  -- and not in both. Each refusal has its reason: a repeated identifier, the defect of the hierarchy
  -- that is named, or the scope of a candidate that is not declared.
  pub resolve-IsOutcome :
      (candidates : List (PluginCandidate p Value)) (selection : Dict String String)
      (scopes : List (ScopeSpec p Value)) (cycle_members : List String)
      → IsOutcome candidates scopes (resolve p Value candidates selection scopes cycle_members)
  unfolding resolve
  resolve-IsOutcome candidates selection scopes cycle_members =
      distinct-IsOutcome candidates scopes _ _ refl (λ n.
        plan_in-IsOutcome candidates selection scopes cycle_members _ n
          (scope_index-IsIndex p Value scopes))
