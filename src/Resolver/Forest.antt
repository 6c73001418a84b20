-- ===== src/Resolver/Forest.antt =====
-- When the declared scopes are a hierarchy, and why they are refused when they are none
-- (`_ScopeIndex.__init__` of src/chassis/plugins/resolver.py).
use chassis.Prelude.{
  suc, String, ◌≡◌, refl, sym, ap, ◌∙◌, Bool, true, false, ◌&&◌, ◌||◌, not, Option, none, some,
  List, [], ◌∷◌, ◌++◌, arith, eq_beq, nat_eq, string_eq, if◌then◌else◌, if_ind, length, any, all,
  All, elem,
}
use mathlib.Core.Path.{subst}
use chassis.Prelude.Dict.{has-put, has, put, keys}
use chassis.Capabilities.{Packaging}
use chassis.Activation.Reached.{Nodup}
use chassis.Resolver.Ancestors.{is_looped, is_some, climb, is_looped-lineage_of}
use chassis.Resolver.Index.{
  ScopeSpec, Specs, IndexError, duplicate_path, no_root, parent_not_declared, scope_cycle, Lineage,
  rooted, looped, Indexed, indexed, rejected, lineage_of, add_specs, has_parent, first_cycle,
  verdict, checked, scope_index,
}

not_or : (a b : Bool) → (not a && not b) ≡ not (a || b)
not_or true b = refl
not_or false b = refl

module _ (p : Packaging) (Value : Type 0) where
  abbrev pub paths_of : List (ScopeSpec p Value) → List String
  paths_of [] = []
  paths_of (s ∷ ss) = s.path ∷ paths_of ss

  -- The scopes by their paths, in the order in which they are declared.
  abbrev pub declared : List (ScopeSpec p Value) → Specs p Value
  declared [] = []
  declared (s ∷ ss) = (s.path, s) ∷ declared ss

  abbrev pub is_orphan : List (ScopeSpec p Value) → ScopeSpec p Value → Bool
  is_orphan scopes s = elim s.parent [ none ↦ false | some q ↦ not (elem q (paths_of scopes)) ]

  -- From this path the parents go up further than there are scopes, and so never reach the root.
  abbrev pub is_circular : List (ScopeSpec p Value) → String → Bool
  is_circular scopes path =
      is_some (climb p Value (declared scopes) (suc (length scopes)) (some path))

  -- Distinct paths, the root among them, every parent declared, and no cycle.
  pub record IsHierarchy (scopes : List (ScopeSpec p Value)) : Type 0 where
    pub distinct : Nodup (paths_of scopes)
    pub root : elem "/" (paths_of scopes) ≡ true
    pub parents : any (is_orphan scopes) scopes ≡ false
    pub acyclic : any (is_circular scopes) (paths_of scopes) ≡ false

  -- Why a list of scopes is refused.
  abbrev pub IsDefect : List (ScopeSpec p Value) → IndexError → Type 0
  IsDefect scopes duplicate_path = ¬ Nodup (paths_of scopes)
  IsDefect scopes no_root = elem "/" (paths_of scopes) ≡ false
  IsDefect scopes parent_not_declared = any (is_orphan scopes) scopes ≡ true
  IsDefect scopes scope_cycle = any (is_circular scopes) (paths_of scopes) ≡ true

  abbrev pub IsIndex : List (ScopeSpec p Value) → Indexed p Value → Type 0
  IsIndex scopes (indexed d) = IsHierarchy scopes × (d ≡ declared scopes)
  IsIndex scopes (rejected e) = IsDefect scopes e

  pub has-declared :
      (q : String) (scopes : List (ScopeSpec p Value))
      → has q (declared scopes) ≡ elem q (paths_of scopes)
  unfolding has
  has-declared q [] = refl
  has-declared q (s ∷ ss) = ground (arith, has-declared q ss)

  keys-declared : (scopes : List (ScopeSpec p Value)) → keys (declared scopes) ≡ paths_of scopes
  keys-declared [] = refl
  keys-declared (s ∷ ss) = ap (λ l. s.path ∷ l) (keys-declared ss)

  put-new :
      (s : ScopeSpec p Value) (d : Specs p Value)
      → has s.path d ≡ false
      → put s.path s d ≡ d ++ (s.path, s) ∷ []
  unfolding has put
  put-new s [] h = refl
  put-new s ((k, v) ∷ d) h = ground (arith, put-new s d)

  declared-snoc :
      (d : Specs p Value) (s : ScopeSpec p Value) (ss : List (ScopeSpec p Value))
      → (d ++ (s.path, s) ∷ []) ++ declared ss ≡ d ++ declared (s ∷ ss)
  declared-snoc [] s ss = refl
  declared-snoc (e ∷ d) s ss = ap (λ l. e ∷ l) (declared-snoc d s ss)

  -- What the index holds when every path is new: the scopes in their order, after what it held.
  abbrev IsAdded : Specs p Value → List (ScopeSpec p Value) → Option (Specs p Value) → Type 0
  IsAdded d ss none = ¬ (Nodup (paths_of ss) × All (λ x. has x d ≡ false) (paths_of ss))
  IsAdded d ss (some e) =
      Nodup (paths_of ss) × All (λ x. has x d ≡ false) (paths_of ss) × (e ≡ d ++ declared ss)

  added_paths :
      (k : String) (s : ScopeSpec p Value) (d : Specs p Value) (xs : List String)
      → All (λ x. has x (put k s d) ≡ false) xs
      → (elem k xs ≡ false) × All (λ x. has x d ≡ false) xs
  added_paths k s d [] h = (refl, tt)
  added_paths k s d (x ∷ xs) h =
      let rest = added_paths k s d xs h.1 in
      let one = has-put k x s d in
      (ground (arith, h.0, one, rest.0, eq_beq k x, eq_beq x k), (ground (arith, h.0, one), rest.1))

  paths_added :
      (k : String) (s : ScopeSpec p Value) (d : Specs p Value) (xs : List String)
      → elem k xs ≡ false
      → All (λ x. has x d ≡ false) xs
      → All (λ x. has x (put k s d) ≡ false) xs
  paths_added k s d [] n h = tt
  paths_added k s d (x ∷ xs) n h = (
    ground (arith, has-put k x s d, n, h.0, eq_beq k x, eq_beq x k),
    paths_added k s d xs (ground (arith, n)) h.1,
  )

  step-IsAdded :
      (d : Specs p Value) (s : ScopeSpec p Value) (ss : List (ScopeSpec p Value))
      (r : Option (Specs p Value))
      → has s.path d ≡ false
      → IsAdded (put s.path s d) ss r
      → IsAdded d (s ∷ ss) r
  step-IsAdded d s ss none new h = λ k. h (k.0.1, paths_added s.path s d (paths_of ss) k.0.0 k.1.1)
  step-IsAdded d s ss (some e) new h =
      let (distinct, absent, same) = h in
      let fresh = added_paths s.path s d (paths_of ss) absent in
      (
        (fresh.0, distinct),
        (new, fresh.1),
        same ∙ ap (λ l. l ++ declared ss) (put-new s d new) ∙ declared-snoc d s ss,
      )

  nothing_held : (xs : List String) → All (λ x. has x (declared []) ≡ false) xs
  unfolding has
  nothing_held [] = tt
  nothing_held (x ∷ xs) = (refl, nothing_held xs)

  append_nil : (d : Specs p Value) → d ++ [] ≡ d
  append_nil [] = refl
  append_nil (e ∷ d) = ap (λ l. e ∷ l) (append_nil d)

  add_specs-IsAdded :
      (ss : List (ScopeSpec p Value)) (d : Specs p Value) → IsAdded d ss (add_specs p Value ss d)
  unfolding add_specs
  add_specs-IsAdded [] d = (tt, tt, sym (append_nil d))
  add_specs-IsAdded (s ∷ ss) d =
      if_ind {A = Option (Specs p Value)} (IsAdded d (s ∷ ss)) (has s.path d)
        (λ known k. absurd (ground (arith, k.1.0)))
        (λ new. step-IsAdded d s ss _ new (add_specs-IsAdded ss (put s.path s d)))

  parent_declared :
      (scopes : List (ScopeSpec p Value)) (q : Option String)
      → elim q [ none ↦ true | some x ↦ has x (declared scopes) ]
        ≡ not (elim q [ none ↦ false | some x ↦ not (elem x (paths_of scopes)) ])
  parent_declared scopes none = refl
  parent_declared scopes (some x) = ground (arith, has-declared x scopes)

  all_parents :
      (scopes ss : List (ScopeSpec p Value))
      → all (λ e. has_parent p Value (declared scopes) e.1) (declared ss)
        ≡ not (any (is_orphan scopes) ss)
  unfolding has_parent
  all_parents scopes [] = refl
  all_parents scopes (s ∷ ss) =
      let one = parent_declared scopes s.parent in
      let rest = all_parents scopes ss in
      ap (λ b. b && all (λ e. has_parent p Value (declared scopes) e.1) (declared ss)) one
      ∙ ap (λ b. not (is_orphan scopes s) && b) rest
      ∙ not_or (is_orphan scopes s) (any (is_orphan scopes) ss)

  first_cycle_lem :
      (d : Specs p Value) (paths : List String)
      → first_cycle p Value d paths ≡ (
          if any (λ path. is_looped (lineage_of p Value d path)) paths
          then some scope_cycle
          else none)
  unfolding first_cycle
  first_cycle_lem d [] = refl
  first_cycle_lem d (x ∷ xs) = first_looped (lineage_of p Value d x) _ _ (first_cycle_lem d xs)
    where
      first_looped :
          (l : Lineage) (e : Option IndexError) (b : Bool)
          → e ≡ (if b then some scope_cycle else none)
          → elim l [ rooted l ↦ e | looped c ↦ some scope_cycle ]
            ≡ (if is_looped l || b then some scope_cycle else none)
      first_looped (rooted l) e b h = h
      first_looped (looped c) e b h = refl

  length-declared : (scopes : List (ScopeSpec p Value)) → length (declared scopes) ≡ length scopes
  length-declared [] = refl
  length-declared (s ∷ ss) = ap suc (length-declared ss)

  any-is_circular :
      (scopes : List (ScopeSpec p Value)) (paths : List String)
      → any (λ path. is_looped (lineage_of p Value (declared scopes) path)) paths
        ≡ any (is_circular scopes) paths
  any-is_circular scopes [] = refl
  any-is_circular scopes (x ∷ xs) =
      let d = declared scopes in
      let one : is_looped (lineage_of p Value d x) ≡ is_circular scopes x =
        is_looped-lineage_of p Value d x
        ∙ ap (λ n. is_some (climb p Value d (suc n) (some x))) (length-declared scopes) in
      ap (λ b. b || any (λ path. is_looped (lineage_of p Value d path)) xs) one
      ∙ ap (λ b. is_circular scopes x || b) (any-is_circular scopes xs)

  checked-IsIndex :
      (scopes : List (ScopeSpec p Value))
      → Nodup (paths_of scopes)
      → IsIndex scopes (checked p Value (declared scopes))
  unfolding checked verdict
  checked-IsIndex scopes n =
      let d = declared scopes in
      let parents = all_parents scopes scopes in
      let cycles =
        first_cycle_lem d (keys d)
        ∙ ap
            (λ l.
              if any (λ path. is_looped (lineage_of p Value d path)) l
              then some scope_cycle
              else none)
            (keys-declared scopes)
        ∙ ap (λ b. if b then some scope_cycle else none)
            (any-is_circular scopes (paths_of scopes)) in
      if_ind {A = Indexed p Value} (IsIndex scopes) (not (has "/" d))
        (λ e. ground (arith, e, has-declared "/" scopes))
        λ root.
          if_ind {A = Indexed p Value} (IsIndex scopes)
            (not (all (λ e. has_parent p Value d e.1) d)) (λ e. ground (arith, e, parents))
            λ whole.
              judged (any (is_circular scopes) (paths_of scopes)) refl
                (ground (arith, root, has-declared "/" scopes)) (ground (arith, whole, parents))
                cycles
    where
      judged :
          (b : Bool) {e : Option IndexError}
          → any (is_circular scopes) (paths_of scopes) ≡ b
          → elem "/" (paths_of scopes) ≡ true
          → any (is_orphan scopes) scopes ≡ false
          → e ≡ (if any (is_circular scopes) (paths_of scopes) then some scope_cycle else none)
          → IsIndex scopes (verdict p Value (declared scopes) e)
      judged true h root parents c = rw (c, h) h
      judged false h root parents c =
          rw (c, h) (record { distinct = n; root = root; parents = parents; acyclic = h }, refl)

  pub scope_index-IsIndex :
      (scopes : List (ScopeSpec p Value)) → IsIndex scopes (scope_index p Value scopes)
  unfolding scope_index
  scope_index-IsIndex scopes = judge (add_specs p Value scopes []) (add_specs-IsAdded scopes [])
    where
      judge :
          (r : Option (Specs p Value))
          → IsAdded [] scopes r
          → IsIndex scopes (elim r [ none ↦ rejected duplicate_path | some d ↦ checked p Value d ])
      judge none h = λ n. h (n, nothing_held (paths_of scopes))
      judge (some d) h =
          let (n, _, same) = h in
          subst (λ e. IsIndex scopes (checked p Value e)) (sym same) (checked-IsIndex scopes n)
