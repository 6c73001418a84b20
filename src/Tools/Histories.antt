-- ===== src/Tools/Histories.antt =====
-- Whatever is registered and released, the registry of tools finds what it holds
-- (src/chassis/tools/registry.py).
use chassis.Prelude.{
  String, ◌≡◌, refl, sym, ap, ◌∙◌, inl, inr, Bool, true, false, ◌||◌, Option, none, some, List, [],
  ◌∷◌, arith, ◌==◌, eq_beq, nat_eq, string_eq, Bool-cases, All, elem, All-any,
}
use mathlib.Core.Path.{subst}
use chassis.Prelude.Dict.{get, has}
use chassis.Activation.Reached.{Nodup}
use chassis.Tools.{RegisteredTool}
use chassis.Tools.Registry.{
  ToolRegistry, no_tools, ids_for, add_tool, release, later, last_of, release_if_owned,
  release_owned, next_turn, release_last, unregister, Lookup, nothing, key_error, found, entry_at,
  newest, get_tool,
}
use chassis.Tools.Indexed.{is_named, IsIndexed, add_tool-IsIndexed}
use chassis.Tools.Released.{is_some, release-IsIndexed, get-release}

-- The registries that come about, when an identifier that is drawn is not in use.
pub data Reach : ToolRegistry → Type 0 where
  begun : Reach no_tools
  added :
      (r : ToolRegistry) (id : String) (e : RegisteredTool)
      → has id r.entries ≡ false
      → Reach r
      → Reach (add_tool id e r)
  gone : (r : ToolRegistry) (id : String) → Reach r → Reach (release id r).1
  withdrawn :
      (r r' : ToolRegistry) (name : String) (owner : Option String) (removed : Bool)
      → unregister name owner r ≡ some (removed, r')
      → Reach r
      → Reach r'

-- The entries of these identifiers are there.
abbrev Present : ToolRegistry → List String → Type 0
Present r ids = All (λ id. is_some (get id r.entries) ≡ true) ids

Present-release :
    (id : String) (ids : List String) (r : ToolRegistry)
    → elem id ids ≡ false
    → Present r ids
    → Present (release id r).1 ids
Present-release id [] r n h = tt
Present-release id (x ∷ xs) r n h = (
  subst (λ o. is_some o ≡ true)
      (sym (get-release id x r (ground (arith, n, eq_beq id x, eq_beq x id)))) h.0,
  Present-release id xs r (ground (arith, n)) h.1,
)

-- The loop comes to its end, and keeps the index.
abbrev Ends : Option (Bool × ToolRegistry) → Type 0
Ends o = (out : Bool × ToolRegistry) × (o ≡ some out) × IsIndexed out.1

one_turn :
    (owner id : String) (o : Option RegisteredTool) (removed : Bool) (r : ToolRegistry)
    → get id r.entries ≡ o
    → is_some o ≡ true
    → IsIndexed r
    → (out : Bool × ToolRegistry) × (release_if_owned owner id o (removed, r) ≡ some out)
      × IsIndexed out.1
      × ((ids : List String) → elem id ids ≡ false → Present r ids → Present out.1 ids)
unfolding release_if_owned
one_turn owner id none removed r there s h = absurd (ground arith)
one_turn owner id (some e) removed r there s h = elim (Bool-cases (e.owner_id == owner)) [
  | inl k ↦ (
    ((release id r).0 || removed, (release id r).1),
    rw k refl,
    release-IsIndexed id r h,
    λ ids n p. Present-release id ids r n p,
  )
  | inr k ↦ ((removed, r), rw k refl, h, λ ids n p. p)
]

next_turn-Ends :
    (o : Option (Bool × ToolRegistry)) (k : Bool × ToolRegistry → Option (Bool × ToolRegistry))
    (t : Bool × ToolRegistry)
    → o ≡ some t
    → Ends (k t)
    → Ends (next_turn o k)
unfolding next_turn
next_turn-Ends o k t e h = subst (λ x. Ends (next_turn x k)) (sym e) h

release_owned-Ends :
    (owner : String) (ids : List String) (out : Bool × ToolRegistry)
    → IsIndexed out.1
    → Nodup ids
    → Present out.1 ids
    → Ends (release_owned owner ids out)
unfolding release_owned
release_owned-Ends owner [] out h n p = (out, refl, h)
release_owned-Ends owner (id ∷ ids) out h n p =
    let t = one_turn owner id (get id out.1.entries) out.0 out.1 refl p.0 h in
    let rest = release_owned-Ends owner ids t.0 t.2 n.1 (t.3 ids n.0 p.1) in
    next_turn-Ends (release_if_owned owner id (get id out.1.entries) out) (release_owned owner ids)
      t.0 t.1 rest

named-some : (name : String) (o : Option RegisteredTool) → is_named name o ≡ true → is_some o ≡ true
named-some name none h = absurd (ground arith)
named-some name (some e) h = refl

-- What the index lists is there.
listed-Present :
    (name : String) (r : ToolRegistry)
    → IsIndexed r
    → (ids : List String) → All (λ id. elem id (ids_for name r) ≡ true) ids
    → Present r ids
listed-Present name r h [] k = tt
listed-Present name r h (id ∷ ids) k = (
  named-some name (get id r.entries) (sym (h.listed id name) ∙ k.0),
  listed-Present name r h ids k.1,
)

all_members : (ids : List String) → All (λ id. elem id ids ≡ true) ids
all_members ids = All-any (λ (x y : String). y == x) ids (λ x. (eq_beq x x).1 refl)

last_released :
    (o : Option String) (r : ToolRegistry) → IsIndexed r → IsIndexed (release_last o r).1
unfolding release_last
last_released none r h = h
last_released (some id) r h = release-IsIndexed id r h

unregister-Ends :
    (name : String) (owner : Option String) (r : ToolRegistry)
    → IsIndexed r
    → Ends (unregister name owner r)
unfolding unregister release_last
unregister-Ends name (some owner) r h =
    release_owned-Ends owner (ids_for name r) (false, r) h (h.distinct name)
      (listed-Present name r h (ids_for name r) (all_members (ids_for name r)))
unregister-Ends name none r h =
    (release_last (last_of (ids_for name r)) r, refl, last_released (last_of (ids_for name r)) r h)

abbrev registry_in : Option (Bool × ToolRegistry) → ToolRegistry
registry_in none = no_tools
registry_in (some out) = out.1

no_tools-IsIndexed : IsIndexed no_tools
unfolding no_tools ids_for get
no_tools-IsIndexed = record { listed = λ id name. refl; distinct = λ name. tt }

Reach-IsIndexed : (r : ToolRegistry) → Reach r → IsIndexed r
Reach-IsIndexed _ begun = no_tools-IsIndexed
Reach-IsIndexed _ (added r id e fresh h) = add_tool-IsIndexed id e r fresh (Reach-IsIndexed r h)
Reach-IsIndexed _ (gone r id h) = release-IsIndexed id r (Reach-IsIndexed r h)
Reach-IsIndexed _ (withdrawn r r' name owner removed e h) =
    let ends = unregister-Ends name owner r (Reach-IsIndexed r h) in
    let e' = sym e ∙ ends.1 in subst IsIndexed (sym (ap registry_in e')) ends.2

-- What a lookup may say.
abbrev pub IsAnswer : String → ToolRegistry → Lookup → Type 0
IsAnswer name r nothing = (id : String) → is_named name (get id r.entries) ≡ false
IsAnswer name r key_error = true ≡ false
IsAnswer name r (found e) = e.name ≡ name

later_in : (y : String) (ids : List String) → elem (later y (last_of ids)) (y ∷ ids) ≡ true
unfolding later last_of
later_in y [] = ground (arith, (eq_beq y y).1 refl)
later_in y (x ∷ ids) = ground (arith, later_in x ids)

entry_at-IsAnswer :
    (name : String) (r : ToolRegistry) (o : Option RegisteredTool)
    → is_named name o ≡ true
    → IsAnswer name r (entry_at o)
unfolding entry_at
entry_at-IsAnswer name r none h = sym h
entry_at-IsAnswer name r (some e) h = (eq_beq e.name name).0 h

newest-IsAnswer :
    (name : String) (r : ToolRegistry) (ids : List String)
    → IsIndexed r
    → ids_for name r ≡ ids
    → IsAnswer name r (newest (last_of ids) r)
unfolding newest last_of
newest-IsAnswer name r [] h e = λ id. sym (h.listed id name) ∙ ap (elem id) e
newest-IsAnswer name r (y ∷ ids) h e =
    let x = later y (last_of ids) in
    entry_at-IsAnswer name r (get x r.entries)
      (sym (h.listed x name) ∙ ap (elem x) e ∙ later_in y ids)

-- Whatever is registered under new identifiers, released and withdrawn, a lookup never fails on a
-- dangling identifier: it finds a tool that bears the name, or there is no registration that does.
pub get_tool-IsAnswer :
    (r : ToolRegistry) (name : String) → Reach r → IsAnswer name r (get_tool name r)
unfolding get_tool
get_tool-IsAnswer r name h = newest-IsAnswer name r (ids_for name r) (Reach-IsIndexed r h) refl

-- Withdrawing a name comes to its end in every registry that comes about, whoever owns what, without
-- failing on an identifier that is gone, and leaves an index that fits what is registered.
pub unregister_ends :
    (r : ToolRegistry) (name : String) (owner : Option String)
    → Reach r
    → (out : Bool × ToolRegistry) × (unregister name owner r ≡ some out) × IsIndexed out.1
unregister_ends r name owner h = unregister-Ends name owner r (Reach-IsIndexed r h)
