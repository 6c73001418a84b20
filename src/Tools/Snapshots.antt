-- ===== src/Tools/Snapshots.antt =====
-- The tools that a generation publishes: `ToolRegistry.entries` and `snapshot`, `ToolSnapshot` and the
-- facade `ScopedTools` of src/chassis/tools/registry.py. A registration is a value, so that the frozen
-- copy of it is the registration itself.
use chassis.Prelude.{
  String, ◌≡◌, refl, sym, ap, Bool, true, Option, none, some, List, [], ◌∷◌, map, ◌==◌, nat_eq,
  string_eq, select, elem,
}
use mathlib.Core.Path.{subst}
use mathlib.Core.List.{Perm}
use mathlib.Core.List.Perm
use chassis.Prelude.Sorting.{sort, IsOrder, IsSorted, sort-perm, sort-IsSorted, select-sort}
use chassis.Prelude.Texts.{text_leb, pair_leb, text_leb-IsOrder, pair_leb_total, pair_leb_trans}
use chassis.Tools.{RegisteredTool, ToolSnapshot}
use chassis.Tools.Registry.{ToolRegistry, Registered, register, unregister}

-- `entries`, each with its identifier.
unfoldable pub live_entries : ToolRegistry → List (String × RegisteredTool)
unfolding sort pair_leb
live_entries r = sort (λ a b. pair_leb a.1.name a.0 b.1.name b.0) r.entries

unfoldable pub is_owner : Option (List String) → RegisteredTool → Bool
is_owner none e = true
is_owner (some owners) e = elem e.owner_id owners

unfoldable pub by_tool_name : List RegisteredTool → List RegisteredTool
unfolding sort text_leb
by_tool_name es = sort (λ a b. text_leb a.name b.name) es

unfoldable pub tool_snapshot : String → Option (List String) → ToolRegistry → ToolSnapshot
unfolding live_entries is_owner by_tool_name
tool_snapshot generation_id owners r = record {
  generation_id = generation_id;
  entries = by_tool_name (map (λ e. e.1) (select (λ e. is_owner owners e.1) (live_entries r)));
}

unfoldable pub tool_names : ToolSnapshot → List String
tool_names s = map (λ e. e.name) s.entries

-- `ScopedTools.register` and `ScopedTools.unregister`, bound to one owner.
unfoldable pub register_own :
    (scope_is_open is_tool is_async : Bool)
    → (owner_id id : String) → RegisteredTool
    → ToolRegistry
    → Registered
unfolding register
register_own scope_is_open is_tool is_async owner_id id e r =
    register scope_is_open is_tool is_async id
      (record { name = e.name; owner_id = owner_id; policy = e.policy }) r

unfoldable pub unregister_own : String → String → ToolRegistry → Option (Bool × ToolRegistry)
unfolding unregister
unregister_own owner_id name r = unregister name (some owner_id) r

unfoldable pub own_names : String → ToolRegistry → List String
unfolding live_entries
own_names owner_id r = map (λ e. e.1.name) (select (λ e. e.1.owner_id == owner_id) (live_entries r))

Perm-map : {A B : Type 0} (f : A → B) (xs ys : List A) → Perm xs ys → Perm (map f xs) (map f ys)
Perm-map f xs ys h = Perm.map f h

by_name-IsOrder : IsOrder (λ (a b : RegisteredTool). text_leb a.name b.name)
by_name-IsOrder = record {
  total = λ a b. text_leb-IsOrder.total a.name b.name;
  trans = λ a b c. text_leb-IsOrder.trans a.name b.name c.name;
}

by_id-IsOrder : IsOrder (λ (a b : String × RegisteredTool). pair_leb a.1.name a.0 b.1.name b.0)
by_id-IsOrder = record {
  total = λ a b. pair_leb_total a.1.name a.0 b.1.name b.0;
  trans = λ a b c. pair_leb_trans a.1.name a.0 b.1.name b.0 c.1.name c.0;
}

abbrev pub IsByName : List RegisteredTool → Type 0
IsByName es = IsSorted (λ a b. text_leb a.name b.name) es

-- The live registrations, without their identifiers.
abbrev pub tools_of : List (String × RegisteredTool) → List RegisteredTool
tools_of es = map (λ e. e.1) es

live_entries-perm : (r : ToolRegistry) → Perm (live_entries r) r.entries
unfolding live_entries
live_entries-perm r =
    sort-perm (λ (a b : String × RegisteredTool). pair_leb a.1.name a.0 b.1.name b.0) r.entries

select-live_entries :
    (q : String × RegisteredTool → Bool) (r : ToolRegistry)
    → Perm (select q (live_entries r)) (select q r.entries)
unfolding live_entries
select-live_entries q r =
    let before = λ (a b : String × RegisteredTool). pair_leb a.1.name a.0 b.1.name b.0 in
    subst (λ es. Perm es (select q r.entries)) (sym (select-sort by_id-IsOrder q r.entries))
      (sort-perm before (select q r.entries))

by_tool_name-perm : (es fs : List RegisteredTool) → Perm es fs → Perm (by_tool_name es) fs
unfolding by_tool_name
by_tool_name-perm es fs h =
    Perm.trans (sort-perm (λ (a b : RegisteredTool). text_leb a.name b.name) es) h

by_tool_name-IsByName : (es : List RegisteredTool) → IsByName (by_tool_name es)
unfolding by_tool_name
by_tool_name-IsByName es = sort-IsSorted by_name-IsOrder es

select_all : {A : Type 0} (xs : List A) → select (λ x. true) xs ≡ xs
select_all [] = refl
select_all (x ∷ xs) = ap (λ l. x ∷ l) (select_all xs)

-- A snapshot lists its tools by name. Taken without owners, it holds every live registration once for
-- each time that it is registered, and nothing else; taken for some owners, so much of those whose
-- owner is among them.
pub tool_snapshot-IsByName :
    (generation_id : String) (owners : List String) (r : ToolRegistry)
    → IsByName (tool_snapshot generation_id none r).entries
      × Perm (tool_snapshot generation_id none r).entries (tools_of r.entries)
      × IsByName (tool_snapshot generation_id (some owners) r).entries
      × Perm
          (tool_snapshot generation_id (some owners) r).entries
          (tools_of (select (λ e. elem e.1.owner_id owners) r.entries))
unfolding tool_snapshot
tool_snapshot-IsByName generation_id owners r =
    let whole : Perm (tools_of (select (λ e. true) (live_entries r))) (tools_of r.entries) =
      subst (λ es. Perm (tools_of es) (tools_of r.entries)) (sym (select_all (live_entries r)))
        (Perm-map (λ e. e.1) (live_entries r) r.entries (live_entries-perm r)) in
    let owned =
      Perm-map (λ (e : String × RegisteredTool). e.1)
        (select (λ e. elem e.1.owner_id owners) (live_entries r))
        (select (λ e. elem e.1.owner_id owners) r.entries)
        (select-live_entries (λ e. elem e.1.owner_id owners) r) in
    (
      by_tool_name-IsByName (tools_of (select (λ e. true) (live_entries r))),
      by_tool_name-perm _ _ whole,
      by_tool_name-IsByName (tools_of (select (λ e. elem e.1.owner_id owners) (live_entries r))),
      by_tool_name-perm _ _ owned,
    )
