-- ===== src/Tools/Registrations.antt =====
-- Two plugins that bring a tool of one name, and the theorems at them.
use chassis.Prelude.{
  String, ◌≡◌, refl, Bool, true, false, some, [], ◌∷◌, nat_eq, string_eq, none, select, elem,
}
use mathlib.Core.List.{Perm}
use chassis.Prelude.Dict.{has}
use chassis.Tools.{RegisteredTool}
use chassis.Tools.Registry.{ToolRegistry, no_tools, add_tool, release, unregister, get_tool, found}
use chassis.Tools.Snapshots.{
  tool_snapshot, tool_names, own_names, tool_snapshot-IsByName, IsByName, tools_of,
}
use chassis.Tools.Indexed.{IsIndexed}
use chassis.Tools.Histories.{Reach, begun, added, IsAnswer, get_tool-IsAnswer, unregister_ends}

abbrev search_of : String → RegisteredTool
search_of owner_id = record {
  name = "search";
  owner_id = owner_id;
  policy = record { permissions = []; approval_required = false };
}

abbrev first : ToolRegistry
first = add_tool "tool_1" (search_of "old") no_tools

abbrev both : ToolRegistry
both = add_tool "tool_2" (search_of "new") first

runs : Unit {0}
unfolding add_tool release unregister get_tool no_tools has
runs = tt

both-Reach : Reach both
unfolding runs
both-Reach =
    added first "tool_2" (search_of "new") refl
      (added no_tools "tool_1" (search_of "old") refl begun)

newest_found : get_tool "search" both ≡ found (search_of "new")
unfolding runs
newest_found = refl

predecessor_back : get_tool "search" (release "tool_2" both).1 ≡ found (search_of "old")
unfolding runs
predecessor_back = refl

own_only : unregister "search" (some "old") both ≡ some (true, (release "tool_1" both).1)
unfolding runs
own_only = refl

get_tool-IsAnswer_example : IsAnswer "search" both (get_tool "search" both)
get_tool-IsAnswer_example = get_tool-IsAnswer both "search" both-Reach

unregister_ends_example :
    (out : Bool × ToolRegistry) × (unregister "search" (some "old") both ≡ some out)
    × IsIndexed out.1
unregister_ends_example = unregister_ends both "search" (some "old") both-Reach

published : tool_names (tool_snapshot "gen_0002" (some ("new" ∷ [])) both) ≡ "search" ∷ []
unfolding runs tool_snapshot tool_names
published = refl

own_names_of_old : own_names "old" both ≡ "search" ∷ []
unfolding runs own_names
own_names_of_old = refl

tool_snapshot-IsByName_example :
    IsByName (tool_snapshot "gen_0002" none both).entries
    × Perm (tool_snapshot "gen_0002" none both).entries (tools_of both.entries)
    × IsByName (tool_snapshot "gen_0002" (some ("new" ∷ [])) both).entries
    × Perm
        (tool_snapshot "gen_0002" (some ("new" ∷ [])) both).entries
        (tools_of (select (λ e. elem e.1.owner_id ("new" ∷ [])) both.entries))
tool_snapshot-IsByName_example = tool_snapshot-IsByName "gen_0002" ("new" ∷ []) both
