-- ===== src/Tools/Registry.antt =====
-- The live registry of tools: `ToolRegistry` of src/chassis/tools/registry.py. Registrations are kept
-- under their identifiers, which are drawn outside, and an index keeps the identifiers of each name.
use chassis.Prelude.{
  String, Bool, true, false, ◌||◌, not, Option, none, some, List, [], ◌∷◌, ◌++◌, ◌==◌, nat_eq,
  string_eq, if◌then◌else◌,
}
use chassis.Prelude.Dict.{Dict, get, put, pop}
use chassis.Tools.{RegisteredTool}

pub record ToolRegistry : Type 0 where
  pub entries : Dict String RegisteredTool
  pub names : Dict String (List String)

unfoldable pub no_tools : ToolRegistry
no_tools = record { entries = []; names = [] }

unfoldable pub ids_or_empty : Option (List String) → List String
ids_or_empty none = []
ids_or_empty (some ids) = ids

-- `self._names.get(name, [])`
unfoldable pub ids_for : String → ToolRegistry → List String
unfolding ids_or_empty get
ids_for name r = ids_or_empty (get name r.names)

unfoldable pub add_tool : String → RegisteredTool → ToolRegistry → ToolRegistry
unfolding put ids_for
add_tool id e r = record {
  entries = put id e r.entries;
  names = put e.name (ids_for e.name r ++ id ∷ []) r.names;
}

pub data RegisterError : Type 0 where
  scope_not_open not_a_tool not_async : RegisterError

pub data Registered : Type 0 where
  registered : ToolRegistry → Registered
  rejected : RegisterError → Registered

-- `register`, with what it asks of the scope and of the object that is registered.
unfoldable pub register :
    (scope_is_open is_tool is_async : Bool) → String → RegisteredTool → ToolRegistry → Registered
unfolding add_tool
register scope_is_open is_tool is_async id e r =
    if not scope_is_open
    then rejected scope_not_open
    else if not is_tool
    then rejected not_a_tool
    else if not is_async
    then rejected not_async
    else registered (add_tool id e r)

-- `list.remove`, which takes the first occurrence away.
unfoldable pub remove_first : String → List String → List String
remove_first x [] = []
remove_first x (y ∷ ys) = let rest = remove_first x ys in if y == x then ys else y ∷ rest

unfoldable pub index_without :
    String → List String → Dict String (List String) → Dict String (List String)
unfolding pop put
index_without name [] names = pop name names
index_without name (x ∷ xs) names = put name (x ∷ xs) names

unfoldable pub drop_entry : String → Option RegisteredTool → ToolRegistry → Bool × ToolRegistry
unfolding pop index_without remove_first ids_for
drop_entry id none r = (false, r)
drop_entry id (some e) r = (
  true,
  record {
    entries = pop id r.entries;
    names = index_without e.name (remove_first id (ids_for e.name r)) r.names;
  },
)

-- `_release`
unfoldable pub release : String → ToolRegistry → Bool × ToolRegistry
unfolding drop_entry get
release id r = drop_entry id (get id r.entries) r

unfoldable pub later : String → Option String → String
later x none = x
later x (some y) = y

-- `ids[-1]`
unfoldable pub last_of : List String → Option String
unfolding later
last_of [] = none
last_of (x ∷ xs) = some (later x (last_of xs))

-- One turn of the loop of `unregister`, which fails with a `KeyError` if the entry is not there.
unfoldable pub release_if_owned :
    String → String → Option RegisteredTool → Bool × ToolRegistry → Option (Bool × ToolRegistry)
unfolding release
release_if_owned owner id none out = none
release_if_owned owner id (some e) (removed, r) =
    let gone = release id r in
    some (if e.owner_id == owner then (gone.0 || removed, gone.1) else (removed, r))

unfoldable pub next_turn :
    Option (Bool × ToolRegistry)
    → (Bool × ToolRegistry → Option (Bool × ToolRegistry))
    → Option (Bool × ToolRegistry)
next_turn none k = none
next_turn (some out) k = k out

-- The loop, over a copy of the identifiers.
unfoldable pub release_owned :
    String → List String → Bool × ToolRegistry → Option (Bool × ToolRegistry)
unfolding release_if_owned get next_turn
release_owned owner [] out = some out
release_owned owner (id ∷ ids) out =
    next_turn (release_if_owned owner id (get id out.1.entries) out) (release_owned owner ids)

unfoldable pub release_last : Option String → ToolRegistry → Bool × ToolRegistry
unfolding release
release_last none r = (false, r)
release_last (some id) r = release id r

unfoldable pub unregister : String → Option String → ToolRegistry → Option (Bool × ToolRegistry)
unfolding ids_for last_of release_last release_owned
unregister name none r = some (release_last (last_of (ids_for name r)) r)
unregister name (some owner) r = release_owned owner (ids_for name r) (false, r)

-- What a lookup in the index comes to: a `KeyError` if the index names an entry that is not there.
pub data Lookup : Type 0 where
  nothing key_error : Lookup
  found : RegisteredTool → Lookup

unfoldable pub entry_at : Option RegisteredTool → Lookup
entry_at none = key_error
entry_at (some e) = found e

unfoldable pub newest : Option String → ToolRegistry → Lookup
unfolding entry_at get
newest none r = nothing
newest (some id) r = entry_at (get id r.entries)

-- `get`
unfoldable pub get_tool : String → ToolRegistry → Lookup
unfolding newest last_of ids_for
get_tool name r = newest (last_of (ids_for name r)) r
