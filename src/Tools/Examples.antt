-- ===== src/Tools/Examples.antt =====
-- A tool that writes notes, under a policy of grants, and the theorem at it.
use chassis.Prelude.{
  ℕ, ◌+◌, String, ◌≡◌, refl, Bool, true, false, none, some, List, [], ◌∷◌, nat_eq, string_eq,
}
use chassis.Policy.{Permission, GrantPolicy, evaluate, text_of}
use chassis.Policy.Globs.{fnmatchcase}
use chassis.Tools.{
  RegisteredTool, ToolSnapshot, ToolRequest, Boundary, decided, dispatched, returned, tool_named,
  tool_not_found, parse_permissions,
}
use chassis.Tools.Executor.{
  Act, asked, approved, charged, invoked, State, Run, done, raised, Setting,
}
use chassis.Tools.Calls.{execute}
use chassis.Tools.Guarded.{IsGuarded, execute-IsGuarded}

abbrev write_workspace : Permission
write_workspace = record { name = "filesystem.write"; resource = some "/workspace/**" }

abbrev policy : GrantPolicy
policy = record { grants = write_workspace ∷ []; needs_approval = "filesystem.write" ∷ [] }

-- The world counts what was charged, and the tool answers with its argument and one more.
abbrev boundary : (is_approved : Bool) → Boundary ℕ ℕ
boundary is_approved = record {
  dispatch = λ n w. (w, dispatched false none);
  evaluate = λ p w. (w, decided (evaluate policy p));
  approve = λ name args w. (w, some is_approved);
  consume = λ w. (w + 1, true);
  check = λ w. (w, true);
  ainvoke = λ name args w. (w, returned (args + 1) 0);
  redact_and_report = λ m. (m, false);
  redact_value = λ p. p;
  boundary_key = λ name args. name;
  deadline_message = λ name. name;
  no_value = 0;
}

abbrev setting : Setting ℕ ℕ
setting = record { has_hooks = true; has_policy = true; has_budget = true; raise_on_error = false }

abbrev note_tool : RegisteredTool
note_tool = record {
  name = "note";
  owner_id = "notes";
  policy = record {
    permissions = "filesystem.write:/workspace/notes" ∷ [];
    approval_required = false;
  };
}

abbrev wipe_tool : RegisteredTool
wipe_tool = record {
  name = "wipe";
  owner_id = "notes";
  policy = record { permissions = "filesystem.write:/etc" ∷ []; approval_required = false };
}

abbrev tools : ToolSnapshot
tools = record { generation_id = "gen_0001"; entries = note_tool ∷ wipe_tool ∷ [] }

abbrev request : String → ToolRequest ℕ
request name = record {
  name = name;
  args = 6;
  tool_call_id = none;
  generation_id = none;
  run_id = none;
}

abbrev trace_of : {A : Type 0} → Run ℕ ℕ A → List Act
trace_of r = elim r [ done s a ↦ s.trace | raised s e ↦ s.trace ]

abbrev fresh : State ℕ ℕ
fresh = record { world = 0; session = none; trace = [] }

runs : Unit {0}
unfolding execute evaluate parse_permissions fnmatchcase text_of
runs = tt

written :
    trace_of (execute ℕ ℕ (boundary true) setting tools (request "note") fresh)
    ≡ invoked "note"
      ∷ charged
      ∷ approved true
      ∷ asked "filesystem.write:/workspace/notes" true true
      ∷ []
unfolding runs
written = refl

unapproved :
    trace_of (execute ℕ ℕ (boundary false) setting tools (request "note") fresh)
    ≡ approved false ∷ asked "filesystem.write:/workspace/notes" true true ∷ []
unfolding runs
unapproved = refl

not_granted :
    trace_of (execute ℕ ℕ (boundary true) setting tools (request "wipe") fresh)
    ≡ asked "filesystem.write:/etc" false false ∷ []
unfolding runs
not_granted = refl

unknown_tool :
    execute ℕ ℕ (boundary true) setting tools (request "read") fresh ≡ raised fresh tool_not_found
unfolding runs
unknown_tool = refl

execute-IsGuarded_example :
    IsGuarded ℕ ℕ
      (boundary true)
      setting
      note_tool
      (execute ℕ ℕ (boundary true) setting tools (request "note") fresh)
unfolding tool_named
execute-IsGuarded_example =
    execute-IsGuarded ℕ ℕ (boundary true) setting tools (request "note") note_tool 0 none refl
