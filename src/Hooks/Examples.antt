-- ===== src/Hooks/Examples.antt =====
-- Two plugins with a hook each, and the theorems at them.
use chassis.Prelude.{
  ◌==◌, sym, ap, ◌∙◌, if_ind, false, ℕ, String, ◌≡◌, refl, ◌≢◌, true, false, Option, none, some,
  List, [], ◌∷◌, map, arith, eq_beq, nat_eq, string_eq, select, elem,
}
use chassis.Prelude.Dict.{get}
use chassis.Prelude.Integers.{ℤ, pos, negsuc}
use chassis.Scopes
use chassis.Scopes.{Scope, Task, Ending}
use chassis.Scopes.Closing.{aclose}
use chassis.Scopes.Unwinding.{IsFresh}
use chassis.Hooks.{
  unregister, Registered, before_agent_run, agent_error, HookMode, observe, bail, HookErrorPolicy,
  record_policy, raise_policy, HookPayload, Reply, failure, no_value, other, HookRegistration,
  HookRegistry, hook_effects, register, handlers, snapshot, snapshot_handlers,
}
use chassis.Hooks.Dispatch.{handler_failed, dispatch, listening}
use chassis.Hooks.Order.{handlers-snapshot}
use chassis.Hooks.Chains.{dispatch_raises, is_raiser}
use chassis.Hooks.Ownership.{Owner, IsOwner, is_disposed_by, closed-IsGone, register-IsOwner}

abbrev Item : Type 0
Item = HookRegistration ℕ String

abbrev hook :
    String
    → HookMode
    → ℤ
    → HookErrorPolicy
    → (seq : ℕ) → (HookPayload ℕ String → Reply ℕ String)
    → Item
hook name mode priority policy seq handler = record {
  registration_id = name;
  event = before_agent_run;
  handler = handler;
  handler_name = name;
  mode = mode;
  priority = priority;
  error_policy = policy;
  sequence = seq;
  owner_id = "plugin_1";
  scope_id = "scope_1";
}

abbrev watcher : Item
watcher = hook "watcher" observe (pos 5) record_policy 1 (λ p. failure "down")

abbrev guard : Item
guard = hook "guard" bail (pos 1) record_policy 2 (λ p. other true)

abbrev strict : Item
strict = hook "strict" observe (negsuc 0) raise_policy 3 (λ p. failure "no")

abbrev holding : List Item → HookRegistry ℕ String
holding items = record { registrations = map (λ i. (i.registration_id, i)) items; sequence = 3 }

abbrev payload : HookPayload ℕ String
payload = ("x", 1) ∷ []

abbrev own : Owner ℕ String
unfolding Scopes.fresh
own = Scopes.fresh (hook_effects ℕ String) "scope_1"

abbrev elsewhere : Owner ℕ String
unfolding Scopes.fresh
elsewhere = Scopes.fresh (hook_effects ℕ String) "scope_2"

abbrev nothing : HookRegistry ℕ String
nothing = record { registrations = []; sequence = 0 }

abbrev never : Task → Option (Ending (hook_effects ℕ String))
never t = none

nothing-IsOwner : (s : Owner ℕ String) → IsOwner ℕ String s nothing
unfolding get
nothing-IsOwner s = record { owns = λ i item e same. absurd (ground arith) }

own-IsFresh : IsFresh (hook_effects ℕ String) own
unfolding own
own-IsFresh = record { unclosed = refl; opened = refl }

ids_differ : ◌≢◌ {A = String} "scope_1" "scope_2"
ids_differ e = absurd (ground (arith, (eq_beq {K = String} "scope_1" "scope_2").1 e))

by_priority :
    map
      (λ i. i.handler_name)
      (handlers ℕ String before_agent_run (holding (watcher ∷ guard ∷ strict ∷ [])))
    ≡ "strict" ∷ "guard" ∷ "watcher" ∷ []
unfolding handlers
by_priority = refl

handlers-snapshot_example :
    (snapshot_handlers ℕ String before_agent_run
        (snapshot ℕ String "gen_1" none (holding (watcher ∷ guard ∷ [])))
      ≡ handlers ℕ String before_agent_run (holding (watcher ∷ guard ∷ [])))
    × (snapshot_handlers ℕ String before_agent_run
          (snapshot ℕ String "gen_1" (some ("plugin_1" ∷ [])) (holding (watcher ∷ guard ∷ [])))
        ≡ select
            (λ item. elem item.owner_id ("plugin_1" ∷ []))
            (handlers ℕ String before_agent_run (holding (watcher ∷ guard ∷ []))))
handlers-snapshot_example =
    handlers-snapshot ℕ String before_agent_run "gen_1" ("plugin_1" ∷ [])
      (holding (watcher ∷ guard ∷ []))

dispatch_raises_example :
    is_raiser ℕ String "strict" (listening ℕ String before_agent_run none (holding (strict ∷ [])))
    ≡ true
unfolding listening dispatch
dispatch_raises_example =
    dispatch_raises ℕ String before_agent_run payload none (holding (strict ∷ []))
      (record { handler_name = "strict"; owner_id = "plugin_1"; error = handler_failed "no" }) refl

abbrev owner : Owner ℕ String
owner =
    (register ℕ String agent_error (λ p. no_value) "h" observe (pos 0) record_policy "plugin_1"
      "hook_1" own nothing).1

abbrev hooked : HookRegistry ℕ String
hooked =
    (register ℕ String agent_error (λ p. no_value) "h" observe (pos 0) record_policy "plugin_1"
      "hook_1" own nothing).2

owner-IsFresh : IsFresh (hook_effects ℕ String) owner
unfolding own register
owner-IsFresh = record { unclosed = refl; opened = refl }

abbrev outside : Item
outside = hook "outside" observe (pos 2) record_policy 1 (λ p. no_value)

abbrev shared : HookRegistry ℕ String
shared = record {
  registrations = ("hook_2", record outside { scope_id = "scope_2" }) ∷ [];
  sequence = 1;
}

abbrev scope_name : Option Item → String
scope_name none = "scope_2"
scope_name (some item) = item.scope_id

shared-scope : (i : String) → scope_name (get i shared.registrations) ≡ "scope_2"
unfolding get
shared-scope i =
    if_ind {A = Option Item} (λ o. scope_name o ≡ "scope_2") ("hook_2" == i) (λ e. refl) (λ e. refl)

shared-IsOwner : (s : Owner ℕ String) → s.id ≢ "scope_2" → IsOwner ℕ String s shared
shared-IsOwner s d = record {
  owns = λ i item e same. absurd (d (sym same ∙ sym (ap scope_name e) ∙ shared-scope i));
}

abbrev third : Owner ℕ String
unfolding Scopes.fresh
third = Scopes.fresh (hook_effects ℕ String) "scope_3"

abbrev after : Registered ℕ String × Owner ℕ String × HookRegistry ℕ String
after =
    register ℕ String agent_error (λ p. no_value) "h" observe (pos 0) record_policy "plugin_1"
      "hook_1" own shared

after-IsFresh : IsFresh (hook_effects ℕ String) after.1
unfolding own register
after-IsFresh = record { unclosed = refl; opened = refl }

after-IsOwner : IsOwner ℕ String after.1 after.2
unfolding own third
after-IsOwner =
    (register-IsOwner ℕ String agent_error (λ p. no_value) "h" observe (pos 0) record_policy
      "plugin_1" "hook_1" own third shared (shared-IsOwner own ids_differ)
      (shared-IsOwner third
        (λ e. absurd (ground (arith, (eq_beq {K = String} "scope_3" "scope_2").1 e))))
      (λ e. absurd (ground (arith, (eq_beq {K = String} "scope_1" "scope_3").1 e)))).0

closed-IsGone_example :
    ((record outside { scope_id = "scope_2" }).scope_id ≢ after.1.id)
    × (is_disposed_by ℕ String "hook_2" after.1.stack ≡ false)
    × (get "hook_2" after.2.registrations ≡ some (record outside { scope_id = "scope_2" }))
unfolding own register aclose get unregister
closed-IsGone_example =
    closed-IsGone ℕ String never after.1 after.2 "hook_2" (record outside { scope_id = "scope_2" })
      after-IsFresh after-IsOwner refl
