-- ===== src/Scopes/Examples.antt =====
-- A scope with three disposers, one of which fails, and the theorems at it.
use chassis.Prelude.{
  ℕ, String, ◌≡◌, refl, ◌↔◌, true, false, Option, none, List, [], ◌∷◌, nat_beq, nat_eq, string_eq,
  if◌then◌else◌,
}
use chassis.Scopes.{
  Disposal, done, failed, escaped, Effects, ScopeState, open_state, closing, closed, EffectRecord,
  Task, ScopeError, scope_closed, CleanupFailure, Ending, cancelled, finished, crashed,
  CloseOutcome, disposed, cleanup_error, Scope, Result, made, refused, is_open, fully_disposed,
  register_effect, cleanup, child, create_task,
}
use chassis.Scopes
use chassis.Scopes.Closing.{aclose}
use chassis.Scopes.Unwinding.{all_done, IsFresh, cleanups, undo_stack, aclose-cleanups}
use chassis.Scopes.Outcomes.{disposed-aclose, tasks_end, aclose_twice, closed_refuses}

-- An action is a number that is written to a log; the action 0 fails.
abbrev log : Effects
log = record {
  Action = ℕ;
  World = List ℕ;
  Error = String;
  perform = λ n w. if nat_beq n 0 then (failed "zero", n ∷ w) else (done, n ∷ w);
}

abbrev start : Scope log
unfolding Scopes.fresh
start = Scopes.fresh log "scope_1"

abbrev never : Task → Option (Ending log)
never t = none

abbrev three : List (String × ℕ)
three = ("a", 1) ∷ ("b", 0) ∷ ("c", 3) ∷ []

abbrev owner : Scope log
owner = cleanups log three start

start-IsFresh : IsFresh log start
unfolding start
start-IsFresh = record { unclosed = refl; opened = refl }

abbrev one : Scope log
one = (cleanup log "effect" "a" 1 start).1

one-IsFresh : IsFresh log one
unfolding start cleanup
one-IsFresh = record { unclosed = refl; opened = refl }

newest_first : (aclose log never owner []).2 ≡ 1 ∷ 0 ∷ 3 ∷ []
unfolding start aclose cleanups cleanup
newest_first = refl

a_task_is_late :
    fully_disposed log
      (aclose log never
        (create_task log (record { task_id = 0; name = "t"; is_done = false }) start).1
        []).1
    ≡ false
unfolding start aclose create_task fully_disposed
a_task_is_late = refl

aclose-cleanups_example :
    (aclose log never owner []).2 ≡ undo_stack log start.stack (1 ∷ 0 ∷ 3 ∷ [])
aclose-cleanups_example = aclose-cleanups log never three start [] start-IsFresh

disposed-aclose_example :
    ((aclose log never one []).0 ≡ disposed) ↔ (all_done log one.stack [] ≡ true)
unfolding start cleanup
disposed-aclose_example = disposed-aclose log never one [] one-IsFresh refl refl

-- A task that did not end in time, and crashes after the close.
abbrev straggler : Task
straggler = record { task_id = 4; name = "late"; is_done = false }

abbrev busy : Scope log
unfolding start create_task
busy = (create_task log straggler start).1

abbrev crash : List (Task × Ending log)
crash = (straggler, crashed "late") ∷ []

aclose_twice_example :
    aclose log never (tasks_end log crash (aclose log never busy []).1) (7 ∷ [])
    ≡ ((aclose log never busy []).0, tasks_end log crash (aclose log never busy []).1, 7 ∷ [])
aclose_twice_example = aclose_twice log never never crash busy [] (7 ∷ [])

closed_refuses_example :
    (register_effect log "cleanup" "again" (aclose log never one []).1
      ≡ (refused scope_closed, (aclose log never one []).1))
    × (cleanup log "cleanup" "again" 5 (aclose log never one []).1
        ≡ (refused scope_closed, (aclose log never one []).1))
    × (child log "again" 5 (aclose log never one []).1
        ≡ (refused scope_closed, (aclose log never one []).1))
    × (create_task log straggler (aclose log never one []).1
        ≡ (refused scope_closed, (aclose log never one []).1))
closed_refuses_example = closed_refuses log never one [] "cleanup" "again" 5 straggler one-IsFresh
