-- ===== src/Scopes/Closing.antt =====
-- Entering contexts and closing a scope: `enter_context`, `_Cleanup.__aexit__`, `_stop_tasks`, `_close` and `aclose`
-- of src/chassis/core/scope.py.
use chassis.Prelude.{
  Bool, true, false, String, not, Option, none, some, List, [], ◌∷◌, ◌++◌, nat_beq, nat_eq,
  string_eq, if◌then◌else◌, select,
}
use chassis.Prelude.Sorting.{sort}
use chassis.Prelude.Texts.{text_leb}
use chassis.Scopes.{
  Disposal, done, failed, escaped, Effects, closing, closed, EffectRecord, Task, ScopeError, raised,
  timed_out, CleanupFailure, Ending, cancelled, finished, crashed, Entry, CloseOutcome, disposed,
  cleanup_error, Scope, Result, made, refused, is_empty, record_failure, release_effect,
  register_effect, push, is_closed_state,
}

module _ (fx : Effects) where
  open fx use {Action, World, Error, perform}

  -- How `__enter__` ends.
  pub data Entered : Type 0 where
    entered : EffectRecord → Entered
    not_open : ScopeError → Entered
    enter_failed : Error → Entered

  unfoldable pub enter_outcome :
      Action
      → Action
      → EffectRecord
      → Scope fx
      → Disposal Error × World
      → Entered × Scope fx × World
  unfolding push release_effect
  enter_outcome enter exit r s (done, w) = (entered r, push fx r exit s, w)
  enter_outcome enter exit r s (failed e, w) = (enter_failed e, release_effect fx r s, w)
  enter_outcome enter exit r s (escaped e, w) = (enter_failed e, release_effect fx r s, w)

  unfoldable pub enter_registered :
      Action → Action → World → Result fx EffectRecord × Scope fx → Entered × Scope fx × World
  unfolding enter_outcome
  enter_registered enter exit w (made r, s) = enter_outcome enter exit r s (perform enter w)
  enter_registered enter exit w (refused e, s) = (not_open e, s, w)

  unfoldable pub enter_context :
      (type_name : String) (enter exit : Action) → Scope fx → World → Entered × Scope fx × World
  unfolding enter_registered register_effect
  enter_context type_name enter exit s w =
      enter_registered enter exit w (register_effect fx "context" type_name s)

  -- The newest error that no wrapper swallows is the one that the exit stack raises.
  unfoldable pub or_later : Option Error → Option Error → Option Error
  or_later e (some later) = some later
  or_later e none = e

  unfoldable pub disposal : String → Disposal Error → Scope fx → Scope fx × Option Error
  unfolding record_failure
  disposal description done s = (s, none)
  disposal description (failed e) s = (record_failure fx description (raised e) s, none)
  disposal description (escaped e) s = (s, some e)

  unfoldable pub exit_entry : Entry fx → Scope fx → World → Scope fx × Option Error × World
  unfolding release_effect disposal
  exit_entry t s w =
      let result = perform t.action w in
      let after = disposal t.owned.description result.0 (release_effect fx t.owned s) in
      (after.0, after.1, result.1)

  unfoldable pub unwind :
      List (Entry fx) → Option Error → Scope fx → World → Scope fx × Option Error × World
  unfolding exit_entry or_later
  unwind [] pending s w = (s, pending, w)
  unwind (t ∷ ts) pending s w =
      let after = exit_entry t s w in unwind ts (or_later pending after.1) after.0 after.2

  unfoldable pub record_unwind : Option Error → Scope fx → Scope fx
  unfolding record_failure
  record_unwind none s = s
  record_unwind (some e) s = record_failure fx "effect unwind" (raised e) s

  unfoldable pub discard_task : Task → List Task → List Task
  discard_task t ts = select (λ u. not (nat_beq u.task_id t.task_id)) ts

  unfoldable pub task_failure : Task → Ending fx → Scope fx → Scope fx
  unfolding record_failure
  task_failure t cancelled s = s
  task_failure t finished s = s
  task_failure t (crashed e) s = record_failure fx t.name (raised e) s

  unfoldable pub on_task_done : Task → Ending fx → Scope fx → Scope fx
  unfolding task_failure discard_task
  on_task_done t ending s = task_failure t ending (record s { tasks = discard_task t s.tasks })

  -- A task that ends in time runs its callback; another is left over.
  unfoldable pub answered : Option (Ending fx) → Task → Scope fx → Scope fx × List Task
  unfolding on_task_done
  answered none t s = (s, t ∷ [])
  answered (some ending) t s = (on_task_done t ending s, [])

  unfoldable pub await_tasks :
      (Task → Option (Ending fx)) → List Task → Scope fx → Scope fx × List Task
  unfolding answered
  await_tasks ends [] s = (s, [])
  await_tasks ends (t ∷ ts) s =
      let one = answered (ends t) t s in
      let rest = await_tasks ends ts one.0 in (rest.0, one.1 ++ rest.1)

  unfoldable pub record_stragglers : List Task → Scope fx → Scope fx
  unfolding record_failure
  record_stragglers [] s = s
  record_stragglers (t ∷ ts) s = record_stragglers ts (record_failure fx t.name timed_out s)

  unfoldable pub stop_tasks : (Task → Option (Ending fx)) → Scope fx → Scope fx
  unfolding await_tasks record_stragglers is_empty sort text_leb
  stop_tasks ends s =
      let pending = select (λ t. not t.is_done) s.tasks in
      let after = await_tasks ends pending s in
      let late = sort (λ t u. text_leb t.name u.name) after.1 in
      if is_empty pending
      then s
      else record_stragglers late (record (after.0) { stragglers = late })

  unfoldable pub closing_of : List (CleanupFailure fx) → CloseOutcome fx
  closing_of [] = disposed
  closing_of (f ∷ fs) = cleanup_error (f ∷ fs)

  unfoldable pub finish_close : Scope fx × Option Error × World → CloseOutcome fx × Scope fx × World
  unfolding record_unwind closing_of
  finish_close (s, e, w) =
      let after = record_unwind e s in
      let outcome = closing_of after.failures in
      (outcome, record after { state = closed; close_task = some outcome }, w)

  unfoldable pub close :
      (Task → Option (Ending fx)) → Scope fx → World → CloseOutcome fx × Scope fx × World
  unfolding stop_tasks unwind finish_close
  close ends s w =
      let stopped = stop_tasks ends (record s { state = closing }) in
      finish_close (unwind stopped.stack none (record stopped { stack = [] }) w)

  unfoldable pub awaited :
      Option (CloseOutcome fx)
      → Bool
      → (Task → Option (Ending fx))
      → Scope fx
      → World
      → CloseOutcome fx × Scope fx × World
  unfolding close
  awaited (some outcome) shut ends s w = (outcome, s, w)
  awaited none true ends s w = (disposed, s, w)
  awaited none false ends s w = close ends s w

  -- The first call closes; every other call awaits the same task, so it has the same outcome.
  unfoldable pub aclose :
      (Task → Option (Ending fx)) → Scope fx → World → CloseOutcome fx × Scope fx × World
  unfolding awaited is_closed_state
  aclose ends s w = awaited s.close_task (is_closed_state s.state) ends s w
