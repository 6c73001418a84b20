-- ===== src/Scopes/Unwinding.antt =====
-- Closing runs every disposer once, newest first, whatever fails (core/scope.py).
use chassis.Prelude.{
  String, ◌≡◌, refl, ap, ◌∙◌, Bool, true, false, ◌&&◌, not, Option, none, some, List, [], ◌∷◌,
  nat_eq, string_eq, if_ind, select,
}
use chassis.Prelude.Sorting.{sort}
use chassis.Prelude.Texts.{text_leb}
use chassis.Scopes.{
  Disposal, done, failed, escaped, Effects, open_state, closing, Task, timed_out, Ending, cancelled,
  finished, crashed, Entry, Scope, is_empty, record_failure, cleanup,
}
use chassis.Scopes.Closing.{
  unwind, answered, await_tasks, record_stragglers, stop_tasks, finish_close, close, aclose,
}

module _ (fx : Effects) where
  open fx use {Action, World, Error, perform}

  -- The world after the actions, the last of the list first.
  abbrev pub undo : List (String × Action) → World → World
  undo [] w = w
  undo ((d, a) ∷ rest) w = (perform a (undo rest w)).1

  -- The world after the entries of an exit stack, its top first.
  abbrev pub undo_stack : List (Entry fx) → World → World
  undo_stack [] w = w
  undo_stack (t ∷ ts) w = undo_stack ts (perform t.action w).1

  -- Whether every entry of an exit stack ends normally.
  abbrev pub is_done : Disposal Error → Bool
  is_done done = true
  is_done (failed e) = false
  is_done (escaped e) = false

  abbrev pub all_done : List (Entry fx) → World → Bool
  all_done [] w = true
  all_done (t ∷ ts) w = is_done (perform t.action w).0 && all_done ts (perform t.action w).1

  unfoldable pub cleanups : List (String × Action) → Scope fx → Scope fx
  unfolding cleanup
  cleanups [] s = s
  cleanups ((d, a) ∷ rest) s = cleanups rest (cleanup fx "effect" d a s).1

  unwind_world :
      (ts : List (Entry fx)) (e : Option Error) (s : Scope fx) (w : World)
      → (unwind fx ts e s w).2 ≡ undo_stack ts w
  unfolding unwind
  unwind_world [] e s w = refl
  unwind_world (t ∷ ts) e s w = unwind_world ts _ _ _

  -- Stopping tasks leaves the disposers and the effects alone.
  pub record IsUndisposed (s r : Scope fx) : Type 0 where
    pub stacked : r.stack ≡ s.stack
    pub owned : r.effects ≡ s.effects

  answered-IsUndisposed :
      (e : Option (Ending fx)) (t : Task) (s : Scope fx) → IsUndisposed s (answered fx e t s).0
  unfolding answered
  answered-IsUndisposed none t s = record { stacked = refl; owned = refl }
  answered-IsUndisposed (some cancelled) t s = record { stacked = refl; owned = refl }
  answered-IsUndisposed (some finished) t s = record { stacked = refl; owned = refl }
  answered-IsUndisposed (some (crashed e)) t s = record { stacked = refl; owned = refl }

  await_tasks-IsUndisposed :
      (ends : Task → Option (Ending fx)) (ts : List Task) (s : Scope fx)
      → IsUndisposed s (await_tasks fx ends ts s).0
  unfolding await_tasks
  await_tasks-IsUndisposed ends [] s = record { stacked = refl; owned = refl }
  await_tasks-IsUndisposed ends (t ∷ ts) s =
      let one = answered-IsUndisposed (ends t) t s in
      let rest = await_tasks-IsUndisposed ends ts (answered fx (ends t) t s).0 in
      record { stacked = rest.stacked ∙ one.stacked; owned = rest.owned ∙ one.owned }

  record_stragglers-IsUndisposed :
      (ts : List Task) (s : Scope fx) → IsUndisposed s (record_stragglers fx ts s)
  unfolding record_stragglers
  record_stragglers-IsUndisposed [] s = record { stacked = refl; owned = refl }
  record_stragglers-IsUndisposed (t ∷ ts) s =
      let rest = record_stragglers-IsUndisposed ts (record_failure fx t.name timed_out s) in
      record { stacked = rest.stacked; owned = rest.owned }

  pub stop_tasks-IsUndisposed :
      (ends : Task → Option (Ending fx)) (s : Scope fx) → IsUndisposed s (stop_tasks fx ends s)
  unfolding stop_tasks
  stop_tasks-IsUndisposed ends s =
      let pending = select (λ t. not t.is_done) s.tasks in
      let waited = await_tasks-IsUndisposed ends pending s in
      let late = sort (λ t u. text_leb t.name u.name) (await_tasks fx ends pending s).1 in
      let told =
        record_stragglers-IsUndisposed late
          (record ((await_tasks fx ends pending s).0) { stragglers = late }) in
      if_ind {A = Scope fx} (IsUndisposed s) (is_empty pending)
        (λ h. record { stacked = refl; owned = refl })
        (λ h. record { stacked = told.stacked ∙ waited.stacked; owned = told.owned ∙ waited.owned })

  world-finish_close : (r : Scope fx × Option Error × World) → (finish_close fx r).2 ≡ r.2
  unfolding finish_close
  world-finish_close (s, e, w) = refl

  pub world-close :
      (ends : Task → Option (Ending fx)) (s : Scope fx) (w : World)
      → (close fx ends s w).2 ≡ undo_stack s.stack w
  unfolding close
  world-close ends s w =
      let stopped = stop_tasks fx ends (record s { state = closing }) in
      let bare = record stopped { stack = [] } in
      world-finish_close (unwind fx stopped.stack none bare w)
      ∙ unwind_world stopped.stack none bare w
      ∙ ap (λ ts. undo_stack ts w)
          (stop_tasks-IsUndisposed ends (record s { state = closing })).stacked

  -- A scope that is open and has not been closed.
  pub record IsFresh (s : Scope fx) : Type 0 where
    pub unclosed : s.close_task ≡ none
    pub opened : s.state ≡ open_state

  cleanup-IsFresh :
      (d : String) (a : Action) (s : Scope fx) → IsFresh s → IsFresh (cleanup fx "effect" d a s).1
  unfolding cleanup
  cleanup-IsFresh d a s h = rw (h.opened) (record { unclosed = h.unclosed; opened = refl })

  cleanups-IsFresh :
      (cs : List (String × Action)) (s : Scope fx) → IsFresh s → IsFresh (cleanups cs s)
  unfolding cleanups
  cleanups-IsFresh [] s h = h
  cleanups-IsFresh ((d, a) ∷ rest) s h =
      cleanups-IsFresh rest (cleanup fx "effect" d a s).1 (cleanup-IsFresh d a s h)

  undo-cleanup :
      (d : String) (a : Action) (s : Scope fx) (w : World)
      → IsFresh s
      → undo_stack (cleanup fx "effect" d a s).1.stack w ≡ undo_stack s.stack (perform a w).1
  unfolding cleanup
  undo-cleanup d a s w h = rw (h.opened) refl

  undo-cleanups :
      (cs : List (String × Action)) (s : Scope fx) (w : World)
      → IsFresh s
      → undo_stack (cleanups cs s).stack w ≡ undo_stack s.stack (undo cs w)
  unfolding cleanups
  undo-cleanups [] s w h = refl
  undo-cleanups ((d, a) ∷ rest) s w h =
      undo-cleanups rest (cleanup fx "effect" d a s).1 w (cleanup-IsFresh d a s h)
      ∙ undo-cleanup d a s (undo rest w) h

  pub aclose-fresh :
      (ends : Task → Option (Ending fx)) (s : Scope fx) (w : World)
      → IsFresh s
      → aclose fx ends s w ≡ close fx ends s w
  unfolding aclose
  aclose-fresh ends s w h = rw (h.unclosed) (rw (h.opened) refl)

  -- Closing a scope that is open performs the action of every disposer that was registered exactly
  -- once, the newest first, whichever of them fail and however its tasks end.
  pub aclose-cleanups :
      (ends : Task → Option (Ending fx)) (cs : List (String × Action)) (s : Scope fx) (w : World)
      → IsFresh s
      → (aclose fx ends (cleanups cs s) w).2 ≡ undo_stack s.stack (undo cs w)
  aclose-cleanups ends cs s w h =
      ap (λ r. r.2) (aclose-fresh ends (cleanups cs s) w (cleanups-IsFresh cs s h))
      ∙ world-close ends (cleanups cs s) w
      ∙ undo-cleanups cs s w h
