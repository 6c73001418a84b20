-- ===== src/Scopes/Outcomes.antt =====
-- What closing a scope reports, and what a closed scope refuses (core/scope.py).
use chassis.Prelude.{
  String, ◌≡◌, refl, sym, ap, ◌∙◌, ◌↔◌, inl, inr, Bool, true, false, ◌&&◌, Option, none, some, List,
  [], ◌∷◌, ◌++◌, arith, nat_eq, string_eq, Bool-cases, Option-cases,
}
use mathlib.Core.Path.{subst}
use chassis.Scopes.{
  Disposal, done, failed, escaped, Effects, closing, closed, Task, scope_closed, raised,
  CleanupFailure, Ending, cancelled, finished, crashed, Entry, CloseOutcome, disposed, Scope,
  refused, is_empty, is_closed_state, record_failure, release_effect, register_effect, cleanup,
  child, create_task,
}
use chassis.Scopes.Closing.{
  or_later, disposal, exit_entry, unwind, record_unwind, stop_tasks, closing_of, finish_close,
  close, awaited, aclose, on_task_done, task_failure,
}
use chassis.Scopes.Unwinding.{all_done, is_done, IsFresh, aclose-fresh}

abbrev pub is_none {ℓ} : {A : Type ℓ} → Option A → Bool
is_none none = true
is_none (some a) = false

and_assoc : (a b c : Bool) → ((a && b) && c) ≡ (a && (b && c))
and_assoc a b c = ground arith

module _ (fx : Effects) where
  open fx use {Action, World, Error, perform}

  -- Nothing has failed so far.
  abbrev is_clean : Scope fx → Option Error → Bool
  unfolding is_empty
  is_clean s e = is_empty s.failures && is_none e

  is_empty-append :
      (fs : List (CleanupFailure fx)) (f : CleanupFailure fx) → is_empty (fs ++ f ∷ []) ≡ false
  unfolding is_empty
  is_empty-append [] f = refl
  is_empty-append (g ∷ fs) f = refl

  is_clean-disposal :
      (d : String) (r : Disposal Error) (e : Option Error) (s : Scope fx)
      → is_clean (disposal fx d r s).0 (or_later fx e (disposal fx d r s).1)
        ≡ (is_clean s e && is_done fx r)
  unfolding is_clean disposal or_later record_failure
  is_clean-disposal d done e s = ground arith
  is_clean-disposal d (failed x) e s =
      ground (arith, is_empty-append s.failures (record { description = d; error = raised x }))
  is_clean-disposal d (escaped x) e s = ground arith

  is_clean-unwind :
      (ts : List (Entry fx)) (e : Option Error) (s : Scope fx) (w : World)
      → is_clean (unwind fx ts e s w).0 (unwind fx ts e s w).1 ≡ (is_clean s e && all_done fx ts w)
  unfolding unwind exit_entry release_effect is_clean
  is_clean-unwind [] e s w = ground arith
  is_clean-unwind (t ∷ ts) e s w =
      let one =
        is_clean-disposal t.owned.description (perform t.action w).0 e
          (release_effect fx t.owned s) in
      let after = exit_entry fx t s w in
      is_clean-unwind ts (or_later fx e after.1) after.0 after.2
      ∙ ap (λ b. b && all_done fx ts after.2) one
      ∙ and_assoc (is_clean s e) (is_done fx (perform t.action w).0) (all_done fx ts after.2)

  closing_of-disposed :
      (fs : List (CleanupFailure fx)) → (closing_of fx fs ≡ disposed) ↔ (is_empty fs ≡ true)
  unfolding closing_of is_empty
  closing_of-disposed [] = ground arith
  closing_of-disposed (f ∷ fs) = ground arith

  failures-record_unwind :
      (e : Option Error) (s : Scope fx) → is_empty (record_unwind fx e s).failures ≡ is_clean s e
  unfolding record_unwind is_clean record_failure
  failures-record_unwind none s = ground arith
  failures-record_unwind (some e) s = ground (
    arith,
    is_empty-append s.failures (record { description = "effect unwind"; error = raised e }),
  )

  disposed-finish_close :
      (r : Scope fx × Option Error × World)
      → ((finish_close fx r).0 ≡ disposed) ↔ (is_clean r.0 r.1 ≡ true)
  unfolding finish_close
  disposed-finish_close (s, e, w) =
      let both = closing_of-disposed (record_unwind fx e s).failures in
      let same = failures-record_unwind e s in (λ h. sym same ∙ both.0 h, λ h. both.1 (same ∙ h))

  -- An open scope that owns no task and has recorded no failure closes without an error exactly when
  -- every disposer on its stack ends normally, run newest first in the world its predecessors leave.
  pub disposed-aclose :
      (ends : Task → Option (Ending fx)) (s : Scope fx) (w : World)
      → IsFresh fx s
      → s.tasks ≡ []
      → s.failures ≡ []
      → ((aclose fx ends s w).0 ≡ disposed) ↔ (all_done fx s.stack w ≡ true)
  unfolding close stop_tasks is_clean
  disposed-aclose ends s w h idle well =
      let halted = record s { state = closing } in
      let bare = record halted { stack = [] } in
      let clean : is_clean (unwind fx s.stack none bare w).0 (unwind fx s.stack none bare w).1
          ≡ all_done fx s.stack w =
        is_clean-unwind s.stack none bare w ∙ rw well refl in
      let both = disposed-finish_close (unwind fx s.stack none bare w) in
      let same : aclose fx ends s w ≡ finish_close fx (unwind fx s.stack none bare w) =
        aclose-fresh fx ends s w h ∙ rw idle refl in
      (
        λ e. sym clean ∙ both.0 (sym (ap (λ r. r.0) same) ∙ e),
        λ e. ap (λ r. r.0) same ∙ both.1 (clean ∙ e),
      )

  -- Tasks of the scope that end, one after the other, and run their callbacks.
  abbrev pub tasks_end : List (Task × Ending fx) → Scope fx → Scope fx
  unfolding on_task_done
  tasks_end [] s = s
  tasks_end ((t, ending) ∷ es) s = tasks_end es (on_task_done fx t ending s)

  -- The fields that a second close reads.
  abbrev IsSettled : Option (CloseOutcome fx) → Bool → Scope fx → Type 0
  IsSettled c shut s = (s.close_task ≡ c) × (is_closed_state s.state ≡ shut)

  on_task_done-IsSettled :
      (t : Task) (ending : Ending fx) (c : Option (CloseOutcome fx)) (shut : Bool) (s : Scope fx)
      → IsSettled c shut s
      → IsSettled c shut (on_task_done fx t ending s)
  unfolding on_task_done task_failure record_failure
  on_task_done-IsSettled t cancelled c shut s h = h
  on_task_done-IsSettled t finished c shut s h = h
  on_task_done-IsSettled t (crashed e) c shut s h = h

  tasks_end-IsSettled :
      (es : List (Task × Ending fx)) (c : Option (CloseOutcome fx)) (shut : Bool) (s : Scope fx)
      → IsSettled c shut s
      → IsSettled c shut (tasks_end es s)
  unfolding tasks_end
  tasks_end-IsSettled [] c shut s h = h
  tasks_end-IsSettled ((t, ending) ∷ es) c shut s h =
      tasks_end-IsSettled es c shut (on_task_done fx t ending s)
        (on_task_done-IsSettled t ending c shut s h)

  finish_close-IsSettled :
      (r : Scope fx × Option Error × World)
      → IsSettled (some (finish_close fx r).0) true (finish_close fx r).1
  unfolding finish_close is_closed_state
  finish_close-IsSettled (s, e, w) = (refl, refl)

  abbrev unwound : (Task → Option (Ending fx)) → Scope fx → World → Scope fx × Option Error × World
  unwound ends s w =
      let stopped = stop_tasks fx ends (record s { state = closing }) in
      unwind fx stopped.stack none (record stopped { stack = [] }) w

  aclose-awaited :
      (ends : Task → Option (Ending fx)) (s : Scope fx) (w : World) (o : CloseOutcome fx)
      → s.close_task ≡ some o
      → aclose fx ends s w ≡ (o, s, w)
  unfolding aclose
  aclose-awaited ends s w o e = ap (λ c. awaited fx c (is_closed_state s.state) ends s w) e

  aclose-closed :
      (ends : Task → Option (Ending fx)) (s : Scope fx) (w : World)
      → s.close_task ≡ none
      → is_closed_state s.state ≡ true
      → aclose fx ends s w ≡ (disposed, s, w)
  unfolding aclose
  aclose-closed ends s w e h =
      ap (λ c. awaited fx c (is_closed_state s.state) ends s w) e
      ∙ ap (λ b. awaited fx none b ends s w) h

  aclose-unclosed :
      (ends : Task → Option (Ending fx)) (s : Scope fx) (w : World)
      → s.close_task ≡ none
      → is_closed_state s.state ≡ false
      → aclose fx ends s w ≡ finish_close fx (unwound ends s w)
  unfolding aclose close
  aclose-unclosed ends s w e h =
      ap (λ c. awaited fx c (is_closed_state s.state) ends s w) e
      ∙ ap (λ b. awaited fx none b ends s w) h

  -- Closing again, after any of the tasks left over have ended in any way, in another world: the
  -- outcome of the first close is reported again, nothing is performed and the scope is left as it is.
  pub aclose_twice :
      (ends again : Task → Option (Ending fx)) (es : List (Task × Ending fx)) (s : Scope fx)
      (w later : World)
      → aclose fx again (tasks_end es (aclose fx ends s w).1) later
        ≡ ((aclose fx ends s w).0, tasks_end es (aclose fx ends s w).1, later)
  aclose_twice ends again es s w later =
      let P : CloseOutcome fx × Scope fx × World → Type 0 =
        λ r. aclose fx again (tasks_end es r.1) later ≡ (r.0, tasks_end es r.1, later) in
      elim (Option-cases s.close_task) [
        | inl unclosed ↦ elim (Bool-cases (is_closed_state s.state)) [
          | inl e ↦
              let kept = tasks_end-IsSettled es none true s (unclosed, e) in
              subst P (sym (aclose-closed ends s w unclosed e))
                (aclose-closed again (tasks_end es s) later kept.0 kept.1)
          | inr e ↦
              let first = finish_close fx (unwound ends s w) in
              let kept =
                tasks_end-IsSettled es (some first.0) true first.1
                  (finish_close-IsSettled (unwound ends s w)) in
              subst P (sym (aclose-unclosed ends s w unclosed e))
                (aclose-awaited again (tasks_end es first.1) later first.0 kept.0)
        ]
        | inr (o, e) ↦
            let kept = tasks_end-IsSettled es (some o) (is_closed_state s.state) s (e, refl) in
            subst P (sym (aclose-awaited ends s w o e))
              (aclose-awaited again (tasks_end es s) later o kept.0)
      ]

  state-finish_close : (r : Scope fx × Option Error × World) → (finish_close fx r).1.state ≡ closed
  unfolding finish_close
  state-finish_close (s, e, w) = refl

  refuses :
      (s : Scope fx) (kind description : String) (a : Action) (t : Task)
      → s.state ≡ closed
      → (register_effect fx kind description s ≡ (refused scope_closed, s))
        × (cleanup fx kind description a s ≡ (refused scope_closed, s))
        × (child fx description a s ≡ (refused scope_closed, s))
        × (create_task fx t s ≡ (refused scope_closed, s))
  unfolding child create_task
  refuses s kind description a t h = rw h (refl, refl, refl, refl)

  -- An open scope, once it is closed, refuses every effect, disposer, child and task, and each refusal
  -- leaves it as it is.
  pub closed_refuses :
      (ends : Task → Option (Ending fx)) (s : Scope fx) (w : World) (kind description : String)
      (a : Action) (t : Task)
      → IsFresh fx s
      → (register_effect fx kind description (aclose fx ends s w).1
          ≡ (refused scope_closed, (aclose fx ends s w).1))
        × (cleanup fx kind description a (aclose fx ends s w).1
            ≡ (refused scope_closed, (aclose fx ends s w).1))
        × (child fx description a (aclose fx ends s w).1
            ≡ (refused scope_closed, (aclose fx ends s w).1))
        × (create_task fx t (aclose fx ends s w).1 ≡ (refused scope_closed, (aclose fx ends s w).1))
  unfolding close finish_close
  closed_refuses ends s w kind description a t h =
      let shut : (aclose fx ends s w).1.state ≡ closed =
        ap (λ r. r.1.state) (aclose-fresh fx ends s w h) ∙ state-finish_close (unwound ends s w) in
      refuses (aclose fx ends s w).1 kind description a t shut
