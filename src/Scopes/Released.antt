-- ===== src/Scopes/Released.antt =====
-- What closing a scope releases, reports and refuses afterwards (core/scope.py).
use chassis.Prelude.{
  ℕ, String, ◌≡◌, refl, ap, ◌∙◌, Bool, false, Option, none, some, List, [], ◌∷◌, arith, nat_beq,
  nat_eq, string_eq, if◌then◌else◌, any,
}
use chassis.Prelude.Dict.{has, has-pop}
use chassis.Scopes.{
  Disposal, done, failed, escaped, Effects, closing, Task, Ending, Entry, Scope, release_effect,
}
use chassis.Scopes.Closing.{
  or_later, disposal, exit_entry, unwind, stop_tasks, finish_close, close, aclose,
}
use chassis.Scopes.Unwinding.{IsFresh, aclose-fresh, stop_tasks-IsUndisposed}

module _ (fx : Effects) where
  open fx use {Action, World, Error, perform}

  -- The entry for an effect stands on the stack.
  abbrev pub is_owned : ℕ → List (Entry fx) → Bool
  is_owned i ts = any (λ t. nat_beq t.owned.effect_id i) ts

  has-disposal :
      (i : ℕ) (d : String) (r : Disposal Error) (s : Scope fx)
      → has i (disposal fx d r s).0.effects ≡ has i s.effects
  unfolding disposal
  has-disposal i d done s = refl
  has-disposal i d (failed e) s = refl
  has-disposal i d (escaped e) s = refl

  has-exit_entry :
      (i : ℕ) (t : Entry fx) (s : Scope fx) (w : World)
      → has i (exit_entry fx t s w).0.effects
        ≡ (if nat_beq t.owned.effect_id i then false else has i s.effects)
  unfolding exit_entry
  has-exit_entry i t s w =
      has-disposal i t.owned.description (perform t.action w).0 (release_effect fx t.owned s)
      ∙ has-pop t.owned.effect_id i s.effects

  has-unwind :
      (i : ℕ) (ts : List (Entry fx)) (e : Option Error) (s : Scope fx) (w : World)
      → has i (unwind fx ts e s w).0.effects ≡ (if is_owned i ts then false else has i s.effects)
  unfolding unwind
  has-unwind i [] e s w = refl
  has-unwind i (t ∷ ts) e s w = ground (
    arith,
    has-unwind i ts (or_later fx e (exit_entry fx t s w).1) (exit_entry fx t s w).0
        (exit_entry fx t s w).2,
    has-exit_entry i t s w,
  )

  effects-finish_close :
      (r : Scope fx × Option Error × World) → (finish_close fx r).1.effects ≡ r.0.effects
  unfolding finish_close
  effects-finish_close (s, none, w) = refl
  effects-finish_close (s, some e, w) = refl

  -- Closing an open scope releases each effect that has a disposer and no other: an effect is still
  -- recorded afterwards exactly when it was before and no disposer was registered for it.
  pub has-aclose :
      (ends : Task → Option (Ending fx)) (s : Scope fx) (w : World) (i : ℕ)
      → IsFresh fx s
      → has i (aclose fx ends s w).1.effects
        ≡ (if is_owned i s.stack then false else has i s.effects)
  unfolding close
  has-aclose ends s w i h =
      let halted = record s { state = closing } in
      let stopped = stop_tasks fx ends halted in
      let kept = stop_tasks-IsUndisposed fx ends halted in
      let bare = record stopped { stack = [] } in
      ap (λ r. has i r.1.effects) (aclose-fresh fx ends s w h)
      ∙ ap (has i) (effects-finish_close (unwind fx stopped.stack none bare w))
      ∙ has-unwind i stopped.stack none bare w
      ∙ rw (kept.stacked) (rw (kept.owned) refl)
