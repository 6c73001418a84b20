-- ===== src/Hooks/Chains.antt =====
-- For which handlers a dispatch raises (src/chassis/hooks/registry.py).
use chassis.Prelude.{
  String, ◌≡◌, ap, Bool, true, ◌&&◌, Option, List, [], ◌∷◌, arith, ◌==◌, eq_beq, nat_eq, string_eq,
  if_ind, any,
}
use mathlib.Core.Path.{subst}
use chassis.Hooks.{HookEvent, HookPayload, HookRegistration, HookRegistry, HookSnapshot}
use chassis.Hooks.Dispatch.{
  HookFailure, HookExecutionError, Dispatched, result, execution_error, base_exception, Turn, next,
  abort, replace, fault, stop, turn, raises, Chain, running, ended, take_turn, advance, run_chain,
  finish_chain, listening, dispatch,
}

module _ (Value Error : Type 0) where
  abbrev pub Item : Type 0
  Item = HookRegistration Value Error

  -- Some handler of the list raises its failures and bears this name.
  abbrev pub is_raiser : String → List Item → Bool
  unfolding raises
  is_raiser name items = any (λ i. raises i.error_policy && (i.handler_name == name)) items

  -- A chain left with an error was left by a raiser of the list with that name.
  abbrev IsExplained : List Item → Chain Value Error → Type 0
  IsExplained items (running p fs) = Unit
  IsExplained items (ended (result x)) = Unit
  IsExplained items (ended (base_exception x)) = Unit
  IsExplained items (ended (execution_error x)) = is_raiser x.handler_name items ≡ true

  turn-IsExplained :
      (i : Item) (p : HookPayload Value Error) (fs : List (HookFailure Value Error))
      (t : Turn Value Error)
      → IsExplained (i ∷ []) (take_turn Value Error i p fs t)
  unfolding take_turn is_raiser
  turn-IsExplained i p fs next = tt
  turn-IsExplained i p fs (replace q) = tt
  turn-IsExplained i p fs stop = tt
  turn-IsExplained i p fs (abort e) = tt
  turn-IsExplained i p fs (fault e) =
      if_ind (IsExplained (i ∷ [])) (raises i.error_policy)
        (λ h. ground (arith, eq_beq i.handler_name i.handler_name)) (λ h. tt)

  abbrev error_name : Dispatched Value Error → String
  error_name (result y) = ""
  error_name (base_exception y) = ""
  error_name (execution_error y) = y.handler_name

  -- Every raiser of the first list is one of the second.
  abbrev IsAmong : List Item → List Item → Type 0
  IsAmong items l = (name : String) → is_raiser name items ≡ true → is_raiser name l ≡ true

  widen-IsExplained :
      (xs l : List Item) (c : Chain Value Error) → IsAmong xs l → IsExplained xs c → IsExplained l c
  widen-IsExplained xs l (running p fs) m h = tt
  widen-IsExplained xs l (ended (result x)) m h = tt
  widen-IsExplained xs l (ended (base_exception x)) m h = tt
  widen-IsExplained xs l (ended (execution_error x)) m h = m x.handler_name h

  advance-IsExplained :
      (l : List Item) (i : Item) (c : Chain Value Error)
      → IsAmong (i ∷ []) l
      → IsExplained l c
      → IsExplained l (advance Value Error i c)
  unfolding advance
  advance-IsExplained l i (running p fs) m h =
      widen-IsExplained (i ∷ []) l _ m
        (turn-IsExplained i p fs (turn Value Error i.mode (i.handler p)))
  advance-IsExplained l i (ended d) m h = h

  run_chain-IsExplained :
      (items l : List Item) (c : Chain Value Error)
      → IsAmong items l
      → IsExplained l c
      → IsExplained l (run_chain Value Error items c)
  unfolding run_chain is_raiser
  run_chain-IsExplained [] l c m h = h
  run_chain-IsExplained (i ∷ items) l c m h =
      run_chain-IsExplained items l (advance Value Error i c) (λ name k. m name (ground arith))
        (advance-IsExplained l i c (λ name k. m name (ground arith)) h)

  explained :
      (l : List Item) (c : Chain Value Error) (x : HookExecutionError Value Error)
      → IsExplained l c
      → finish_chain Value Error c ≡ execution_error x
      → is_raiser x.handler_name l ≡ true
  unfolding finish_chain
  explained l (running p fs) x h e = absurd (ground arith)
  explained l (ended (result y)) x h e = absurd (ground arith)
  explained l (ended (base_exception y)) x h e = absurd (ground arith)
  explained l (ended (execution_error y)) x h e =
      let same : y.handler_name ≡ x.handler_name = ap error_name e in
      subst (λ n. is_raiser n l ≡ true) same h

  -- A dispatch raises a HookExecutionError only for a handler that listens to the event, bears the
  -- name in the error and was registered to raise its failures.
  pub dispatch_raises :
      (event : HookEvent) (p : HookPayload Value Error) (hooks : Option (HookSnapshot Value Error))
      (r : HookRegistry Value Error) (x : HookExecutionError Value Error)
      → dispatch Value Error event p hooks r ≡ execution_error x
      → is_raiser x.handler_name (listening Value Error event hooks r) ≡ true
  unfolding dispatch
  dispatch_raises event p hooks r x e =
      let items = listening Value Error event hooks r in
      explained items _ x (run_chain-IsExplained items items (running p []) (λ name k. k) tt) e
