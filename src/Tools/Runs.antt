-- ===== src/Tools/Runs.antt =====
-- Runs of the executor, the acts that its traces are read for, and what a run ensures
-- (src/chassis/tools/executor.py).
use chassis.Prelude.{
  String, ◌≡◌, refl, Bool, true, false, ◌&&◌, ◌||◌, not, Option, none, some, List, [], ◌∷◌, arith,
  ◌==◌, nat_eq, string_eq, if_ind, any, all,
}
use chassis.Policy.{Permission, text_of}
use chassis.Tools.{Notice, Dispatched, dispatch_failed, dispatched, Boundary}
use chassis.Tools.Executor.{
  Act, asked, approved, charged, invoked, replayed, State, Run, done, raised, andthen, at_world,
  Setting, noticed, dispatch,
}

abbrev pub is_run : Act → Bool
is_run a = elim a [
  | invoked n ↦ true
  | replayed n ↦ true
  | asked p b c ↦ false
  | approved b ↦ false
  | charged ↦ false
]

-- The policy allowed this permission.
abbrev pub grants : String → Act → Bool
grants x a = elim a [
  | asked p b c ↦ b && p == x
  | invoked n ↦ false
  | replayed n ↦ false
  | approved b ↦ false
  | charged ↦ false
]

-- The policy asked for approval.
abbrev pub flags : Act → Bool
flags a = elim a [
  | asked p b c ↦ c
  | invoked n ↦ false
  | replayed n ↦ false
  | approved b ↦ false
  | charged ↦ false
]

abbrev pub is_approval : Act → Bool
is_approval a = elim a [
  | approved b ↦ b
  | asked p b c ↦ false
  | invoked n ↦ false
  | replayed n ↦ false
  | charged ↦ false
]

abbrev pub is_charge : Act → Bool
is_charge a = elim a [
  | charged ↦ true
  | asked p b c ↦ false
  | approved b ↦ false
  | invoked n ↦ false
  | replayed n ↦ false
]

abbrev pub all_granted : Option (List Permission) → List Act → Bool
all_granted none t = false
all_granted (some ps) t = all (λ p. any (grants (text_of p)) t) ps

all-cons :
    (ps : List Permission) (a : Act) (t : List Act)
    → ((x : String) → grants x a ≡ false)
    → all (λ p. any (grants (text_of p)) (a ∷ t)) ps ≡ all (λ p. any (grants (text_of p)) t) ps
all-cons [] a t h = refl
all-cons (p ∷ ps) a t h = ground (arith, h (text_of p), all-cons ps a t h)

-- Another act leaves what was granted.
pub granted-cons :
    (has_policy : Bool) (ps : Option (List Permission)) (a : Act) (t : List Act)
    → ((x : String) → grants x a ≡ false)
    → (not has_policy || all_granted ps t) ≡ true
    → (not has_policy || all_granted ps (a ∷ t)) ≡ true
granted-cons has_policy none a t h k = k
granted-cons has_policy (some ps) a t h k = rw (all-cons ps a t h) k

module _ (World : Type 0) (Value : Type 0) where
  -- A run that ends in one of two ways.
  abbrev pub Ensures {ℓ} :
      {A : Type 0}
      → (State World Value → A → Type ℓ)
      → (State World Value → Type ℓ)
      → Run World Value A
      → Type ℓ
  Ensures P Q (done s a) = P s a
  Ensures P Q (raised s e) = Q s

  pub Ensures-andthen {ℓ κ} :
      {A B : Type 0} (P : State World Value → A → Type ℓ) (Q : State World Value → Type ℓ)
      (P' : State World Value → B → Type κ) (Q' : State World Value → Type κ)
      (r : Run World Value A) (k : State World Value → A → Run World Value B)
      → Ensures P Q r
      → ((s : State World Value) (a : A) → P s a → Ensures P' Q' (k s a))
      → ((s : State World Value) → Q s → Q' s)
      → Ensures P' Q' (andthen World Value r k)
  unfolding andthen
  Ensures-andthen P Q P' Q' (done s a) k h f g = f s a h
  Ensures-andthen P Q P' Q' (raised s e) k h f g = g s h

  pub Ensures-map {ℓ κ} :
      {A : Type 0} (P : State World Value → A → Type ℓ) (Q : State World Value → Type ℓ)
      (P' : State World Value → A → Type κ) (Q' : State World Value → Type κ)
      (r : Run World Value A)
      → Ensures P Q r
      → ((s : State World Value) (a : A) → P s a → P' s a)
      → ((s : State World Value) → Q s → Q' s)
      → Ensures P' Q' r
  Ensures-map P Q P' Q' (done s a) h f g = f s a h
  Ensures-map P Q P' Q' (raised s e) h f g = g s h

  -- Nothing has been invoked or replayed.
  abbrev pub Quiet : State World Value → Type 0
  Quiet s = any is_run s.trace ≡ false

  module _ (b : Boundary Value World) (set : Setting World Value) where
    noticed-trace :
        (s : State World Value) (d : Dispatched Value)
        → Ensures
            (λ s' r. s'.trace ≡ s.trace)
            (λ s'. s'.trace ≡ s.trace)
            (noticed World Value b set s d)
    unfolding noticed
    noticed-trace s (dispatch_failed e) = refl
    noticed-trace s (dispatched stopped args) = refl

    -- A dispatch notes nothing.
    pub dispatch-trace :
        (n : Notice Value) (s : State World Value)
        → Ensures
            (λ s' r. s'.trace ≡ s.trace)
            (λ s'. s'.trace ≡ s.trace)
            (dispatch World Value b set n s)
    unfolding dispatch at_world
    dispatch-trace n s =
        if_ind {A = Run World Value (Bool × Option Value)}
          (Ensures (λ s' r. s'.trace ≡ s.trace) (λ s'. s'.trace ≡ s.trace)) (not set.has_hooks)
          (λ e. refl)
          (λ e.
            noticed-trace (at_world World Value (b.dispatch n s.world).0 s)
              (b.dispatch n s.world).1)
