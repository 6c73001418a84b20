-- ===== src/Hooks/Ownership.antt =====
-- Hooks go with the scope that registered them (src/chassis/hooks/registry.py and core/scope.py).
use chassis.Prelude.{
  ℕ, sym, Bool-cases, inl, inr, String, ◌≡◌, refl, ap, ◌∙◌, ◌≢◌, Bool, true, false, ◌||◌, Option,
  none, some, List, [], ◌∷◌, arith, ◌==◌, if_ind, nat_eq, string_eq, if◌then◌else◌, any,
}
use chassis.Prelude.Dict.{get, put, get-put, get-pop}
use chassis.Prelude.Integers.{ℤ}
use chassis.Scopes.{is_open, cleanup, Scope, Task, Ending, Entry}
use chassis.Scopes.Closing.{aclose}
use chassis.Scopes.Unwinding.{IsFresh, aclose-fresh, world-close, undo_stack}
use chassis.Hooks.{
  HookEvent, HookMode, HookErrorPolicy, HookPayload, Reply, HookRegistration, HookRegistry,
  hook_effects, Registered, register, unregister,
}

module _ (Value Error : Type 0) where
  abbrev pub Owner : Type 0
  Owner = Scope (hook_effects Value Error)

  -- The scope has a disposer for the registration.
  abbrev pub is_disposed_by : String → List (Entry (hook_effects Value Error)) → Bool
  is_disposed_by i ts = any (λ t. t.action == i) ts

  get-undo_stack :
      (ts : List (Entry (hook_effects Value Error))) (r : HookRegistry Value Error) (i : String)
      → get i (undo_stack (hook_effects Value Error) ts r).registrations
        ≡ (if is_disposed_by i ts then none else get i r.registrations)
  unfolding unregister
  get-undo_stack [] r i = refl
  get-undo_stack (t ∷ ts) r i = ground (
    arith,
    get-undo_stack ts (unregister Value Error t.action r).1 i,
    get-pop t.action i r.registrations,
  )

  -- Closing a scope removes from the registry the hooks that it has a disposer for, and no other.
  pub get-aclose :
      (ends : Task → Option (Ending (hook_effects Value Error))) (s : Owner)
      (r : HookRegistry Value Error) (i : String)
      → IsFresh (hook_effects Value Error) s
      → get i (aclose (hook_effects Value Error) ends s r).2.registrations
        ≡ (if is_disposed_by i s.stack then none else get i r.registrations)
  get-aclose ends s r i h =
      ap (λ o. get i o.2.registrations) (aclose-fresh (hook_effects Value Error) ends s r h)
      ∙ ap (λ w. get i w.registrations) (world-close (hook_effects Value Error) ends s r)
      ∙ get-undo_stack s.stack r i

  -- Every hook that bears the scope's identifier has a disposer in that scope.
  pub record IsOwner (s : Owner) (r : HookRegistry Value Error) : Type 0 where
    pub owns :
        (i : String) (item : HookRegistration Value Error)
        → get i r.registrations ≡ some item
        → item.scope_id ≡ s.id
        → is_disposed_by i s.stack ≡ true

  -- No hook outlives its scope: when an open scope that owns its hooks has closed, however its tasks
  -- end, a hook that is still registered does not bear the scope's identifier, has no disposer in the
  -- scope, and was registered before, as it is.
  pub closed-IsGone :
      (ends : Task → Option (Ending (hook_effects Value Error))) (s : Owner)
      (r : HookRegistry Value Error) (i : String) (item : HookRegistration Value Error)
      → IsFresh (hook_effects Value Error) s
      → IsOwner s r
      → get i (aclose (hook_effects Value Error) ends s r).2.registrations ≡ some item
      → (item.scope_id ≢ s.id)
        × (is_disposed_by i s.stack ≡ false)
        × (get i r.registrations ≡ some item)
  closed-IsGone ends s r i item h o e = (
    λ same. ground (arith, get-aclose ends s r i h, o.owns i item),
    ground (arith, get-aclose ends s r i h),
    ground (arith, get-aclose ends s r i h),
  )

  disposers-cleanup :
      (description new j : String) (s : Owner)
      → is_open (hook_effects Value Error) s ≡ true
      → (is_disposed_by j (cleanup (hook_effects Value Error) "hook" description new s).1.stack
          ≡ (new == j || is_disposed_by j s.stack))
        × ((cleanup (hook_effects Value Error) "hook" description new s).1.id ≡ s.id)
  unfolding cleanup is_open
  disposers-cleanup description new j s h = ground arith

  abbrev scope_of : HookRegistration Value Error → Option (HookRegistration Value Error) → String
  scope_of it none = it.scope_id
  scope_of it (some item) = item.scope_id

  owner-put :
      (new : String) (it : HookRegistration Value Error) (n : ℕ) (s after : Owner)
      (r : HookRegistry Value Error)
      → IsOwner s r
      → ((j : String)
          → (is_disposed_by j after.stack ≡ (new == j || is_disposed_by j s.stack))
            × (after.id ≡ s.id))
      → IsOwner after (record { registrations = put new it r.registrations; sequence = n })
  owner-put new it n s after r o d = record {
    owns = λ i item e same. ground (arith, d i, get-put new i it r.registrations, o.owns i item);
  }

  other-put :
      (new : String) (it : HookRegistration Value Error) (n : ℕ) (other : Owner)
      (r : HookRegistry Value Error)
      → IsOwner other r
      → it.scope_id ≢ other.id
      → IsOwner other (record { registrations = put new it r.registrations; sequence = n })
  other-put new it n other r o d = record {
    owns = λ i item e same. elim (Bool-cases (new == i)) [
      | inl k ↦
          let found : some it ≡ some item =
            sym (get-put new i it r.registrations ∙ rw k refl) ∙ e in
          absurd (d (ap (λ o. scope_of it o) found ∙ same))
      | inr k ↦ o.owns i item (sym (get-put new i it r.registrations ∙ rw k refl) ∙ e) same
    ];
  }

  -- Registering a hook through a scope, open or not, keeps every hook that bears the scope's
  -- identifier owned by it, and leaves each other scope, whose identifier differs, the owner of its own.
  pub register-IsOwner :
      (event : HookEvent) (handler : HookPayload Value Error → Reply Value Error) (name : String)
      (mode : HookMode) (priority : ℤ) (policy : HookErrorPolicy) (owner_id new : String)
      (s other : Owner) (r : HookRegistry Value Error)
      → IsOwner s r
      → IsOwner other r
      → s.id ≢ other.id
      → IsOwner
          (register Value Error event handler name mode priority policy owner_id new s r).1
          (register Value Error event handler name mode priority policy owner_id new s r).2
        × IsOwner other
            (register Value Error event handler name mode priority policy owner_id new s r).2
  unfolding register
  register-IsOwner event handler name mode priority policy owner_id new s other r o k d =
      if_ind {A = Registered Value Error × Owner × HookRegistry Value Error}
        (λ t. IsOwner t.1 t.2 × IsOwner other t.2) (is_open (hook_effects Value Error) s)
        (λ h. (
          owner-put new _ _ s _ r o (λ j. disposers-cleanup name new j s h),
          other-put new _ _ other r k d,
        ))
        (λ h. (o, k))

  pub unregister-IsOwner :
      (i : String) (s : Owner) (r : HookRegistry Value Error)
      → IsOwner s r
      → IsOwner s (unregister Value Error i r).1
  unfolding unregister
  unregister-IsOwner i s r o = record {
    owns = λ j item e same. ground (arith, get-pop i j r.registrations, o.owns j item);
  }
