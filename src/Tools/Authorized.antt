-- ===== src/Tools/Authorized.antt =====
-- What `_authorize` of src/chassis/tools/executor.py has found out when it lets a call through.
use chassis.Prelude.{
  String, ◌≡◌, refl, sym, ap, ◌∙◌, Bool, true, false, ◌||◌, not, Option, none, some, List, [], ◌∷◌,
  arith, eq_beq, nat_eq, string_eq, if◌then◌else◌, if_ind, any, all,
}
use mathlib.Core.Path.{subst}
use chassis.Policy.{Permission, PolicyResult, text_of}
use chassis.Tools.{
  RegisteredTool, policy_decision, Decision, undecided, decided, Boundary, parse_permissions,
}
use chassis.Tools.Executor.{
  Act, asked, approved, State, Run, done, at_world, note, Setting, dispatch, decide, ask,
  ask_parsed, gated, gate, authorize,
}
use chassis.Tools.Runs.{
  is_run, grants, flags, is_approval, all_granted, granted-cons, Ensures, Ensures-andthen,
  Ensures-map, Quiet, dispatch-trace,
}

module _ (World : Type 0) (Value : Type 0) (b : Boundary Value World)
    (set : Setting World Value) where
  -- What a trace says after permissions were asked for.
  pub record Asked (ps : List Permission) (t t' : List Act) (approval approval' : Bool)
      : Type 0 where
    pub quiet : any is_run t ≡ false → any is_run t' ≡ false
    pub allowed : all (λ p. any (grants (text_of p)) t') ps ≡ true
    pub kept : (x : String) → any (grants x) t ≡ true → any (grants x) t' ≡ true
    pub flagged : (a : Bool) → approval ≡ (a || any flags t) → approval' ≡ (a || any flags t')

  granted_now :
      (p : Permission) (s : State World Value) (r : PolicyResult) (s' : State World Value)
      → s'.trace ≡ asked (text_of p) r.allowed r.approval_required ∷ s.trace
      → r.allowed ≡ true
      → all (λ p. any (grants (text_of p)) s'.trace) (p ∷ []) ≡ true
  granted_now p s r s' e y =
      ground (arith, ap (any (grants (text_of p))) e, y, (eq_beq (text_of p) (text_of p)).1 refl)

  granted_still :
      (p : Permission) (s : State World Value) (r : PolicyResult) (s' : State World Value)
      → s'.trace ≡ asked (text_of p) r.allowed r.approval_required ∷ s.trace
      → (x : String) → any (grants x) s.trace ≡ true
      → any (grants x) s'.trace ≡ true
  granted_still p s r s' e x k = ground (arith, ap (any (grants x)) e, k)

  decide-Asked :
      (entry : RegisteredTool) (p : Permission) (d : Decision) (s : State World Value)
      (approval : Bool)
      → Ensures World Value
          (λ s' more. Asked (p ∷ []) s.trace s'.trace approval (approval || more))
          (λ s'. Quiet World Value s → Quiet World Value s')
          (decide World Value b set entry p d s)
  unfolding decide note
  decide-Asked entry p undecided s approval =
      Ensures-andthen World Value _ _ _ _
        (dispatch World Value b set (policy_decision entry.name (some p) false) s) _
        (dispatch-trace World Value b set (policy_decision entry.name (some p) false) s)
        (λ s' a e. λ q. ap (any is_run) e ∙ q) (λ s' e q. ap (any is_run) e ∙ q)
  decide-Asked entry p (decided r) s approval =
      let s1 = note World Value (asked (text_of p) r.allowed r.approval_required) s in
      Ensures-andthen World Value _ _ _ _
        (dispatch World Value b set (policy_decision entry.name (some p) r.allowed) s1) _
        (dispatch-trace World Value b set (policy_decision entry.name (some p) r.allowed) s1)
        (λ s' a e.
          if_ind {A = Run World Value Bool}
            (Ensures World Value
              (λ x more. Asked (p ∷ []) s.trace x.trace approval (approval || more))
              (λ x. Quiet World Value s → Quiet World Value x))
            r.allowed
            (λ y. record {
              quiet = λ q. ap (any is_run) e ∙ q;
              allowed = granted_now p s r s' e y;
              kept = λ x k. granted_still p s r s' e x k;
              flagged = λ a k. ground (arith, ap (any flags) e, k);
            })
            (λ n q. ap (any is_run) e ∙ q))
        (λ s' e q. ap (any is_run) e ∙ q)

  -- To ask for one permission and then for others is to ask for all.
  Asked-cons :
      (p : Permission) (ps : List Permission) (t t1 t' : List Act) (a a1 a' : Bool)
      → Asked (p ∷ []) t t1 a a1
      → Asked ps t1 t' a1 a'
      → Asked (p ∷ ps) t t' a a'
  Asked-cons p ps t t1 t' a a1 a' h k = record {
    quiet = λ q. k.quiet (h.quiet q);
    allowed = ground (arith, k.kept (text_of p), h.allowed, k.allowed);
    kept = λ x q. k.kept x (h.kept x q);
    flagged = λ c q. k.flagged c (h.flagged c q);
  }

  ask-Asked :
      (entry : RegisteredTool) (ps : List Permission) (approval : Bool) (s : State World Value)
      → Ensures World Value
          (λ s' approval'. Asked ps s.trace s'.trace approval approval')
          (λ s'. Quiet World Value s → Quiet World Value s')
          (ask World Value b set entry ps approval s)
  unfolding ask at_world
  ask-Asked entry [] approval s = record {
    quiet = λ q. q;
    allowed = refl;
    kept = λ x k. k;
    flagged = λ a k. k;
  }
  ask-Asked entry (p ∷ ps) approval s =
      let r = b.evaluate p s.world in
      let s0 = at_world World Value r.0 s in
      Ensures-andthen World Value _ _ _ _ (decide World Value b set entry p r.1 s0)
        (λ s' more. ask World Value b set entry ps (approval || more) s')
        (decide-Asked entry p r.1 s0 approval)
        (λ s1 more h.
          Ensures-map World Value _ _ _ _ (ask World Value b set entry ps (approval || more) s1)
            (ask-Asked entry ps (approval || more) s1)
            (λ s' a' k.
              Asked-cons p ps s.trace s1.trace s'.trace approval (approval || more) a' h k)
            (λ s' q r. q (h.quiet r)))
        (λ s' q. q)

  -- What a trace says of a call that may go on: the policy allowed each permission, and approval was
  -- given where the tool or the policy asks for it.
  pub record Authorized (entry : RegisteredTool) (t : List Act) : Type 0 where
    pub quiet : any is_run t ≡ false
    pub allowed :
        (not set.has_policy || all_granted (parse_permissions entry.policy.permissions) t) ≡ true
    pub approval : (not (entry.policy.approval_required || any flags t) || any is_approval t) ≡ true

  gated-Authorized :
      (entry : RegisteredTool) (o : Option Bool) (s : State World Value)
      → Quiet World Value s
      → (not set.has_policy || all_granted (parse_permissions entry.policy.permissions) s.trace)
        ≡ true
      → Ensures World Value
          (λ s' a. Authorized entry s'.trace)
          (Quiet World Value)
          (gated World Value b set entry o s)
  unfolding gated note
  gated-Authorized entry none s q h = q
  gated-Authorized entry (some true) s q h = record {
    quiet = q;
    allowed =
        granted-cons set.has_policy (parse_permissions entry.policy.permissions) (approved true)
          s.trace (λ x. refl) h;
    approval = ground arith;
  }
  gated-Authorized entry (some false) s q h =
      let s1 = note World Value (approved false) s in
      Ensures-andthen World Value _ _ _ _
        (dispatch World Value b set (policy_decision entry.name none false) s1) _
        (dispatch-trace World Value b set (policy_decision entry.name none false) s1)
        (λ s' a e. ap (any is_run) e ∙ q) (λ s' e. ap (any is_run) e ∙ q)

  gate-Authorized :
      (entry : RegisteredTool) (args : Value) (approval : Bool) (s : State World Value)
      → Quiet World Value s
      → (not set.has_policy || all_granted (parse_permissions entry.policy.permissions) s.trace)
        ≡ true
      → approval ≡ (entry.policy.approval_required || any flags s.trace)
      → Ensures World Value
          (λ s' a. Authorized entry s'.trace)
          (Quiet World Value)
          (gate World Value b set entry args approval s)
  unfolding gate at_world
  gate-Authorized entry args approval s q h e =
      let r = b.approve entry.name args s.world in
      if_ind {A = Run World Value Unit}
        (Ensures World Value (λ s' a. Authorized entry s'.trace) (Quiet World Value)) approval
        (λ y. gated-Authorized entry r.1 (at_world World Value r.0 s) q h)
        (λ n. record { quiet = q; allowed = h; approval = ground (arith, e, n) })

  -- What is known before the approval gate.
  record Ready (entry : RegisteredTool) (t : List Act) (approval : Bool) : Type 0 where
    quiet : any is_run t ≡ false
    allowed :
        (not set.has_policy || all_granted (parse_permissions entry.policy.permissions) t) ≡ true
    flagged : approval ≡ (entry.policy.approval_required || any flags t)

  ask_parsed-Ready :
      (entry : RegisteredTool) (ps : Option (List Permission)) (s : State World Value)
      → parse_permissions entry.policy.permissions ≡ ps
      → Quiet World Value s
      → any flags s.trace ≡ false
      → Ensures World Value
          (λ s' approval. Ready entry s'.trace approval)
          (Quiet World Value)
          (ask_parsed World Value b set entry ps s)
  unfolding ask_parsed
  ask_parsed-Ready entry none s e q f = q
  ask_parsed-Ready entry (some ps) s e q f =
      Ensures-andthen World Value _ _ _ _
        (ask World Value b set entry ps entry.policy.approval_required s) _
        (ask-Asked entry ps entry.policy.approval_required s)
        (λ s1 approval h.
          Ensures-andthen World Value _ _ _ _
            (dispatch World Value b set (policy_decision entry.name none true) s1) _
            (dispatch-trace World Value b set (policy_decision entry.name none true) s1)
            (λ s2 x k.
              subst (λ t. Ready entry t approval) (sym k)
                (record {
                  quiet = h.quiet q;
                  allowed = rw e (ground (arith, h.allowed));
                  flagged = h.flagged entry.policy.approval_required (ground (arith, f));
                }))
            (λ s2 k. ap (any is_run) k ∙ h.quiet q))
        (λ s1 h. h q)

  -- A call that is authorized is so by policy and approval; a call that is refused ran nothing.
  pub authorize-Authorized :
      (entry : RegisteredTool) (args : Value) (s : State World Value)
      → Quiet World Value s
      → any flags s.trace ≡ false
      → Ensures World Value
          (λ s' a. Authorized entry s'.trace)
          (Quiet World Value)
          (authorize World Value b set entry args s)
  unfolding authorize
  authorize-Authorized entry args s q f =
      let asking =
        ask_parsed World Value b set entry (parse_permissions entry.policy.permissions) s in
      let ready =
        if_ind {A = Run World Value Bool}
          (Ensures World Value (λ s' approval. Ready entry s'.trace approval) (Quiet World Value))
          set.has_policy {x = asking} {y = done s entry.policy.approval_required}
          (λ y. ask_parsed-Ready entry (parse_permissions entry.policy.permissions) s refl q f)
          (λ n. record { quiet = q; allowed = ground (arith, n); flagged = ground (arith, f) }) in
      Ensures-andthen World Value _ _ _ _
        (if set.has_policy then asking else done s entry.policy.approval_required) _ ready
        (λ s1 approval h. gate-Authorized entry args approval s1 h.quiet h.allowed h.flagged)
        (λ s1 h. h)
