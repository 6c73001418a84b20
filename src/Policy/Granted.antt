-- ===== src/Policy/Granted.antt =====
-- What a policy made of grants allows (src/chassis/policy/engine.py).
use chassis.Prelude.{◌≡◌, refl, ◌&&◌, List, [], ◌∷◌, arith, nat_eq, string_eq, any, find, elem}
use chassis.Policy.{
  Permission, PermissionGrant, GrantPolicy, PolicyResult, allows, matched_by, evaluate_from,
  evaluate,
}

-- What a request finds among grants.
abbrev IsGranted : GrantPolicy → List PermissionGrant → Permission → PolicyResult → Type 0
IsGranted policy gs p r =
    (r.allowed ≡ any (λ g. allows g p) gs)
    × (r.matched_grant ≡ find (λ g. allows g p) gs)
    × (r.approval_required ≡ (any (λ g. allows g p) gs && elem p.name policy.needs_approval))

evaluate_from_lem :
    (policy : GrantPolicy) (p : Permission) (gs : List PermissionGrant)
    → IsGranted policy gs p (evaluate_from policy gs p)
unfolding evaluate_from matched_by
evaluate_from_lem policy p [] = (refl, refl, refl)
evaluate_from_lem policy p (g ∷ gs) =
    let rest = evaluate_from_lem policy p gs in
    (ground (arith, rest.0), ground (arith, rest.1), ground (arith, rest.2))

-- A policy allows a request exactly when one of its grants covers it, and names the first that does;
-- it asks for approval exactly of the requests that it allows whose permission is listed for it.
pub evaluate_lem :
    (policy : GrantPolicy) (p : Permission)
    → ((evaluate policy p).allowed ≡ any (λ g. allows g p) policy.grants)
      × ((evaluate policy p).matched_grant ≡ find (λ g. allows g p) policy.grants)
      × ((evaluate policy p).approval_required
          ≡ (any (λ g. allows g p) policy.grants && elem p.name policy.needs_approval))
unfolding evaluate
evaluate_lem policy p = evaluate_from_lem policy p policy.grants
