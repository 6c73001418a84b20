-- ===== src/Policy.antt =====
-- Permissions, grants and the policies that are built of them: src/chassis/policy/permissions.py and
-- engine.py. What they use of Python's strings and of `fnmatch` is in Policy/Strings and Policy/Globs.
pub mod Strings
pub mod Globs
pub mod Granted
mod Tokens
pub mod Printed
mod Examples
use chassis.Prelude.{
  ℕ, zero, suc, ◌+◌, ◌-◌, ◌*◌, ◌/◌, ◌%◌, ◌≤◌, ◌<◌, String, ◌≡◌, refl, sym, ap, ◌∙◌, ◌≢◌, ◌↔◌, ◌⊎◌,
  inl, inr, Bool, true, false, ◌&&◌, ◌||◌, not, Option, none, some, List, [], ◌∷◌, ◌++◌, map, arith,
  ltb, leb, nat_beq, nat_beq_iff, Eq, ◌==◌, eq_beq, nat_eq, string_eq, if◌then◌else◌, Bool-cases,
  if_ind, Option-cases, length, drop, take, select, any, all, count_if, find, All, length-append,
  length-drop, any-append, select-append, All-append, elem, any-select, All-select, select-All,
  find_passes, find-All, find-any, All-map, All-any,
}
use Prim.Native.Char.{Char}
use Prim.Native.String.{◌++◌ as text_append}
use chassis.Policy.Strings.{strip, partition, starts_with, ends_with}
use chassis.Policy.Globs.{fnmatchcase}

pub record Permission : Type 0 where
  pub name : String
  pub resource : Option String

pub data PermissionError : Type 0 where
  untrimmed_name empty_segment empty_resource empty_text : PermissionError

pub data Parsed : Type 0 where
  parsed : Permission → Parsed
  malformed : PermissionError → Parsed

unfoldable pub is_empty_resource : Option String → Bool
is_empty_resource none = false
is_empty_resource (some r) = r == ""

-- `Permission.__post_init__`
unfoldable pub make_permission : String → Option String → Parsed
unfolding strip starts_with ends_with is_empty_resource
make_permission name resource =
    if name == "" || not (name == strip name)
    then malformed untrimmed_name
    else if starts_with ":" name || ends_with ":" name
    then malformed empty_segment
    else if is_empty_resource resource
    then malformed empty_resource
    else parsed record { name = name; resource = resource }

unfoldable pub parts : String → String × Option String
unfolding partition strip
parts text =
    let cut = partition ":" text in (strip cut.0, if cut.1 then some (strip cut.2) else none)

-- `Permission.parse`. The last test of the source is of a name that `make_permission` has accepted.
unfoldable pub parse : String → Parsed
unfolding make_permission parts
parse text =
    if text == "" then malformed empty_text else make_permission (parts text).0 (parts text).1

unfoldable pub text_of : Permission → String
text_of p = elim p.resource [ none ↦ p.name | some r ↦ text_append p.name (text_append ":" r) ]

-- A grant has the fields of a permission.
abbrev pub PermissionGrant : Type 0
PermissionGrant = Permission

-- `PermissionGrant.allows`
unfoldable pub covers : (granted requested : Option String) → Bool
unfolding fnmatchcase
covers none requested = true
covers (some pattern) none = false
covers (some pattern) (some r) = fnmatchcase r pattern

unfoldable pub allows : PermissionGrant → Permission → Bool
unfolding covers
allows g p = if not (p.name == g.name) then false else covers g.resource p.resource

pub data Reason : Type 0 where
  unrestricted denied : Reason
  granted granted_pending : PermissionGrant → Reason
  not_covered : Permission → Reason

pub record PolicyResult : Type 0 where
  pub allowed : Bool
  pub reason : Reason
  pub approval_required : Bool
  pub matched_grant : Option PermissionGrant

-- `AllowAllPolicy.evaluate` and `DenyAllPolicy.evaluate`
unfoldable pub allow_all : Permission → PolicyResult
allow_all p = record {
  allowed = true;
  reason = unrestricted;
  approval_required = false;
  matched_grant = none;
}

unfoldable pub deny_all : Permission → PolicyResult
deny_all p = record {
  allowed = false;
  reason = denied;
  approval_required = false;
  matched_grant = none;
}

pub record GrantPolicy : Type 0 where
  pub grants : List PermissionGrant
  pub needs_approval : List String

unfoldable pub matched_by : GrantPolicy → Permission → PermissionGrant → PolicyResult
matched_by policy p g =
    if elem p.name policy.needs_approval
    then record {
      allowed = true;
      reason = granted_pending g;
      approval_required = true;
      matched_grant = some g;
    }
    else record {
      allowed = true;
      reason = granted g;
      approval_required = false;
      matched_grant = some g;
    }

unfoldable pub evaluate_from : GrantPolicy → List PermissionGrant → Permission → PolicyResult
unfolding allows matched_by
evaluate_from policy [] p = record {
  allowed = false;
  reason = not_covered p;
  approval_required = false;
  matched_grant = none;
}
evaluate_from policy (g ∷ gs) p =
    let rest = evaluate_from policy gs p in if allows g p then matched_by policy p g else rest

-- `GrantPolicy.evaluate`
unfoldable pub evaluate : GrantPolicy → Permission → PolicyResult
unfolding evaluate_from
evaluate policy = evaluate_from policy policy.grants

pub data Granting : Type 0 where
  grant : PermissionGrant → Granting
  grant_text : String → Granting

pub data Built : Type 0 where
  built : GrantPolicy → Built
  refused : PermissionError → Built

unfoldable pub parse_grant : Granting → Parsed
unfolding parse
parse_grant (grant g) = parsed g
parse_grant (grant_text text) = parse text

unfoldable pub add_grant : Parsed → Built → Built
add_grant (malformed e) b = refused e
add_grant (parsed g) (refused e) = refused e
add_grant (parsed g) (built policy) =
    built record { grants = g ∷ policy.grants; needs_approval = policy.needs_approval }

-- `GrantPolicy.__init__`
unfoldable pub make_policy : List Granting → List String → Built
unfolding parse_grant add_grant
make_policy [] approvals = built record { grants = []; needs_approval = approvals }
make_policy (g ∷ gs) approvals = add_grant (parse_grant g) (make_policy gs approvals)
