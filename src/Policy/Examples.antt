-- ===== src/Policy/Examples.antt =====
-- A policy for a workspace, and the theorems at it.
use chassis.Prelude.{
  ◌≡◌, refl, true, false, ◌&&◌, some, [], ◌∷◌, nat_eq, string_eq, any, find, elem,
}
use chassis.Policy.{
  Permission, parsed, malformed, empty_text, untrimmed_name, empty_resource, parse, text_of, allows,
  GrantPolicy, evaluate, built, refused, grant_text, make_policy,
}
use chassis.Policy.Globs.{fnmatchcase}
use chassis.Policy.Printed.{parse-text_of}
use chassis.Policy.Granted.{evaluate_lem}

abbrev write_workspace : Permission
write_workspace = record { name = "filesystem.write"; resource = some "/workspace/**" }

abbrev write_notes : Permission
write_notes = record { name = "filesystem.write"; resource = some "/workspace/notes" }

abbrev policy : GrantPolicy
policy = record { grants = write_workspace ∷ []; needs_approval = "filesystem.write" ∷ [] }

runs : Unit {0}
unfolding parse make_policy evaluate fnmatchcase text_of
runs = tt

parsed_text : parse " filesystem.write : /workspace/** " ≡ parsed write_workspace
unfolding runs
parsed_text = refl

no_name : parse ":x" ≡ malformed untrimmed_name
unfolding runs
no_name = refl

no_resource : parse "a:" ≡ malformed empty_resource
unfolding runs
no_resource = refl

made :
    make_policy (grant_text "filesystem.write:/workspace/**" ∷ []) ("filesystem.write" ∷ [])
    ≡ built policy
unfolding runs
made = refl

not_made : make_policy (grant_text "a" ∷ grant_text "" ∷ []) [] ≡ refused empty_text
unfolding runs
not_made = refl

globs :
    (fnmatchcase "x" "[!a-c]" ≡ true)
    × (fnmatchcase "b" "[a-c]" ≡ true)
    × (fnmatchcase "]" "[]]" ≡ true)
    × (fnmatchcase "[a" "[a" ≡ true)
    × (fnmatchcase "report.txt" "*.t?t" ≡ true)
    × (fnmatchcase "report.text" "*.t?t" ≡ false)
unfolding runs
globs = (refl, refl, refl, refl, refl, refl)

evaluate_lem_example :
    ((evaluate policy write_notes).allowed ≡ any (λ g. allows g write_notes) policy.grants)
    × ((evaluate policy write_notes).matched_grant ≡ find (λ g. allows g write_notes) policy.grants)
    × ((evaluate policy write_notes).approval_required ≡ (
        any (λ g. allows g write_notes) policy.grants
        && elem write_notes.name policy.needs_approval))
evaluate_lem_example = evaluate_lem policy write_notes

parse-text_of_example : parse (text_of write_workspace) ≡ parsed write_workspace
parse-text_of_example =
    parse-text_of " filesystem.write : /workspace/** " write_workspace parsed_text
