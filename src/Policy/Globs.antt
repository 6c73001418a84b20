-- ===== src/Policy/Globs.antt =====
-- Python's `fnmatch.fnmatchcase`, which src/chassis/policy/permissions.py matches resources by: `*` is
-- any text, `?` any character, `[...]` and `[!...]` a character in or outside a set.
use chassis.Prelude.{
  ℕ, zero, suc, String, Bool, true, false, ◌&&◌, not, Option, none, some, List, [], ◌∷◌, leb,
  nat_eq, string_eq, if◌then◌else◌, length, drop, any,
}
use Prim.Native.Char.{Char, code}
use chassis.Policy.Strings.{same_char}

unfoldable pub chars : String → List Char
chars String.[] = []
chars (String.◌∷◌ c s) = c ∷ chars s

pub data Token : Type 0 where
  star one : Token
  literal : Char → Token
  set : (negated : Bool) → List (Char × Char) → Token

unfoldable pub is_char : Char → List Char → Bool
unfolding same_char
is_char x [] = false
is_char x (c ∷ cs) = same_char c x

-- What stands before the next closing bracket, and what stands behind it.
unfoldable pub until_bracket : List Char → Option (List Char × List Char)
unfolding same_char
until_bracket [] = none
until_bracket (c ∷ cs) =
    let rest = until_bracket cs in
    if same_char c "]"
    then some ([], cs)
    else elim rest [ none ↦ none | some (inside, after) ↦ some (c ∷ inside, after) ]

-- A bracket that comes first, or first after `!`, belongs to the set.
unfoldable pub bracketed : List Char → Option (List Char × List Char)
unfolding until_bracket same_char
bracketed [] = none
bracketed (c ∷ cs) =
    let rest = until_bracket cs in
    if same_char c "]"
    then elim rest [ none ↦ none | some (inside, after) ↦ some (c ∷ inside, after) ]
    else until_bracket (c ∷ cs)

-- Ranges of characters, of which one character is the shortest.
unfoldable pub ranges : List Char → List (Char × Char)
unfolding same_char
ranges [] = []
ranges (c ∷ []) = (c, c) ∷ []
ranges (c ∷ d ∷ []) = (c, c) ∷ (d, d) ∷ []
ranges (c ∷ d ∷ e ∷ cs) =
    let range = (c, e) ∷ ranges cs in
    let apart = (c, c) ∷ ranges (d ∷ e ∷ cs) in if same_char d "-" then range else apart

unfoldable pub set_of : Bool → Option (List Char × List Char) → Option (Token × List Char)
unfolding ranges
set_of negated none = none
set_of negated (some (inside, after)) = some (set negated (ranges inside), after)

unfoldable pub read_set : List Char → Option (Token × List Char)
unfolding set_of bracketed is_char
read_set cs =
    if is_char "!" cs then set_of true (bracketed (drop 1 cs)) else set_of false (bracketed cs)

-- The tokens of a pattern, each of which takes a character at least.
unfoldable pub tokens : ℕ → List Char → List Token
unfolding read_set same_char
tokens zero cs = []
tokens (suc fuel) [] = []
tokens (suc fuel) (c ∷ cs) = elim (if same_char c "[" then read_set cs else none) [
  | some (t, after) ↦ t ∷ tokens fuel after
  | none ↦
      (if same_char c "*" then star else if same_char c "?" then one else literal c)
      ∷ tokens fuel cs
]

unfoldable pub in_range : Char → Char × Char → Bool
in_range c r = leb (code r.0) (code c) && leb (code c) (code r.1)

unfoldable pub tails : List Char → List (List Char)
tails [] = [] ∷ []
tails (c ∷ cs) = (c ∷ cs) ∷ tails cs

unfoldable pub takes : Token → Char → Bool
unfolding same_char in_range
takes star c = false
takes one c = true
takes (literal x) c = same_char x c
takes (set negated rs) c = if negated then not (any (in_range c) rs) else any (in_range c) rs

unfoldable pub matches : List Token → List Char → Bool
unfolding takes tails
matches [] [] = true
matches [] (c ∷ cs) = false
matches (star ∷ ts) cs = any (matches ts) (tails cs)
matches (t ∷ ts) [] = false
matches (t ∷ ts) (c ∷ cs) = takes t c && matches ts cs

unfoldable pub fnmatchcase : (name pattern : String) → Bool
unfolding matches tokens chars
fnmatchcase name pattern = matches (tokens (length (chars pattern)) (chars pattern)) (chars name)
