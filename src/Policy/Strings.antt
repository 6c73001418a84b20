-- ===== src/Policy/Strings.antt =====
-- Methods of Python's `str` that src/chassis/policy/permissions.py uses.
use chassis.Prelude.{
  String, Bool, true, false, ◌&&◌, ◌||◌, leb, nat_beq, ◌==◌, nat_eq, string_eq, if◌then◌else◌,
}
use Prim.Native.Char.{Char, code}

unfoldable pub same_char : Char → Char → Bool
same_char c d = nat_beq (code c) (code d)

-- `str.isspace`, by code points.
unfoldable pub is_space : Char → Bool
is_space c =
    let n = code c in
    (leb 9 n && leb n 13)
    || (leb 28 n && leb n 32)
    || nat_beq n 133
    || nat_beq n 160
    || nat_beq n 5760
    || (leb 8192 n && leb n 8202)
    || nat_beq n 8232
    || nat_beq n 8233
    || nat_beq n 8239
    || nat_beq n 8287
    || nat_beq n 12288

unfoldable pub lstrip : String → String
unfolding is_space
lstrip String.[] = String.[]
lstrip (String.◌∷◌ c s) = let rest = lstrip s in if is_space c then rest else String.◌∷◌ c s

unfoldable pub rstrip : String → String
unfolding is_space
rstrip String.[] = String.[]
rstrip (String.◌∷◌ c s) =
    let rest = rstrip s in if is_space c && rest == "" then String.[] else String.◌∷◌ c rest

unfoldable pub strip : String → String
unfolding lstrip rstrip
strip s = lstrip (rstrip s)

-- What stands before the first separator, whether there is one, and what stands behind it.
unfoldable pub partition : Char → String → String × Bool × String
unfolding same_char
partition sep String.[] = (String.[], false, String.[])
partition sep (String.◌∷◌ c s) =
    let rest = partition sep s in
    if same_char c sep then (String.[], true, s) else (String.◌∷◌ c rest.0, rest.1, rest.2)

unfoldable pub starts_with : Char → String → Bool
unfolding same_char
starts_with x String.[] = false
starts_with x (String.◌∷◌ c s) = same_char c x

unfoldable pub ends_with : Char → String → Bool
unfolding same_char
ends_with x String.[] = false
ends_with x (String.◌∷◌ c s) = let rest = ends_with x s in if s == "" then same_char c x else rest
