-- ===== src/Policy/Printed.antt =====
-- Printing and parsing permissions (src/chassis/policy/permissions.py).
use chassis.Prelude.{
  String, ◌≡◌, refl, sym, ap, ◌∙◌, ◌≢◌, inl, inr, Bool, true, false, ◌&&◌, ◌||◌, not, Option, none,
  some, arith, nat_beq_iff, ◌==◌, eq_beq, nat_eq, string_eq, if◌then◌else◌, Bool-cases, if_ind,
}
use mathlib.Core.Path.{subst}
use Prim.Native.Char.{Char, code}
use Prim.Native.String.{◌++◌ as text_append}
use Prim.Native.String.append.{nil, cons}
use chassis.Policy.Strings.{
  same_char, is_space, lstrip, rstrip, strip, partition, starts_with, ends_with,
}
use chassis.Policy.{
  Permission, PermissionError, Parsed, parsed, malformed, untrimmed_name, empty_segment,
  empty_resource, empty_text, is_empty_resource, make_permission, parts, parse, text_of,
}

-- No character of a text is the separator.
abbrev lacks : Char → String → Bool
lacks sep String.[] = true
lacks sep (String.◌∷◌ c s) = not (same_char c sep) && lacks sep s

lacks-partition : (sep : Char) (s : String) → lacks sep (partition sep s).0 ≡ true
unfolding partition
lacks-partition sep String.[] = refl
lacks-partition sep (String.◌∷◌ c s) =
    if_ind {A = String × Bool × String} (λ r. lacks sep r.0 ≡ true) (same_char c sep) (λ e. refl)
      (λ e. ap (λ b. not b && lacks sep (partition sep s).0) e ∙ lacks-partition sep s)

lacks-lstrip : (sep : Char) (s : String) → lacks sep s ≡ true → lacks sep (lstrip s) ≡ true
unfolding lstrip
lacks-lstrip sep String.[] h = refl
lacks-lstrip sep (String.◌∷◌ c s) h = ground (arith, lacks-lstrip sep s)

lacks-rstrip : (sep : Char) (s : String) → lacks sep s ≡ true → lacks sep (rstrip s) ≡ true
unfolding rstrip
lacks-rstrip sep String.[] h = refl
lacks-rstrip sep (String.◌∷◌ c s) h =
    if_ind {A = String} (λ r. lacks sep r ≡ true) (is_space c && rstrip s == "") (λ e. refl)
      (λ e. ground (arith, h, lacks-rstrip sep s))

rstrip-rstrip : (s : String) → rstrip (rstrip s) ≡ rstrip s
unfolding rstrip
rstrip-rstrip String.[] = refl
rstrip-rstrip (String.◌∷◌ c s) =
    if_ind {A = String} (λ r. rstrip r ≡ r) (is_space c && rstrip s == "") (λ e. refl)
      (λ e.
        ap (λ t. if is_space c && t == "" then String.[] else String.◌∷◌ c t) (rstrip-rstrip s)
        ∙ ap (λ b. if b then String.[] else String.◌∷◌ c (rstrip s)) e)

abbrev is_blank : String → Bool
is_blank String.[] = true
is_blank (String.◌∷◌ c s) = false

apart : (c : Char) (s : String) → String.[] ≢ String.◌∷◌ c s
apart c s h = absurd (ground (arith, ap is_blank h))

rstrip_tail : (c : Char) (s : String) → rstrip (String.◌∷◌ c s) ≡ String.◌∷◌ c s → rstrip s ≡ s
unfolding rstrip
rstrip_tail c s h = elim (Bool-cases (is_space c && rstrip s == "")) [
  | inl e ↦
      let gone : String.[] ≡ String.◌∷◌ c s =
        sym (ap (λ b. if b then String.[] else String.◌∷◌ c (rstrip s)) e) ∙ h in
      absurd (apart c s gone)
  | inr e ↦
      let same : String.◌∷◌ c (rstrip s) ≡ String.◌∷◌ c s =
        sym (ap (λ b. if b then String.[] else String.◌∷◌ c (rstrip s)) e) ∙ h in
      cc (same)
]

rstrip-lstrip : (s : String) → rstrip s ≡ s → rstrip (lstrip s) ≡ lstrip s
unfolding lstrip
rstrip-lstrip String.[] h = h
rstrip-lstrip (String.◌∷◌ c s) h =
    if_ind {A = String} (λ r. rstrip r ≡ r) (is_space c) (λ e. rstrip-lstrip s (rstrip_tail c s h))
      (λ e. h)

lstrip-lstrip : (s : String) → lstrip (lstrip s) ≡ lstrip s
unfolding lstrip
lstrip-lstrip String.[] = refl
lstrip-lstrip (String.◌∷◌ c s) =
    if_ind {A = String} (λ r. lstrip r ≡ r) (is_space c) (λ e. lstrip-lstrip s)
      (λ e. ap (λ b. if b then lstrip s else String.◌∷◌ c s) e)

strip-strip : (s : String) → strip (strip s) ≡ strip s
unfolding strip
strip-strip s = ap lstrip (rstrip-lstrip (rstrip s) (rstrip-rstrip s)) ∙ lstrip-lstrip (rstrip s)

-- A text without the separator is not cut, and one that is joined by it is cut there.
partition-lacks :
    (sep : Char) (s : String) → lacks sep s ≡ true → partition sep s ≡ (s, false, String.[])
unfolding partition
partition-lacks sep String.[] h = refl
partition-lacks sep (String.◌∷◌ c s) h =
    let no : same_char c sep ≡ false = ground (arith, h) in
    ap
      (λ b.
        if b
        then (String.[], true, s)
        else (String.◌∷◌ c (partition sep s).0, (partition sep s).1, (partition sep s).2))
      no
    ∙ ap (λ (r : String × Bool × String). (String.◌∷◌ c r.0, r.1, r.2))
        (partition-lacks sep s (ground (arith, h)))

same_char_refl : (c : Char) → same_char c c ≡ true
unfolding same_char
same_char_refl c = (nat_beq_iff (code c) (code c)).1 refl

partition-append :
    (sep : Char) (s t : String)
    → lacks sep s ≡ true
    → partition sep (text_append s (String.◌∷◌ sep t)) ≡ (s, true, t)
unfolding partition
partition-append sep String.[] t h =
    ap (partition sep) (nil (String.◌∷◌ sep t))
    ∙ ap
        (λ b.
          if b
          then (String.[], true, t)
          else (String.◌∷◌ sep (partition sep t).0, (partition sep t).1, (partition sep t).2))
        (same_char_refl sep)
partition-append sep (String.◌∷◌ c s) t h =
    let no : same_char c sep ≡ false = ground (arith, h) in
    let rest = text_append s (String.◌∷◌ sep t) in
    ap (partition sep) (cons c s (String.◌∷◌ sep t))
    ∙ ap
        (λ b. if b then (String.[], true, rest) else (
          String.◌∷◌ c (partition sep rest).0,
          (partition sep rest).1,
          (partition sep rest).2,
        ))
        no
    ∙ ap (λ (r : String × Bool × String). (String.◌∷◌ c r.0, r.1, r.2))
        (partition-append sep s t (ground (arith, h)))

-- What `parts` makes of a text: a name without a colon and a resource that is trimmed.
abbrev IsTrimmed : Option String → Type 0
IsTrimmed none = Unit
IsTrimmed (some r) = strip r ≡ r

record IsParsed (name : String) (resource : Option String) : Type 0 where
  lacking : lacks ":" name ≡ true
  trimmed : IsTrimmed resource

parts-IsParsed : (text : String) → IsParsed (parts text).0 (parts text).1
unfolding parts strip
parts-IsParsed text = record {
  lacking =
      lacks-lstrip ":" (rstrip (partition ":" text).0)
        (lacks-rstrip ":" (partition ":" text).0 (lacks-partition ":" text));
  trimmed =
      if_ind {A = Option String} IsTrimmed (partition ":" text).1
        (λ e. strip-strip (partition ":" text).2) (λ e. tt);
}

-- The parts of what is printed are the fields.
parts-text_of :
    (name : String) (resource : Option String)
    → IsParsed name resource
    → strip name ≡ name
    → parts (text_of (record { name = name; resource = resource })) ≡ (name, resource)
unfolding parts text_of
parts-text_of name none h t =
    ap (λ (c : String × Bool × String). (strip c.0, if c.1 then some (strip c.2) else none))
      (partition-lacks ":" name h.lacking)
    ∙ ap (λ n. (n, none)) t
parts-text_of name (some r) h t =
    let colon : text_append ":" r ≡ String.◌∷◌ ":" r =
      cons ":" String.[] r ∙ ap (String.◌∷◌ ":") (nil r) in
    ap (λ s. parts (text_append name s)) colon
    ∙ ap (λ (c : String × Bool × String). (strip c.0, if c.1 then some (strip c.2) else none))
        (partition-append ":" name r h.lacking)
    ∙ ap (λ n. (n, some (strip r))) t
    ∙ ap (λ x. (name, some x)) h.trimmed

-- A chain of tests that comes out with a permission has passed them all.
passed :
    (b c d : Bool) (e f g : PermissionError) (q p : Permission)
    → (if b then malformed e else if c then malformed f else if d then malformed g else parsed q)
      ≡ parsed p
    → (b ≡ false) × (q ≡ p)
passed true c d e f g q p h = absurd (ground (arith, h))
passed false true d e f g q p h = absurd (ground (arith, h))
passed false false true e f g q p h = absurd (ground (arith, h))
passed false false false e f g q p h = (refl, cc (h))

name_trimmed :
    (name : String)
    → (name == "" || not (name == strip name)) ≡ false
    → ((name == "") ≡ false) × (strip name ≡ name)
name_trimmed name h = (ground (arith, h), sym ((eq_beq name (strip name)).0 (ground (arith, h))))

append_nonempty : (s t : String) → (s == "") ≡ false → (text_append s t == "") ≡ false
append_nonempty String.[] t h = absurd (ground (arith, h))
append_nonempty (String.◌∷◌ c s) t h = elim (Bool-cases (text_append (String.◌∷◌ c s) t == "")) [
  | inr e ↦ e
  | inl e ↦ absurd (
      apart c (text_append s t)
        (sym ((eq_beq (text_append (String.◌∷◌ c s) t) "").0 e) ∙ cons c s t))
]

text_of_nonempty :
    (name : String) (resource : Option String)
    → (name == "") ≡ false
    → (text_of (record { name = name; resource = resource }) == "") ≡ false
unfolding text_of
text_of_nonempty name none h = h
text_of_nonempty name (some r) h = append_nonempty name (text_append ":" r) h

made_of :
    (name : String) (resource : Option String) (p : Permission)
    → make_permission name resource ≡ parsed p
    → ((name == "" || not (name == strip name)) ≡ false)
      × (record { name = name; resource = resource } ≡ p)
unfolding make_permission
made_of name resource p h =
    passed (name == "" || not (name == strip name)) (starts_with ":" name || ends_with ":" name)
      (is_empty_resource resource) untrimmed_name empty_segment empty_resource
      (record { name = name; resource = resource }) p h

unless_empty :
    (b : Bool) (e : PermissionError) (x : Parsed) (p : Permission)
    → (if b then malformed e else x) ≡ parsed p
    → x ≡ parsed p
unless_empty true e x p h = absurd (ground (arith, h))
unless_empty false e x p h = h

-- What `parse` accepts is parsed to the same permission when it is printed, whatever spaces the text
-- had around its parts.
pub parse-text_of :
    (text : String) (p : Permission) → parse text ≡ parsed p → parse (text_of p) ≡ parsed p
unfolding parse
parse-text_of text p h =
    let name = (parts text).0 in
    let resource = (parts text).1 in
    let again : Permission = record { name = name; resource = resource } in
    let accepted = unless_empty (text == "") empty_text (make_permission name resource) p h in
    let made = made_of name resource p accepted in
    let trimmed = name_trimmed name made.0 in
    let same : parse (text_of again) ≡ parsed again =
      ap
        (λ b.
          if b
          then malformed empty_text
          else make_permission (parts (text_of again)).0 (parts (text_of again)).1)
        (text_of_nonempty name resource trimmed.0)
      ∙ ap (λ (c : String × Option String). make_permission c.0 c.1)
          (parts-text_of name resource (parts-IsParsed text) trimmed.1)
      ∙ accepted
      ∙ sym (ap parsed made.1) in
    subst (λ x. parse (text_of x) ≡ parsed x) made.1 same
