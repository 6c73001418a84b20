-- ===== src/Policy/Tokens.antt =====
-- The fuel that a pattern is read with is enough (src/chassis/policy/permissions.py).
use chassis.Prelude.{
  ℕ, zero, suc, ◌≤◌, ◌≡◌, refl, ap, Bool, true, false, Option, none, some, List, [], ◌∷◌, arith,
  nat_eq, string_eq, if◌then◌else◌, if_ind, length, drop,
}
use Prim.Native.Char.{Char}
use chassis.Policy.Strings.{same_char}
use chassis.Policy.Globs.{Token, is_char, until_bracket, bracketed, set_of, read_set, tokens}

-- What is left of a pattern behind a set is no longer than what stood before it.
abbrev Shorter {ℓ} : {A : Type ℓ} → List Char → Option (A × List Char) → Type 0
Shorter cs none = Unit
Shorter cs (some (a, after)) = length after ≤ length cs

extended :
    (c d : Char) (cs : List Char) (o : Option (List Char × List Char))
    → Shorter cs o
    → Shorter (d ∷ cs) (elim o as (λ x. Option (List Char × List Char)) [
      | none ↦ none
      | some (inside, after) ↦ some (c ∷ inside, after)
    ])
extended c d cs none h = tt
extended c d cs (some (inside, after)) h = omega (arith, h)

until_bracket-Shorter : (cs : List Char) → Shorter cs (until_bracket cs)
unfolding until_bracket
until_bracket-Shorter [] = tt
until_bracket-Shorter (c ∷ cs) =
    if_ind {A = Option (List Char × List Char)} (Shorter (c ∷ cs)) (same_char c "]")
      (λ e. omega arith) (λ e. extended c c cs (until_bracket cs) (until_bracket-Shorter cs))

bracketed-Shorter : (cs : List Char) → Shorter cs (bracketed cs)
unfolding bracketed
bracketed-Shorter [] = tt
bracketed-Shorter (c ∷ cs) =
    if_ind {A = Option (List Char × List Char)} (Shorter (c ∷ cs)) (same_char c "]")
      (λ e. extended c c cs (until_bracket cs) (until_bracket-Shorter cs))
      (λ e. until_bracket-Shorter (c ∷ cs))

set_of-Shorter :
    (negated : Bool) (cs ds : List Char) (o : Option (List Char × List Char))
    → length ds ≤ length cs
    → Shorter ds o
    → Shorter cs (set_of negated o)
unfolding set_of
set_of-Shorter negated cs ds none l h = tt
set_of-Shorter negated cs ds (some (inside, after)) l h = omega (arith, l, h)

drop_one : (cs : List Char) → length (drop 1 cs) ≤ length cs
drop_one [] = omega arith
drop_one (c ∷ cs) = omega arith

read_set-Shorter : (cs : List Char) → Shorter cs (read_set cs)
unfolding read_set
read_set-Shorter cs =
    if_ind {A = Option (Token × List Char)} (Shorter cs) (is_char "!" cs)
      (λ e.
        set_of-Shorter true cs (drop 1 cs) (bracketed (drop 1 cs)) (drop_one cs)
          (bracketed-Shorter (drop 1 cs)))
      (λ e. set_of-Shorter false cs cs (bracketed cs) (omega arith) (bracketed-Shorter cs))

read_on :
    (m n : ℕ) (t : Token) (cs : List Char) (o : Option (Token × List Char))
    → Shorter cs o
    → ((ds : List Char) → length ds ≤ length cs → tokens m ds ≡ tokens n ds)
    → (elim o as (λ x. List Token) [
      | some (u, after) ↦ u ∷ tokens m after
      | none ↦ t ∷ tokens m cs
    ])
      ≡ (elim o as (λ x. List Token) [
        | some (u, after) ↦ u ∷ tokens n after
        | none ↦ t ∷ tokens n cs
      ])
read_on m n t cs none h f = ap (λ ts. t ∷ ts) (f cs (omega arith))
read_on m n t cs (some (u, after)) h f = ap (λ ts. u ∷ ts) (f after h)

-- Any two amounts of fuel that are no less than the length of a pattern read the same tokens.
tokens_enough :
    (m n : ℕ) (cs : List Char) → length cs ≤ m → length cs ≤ n → tokens m cs ≡ tokens n cs
unfolding tokens
tokens_enough zero zero cs h k = refl
tokens_enough zero (suc n) [] h k = refl
tokens_enough zero (suc n) (c ∷ cs) h k = absurd (omega (arith, h))
tokens_enough (suc m) zero [] h k = refl
tokens_enough (suc m) zero (c ∷ cs) h k = absurd (omega (arith, k))
tokens_enough (suc m) (suc n) [] h k = refl
tokens_enough (suc m) (suc n) (c ∷ cs) h k =
    read_on m n _ cs (if same_char c "[" then read_set cs else none)
      (if_ind {A = Option (Token × List Char)} (Shorter cs) (same_char c "[")
        (λ e. read_set-Shorter cs) (λ e. tt))
      (λ ds l. tokens_enough m n ds (omega (arith, h, l)) (omega (arith, k, l)))
