-- ===== src/Prelude/Texts.antt =====
-- Python's order of texts, by code points, and of pairs of texts.
use Prim.Native.Char.{code}
use chassis.Prelude.Tests.{ltb, nat_beq, if◌then◌else◌, string_eq, ◌==◌, eq_beq}
use Prim.Native.String.{String}
use mathlib.Core.Path.{◌≡◌, refl}
use mathlib.Core.Bool.{Bool, true, false}
use mathlib.Core.List.{List, [], ◌∷◌}
use native.Mathlib.Omega.{arith}
use text.Mathlib.TextEquality.{Char-path}
use chassis.Prelude.Sorting.{IsOrder}

unfoldable pub text_leb : String → String → Bool
text_leb String.[] t = true
text_leb (String.◌∷◌ c s) String.[] = false
text_leb (String.◌∷◌ c s) (String.◌∷◌ d t) =
    let rest = text_leb s t in
    if ltb (code c) (code d) then true else if nat_beq (code c) (code d) then rest else false

text_leb_total : (s t : String) → text_leb s t ≡ false → text_leb t s ≡ true
unfolding text_leb
text_leb_total String.[] t h = cc
text_leb_total (String.◌∷◌ c s) String.[] h = refl
text_leb_total (String.◌∷◌ c s) (String.◌∷◌ d t) h = ground (arith, text_leb_total s t)

text_leb_trans : (s t u : String) → text_leb s t ≡ true → text_leb t u ≡ true → text_leb s u ≡ true
unfolding text_leb
text_leb_trans String.[] t u h k = refl
text_leb_trans (String.◌∷◌ c s) String.[] u h k = cc
text_leb_trans (String.◌∷◌ c s) (String.◌∷◌ d t) String.[] h k = cc
text_leb_trans (String.◌∷◌ c s) (String.◌∷◌ d t) (String.◌∷◌ e u) h k =
    ground (arith, text_leb_trans s t u)

pub text_leb_antisym : (s t : String) → text_leb s t ≡ true → text_leb t s ≡ true → s ≡ t
unfolding text_leb
text_leb_antisym String.[] String.[] h k = refl
text_leb_antisym String.[] (String.◌∷◌ d t) h k = cc
text_leb_antisym (String.◌∷◌ c s) String.[] h k = cc
text_leb_antisym (String.◌∷◌ c s) (String.◌∷◌ d t) h k =
    let heads : code c ≡ code d = ground arith in
    let tails = text_leb_antisym s t (ground arith) (ground arith) in
    cc (Char-path c d heads, tails)

pub text_leb-IsOrder : IsOrder text_leb
text_leb-IsOrder = record { total = text_leb_total; trans = text_leb_trans }

-- Pairs of texts, the first parts first.
unfoldable pub pair_leb : (s s' t t' : String) → Bool
unfolding text_leb
pair_leb s s' t t' = if s == t then text_leb s' t' else text_leb s t

pub pair_leb_total : (s s' t t' : String) → pair_leb s s' t t' ≡ false → pair_leb t t' s s' ≡ true
unfolding pair_leb
pair_leb_total s s' t t' h =
    ground (arith, eq_beq s t, eq_beq t s, text_leb_total s t, text_leb_total s' t')

pub pair_leb_trans :
    (s s' t t' u u' : String)
    → pair_leb s s' t t' ≡ true
    → pair_leb t t' u u' ≡ true
    → pair_leb s s' u u' ≡ true
unfolding pair_leb
pair_leb_trans s s' t t' u u' h k = ground (
  arith,
  eq_beq s t,
  eq_beq t u,
  eq_beq s u,
  text_leb_trans s t u,
  text_leb_trans s' t' u',
  text_leb_antisym s t,
)

-- Tuples of texts, as lists of one length, the first parts first.
unfoldable pub texts_leb : List String → List String → Bool
unfolding text_leb
texts_leb [] ts = true
texts_leb (s ∷ ss) [] = false
texts_leb (s ∷ ss) (t ∷ ts) = let rest = texts_leb ss ts in if s == t then rest else text_leb s t
