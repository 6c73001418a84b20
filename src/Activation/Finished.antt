-- ===== src/Activation/Finished.antt =====
-- The whole loop: where it starts and what it ends with (src/chassis/plugins/resolver.py).
use chassis.Prelude.{
  String, ◌≡◌, refl, ap, inl, inr, Bool, true, ◌&&◌, ◌||◌, not, List, [], ◌∷◌, arith, ◌==◌, eq_beq,
  nat_eq, string_eq, Bool-cases, if_ind, length, select, All, elem, All-select, select-All, All-map,
  All-any,
}
use chassis.Prelude.Sorting.{sort, All-sort, any-sort}
use chassis.Prelude.Texts.{text_leb}
use chassis.Activation.{Edge, between, has_incoming, kahn}
use chassis.Activation.Reached.{Nodup, Nodup-sort, Waiting, Open}
use chassis.Activation.Counted.{unactivated}
use chassis.Activation.Ended.{Ended, rounds-Ended}

pub elem-select :
    (p : String → Bool) (n : String) (xs : List String) → elem n (select p xs) ≡ (p n && elem n xs)
elem-select p n [] = ground arith
elem-select p n (x ∷ xs) = elim (Bool-cases (x == n)) [
  | inl e ↦
      let same : p x ≡ p n = ap p ((eq_beq x n).0 e) in ground (arith, elem-select p n xs, same)
  | inr e ↦ ground (arith, elem-select p n xs)
]

pub Nodup-select : (p : String → Bool) (xs : List String) → Nodup xs → Nodup (select p xs)
Nodup-select p [] d = tt
Nodup-select p (x ∷ xs) d =
    if_ind {A = List String} Nodup (p x)
      (λ e. (ground (arith, elem-select p x xs, d.0), Nodup-select p xs d.1))
      (λ e. Nodup-select p xs d.1)

pub All-elem : (xs : List String) → All (λ x. elem x xs ≡ true) xs
All-elem xs = All-any (λ (x y : String). y == x) xs (λ x. (eq_beq x x).1 refl)

unactivated-none : (nodes : List String) → unactivated nodes [] ≡ length nodes
unactivated-none [] = refl
unactivated-none (n ∷ nodes) = omega (arith, unactivated-none nodes)

module _ (nodes : List String) (all_edges : List Edge) (d : Nodup nodes) where
  abbrev pub inside : List Edge
  inside = between nodes all_edges

  abbrev start : List String
  start = select (λ n. not (has_incoming inside n)) nodes

  inner : All (λ e. (elem e.0 nodes && elem e.1 nodes) ≡ true) inside
  unfolding between
  inner = select-All (λ (e : Edge). elem e.0 nodes && elem e.1 nodes) all_edges

  covered-start :
      All (λ n. (elem n [] || (elem n (sort text_leb start) || has_incoming inside n)) ≡ true) nodes
  covered-start =
      All-map (λ n. elem n nodes ≡ true)
        (λ n. (elem n [] || (elem n (sort text_leb start) || has_incoming inside n)) ≡ true) nodes
        (λ n h. ground (
          arith,
          h,
          any-sort text_leb (λ x. x == n) start,
          elem-select (λ n. not (has_incoming inside n)) n nodes,
        ))
        (All-elem nodes)

  pub kahn-Ended : Ended nodes inside (kahn nodes all_edges)
  unfolding kahn
  kahn-Ended =
      rounds-Ended (length nodes) nodes inside inside (sort text_leb start) []
        (omega (arith, unactivated-none nodes)) d
        (All-map (λ e. (elem e.0 nodes && elem e.1 nodes) ≡ true) (λ e. elem e.1 nodes ≡ true)
          inside (λ e h. ground arith) inner)
        (All-any (λ (e k : Edge). k.0 == e.0 && k.1 == e.1) inside
          (λ e. ground (arith, eq_beq e.0 e.0, eq_beq e.1 e.1)))
        (All-map (λ e. (elem e.0 nodes && elem e.1 nodes) ≡ true) (Open nodes []) inside
          (λ e h. ((ground arith, refl), ground arith)) inner)
        (record {
          waits = All-sort text_leb (Waiting nodes []) start (
              All-select (Waiting nodes []) (λ n. not (has_incoming inside n)) nodes
                (All-map (λ n. elem n nodes ≡ true) (Waiting nodes []) nodes (λ n h. (h, refl))
                  (All-elem nodes)));
          distinct = Nodup-sort start (Nodup-select (λ n. not (has_incoming inside n)) nodes d);
          covered = covered-start;
        })
        (record { among = tt; once = tt; counted = omega (arith, unactivated-none nodes) })
