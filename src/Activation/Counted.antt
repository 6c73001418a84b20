-- ===== src/Activation/Counted.antt =====
-- How many entries are still to be activated (src/chassis/plugins/resolver.py).
use chassis.Prelude.{
  ℕ, ◌+◌, ◌≤◌, ◌<◌, String, ◌≡◌, refl, sym, inl, inr, true, false, not, List, [], ◌∷◌, ◌++◌, arith,
  ◌==◌, eq_beq, nat_eq, string_eq, Bool-cases, count_if, elem,
}
use mathlib.Core.Path.{subst}
use chassis.Activation.Topological.{elem-append}
use chassis.Activation.Reached.{Nodup}

-- The nodes that have not been activated.
abbrev pub unactivated : List String → List String → ℕ
unactivated nodes order = count_if (λ n. not (elem n order)) nodes

unactivated-le :
    (n : String) (order nodes : List String)
    → unactivated nodes (order ++ n ∷ []) ≤ unactivated nodes order
unactivated-le n order [] = omega arith
unactivated-le n order (m ∷ nodes) =
    ground (arith, unactivated-le n order nodes, elem-append m order (n ∷ []))

pub unactivated-snoc :
    (n : String) (order nodes : List String)
    → elem n nodes ≡ true
    → elem n order ≡ false
    → unactivated nodes (order ++ n ∷ []) < unactivated nodes order
unactivated-snoc n order [] h k = cc
unactivated-snoc n order (m ∷ nodes) h k = elim (Bool-cases (m == n)) [
  | inl e ↦
      let new : elem m order ≡ false =
        subst (λ x. elem x order ≡ false) (sym ((eq_beq m n).0 e)) k in
      ground
        (arith, unactivated-le n order nodes, elem-append m order (n ∷ []), eq_beq m n, eq_beq n m)
  | inr e ↦
      ground (
        arith,
        unactivated-snoc n order nodes,
        elem-append m order (n ∷ []),
        eq_beq m n,
        eq_beq n m,
      )
]

-- The count of nodes not activated falls by one with each activation.
unactivated-same :
    (n : String) (order nodes : List String)
    → elem n nodes ≡ false
    → unactivated nodes (order ++ n ∷ []) ≡ unactivated nodes order
unactivated-same n order [] h = refl
unactivated-same n order (m ∷ nodes) h =
    ground
      (arith, unactivated-same n order nodes, elem-append m order (n ∷ []), eq_beq m n, eq_beq n m)

pub unactivated-one :
    (n : String) (order nodes : List String)
    → Nodup nodes
    → elem n nodes ≡ true
    → elem n order ≡ false
    → unactivated nodes (order ++ n ∷ []) + 1 ≡ unactivated nodes order
unactivated-one n order [] d h k = cc
unactivated-one n order (m ∷ nodes) d h k = elim (Bool-cases (m == n)) [
  | inl e ↦
      let same : m ≡ n = (eq_beq m n).0 e in
      let new : elem m order ≡ false = subst (λ x. elem x order ≡ false) (sym same) k in
      let once : elem n nodes ≡ false = subst (λ x. elem x nodes ≡ false) same d.0 in
      ground (
        arith,
        unactivated-same n order nodes once,
        elem-append m order (n ∷ []),
        eq_beq m n,
        eq_beq n m,
      )
  | inr e ↦ ground (
    arith,
    unactivated-one n order nodes d.1,
    elem-append m order (n ∷ []),
    eq_beq m n,
    eq_beq n m,
  )
]
