-- ===== src/Activation/Reached.antt =====
-- The loop ends, and without a cycle it reaches every entry (src/chassis/plugins/resolver.py).
use chassis.Prelude.{
  String, ◌≡◌, refl, ◌∙◌, ◌⊎◌, inl, inr, true, false, ◌&&◌, ◌||◌, not, List, [], ◌∷◌, ◌++◌, arith,
  ◌==◌, eq_beq, nat_eq, string_eq, Bool-cases, if_ind, All, any-append, All-append, elem,
}
use mathlib.Core.Path.{subst}
use chassis.Prelude.Sorting.{insert, sort, any-insert, any-sort}
use chassis.Prelude.Texts.{text_leb}
use chassis.Activation.{Edge, has_incoming, remove, relax}

abbrev pub Nodup : List String → Type 0
Nodup [] = Unit
Nodup (x ∷ xs) = (elem x xs ≡ false) × Nodup xs

Nodup-insert :
    (x : String) (xs : List String) → elem x xs ≡ false → Nodup xs → Nodup (insert text_leb x xs)
unfolding insert
Nodup-insert x [] h n = (refl, tt)
Nodup-insert x (y ∷ ys) h n = elim (Bool-cases (text_leb x y)) [
  | inl e ↦ rw e (h, n)
  | inr e ↦ rw e (
    ground (arith, any-insert text_leb (λ z. z == y) x ys, eq_beq x y, eq_beq y x),
    Nodup-insert x ys (ground arith) n.1,
  )
]

pub Nodup-sort : (xs : List String) → Nodup xs → Nodup (sort text_leb xs)
unfolding sort
Nodup-sort [] n = tt
Nodup-sort (x ∷ xs) n =
    Nodup-insert x (sort text_leb xs) (any-sort text_leb (λ z. z == x) xs ∙ n.0) (Nodup-sort xs n.1)

pub Nodup-snoc :
    (xs : List String) (x : String) → Nodup xs → elem x xs ≡ false → Nodup (xs ++ x ∷ [])
Nodup-snoc [] x n h = (refl, tt)
Nodup-snoc (y ∷ ys) x n h = (
  ground (arith, any-append (λ z. z == y) ys (x ∷ []), eq_beq x y, eq_beq y x, n.0),
  Nodup-snoc ys x n.1 (ground arith),
)

-- What may be activated: a node that has not been.
abbrev pub Waiting : List String → List String → String → Type 0
Waiting nodes order n = (elem n nodes ≡ true) × (elem n order ≡ false)

-- What is left leads between nodes, and from one that has not been activated.
abbrev pub Open : List String → List String → Edge → Type 0
Open nodes order e = Waiting nodes order e.0 × (elem e.1 nodes ≡ true)

-- In the inner loop, or from the current entry to one that is still to be looked at.
abbrev pub Opening : List String → List String → String → List String → Edge → Type 0
Opening nodes order current cs e =
    Open nodes order e
    ⊎ ((elem e.0 nodes ≡ true) × (elem e.1 nodes ≡ true) × (e.0 ≡ current) × (elem e.1 cs ≡ true))

-- Every node is activated, ready or kept waiting by an edge.
abbrev Covered : List String → List String → List String → List Edge → Type 0
Covered nodes order ready left =
    All (λ n. (elem n order || (elem n ready || has_incoming left n)) ≡ true) nodes

pub record Pending (nodes order ready : List String) (left : List Edge) : Type 0 where
  pub waits : All (Waiting nodes order) ready
  pub distinct : Nodup ready
  pub covered : Covered nodes order ready left

has_incoming-remove :
    (p c n : String) (left : List Edge)
    → has_incoming left n ≡ true
    → (has_incoming (remove (p, c) left) n || c == n) ≡ true
unfolding has_incoming remove
has_incoming-remove p c n [] h = cc
has_incoming-remove p c n (e ∷ left) h =
    ground (arith, has_incoming-remove p c n left, eq_beq e.1 c, eq_beq e.1 n, eq_beq c n)

Opening-next :
    (nodes order : List String) (current c : String) (cs : List String) (e : Edge)
    → (e.0 == current && e.1 == c) ≡ false
    → Opening nodes order current (c ∷ cs) e
    → Opening nodes order current cs e
Opening-next nodes order current c cs e d (inl o) = inl o
Opening-next nodes order current c cs e d (inr (p, n, same, m)) =
    inr (p, n, same, ground (arith, d, m, eq_beq e.0 current, eq_beq e.1 c, eq_beq c e.1))

Opening-remove :
    (nodes order : List String) (current c : String) (cs : List String) (left : List Edge)
    → All (Opening nodes order current (c ∷ cs)) left
    → All (Opening nodes order current cs) (remove (current, c) left)
unfolding remove
Opening-remove nodes order current c cs [] h = tt
Opening-remove nodes order current c cs (e ∷ left) h =
    elim (Bool-cases (e.0 == current && e.1 == c)) [
      | inl gone ↦ rw gone (Opening-remove nodes order current c cs left h.1)
      | inr kept ↦ rw kept (
        Opening-next nodes order current c cs e kept h.0,
        Opening-remove nodes order current c cs left h.1,
      )
    ]

covered_one :
    (order ready : List String) (current c n : String) (left : List Edge)
    → (elem c order || (elem c ready || has_incoming (remove (current, c) left) c)) ≡ true
    → (elem n order || (elem n ready || has_incoming left n)) ≡ true
    → (elem n order || (elem n ready || has_incoming (remove (current, c) left) n)) ≡ true
covered_one order ready current c n left h k = elim (Bool-cases (c == n)) [
  | inl same ↦
      subst
        (λ m. (elem m order || (elem m ready || has_incoming (remove (current, c) left) m)) ≡ true)
        ((eq_beq c n).0 same) h
  | inr other ↦ ground (arith, has_incoming-remove current c n left)
]

-- Removing an edge into an entry that is accounted for leaves every node accounted for.
Covered-remove :
    (nodes order ready : List String) (current c : String) (left : List Edge) (ns : List String)
    → (elem c order || (elem c ready || has_incoming (remove (current, c) left) c)) ≡ true
    → All (λ n. (elem n order || (elem n ready || has_incoming left n)) ≡ true) ns
    → All
        (λ n. (elem n order || (elem n ready || has_incoming (remove (current, c) left) n)) ≡ true)
        ns
Covered-remove nodes order ready current c left [] h k = tt
Covered-remove nodes order ready current c left (n ∷ ns) h k = (
  covered_one order ready current c n left h k.0,
  Covered-remove nodes order ready current c left ns h k.1,
)

Covered-snoc :
    (order ready : List String) (c : String) (left : List Edge) (ns : List String)
    → All (λ n. (elem n order || (elem n ready || has_incoming left n) || c == n) ≡ true) ns
    → All (λ n. (elem n order || (elem n (ready ++ c ∷ []) || has_incoming left n)) ≡ true) ns
Covered-snoc order ready c left [] h = tt
Covered-snoc order ready c left (n ∷ ns) h = (
  ground (arith, h.0, any-append (λ x. x == n) ready (c ∷ [])),
  Covered-snoc order ready c left ns h.1,
)

Covered-but :
    (order ready : List String) (current c : String) (left : List Edge) (ns : List String)
    → All (λ n. (elem n order || (elem n ready || has_incoming left n)) ≡ true) ns
    → All
        (λ n.
          (elem n order || (elem n ready || has_incoming (remove (current, c) left) n) || c == n)
          ≡ true)
        ns
Covered-but order ready current c left [] k = tt
Covered-but order ready current c left (n ∷ ns) k = (
  ground (arith, k.0, has_incoming-remove current c n left),
  Covered-but order ready current c left ns k.1,
)

pub relax-Pending :
    (nodes order : List String) (current : String) (cs : List String) (left : List Edge)
    (ready : List String)
    → All (λ c. elem c nodes ≡ true) cs
    → Pending nodes order ready left
    → All (Opening nodes order current cs) left
    → Pending nodes order
        (relax current order cs left ready).1
        (relax current order cs left ready).0
      × All (Opening nodes order current []) (relax current order cs left ready).0
unfolding relax
relax-Pending nodes order current [] left ready n p o = (p, o)
relax-Pending nodes order current (c ∷ cs) left ready n p o =
    let left' = remove (current, c) left in
    let o' = Opening-remove nodes order current c cs left o in
    if_ind {A = List Edge × List String}
      (λ r. Pending nodes order r.1 r.0 × All (Opening nodes order current []) r.0)
      (not (has_incoming left' c) && (not (elem c order) && not (elem c ready)))
      (λ e.
        relax-Pending nodes order current cs left' (ready ++ c ∷ []) n.1
          (record {
            waits =
                All-append (Waiting nodes order) ready (c ∷ []) p.waits ((n.0, ground arith), tt);
            distinct = Nodup-snoc ready c p.distinct (ground arith);
            covered =
                Covered-snoc order ready c left' nodes
                  (Covered-but order ready current c left nodes p.covered);
          })
          o')
      (λ e.
        relax-Pending nodes order current cs left' ready n.1
          (record {
            waits = p.waits;
            distinct = p.distinct;
            covered =
                Covered-remove nodes order ready current c left nodes (ground arith) p.covered;
          })
          o')
