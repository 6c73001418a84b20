-- ===== src/Activation/Ended.antt =====
-- The outer loop ends with its fuel unspent, and what it leaves is on a cycle (src/chassis/plugins/resolver.py).
use chassis.Prelude.{
  ℕ, zero, suc, ◌+◌, ◌≤◌, String, ◌≡◌, sym, ◌∙◌, inl, inr, true, false, ◌&&◌, ◌||◌, not, List, [],
  ◌∷◌, ◌++◌, arith, ◌==◌, eq_beq, nat_eq, string_eq, Bool-cases, if_ind, length, All, length-append,
  All-append, elem, All-select,
}
use mathlib.Core.Path.{subst}
use chassis.Prelude.Sorting.{sort, All-sort, any-sort}
use chassis.Prelude.Texts.{text_leb}
use chassis.Activation.{Edge, has_incoming, remove, consumers, relax, rounds}
use chassis.Activation.Topological.{is_left, elem-append}
use chassis.Activation.Counted.{unactivated, unactivated-snoc, unactivated-one}
use chassis.Activation.Reached.{
  Nodup, Nodup-sort, Nodup-snoc, Waiting, Open, Opening, Pending, relax-Pending,
}

-- The edges that are left are among the edges.
abbrev pub Within : List Edge → List Edge → Type 0
Within edges left = All (λ e. is_left e edges ≡ true) left

relax-Within :
    (edges : List Edge) (current : String) (order cs : List String) (left : List Edge)
    (ready : List String)
    → Within edges left
    → Within edges (relax current order cs left ready).0
unfolding relax remove
relax-Within edges current order [] left ready w = w
relax-Within edges current order (c ∷ cs) left ready w =
    let w' =
      All-select (λ e. is_left e edges ≡ true) (λ e. not (e.0 == current && e.1 == c)) left w in
    if_ind {A = List Edge × List String} (λ r. Within edges r.0)
      (not (has_incoming (remove (current, c) left) c)
        && (not (elem c order) && not (elem c ready)))
      (λ e. relax-Within edges current order cs (remove (current, c) left) (ready ++ c ∷ []) w')
      (λ e. relax-Within edges current order cs (remove (current, c) left) ready w')

elem-consumers :
    (e : Edge) (edges : List Edge) → is_left e edges ≡ true → elem e.1 (consumers e.0 edges) ≡ true
unfolding consumers
elem-consumers e [] h = h
elem-consumers e (k ∷ edges) h = ground (arith, elem-consumers e edges)

All-consumers :
    (nodes : List String) (p : String) (edges : List Edge)
    → All (λ e. elem e.1 nodes ≡ true) edges
    → All (λ c. elem c nodes ≡ true) (consumers p edges)
unfolding consumers
All-consumers nodes p [] h = tt
All-consumers nodes p (k ∷ edges) h =
    if_ind {A = List String} (All (λ c. elem c nodes ≡ true)) (k.0 == p)
      (λ e. (h.0, All-consumers nodes p edges h.1)) (λ e. All-consumers nodes p edges h.1)

opening :
    (nodes order : List String) (n : String) (edges : List Edge) (e : Edge)
    → is_left e edges ≡ true
    → Open nodes order e
    → Opening nodes (order ++ n ∷ []) n (sort text_leb (consumers n edges)) e
opening nodes order n edges e w ((p, q), r) = elim (Bool-cases (n == e.0)) [
  | inl same ↦
      let from : e.0 ≡ n = sym ((eq_beq n e.0).0 same) in
      inr (
        p,
        r,
        from,
        any-sort text_leb (λ x. x == e.1) (consumers n edges)
            ∙ subst (λ x. elem e.1 (consumers x edges) ≡ true) from (elem-consumers e edges w),
      )
  | inr other ↦ inl ((p, ground (arith, elem-append e.0 order (n ∷ []))), r)
]

Opening-start :
    (nodes order : List String) (n : String) (edges : List Edge) (left : List Edge)
    → Within edges left
    → All (Open nodes order) left
    → All (Opening nodes (order ++ n ∷ []) n (sort text_leb (consumers n edges))) left
Opening-start nodes order n edges [] w o = tt
Opening-start nodes order n edges (e ∷ left) w o =
    (opening nodes order n edges e w.0 o.0, Opening-start nodes order n edges left w.1 o.1)

Waiting-snoc :
    (nodes order : List String) (n : String) (ready : List String)
    → elem n ready ≡ false
    → All (Waiting nodes order) ready
    → All (Waiting nodes (order ++ n ∷ [])) ready
Waiting-snoc nodes order n [] h w = tt
Waiting-snoc nodes order n (m ∷ ready) h w = (
  (w.0.0, ground (arith, w.0.1, elem-append m order (n ∷ []), eq_beq m n, eq_beq n m)),
  Waiting-snoc nodes order n ready (ground arith) w.1,
)

Covered-activate :
    (order ready : List String) (n : String) (left : List Edge) (ns : List String)
    → All (λ m. (elem m order || (elem m (n ∷ ready) || has_incoming left m)) ≡ true) ns
    → All (λ m. (elem m (order ++ n ∷ []) || (elem m ready || has_incoming left m)) ≡ true) ns
Covered-activate order ready n left [] h = tt
Covered-activate order ready n left (m ∷ ns) h =
    (ground (arith, h.0, elem-append m order (n ∷ [])), Covered-activate order ready n left ns h.1)

Open-of :
    (nodes order : List String) (n : String) (left : List Edge)
    → All (Opening nodes order n []) left
    → All (Open nodes order) left
Open-of nodes order n [] h = tt
Open-of nodes order n (e ∷ left) (inl o, h) = (o, Open-of nodes order n left h)
Open-of nodes order n (e ∷ left) (inr (p, q, r, m), h) = absurd (ground arith)

-- The entries activated so far are nodes, each once, and none is lost count of.
pub record Activated (nodes order : List String) : Type 0 where
  pub among : All (λ n. elem n nodes ≡ true) order
  pub once : Nodup order
  pub counted : unactivated nodes order + length order ≡ length nodes

-- What the loop ends with: nothing is ready, and every node is activated or kept waiting by an edge
-- from one that is not.
pub record Ended (nodes : List String) (edges : List Edge) (order : List String) : Type 0 where
  pub left : List Edge
  pub within : Within edges left
  pub waiting : All (Open nodes order) left
  pub covered : All (λ n. (elem n order || has_incoming left n) ≡ true) nodes
  pub activated : Activated nodes order

Covered-none :
    (order : List String) (left : List Edge) (ns : List String)
    → All (λ n. (elem n order || (elem n [] || has_incoming left n)) ≡ true) ns
    → All (λ n. (elem n order || has_incoming left n) ≡ true) ns
Covered-none order left [] h = tt
Covered-none order left (n ∷ ns) h = (h.0, Covered-none order left ns h.1)

Covered-sort :
    (order ready : List String) (left : List Edge) (ns : List String)
    → All (λ n. (elem n order || (elem n ready || has_incoming left n)) ≡ true) ns
    → All (λ n. (elem n order || (elem n (sort text_leb ready) || has_incoming left n)) ≡ true) ns
Covered-sort order ready left [] h = tt
Covered-sort order ready left (n ∷ ns) h = (
  ground (arith, h.0, any-sort text_leb (λ x. x == n) ready),
  Covered-sort order ready left ns h.1,
)

Activated-snoc :
    (nodes order : List String) (n : String)
    → Nodup nodes
    → Waiting nodes order n
    → Activated nodes order
    → Activated nodes (order ++ n ∷ [])
Activated-snoc nodes order n d w a = record {
  among = All-append (λ m. elem m nodes ≡ true) order (n ∷ []) a.among (w.0, tt);
  once = Nodup-snoc order n a.once w.1;
  counted =
      omega (
        arith,
        a.counted,
        unactivated-one n order nodes d w.0 w.1,
        length-append {0} order (n ∷ []),
      );
}

-- A round with its loop shut: the entry is activated, and its consumers are looked at.
round-Pending :
    (nodes : List String) (edges left : List Edge) (n : String) (ready order : List String)
    → All (λ (e : Edge). elem e.1 nodes ≡ true) edges
    → Within edges left
    → All (Open nodes order) left
    → Pending nodes order (n ∷ ready) left
    → Pending nodes
        (order ++ n ∷ [])
        (relax n (order ++ n ∷ []) (sort text_leb (consumers n edges)) left ready).1
        (relax n (order ++ n ∷ []) (sort text_leb (consumers n edges)) left ready).0
      × All
          (Opening nodes (order ++ n ∷ []) n [])
          (relax n (order ++ n ∷ []) (sort text_leb (consumers n edges)) left ready).0
round-Pending nodes edges left n ready order b w o p =
    relax-Pending nodes (order ++ n ∷ []) n (sort text_leb (consumers n edges)) left ready
      (All-sort text_leb (λ c. elem c nodes ≡ true) (consumers n edges)
        (All-consumers nodes n edges b))
      (record {
        waits = Waiting-snoc nodes order n ready p.distinct.0 p.waits.1;
        distinct = p.distinct.1;
        covered = Covered-activate order ready n left nodes p.covered;
      })
      (Opening-start nodes order n edges left w o)

pub rounds-Ended :
    (fuel : ℕ) (nodes : List String) (edges left : List Edge) (ready order : List String)
    → unactivated nodes order ≤ fuel
    → Nodup nodes
    → All (λ (e : Edge). elem e.1 nodes ≡ true) edges
    → Within edges left
    → All (Open nodes order) left
    → Pending nodes order ready left
    → Activated nodes order
    → Ended nodes edges (rounds fuel edges left ready order)
unfolding rounds
rounds-Ended fuel nodes edges left [] order f d b w o p a = record {
  left = left;
  within = w;
  waiting = o;
  covered = Covered-none order left nodes p.covered;
  activated = a;
}
rounds-Ended zero nodes edges left (n ∷ ready) order f d b w o p a =
    absurd (omega (arith, unactivated-snoc n order nodes p.waits.0.0 p.waits.0.1))
rounds-Ended (suc fuel) nodes edges left (n ∷ ready) order f d b w o p a =
    let order' = order ++ n ∷ [] in
    let cs = sort text_leb (consumers n edges) in
    let relaxed = relax n order' cs left ready in
    let steady = round-Pending nodes edges left n ready order b w o p in
    rounds-Ended fuel nodes edges relaxed.0 (sort text_leb relaxed.1) order'
      (omega (arith, unactivated-snoc n order nodes p.waits.0.0 p.waits.0.1)) d b
      (relax-Within edges n order' cs left ready w) (Open-of nodes order' n relaxed.0 steady.1)
      (record {
        waits = All-sort text_leb (Waiting nodes order') relaxed.1 steady.0.waits;
        distinct = Nodup-sort relaxed.1 steady.0.distinct;
        covered = Covered-sort order' relaxed.1 relaxed.0 nodes steady.0.covered;
      })
      (Activated-snoc nodes order n d p.waits.0 a)
