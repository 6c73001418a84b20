-- ===== src/Activation/Topological.antt =====
-- Providers come before their consumers (src/chassis/plugins/resolver.py).
use chassis.Prelude.{
  ℕ, zero, suc, String, ◌≡◌, refl, sym, ap, inl, inr, Bool, true, false, ◌&&◌, ◌||◌, not, List, [],
  ◌∷◌, ◌++◌, arith, ◌==◌, eq_beq, nat_eq, string_eq, Bool-cases, if_ind, length, select, any, All,
  any-append, All-append, elem, select-All, All-map, All-any,
}
use mathlib.Core.Path.{subst}
use chassis.Prelude.Sorting.{sort, All-sort}
use chassis.Prelude.Texts.{text_leb}
use chassis.Activation.{Edge, between, has_incoming, remove, consumers, relax, rounds, kahn}

-- Every edge into an entry comes from one of a list.
abbrev pub Supplied : List Edge → List String → String → Type 0
Supplied edges seen n = All (λ (e : Edge). (e.1 == n) ≡ true → elem e.0 seen ≡ true) edges

-- Each entry of an order is supplied by those before it, or by the ones already seen.
abbrev pub Topo : List Edge → List String → List String → Type 0
Topo edges seen [] = Unit
Topo edges seen (n ∷ order) = Supplied edges seen n × Topo edges (seen ++ n ∷ []) order

pub elem-append : (x : String) (xs ys : List String) → elem x (xs ++ ys) ≡ (elem x xs || elem x ys)
elem-append x xs ys = any-append (λ y. y == x) xs ys

pub append_nil : (xs : List String) → xs ++ [] ≡ xs
append_nil [] = refl
append_nil (x ∷ xs) = ap (λ l. x ∷ l) (append_nil xs)

append_assoc : (xs ys zs : List String) → (xs ++ ys) ++ zs ≡ xs ++ (ys ++ zs)
append_assoc [] ys zs = refl
append_assoc (x ∷ xs) ys zs = ap (λ l. x ∷ l) (append_assoc xs ys zs)

Topo-snoc :
    (edges : List Edge) (seen order : List String) (n : String)
    → Topo edges seen order
    → Supplied edges (seen ++ order) n
    → Topo edges seen (order ++ n ∷ [])
Topo-snoc edges seen [] n t s = (subst (λ l. Supplied edges l n) (append_nil seen) s, tt)
Topo-snoc edges seen (m ∷ order) n t s = (
  t.0,
  Topo-snoc edges (seen ++ m ∷ []) order n t.1
      (subst (λ l. Supplied edges l n) (sym (append_assoc seen (m ∷ []) order)) s),
)

-- The edge is left.
abbrev pub is_left : Edge → List Edge → Bool
is_left e left = any (λ (k : Edge). k.0 == e.0 && k.1 == e.1) left

has_incoming-is_left :
    (e : Edge) (left : List Edge) → is_left e left ≡ true → has_incoming left e.1 ≡ true
unfolding has_incoming
has_incoming-is_left e [] h = h
has_incoming-is_left e (k ∷ left) h = ground (arith, has_incoming-is_left e left)

has_incoming-remove :
    (k : Edge) (n : String) (left : List Edge)
    → has_incoming left n ≡ false
    → has_incoming (remove k left) n ≡ false
unfolding has_incoming remove
has_incoming-remove k n [] h = h
has_incoming-remove (p, c) n (e ∷ left) h = ground (arith, has_incoming-remove (p, c) n left)

is_left-remove :
    (p c : String) (e : Edge) (left : List Edge)
    → is_left e left ≡ true
    → (is_left e (remove (p, c) left) || e.0 == p) ≡ true
unfolding remove
is_left-remove p c e [] h = cc
is_left-remove p c e (k ∷ left) h =
    ground (arith, is_left-remove p c e left, eq_beq k.0 e.0, eq_beq k.0 p, eq_beq e.0 p)

-- Each edge is left, or its provider has been activated.
abbrev pub Kept : List Edge → List Edge → List String → Type 0
Kept edges left order = All (λ e. (is_left e left || elem e.0 order) ≡ true) edges

abbrev pub Free : List Edge → List String → Type 0
Free left ready = All (λ n. has_incoming left n ≡ false) ready

Supplied-of :
    (n : String) (edges left : List Edge) (order : List String)
    → has_incoming left n ≡ false
    → Kept edges left order
    → Supplied edges order n
Supplied-of n [] left order h k = tt
Supplied-of n (e ∷ edges) left order h k = (
  λ same. ground (arith, k.0, has_incoming-is_left e left, eq_beq e.1 n),
  Supplied-of n edges left order h k.1,
)

Free-remove :
    (k : Edge) (left : List Edge) (ready : List String)
    → Free left ready
    → Free (remove k left) ready
Free-remove k left ready h =
    All-map (λ n. has_incoming left n ≡ false) (λ n. has_incoming (remove k left) n ≡ false) ready
      (λ n. has_incoming-remove k n left) h

kept_one :
    (p c : String) (e : Edge) (left : List Edge) (order : List String)
    → elem p order ≡ true
    → (is_left e left || elem e.0 order) ≡ true
    → (is_left e (remove (p, c) left) || elem e.0 order) ≡ true
kept_one p c e left order h k = elim (Bool-cases (is_left e left)) [
  | inr gone ↦ ground arith
  | inl yes_left ↦ elim (Bool-cases (e.0 == p)) [
    | inl same ↦
        let e_in : elem e.0 order ≡ true =
          subst (λ q. elem q order ≡ true) (sym ((eq_beq e.0 p).0 same)) h in
        ground arith
    | inr other ↦ ground (arith, is_left-remove p c e left yes_left)
  ]
]

Kept-remove :
    (p c : String) (edges left : List Edge) (order : List String)
    → elem p order ≡ true
    → Kept edges left order
    → Kept edges (remove (p, c) left) order
Kept-remove p c [] left order h k = tt
Kept-remove p c (e ∷ edges) left order h k =
    (kept_one p c e left order h k.0, Kept-remove p c edges left order h k.1)

Kept-snoc :
    (n : String) (edges left : List Edge) (order : List String)
    → Kept edges left order
    → Kept edges left (order ++ n ∷ [])
Kept-snoc n edges left order h =
    All-map (λ e. (is_left e left || elem e.0 order) ≡ true)
      (λ e. (is_left e left || elem e.0 (order ++ n ∷ [])) ≡ true) edges
      (λ e k. ground (arith, k, elem-append e.0 order (n ∷ []))) h

Free-snoc :
    (left : List Edge) (ready : List String) (c : String)
    → Free left ready
    → has_incoming left c ≡ false
    → Free left (ready ++ c ∷ [])
Free-snoc left ready c h k = All-append (λ n. has_incoming left n ≡ false) ready (c ∷ []) h (k, tt)

-- What the inner loop keeps.
abbrev Steady : List Edge → List String → List Edge × List String → Type 0
Steady edges order r = Kept edges r.0 order × Free r.0 r.1

relax-Steady :
    (current : String) (edges : List Edge) (order cs : List String) (left : List Edge)
    (ready : List String)
    → elem current order ≡ true
    → Kept edges left order
    → Free left ready
    → Steady edges order (relax current order cs left ready)
unfolding relax
relax-Steady current edges order [] left ready h k f = (k, f)
relax-Steady current edges order (c ∷ cs) left ready h k f =
    let left' = remove (current, c) left in
    let k' = Kept-remove current c edges left order h k in
    let f' = Free-remove (current, c) left ready f in
    if_ind {A = List Edge × List String} (Steady edges order)
      (not (has_incoming left' c) && (not (elem c order) && not (elem c ready)))
      (λ e.
        relax-Steady current edges order cs left' (ready ++ c ∷ []) h k'
          (Free-snoc left' ready c f' (ground arith)))
      (λ e. relax-Steady current edges order cs left' ready h k' f')

elem-snoc : (x : String) (xs : List String) → elem x (xs ++ x ∷ []) ≡ true
elem-snoc x xs = ground (arith, elem-append x xs (x ∷ []), eq_beq x x)

rounds-Topo :
    (fuel : ℕ) (edges left : List Edge) (ready order : List String)
    → Kept edges left order
    → Free left ready
    → Topo edges [] order
    → Topo edges [] (rounds fuel edges left ready order)
unfolding rounds
rounds-Topo fuel edges left [] order k f t = t
rounds-Topo zero edges left (n ∷ ready) order k f t = t
rounds-Topo (suc fuel) edges left (n ∷ ready) order k f t =
    let order' = order ++ n ∷ [] in
    let cs = sort text_leb (consumers n edges) in
    let kept =
      relax-Steady n edges order' cs left ready (elem-snoc n order) (Kept-snoc n edges left order k)
        f.1 in
    let relaxed = relax n order' cs left ready in
    rounds-Topo fuel edges relaxed.0 (sort text_leb relaxed.1) order' kept.0
      (All-sort text_leb (λ n. has_incoming relaxed.0 n ≡ false) relaxed.1 kept.1)
      (Topo-snoc edges [] order n t (Supplied-of n edges left order f.0 k))

All-left : (edges left : List Edge) → All (λ e. is_left e left ≡ true) edges → Kept edges left []
All-left edges left h =
    All-map (λ e. is_left e left ≡ true) (λ e. (is_left e left || elem e.0 []) ≡ true) edges
      (λ e k. ground arith) h

Free-start :
    (left : List Edge) (nodes : List String)
    → Free left (select (λ n. not (has_incoming left n)) nodes)
Free-start left nodes =
    All-map (λ n. not (has_incoming left n) ≡ true) (λ n. has_incoming left n ≡ false)
      (select (λ n. not (has_incoming left n)) nodes) (λ n k. ground arith)
      (select-All (λ n. not (has_incoming left n)) nodes)

-- Every entry that the loop activates comes after all its providers among the nodes.
pub kahn-Topo :
    (nodes : List String) (edges : List Edge) → Topo (between nodes edges) [] (kahn nodes edges)
unfolding kahn
kahn-Topo nodes edges =
    let es = between nodes edges in
    let start = select (λ n. not (has_incoming es n)) nodes in
    rounds-Topo (length nodes) es es (sort text_leb start) []
      (All-left es es (
        All-any (λ (e k : Edge). k.0 == e.0 && k.1 == e.1) es
          (λ e. ground (arith, eq_beq e.0 e.0, eq_beq e.1 e.1))))
      (All-sort text_leb (λ n. has_incoming es n ≡ false) start (Free-start es nodes)) tt
