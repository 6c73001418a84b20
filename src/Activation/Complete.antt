-- ===== src/Activation/Complete.antt =====
-- The activation order is complete, and in topological order when there is no cycle
-- (src/chassis/plugins/resolver.py).
use chassis.Prelude.{
  ℕ, zero, suc, ◌<◌, String, ◌≡◌, refl, sym, ap, ◌∙◌, inl, inr, Bool, true, false, ◌&&◌, ◌||◌, not,
  List, [], ◌∷◌, ◌++◌, arith, nat_beq, nat_beq_iff, ◌==◌, eq_beq, nat_eq, string_eq, Bool-cases,
  if_ind, length, select, All, elem, select-All, All-map,
}
use mathlib.Core.Path.{subst}
use chassis.Prelude.Sorting.{any-sort}
use chassis.Prelude.Texts.{text_leb}
use chassis.Activation.{Edge, names_of, between, has_incoming, kahn, complete, activation_order}
use chassis.Activation.Topological.{is_left, elem-append, append_nil, Topo, kahn-Topo}
use chassis.Activation.Reached.{Nodup, Nodup-sort, Open}
use chassis.Activation.Counted.{unactivated}
use chassis.Activation.Ended.{Activated, Ended}
use chassis.Activation.Finished.{elem-select, Nodup-select, All-elem, kahn-Ended}

-- An edge of a list into an entry, with what holds of the list.
find_incoming {κ} :
    (P : Edge → Type κ) (n : String) (left : List Edge)
    → All P left
    → has_incoming left n ≡ true
    → (e : Edge) × (e.1 ≡ n) × P e
unfolding has_incoming
find_incoming P n [] a h = absurd (ground arith)
find_incoming P n (e ∷ left) a h = elim (Bool-cases (e.1 == n)) [
  | inl same ↦ (e, (eq_beq e.1 n).0 same, a.0)
  | inr other ↦ find_incoming P n left a.1 (ground arith)
]

-- A rank that grows along every edge: there is no cycle.
abbrev pub Ranked : (String → ℕ) → List Edge → Type 0
Ranked rank edges = All (λ e. rank e.0 < rank e.1) edges

Ranked-of :
    (rank : String → ℕ) (e : Edge) (edges : List Edge)
    → Ranked rank edges
    → is_left e edges ≡ true
    → rank e.0 < rank e.1
Ranked-of rank e [] r h = absurd (ground arith)
Ranked-of rank e (k ∷ edges) r h = elim (Bool-cases (k.0 == e.0 && k.1 == e.1)) [
  | inl same ↦
      let from : k.0 ≡ e.0 = (eq_beq k.0 e.0).0 (ground arith) in
      let to : k.1 ≡ e.1 = (eq_beq k.1 e.1).0 (ground arith) in
      omega (arith, r.0, ap rank from, ap rank to)
  | inr other ↦ Ranked-of rank e edges r.1 (ground arith)
]

All-and {κ μ} :
    {A : Type 0} (P : A → Type κ) (Q : A → Type μ) (xs : List A)
    → All P xs
    → All Q xs
    → All (λ x. P x × Q x) xs
All-and P Q [] h k = tt
All-and P Q (x ∷ xs) h k = ((h.0, k.0), All-and P Q xs h.1 k.1)

All-at :
    (p : String → Bool) (n : String) (xs : List String)
    → All (λ x. p x ≡ true) xs
    → elem n xs ≡ true
    → p n ≡ true
All-at p n [] a h = cc
All-at p n (x ∷ xs) a h = elim (Bool-cases (x == n)) [
  | inl e ↦ subst (λ y. p y ≡ true) ((eq_beq x n).0 e) a.0
  | inr e ↦ All-at p n xs a.1 (ground arith)
]

reached :
    (nodes : List String) (edges : List Edge) (order : List String) (rank : String → ℕ)
    → Ended nodes edges order
    → Ranked rank edges
    → (k : ℕ) (n : String) → rank n < k
    → elem n nodes ≡ true
    → elem n order ≡ true
reached nodes edges order rank d r zero n b h = absurd (omega arith)
reached nodes edges order rank d r (suc k) n b h = elim (Bool-cases (elem n order)) [
  | inl e ↦ e
  | inr e ↦
      let waits : has_incoming d.left n ≡ true =
        ground (arith, All-at (λ m. elem m order || has_incoming d.left m) n nodes d.covered h) in
      let (edge, to, (within, open_edge)) =
        find_incoming (λ e. (is_left e edges ≡ true) × Open nodes order e) n d.left
          (All-and (λ e. is_left e edges ≡ true) (Open nodes order) d.left d.within d.waiting)
          waits in
      let lower : rank edge.0 < k = omega (arith, Ranked-of rank edge edges r within, ap rank to) in
      ground (arith, reached nodes edges order rank d r k edge.0 lower open_edge.0.0, open_edge.0.1)
]

Nodup-names_of :
    (eligible excluded : List String) → Nodup eligible → Nodup (names_of eligible excluded)
unfolding names_of
Nodup-names_of eligible excluded d =
    Nodup-sort (select (λ e. not (elem e excluded)) eligible)
      (Nodup-select (λ e. not (elem e excluded)) eligible d)

elem-names_of :
    (n : String) (eligible excluded : List String)
    → elem n (names_of eligible excluded) ≡ (not (elem n excluded) && elem n eligible)
unfolding names_of
elem-names_of n eligible excluded =
    any-sort text_leb (λ x. x == n) (select (λ e. not (elem e excluded)) eligible)
    ∙ elem-select (λ e. not (elem e excluded)) n eligible

-- With every node in the order, the rest is empty.
select-none :
    (nodes order : List String)
    → All (λ n. elem n order ≡ true) nodes
    → select (λ n. not (elem n order)) nodes ≡ []
select-none [] order h = refl
select-none (n ∷ nodes) order h = ground (arith, h.0, select-none nodes order h.1)

complete-all :
    (nodes order : List String)
    → All (λ n. elem n order ≡ true) nodes
    → complete nodes order ≡ order
unfolding complete
complete-all nodes order h =
    if_ind {A = List String} (λ l. l ≡ order) (nat_beq (length order) (length nodes)) (λ e. refl)
      (λ e. ap (λ l. order ++ l) (select-none nodes order h) ∙ append_nil order)

-- When the edges have no cycle, shown by a rank that grows along every edge, the activation order
-- puts each entry after all the entries that provide it something.
pub activation_order-Topo :
    (eligible : List String) (edges : List Edge) (excluded : List String) (rank : String → ℕ)
    → Nodup eligible
    → Ranked rank (between (names_of eligible excluded) edges)
    → Topo
        (between (names_of eligible excluded) edges)
        []
        (activation_order eligible edges excluded)
unfolding activation_order
activation_order-Topo eligible edges excluded rank d r =
    let nodes = names_of eligible excluded in
    let distinct = Nodup-names_of eligible excluded d in
    let ended = kahn-Ended nodes edges distinct in
    let all =
      All-map (λ n. elem n nodes ≡ true) (λ n. elem n (kahn nodes edges) ≡ true) nodes
        (λ n h.
          reached nodes (between nodes edges) (kahn nodes edges) rank ended r (suc (rank n)) n
            (omega arith) h)
        (All-elem nodes) in
    subst (Topo (between nodes edges) []) (sym (complete-all nodes (kahn nodes edges) all))
      (kahn-Topo nodes edges)

differs : (x : String) (ys : List String) → All (λ y. (x == y) ≡ false) ys → elem x ys ≡ false
differs x [] h = refl
differs x (y ∷ ys) h = ground (arith, h.0, differs x ys h.1, eq_beq x y, eq_beq y x)

Nodup-append :
    (xs ys : List String) → Nodup xs → Nodup ys → All (λ y. elem y xs ≡ false) ys → Nodup (xs ++ ys)
Nodup-append [] ys d e h = e
Nodup-append (x ∷ xs) ys d e h = (
  ground (
    arith,
    elem-append x xs ys,
    d.0,
    differs x ys
        (All-map (λ y. elem y (x ∷ xs) ≡ false) (λ y. (x == y) ≡ false) ys (λ y k. ground arith) h),
  ),
  Nodup-append xs ys d.1 e
      (All-map (λ y. elem y (x ∷ xs) ≡ false) (λ y. elem y xs ≡ false) ys (λ y k. ground arith) h),
)

covered_by_count :
    (nodes order : List String) → unactivated nodes order ≡ 0 → All (λ n. elem n order ≡ true) nodes
covered_by_count [] order h = tt
covered_by_count (n ∷ nodes) order h =
    (ground (arith, h), covered_by_count nodes order (ground (arith, h)))

same_elements :
    (nodes order : List String) (n : String)
    → All (λ m. elem m nodes ≡ true) order
    → All (λ m. elem m order ≡ true) nodes
    → elem n order ≡ elem n nodes
same_elements nodes order n h k =
    ground (arith, All-at (λ m. elem m nodes) n order h, All-at (λ m. elem m order) n nodes k)

filled :
    (nodes order : List String) (n : String)
    → All (λ m. elem m nodes ≡ true) order
    → (elem n order || elem n (select (λ m. not (elem m order)) nodes)) ≡ elem n nodes
filled nodes order n h =
    ground
      (arith, All-at (λ m. elem m nodes) n order h, elem-select (λ m. not (elem m order)) n nodes)

completed :
    (nodes order : List String) (n : String)
    → Nodup nodes
    → Activated nodes order
    → Nodup (complete nodes order) × (elem n (complete nodes order) ≡ elem n nodes)
unfolding complete
completed nodes order n d a =
    let missing = λ (m : String). not (elem m order) in
    if_ind {A = List String} (λ l. Nodup l × (elem n l ≡ elem n nodes))
      (nat_beq (length order) (length nodes))
      (λ e.
        let full =
          covered_by_count nodes order
            (ground (arith, a.counted, nat_beq_iff (length order) (length nodes))) in
        (a.once, same_elements nodes order n a.among full))
      (λ e. (
        Nodup-append order (select missing nodes) a.once (Nodup-select missing nodes d) (
            All-map (λ m. missing m ≡ true) (λ m. elem m order ≡ false) (select missing nodes)
              (λ m k. ground arith) (select-All missing nodes)),
        elem-append n order (select missing nodes) ∙ filled nodes order n a.among,
      ))

-- Whatever the edges, the activation order holds each eligible entry that is not excluded, and no
-- other, exactly once: the loop drops none on a cycle.
pub activation_order-Nodup :
    (eligible : List String) (edges : List Edge) (excluded : List String) (n : String)
    → Nodup eligible
    → Nodup (activation_order eligible edges excluded)
      × (elem n (activation_order eligible edges excluded)
          ≡ (not (elem n excluded) && elem n eligible))
unfolding activation_order
activation_order-Nodup eligible edges excluded n d =
    let nodes = names_of eligible excluded in
    let distinct = Nodup-names_of eligible excluded d in
    let ended = kahn-Ended nodes edges distinct in
    let whole = completed nodes (kahn nodes edges) n distinct ended.activated in
    (whole.0, whole.1 ∙ elem-names_of n eligible excluded)
