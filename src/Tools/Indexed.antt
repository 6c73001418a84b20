-- ===== src/Tools/Indexed.antt =====
-- The index of names fits the registrations (src/chassis/tools/registry.py).
use chassis.Prelude.{
  String, ◌≡◌, refl, sym, ap, ◌∙◌, inl, inr, Bool, true, false, ◌&&◌, not, Option, none, some, List,
  [], ◌∷◌, ◌++◌, arith, ◌==◌, eq_beq, nat_eq, string_eq, if◌then◌else◌, Bool-cases, if_ind, elem,
}
use mathlib.Core.Path.{subst}
use chassis.Prelude.Dict.{Dict, get, has, put, get-put}
use chassis.Activation.Reached.{Nodup, Nodup-snoc}
use chassis.Activation.Topological.{elem-append}
use chassis.Tools.{RegisteredTool}
use chassis.Tools.Registry.{ToolRegistry, ids_or_empty, ids_for, add_tool, remove_first}

abbrev pub is_named : String → Option RegisteredTool → Bool
is_named name none = false
is_named name (some e) = e.name == name

-- The index lists, once each, exactly the registrations that bear a name.
pub record IsIndexed (r : ToolRegistry) : Type 0 where
  pub listed : (id name : String) → elem id (ids_for name r) ≡ is_named name (get id r.entries)
  pub distinct : (name : String) → Nodup (ids_for name r)

has-get : (id : String) (d : Dict String RegisteredTool) → has id d ≡ false → get id d ≡ none
unfolding has get
has-get id [] h = refl
has-get id ((j, v) ∷ d) h = ground (arith, has-get id d)

pub pushed :
    (b : Bool) (xs : List String) (o : Option (List String))
    → ids_or_empty (if b then some xs else o) ≡ (if b then xs else ids_or_empty o)
unfolding ids_or_empty
pushed true xs o = refl
pushed false xs o = refl

ids_for-add_tool :
    (id : String) (e : RegisteredTool) (r : ToolRegistry) (name : String)
    → ids_for name (add_tool id e r)
      ≡ (if e.name == name then ids_for e.name r ++ id ∷ [] else ids_for name r)
unfolding ids_for add_tool
ids_for-add_tool id e r name =
    ap ids_or_empty (get-put e.name name (ids_for e.name r ++ id ∷ []) r.names)
    ∙ pushed (e.name == name) (ids_for e.name r ++ id ∷ []) (get name r.names)

pub elem-remove_first :
    (x y : String) (xs : List String)
    → Nodup xs
    → elem y (remove_first x xs) ≡ (not (x == y) && elem y xs)
unfolding remove_first
elem-remove_first x y [] n = ground arith
elem-remove_first x y (z ∷ zs) n = elim (Bool-cases (z == x)) [
  | inl e ↦
      let same : z ≡ x = (eq_beq z x).0 e in
      elim (Bool-cases (x == y)) [
        | inl k ↦
            let gone : elem y zs ≡ false =
              subst (λ w. elem w zs ≡ false) (same ∙ (eq_beq x y).0 k) n.0 in
            ground (arith, e, k, gone)
        | inr k ↦ ground (arith, e, k, subst (λ w. (w == y) ≡ false) (sym same) k)
      ]
  | inr e ↦ elim (Bool-cases (x == y)) [
    | inl k ↦ ground (
      arith,
      e,
      k,
      subst (λ w. (z == w) ≡ false) ((eq_beq x y).0 k) e,
      elem-remove_first x y zs n.1,
    )
    | inr k ↦ ground (arith, e, k, elem-remove_first x y zs n.1)
  ]
]

pub Nodup-remove_first : (x : String) (xs : List String) → Nodup xs → Nodup (remove_first x xs)
unfolding remove_first
Nodup-remove_first x [] n = tt
Nodup-remove_first x (z ∷ zs) n =
    if_ind {A = List String} Nodup (z == x) (λ e. n.1)
      (λ e. (elem-remove_first x z zs n.1 ∙ ground (arith, n.0), Nodup-remove_first x zs n.1))

pub pushed_elem :
    (b : Bool) (xs ys : List String) (id' : String)
    → elem id' (if b then xs else ys) ≡ (if b then elem id' xs else elem id' ys)
pushed_elem true xs ys id' = refl
pushed_elem false xs ys id' = refl

is_named-put :
    (b : Bool) (name : String) (e : RegisteredTool) (o : Option RegisteredTool)
    → is_named name (if b then some e else o) ≡ (if b then e.name == name else is_named name o)
is_named-put true name e o = refl
is_named-put false name e o = refl

unlisted :
    (id name : String) (r : ToolRegistry)
    → has id r.entries ≡ false
    → IsIndexed r
    → elem id (ids_for name r) ≡ false
unlisted id name r fresh h = h.listed id name ∙ ap (is_named name) (has-get id r.entries fresh)

added_listed :
    (id : String) (e : RegisteredTool) (r : ToolRegistry)
    → has id r.entries ≡ false
    → IsIndexed r
    → (id' name : String)
    → elem id' (ids_for name (add_tool id e r)) ≡ is_named name (get id' (add_tool id e r).entries)
unfolding add_tool
added_listed id e r fresh h id' name =
    let before : elem id' (ids_for name (add_tool id e r)) ≡ (
        if e.name == name
        then elem id' (ids_for e.name r ++ id ∷ [])
        else elem id' (ids_for name r)) =
      ap (elem id') (ids_for-add_tool id e r name)
      ∙ pushed_elem (e.name == name) (ids_for e.name r ++ id ∷ []) (ids_for name r) id' in
    let after : is_named name (get id' (put id e r.entries))
        ≡ (if id == id' then e.name == name else is_named name (get id' r.entries)) =
      ap (is_named name) (get-put id id' e r.entries)
      ∙ is_named-put (id == id') name e (get id' r.entries) in
    let both : (if e.name == name
          then elem id' (ids_for e.name r ++ id ∷ [])
          else elem id' (ids_for name r))
        ≡ (if id == id' then e.name == name else is_named name (get id' r.entries)) =
      elim (Bool-cases (e.name == name)) [
        | inl n ↦ elim (Bool-cases (id == id')) [
          | inl k ↦ ground (arith, n, k, elem-append id' (ids_for e.name r) (id ∷ []))
          | inr k ↦ ground (
            arith,
            n,
            k,
            elem-append id' (ids_for e.name r) (id ∷ []),
            h.listed id' e.name,
            subst (λ w. is_named e.name (get id' r.entries) ≡ is_named w (get id' r.entries))
                ((eq_beq e.name name).0 n) refl,
          )
        ]
        | inr n ↦ elim (Bool-cases (id == id')) [
          | inl k ↦ ground (
            arith,
            n,
            k,
            subst (λ w. elem w (ids_for name r) ≡ false) ((eq_beq id id').0 k)
                (unlisted id name r fresh h),
          )
          | inr k ↦ ground (arith, n, k, h.listed id' name)
        ]
      ] in
    before ∙ both ∙ sym after

pub add_tool-IsIndexed :
    (id : String) (e : RegisteredTool) (r : ToolRegistry)
    → has id r.entries ≡ false
    → IsIndexed r
    → IsIndexed (add_tool id e r)
add_tool-IsIndexed id e r fresh h = record {
  listed = added_listed id e r fresh h;
  distinct = λ name. subst Nodup (sym (ids_for-add_tool id e r name)) (
      if_ind {A = List String} Nodup (e.name == name)
        (λ y. Nodup-snoc (ids_for e.name r) id (h.distinct e.name) (unlisted id e.name r fresh h))
        (λ n. h.distinct name));
}
