-- ===== src/Tools/Released.antt =====
-- Releases keep the index of names (src/chassis/tools/registry.py).
use chassis.Prelude.{
  String, ◌≡◌, refl, sym, ap, ◌∙◌, inl, inr, Bool, true, false, Option, none, some, List, [], ◌∷◌,
  arith, ◌==◌, eq_beq, nat_eq, string_eq, if◌then◌else◌, Bool-cases, if_ind, elem,
}
use mathlib.Core.Path.{subst}
use chassis.Prelude.Dict.{Dict, get, pop, get-put, get-pop}
use chassis.Activation.Reached.{Nodup}
use chassis.Tools.{RegisteredTool}
use chassis.Tools.Registry.{
  ToolRegistry, ids_or_empty, ids_for, remove_first, index_without, drop_entry, release,
}
use chassis.Tools.Indexed.{
  is_named, IsIndexed, elem-remove_first, Nodup-remove_first, pushed, pushed_elem,
}

popped :
    (b : Bool) (o : Option (List String))
    → ids_or_empty (if b then none else o) ≡ (if b then [] else ids_or_empty o)
unfolding ids_or_empty
popped true o = refl
popped false o = refl

ids_without :
    (name name' : String) (ids : List String) (names : Dict String (List String))
    → ids_or_empty (get name' (index_without name ids names))
      ≡ (if name == name' then ids else ids_or_empty (get name' names))
unfolding index_without
ids_without name name' [] names =
    ap ids_or_empty (get-pop name name' names) ∙ popped (name == name') (get name' names)
ids_without name name' (x ∷ xs) names =
    ap ids_or_empty (get-put name name' (x ∷ xs) names)
    ∙ pushed (name == name') (x ∷ xs) (get name' names)

is_named-pop :
    (b : Bool) (name : String) (o : Option RegisteredTool)
    → is_named name (if b then none else o) ≡ (if b then false else is_named name o)
is_named-pop true name o = refl
is_named-pop false name o = refl

dropped_listed :
    (id : String) (e : RegisteredTool) (r : ToolRegistry)
    → get id r.entries ≡ some e
    → IsIndexed r
    → (id' name : String)
    → elem id' (ids_for name (drop_entry id (some e) r).1)
      ≡ is_named name (get id' (drop_entry id (some e) r).1.entries)
unfolding drop_entry ids_for
dropped_listed id e r there h id' name =
    let ids = remove_first id (ids_for e.name r) in
    let before : elem id' (ids_or_empty (get name (index_without e.name ids r.names)))
        ≡ (if e.name == name then elem id' ids else elem id' (ids_for name r)) =
      ap (elem id') (ids_without e.name name ids r.names)
      ∙ pushed_elem (e.name == name) ids (ids_for name r) id' in
    let after : is_named name (get id' (pop id r.entries))
        ≡ (if id == id' then false else is_named name (get id' r.entries)) =
      ap (is_named name) (get-pop id id' r.entries)
      ∙ is_named-pop (id == id') name (get id' r.entries) in
    let removed = elem-remove_first id id' (ids_for e.name r) (h.distinct e.name) in
    let both : (if e.name == name then elem id' ids else elem id' (ids_for name r))
        ≡ (if id == id' then false else is_named name (get id' r.entries)) =
      elim (Bool-cases (e.name == name)) [
        | inl n ↦ elim (Bool-cases (id == id')) [
          | inl k ↦ ground (arith, n, k, removed)
          | inr k ↦ ground (
            arith,
            n,
            k,
            removed,
            h.listed id' e.name,
            subst (λ w. is_named e.name (get id' r.entries) ≡ is_named w (get id' r.entries))
                ((eq_beq e.name name).0 n) refl,
          )
        ]
        | inr n ↦ elim (Bool-cases (id == id')) [
          | inl k ↦ ground (
            arith,
            n,
            k,
            subst (λ w. elem w (ids_for name r) ≡ false) ((eq_beq id id').0 k)
                (h.listed id name ∙ ap (is_named name) there ∙ n),
          )
          | inr k ↦ ground (arith, n, k, h.listed id' name)
        ]
      ] in
    before ∙ both ∙ sym after

drop_entry-IsIndexed :
    (id : String) (o : Option RegisteredTool) (r : ToolRegistry)
    → get id r.entries ≡ o
    → IsIndexed r
    → IsIndexed (drop_entry id o r).1
unfolding drop_entry ids_for
drop_entry-IsIndexed id none r there h = h
drop_entry-IsIndexed id (some e) r there h = record {
  listed = dropped_listed id e r there h;
  distinct = λ name.
      subst Nodup (sym (ids_without e.name name (remove_first id (ids_for e.name r)) r.names)) (
        if_ind {A = List String} Nodup (e.name == name)
          (λ y. Nodup-remove_first id (ids_for e.name r) (h.distinct e.name))
          (λ n. h.distinct name));
}

pub release-IsIndexed : (id : String) (r : ToolRegistry) → IsIndexed r → IsIndexed (release id r).1
unfolding release
release-IsIndexed id r h = drop_entry-IsIndexed id (get id r.entries) r refl h

abbrev pub is_some : Option RegisteredTool → Bool
is_some none = false
is_some (some e) = true

kept_entry :
    (id id' : String)
    → (id == id') ≡ false
    → (o : Option RegisteredTool) → (if id == id' then none else o) ≡ o
kept_entry id id' k o = rw k

get-drop_entry :
    (id id' : String) (o : Option RegisteredTool) (r : ToolRegistry)
    → (id == id') ≡ false
    → get id' (drop_entry id o r).1.entries ≡ get id' r.entries
unfolding drop_entry
get-drop_entry id id' none r k = refl
get-drop_entry id id' (some e) r k =
    get-pop id id' r.entries ∙ kept_entry id id' k (get id' r.entries)

-- A release of another identifier leaves an entry.
pub get-release :
    (id id' : String) (r : ToolRegistry)
    → (id == id') ≡ false
    → get id' (release id r).1.entries ≡ get id' r.entries
unfolding release
get-release id id' r k = get-drop_entry id id' (get id r.entries) r k
