-- ===== src/Config/Reconciled.antt =====
-- The whole difference between desired and installed state (src/chassis/config/reconcile.py).
use chassis.Prelude.{
  String, ◌≡◌, refl, sym, ap, ◌∙◌, ◌⊎◌, inl, inr, true, false, ◌||◌, not, Option, none, some, List,
  [], ◌∷◌, arith, ◌==◌, eq_beq, nat_eq, string_eq, Bool-cases, if_ind, Option-cases, all, elem,
}
use mathlib.Core.Path.{subst}
use chassis.Prelude.Dict.{Dict, keys, get, has}
use chassis.Prelude.Sorting.{sort, any-sort}
use chassis.Prelude.Texts.{text_leb}
use chassis.Config.{
  Digests, DesiredStateAction, DesiredStateChange, InstalledEntry, PluginEntryConfig,
  enabled_entries, by_id, union, change_for, changes_for, diff_desired_state,
}
use chassis.Config.Settled.{
  Wanted, Installed, carry_out, apply, IsSettled, IsSettling, settle-one, get-carry_out, elem-union,
  wanted_summary, installed_summary,
}

elem-keys {κ} : {V : Type κ} (j : String) (d : Dict String V) → elem j (keys d) ≡ has j d
unfolding has
elem-keys j [] = refl
elem-keys j ((i, v) ∷ d) = ground (arith, elem-keys j d)

has-get {κ} : {V : Type κ} (j : String) (d : Dict String V) → (get j d ≡ none) ⊎ (has j d ≡ true)
unfolding has get
has-get j [] = inl refl
has-get j ((i, v) ∷ d) = ground (arith, has-get j d)

absent-get {κ} : {V : Type κ} (j : String) (d : Dict String V) → get j d ≡ none → has j d ≡ false
unfolding has get
absent-get j [] e = refl
absent-get j ((i, v) ∷ d) e = ground (arith, absent-get j d)

module _ (h : Digests) where
  open h use {Config, config_fingerprint}

  -- Every change is about the entry that it was derived for.
  abbrev IsAbout : String → Option DesiredStateChange → Type 0
  IsAbout i none = Unit
  IsAbout i (some x) = x.entry_id ≡ i

  change_for-IsAbout :
      (i : String) (e : Option (PluginEntryConfig h)) (c : Option InstalledEntry)
      → IsAbout i (change_for h i e c)
  unfolding change_for
  change_for-IsAbout i (some e) none = refl
  change_for-IsAbout i none (some c) = refl
  change_for-IsAbout i none none = tt
  change_for-IsAbout i (some e) (some c) =
      if_ind {A = Option DesiredStateChange} (IsAbout i) (not (e.plugin == c.plugin)) (λ p. refl)
        (λ p.
          if_ind {A = Option DesiredStateChange} (IsAbout i)
            (not (config_fingerprint e.plugin e.config == c.config_fingerprint)) (λ q. refl)
            (λ q. refl))

  -- An entry that is desired or installed has a change.
  change_for-some :
      (i : String) (e : Option (PluginEntryConfig h)) (c : Option InstalledEntry)
      → (change_for h i e c ≡ none)
      → (e ≡ none) × (c ≡ none)
  unfolding change_for
  change_for-some i (some e) none n = absurd (ground arith)
  change_for-some i none (some c) n = absurd (ground arith)
  change_for-some i none none n = (refl, refl)
  change_for-some i (some e) (some c) n = absurd (ground arith)

  keep-IsSettled :
      (i j : String) (a : DesiredStateAction) (wanted : Wanted h) (d : Installed h)
      → IsSettled h i wanted (carry_out h a i wanted d)
      → IsSettled h j wanted d
      → IsSettled h j wanted (carry_out h a i wanted d)
  keep-IsSettled i j a wanted d one s = elim (Bool-cases (i == j)) [
    | inl e ↦ subst (λ k. IsSettled h k wanted (carry_out h a i wanted d)) ((eq_beq i j).0 e) one
    | inr e ↦ ap (installed_summary h) (get-carry_out h a i j wanted d e) ∙ s
  ]

  -- Each entry is as it was, or settled.
  abbrev IsPartly : Wanted h → Installed h → Installed h → Type 0
  IsPartly wanted installed d = (j : String) → (get j d ≡ get j installed) ⊎ IsSettled h j wanted d

  IsPartly-carry_out :
      (i : String) (a : DesiredStateAction) (wanted : Wanted h) (installed d : Installed h)
      → IsSettled h i wanted (carry_out h a i wanted d)
      → IsPartly wanted installed d
      → IsPartly wanted installed (carry_out h a i wanted d)
  IsPartly-carry_out i a wanted installed d one p j = elim (Bool-cases (i == j)) [
    | inl e ↦
        inr (subst (λ k. IsSettled h k wanted (carry_out h a i wanted d)) ((eq_beq i j).0 e) one)
    | inr e ↦ elim (p j) [
      | inl k ↦ inl (get-carry_out h a i j wanted d e ∙ k)
      | inr s ↦ inr (keep-IsSettled i j a wanted d one s)
    ]
  ]

  -- The changes for some entries, and that carrying them out settles these.
  abbrev Settles : List String → Wanted h → Installed h → Installed h → Type 0
  Settles is wanted installed d =
      (cs : List DesiredStateChange) × (changes_for h is wanted installed ≡ some cs)
      × ((j : String)
          → (elem j is ≡ true) ⊎ IsSettled h j wanted d
          → IsSettled h j wanted (apply h cs wanted d))

  settled-cons :
      (i : String) (is : List String) (wanted : Wanted h) (installed d : Installed h)
      (x : DesiredStateChange)
      → change_for h i (get i wanted) (get i installed) ≡ some x
      → IsSettled h x.entry_id wanted (carry_out h x.action x.entry_id wanted d)
      → x.entry_id ≡ i
      → Settles is wanted installed (carry_out h x.action x.entry_id wanted d)
      → Settles (i ∷ is) wanted installed d
  unfolding changes_for
  settled-cons i is wanted installed d x e one about (cs, all, then_settled) = (
    x ∷ cs,
    rw e (rw all refl),
    λ j k. elim k [
      | inr s ↦ then_settled j (inr (keep-IsSettled x.entry_id j x.action wanted d one s))
      | inl m ↦ elim (Bool-cases (i == j)) [
        | inl q ↦ then_settled j (
            inr (
              subst (λ k. IsSettled h k wanted (carry_out h x.action x.entry_id wanted d))
                (about ∙ (eq_beq i j).0 q) one))
        | inr q ↦ then_settled j (inl (ground (arith, m, q)))
      ]
    ],
  )

  settle-all :
      (is : List String) (wanted : Wanted h) (installed d : Installed h)
      → IsPartly wanted installed d
      → ((j : String) → elem j is ≡ true → (get j wanted ≡ none) × (get j installed ≡ none) → ⊥)
      → Settles is wanted installed d
  unfolding changes_for
  settle-all [] wanted installed d p t =
      ([], refl, λ j k. elim k [ inl e ↦ absurd (ground arith) | inr s ↦ s ])
  settle-all (i ∷ is) wanted installed d p t =
      elim (Option-cases (change_for h i (get i wanted) (get i installed))) [
        | inl n ↦ absurd (
            t i (ground (arith, eq_beq i i)) (change_for-some i (get i wanted) (get i installed) n))
        | inr (x, e) ↦
            let about : x.entry_id ≡ i =
              subst (IsAbout i) e (change_for-IsAbout i (get i wanted) (get i installed)) in
            let raw : IsSettling h i wanted d (some x) =
              subst (IsSettling h i wanted d) e
                (settle-one h i (get i wanted) (get i installed) wanted d refl (p i)) in
            let one : IsSettled h x.entry_id wanted (carry_out h x.action x.entry_id wanted d) =
              subst (λ k. IsSettled h k wanted (carry_out h x.action x.entry_id wanted d))
                (sym about) raw in
            let rest =
              settle-all is wanted installed (carry_out h x.action x.entry_id wanted d)
                (IsPartly-carry_out x.entry_id x.action wanted installed d one p)
                (λ j k. t j (ground arith)) in
            settled-cons i is wanted installed d x e one about rest
      ]

  elem-ids :
      (j : String) (wanted : Wanted h) (installed : Installed h)
      → elem j (sort text_leb (union h (keys wanted) (keys installed)))
        ≡ (has j wanted || has j installed)
  elem-ids j wanted installed =
      any-sort text_leb (λ x. x == j) (union h (keys wanted) (keys installed))
      ∙ elem-union h j (keys wanted) (keys installed)
      ∙ ap (λ b. b || elem j (keys installed)) (elem-keys j wanted)
      ∙ ap (λ b. has j wanted || b) (elem-keys j installed)

  unmentioned :
      (j : String) (wanted : Wanted h) (installed : Installed h)
      → has j wanted ≡ false
      → has j installed ≡ false
      → IsSettled h j wanted installed
  unmentioned j wanted installed p q = elim (has-get j wanted) [
    | inr w ↦ absurd (ground arith)
    | inl w ↦ elim (has-get j installed) [
      | inr c ↦ absurd (ground arith)
      | inl c ↦ ap (installed_summary h) c ∙ sym (ap (wanted_summary h) w)
    ]
  ]

  -- The derived operations exist for every desired and installed state, so the assertion in the loop
  -- never fails, and carrying them out settles every entry: afterwards the installed plugin and
  -- fingerprint of each identifier are those of the enabled entry that bears it, and nothing is
  -- installed under an identifier that no enabled entry bears.
  pub diff_desired_state_lem :
      (plugins : List (PluginEntryConfig h)) (installed : Installed h)
      → (cs : List DesiredStateChange) × (diff_desired_state h plugins installed ≡ some cs)
        × ((j : String)
            → IsSettled h j
                (by_id h (enabled_entries h plugins) [])
                (apply h cs (by_id h (enabled_entries h plugins) []) installed))
  unfolding diff_desired_state
  diff_desired_state_lem plugins installed =
      let wanted = by_id h (enabled_entries h plugins) [] in
      let ids = sort text_leb (union h (keys wanted) (keys installed)) in
      let all =
        settle-all ids wanted installed installed (λ j. inl refl)
          (λ j m n. ground (
            arith,
            elem-ids j wanted installed,
            absent-get j wanted n.0,
            absent-get j installed n.1,
          )) in
      (
        all.0,
        all.1,
        λ j. elim (Bool-cases (elem j ids)) [
          | inl m ↦ all.2 j (inl m)
          | inr m ↦ all.2 j (
              inr (
                unmentioned j wanted installed (ground (arith, elem-ids j wanted installed))
                  (ground (arith, elem-ids j wanted installed))))
        ],
      )
