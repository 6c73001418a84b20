-- ===== src/Config/Settled.antt =====
-- The derived operations lead from what is installed to what is desired (src/chassis/config/reconcile.py).
use chassis.Prelude.{
  String, ◌≡◌, refl, sym, ap, ◌∙◌, ◌⊎◌, inl, inr, true, false, ◌||◌, not, Option, none, some, List,
  [], ◌∷◌, arith, ◌==◌, eq_beq, nat_eq, string_eq, if_ind, elem,
}
use chassis.Prelude.Dict.{Dict, get, put, pop, get-put, get-pop}
use chassis.Config.{
  Digests, DesiredStateAction, add, remove, unchanged, replace, reconfigure, DesiredStateChange,
  InstalledEntry, PluginEntryConfig, union, change_for,
}

module _ (h : Digests) where
  open h use {Config, config_fingerprint}

  abbrev pub Wanted : Type 0
  Wanted = Dict String (PluginEntryConfig h)

  abbrev pub Installed : Type 0
  Installed = Dict String InstalledEntry

  -- What reconciliation has to settle of an entry: its plugin and its fingerprint.
  abbrev pub wanted_summary : Option (PluginEntryConfig h) → Option (String × String)
  wanted_summary none = none
  wanted_summary (some e) = some (e.plugin, config_fingerprint e.plugin e.config)

  abbrev pub installed_summary : Option InstalledEntry → Option (String × String)
  installed_summary none = none
  installed_summary (some c) = some (c.plugin, c.config_fingerprint)

  abbrev entry_of : String → PluginEntryConfig h → InstalledEntry
  entry_of i e = record {
    entry_id = i;
    plugin = e.plugin;
    revision = 1;
    config_fingerprint = config_fingerprint e.plugin e.config;
  }

  -- Carrying out one operation: the entry that is wanted is installed, or the entry is removed.
  abbrev pub install : String → Option (PluginEntryConfig h) → Installed → Installed
  install i none d = d
  install i (some e) d = put i (entry_of i e) d

  abbrev pub carry_out : DesiredStateAction → String → Wanted → Installed → Installed
  carry_out add i wanted d = install i (get i wanted) d
  carry_out replace i wanted d = install i (get i wanted) d
  carry_out remove i wanted d = pop i d
  carry_out unchanged i wanted d = d
  carry_out reconfigure i wanted d = d

  abbrev pub apply : List DesiredStateChange → Wanted → Installed → Installed
  apply [] wanted d = d
  apply (c ∷ cs) wanted d = apply cs wanted (carry_out c.action c.entry_id wanted d)

  abbrev pub IsSettled : String → Wanted → Installed → Type 0
  IsSettled i wanted d = installed_summary (get i d) ≡ wanted_summary (get i wanted)

  get-install :
      (i j : String) (e : Option (PluginEntryConfig h)) (d : Installed)
      → (i == j) ≡ false
      → get j (install i e d) ≡ get j d
  get-install i j none d k = refl
  get-install i j (some e) d k = get-put i j _ d ∙ rw k refl

  pub get-carry_out :
      (a : DesiredStateAction) (i j : String) (wanted : Wanted) (d : Installed)
      → (i == j) ≡ false
      → get j (carry_out a i wanted d) ≡ get j d
  get-carry_out add i j wanted d k = get-install i j (get i wanted) d k
  get-carry_out replace i j wanted d k = get-install i j (get i wanted) d k
  get-carry_out remove i j wanted d k = get-pop i j d ∙ rw k refl
  get-carry_out unchanged i j wanted d k = refl
  get-carry_out reconfigure i j wanted d k = refl

  pub elem-union :
      (j : String) (is js : List String) → elem j (union h is js) ≡ (elem j is || elem j js)
  unfolding union
  elem-union j [] js = refl
  elem-union j (i ∷ is) js = ground (arith, elem-union j is js, eq_beq i j)

  get-put_same : (i : String) (c : InstalledEntry) (d : Installed) → get i (put i c d) ≡ some c
  get-put_same i c d = ground (arith, get-put i i c d, eq_beq i i)

  get-pop_same : (i : String) (d : Installed) → get i (pop i d) ≡ none
  get-pop_same i d = ground (arith, get-pop i i d, eq_beq i i)

  IsSettled-install :
      (i : String) (e : PluginEntryConfig h) (wanted : Wanted) (d : Installed)
      → get i wanted ≡ some e
      → IsSettled i wanted (install i (get i wanted) d)
  IsSettled-install i e wanted d k = rw k (ap installed_summary (get-put_same i (entry_of i e) d))

  IsSettled-pop :
      (i : String) (wanted : Wanted) (d : Installed)
      → get i wanted ≡ none
      → IsSettled i wanted (pop i d)
  IsSettled-pop i wanted d k = rw k (ap installed_summary (get-pop_same i d))

  IsSettled-same :
      (i : String) (e : PluginEntryConfig h) (c : InstalledEntry) (wanted : Wanted) (d : Installed)
      → get i wanted ≡ some e
      → (get i d ≡ some c) ⊎ IsSettled i wanted d
      → (e.plugin == c.plugin) ≡ true
      → (config_fingerprint e.plugin e.config == c.config_fingerprint) ≡ true
      → IsSettled i wanted d
  IsSettled-same i e c wanted d k (inr n) p q = n
  IsSettled-same i e c wanted d k (inl n) p q =
      let plugins : e.plugin ≡ c.plugin = (eq_beq e.plugin c.plugin).0 p in
      let digests : config_fingerprint e.plugin e.config ≡ c.config_fingerprint =
        (eq_beq (config_fingerprint e.plugin e.config) c.config_fingerprint).0 q in
      ap installed_summary n ∙ cc (plugins, digests) ∙ sym (ap wanted_summary k)

  -- Carrying out the change for an entry settles it.
  abbrev pub IsSettling : String → Wanted → Installed → Option DesiredStateChange → Type 0
  IsSettling i wanted d none = Unit
  IsSettling i wanted d (some x) = IsSettled i wanted (carry_out x.action x.entry_id wanted d)

  pub settle-one :
      (i : String) (e : Option (PluginEntryConfig h)) (c : Option InstalledEntry) (wanted : Wanted)
      (d : Installed)
      → get i wanted ≡ e
      → (get i d ≡ c) ⊎ IsSettled i wanted d
      → IsSettling i wanted d (change_for h i e c)
  unfolding change_for
  settle-one i (some e) none wanted d k n = IsSettled-install i e wanted d k
  settle-one i none (some c) wanted d k n = IsSettled-pop i wanted d k
  settle-one i none none wanted d k n = tt
  settle-one i (some e) (some c) wanted d k n =
      if_ind {A = Option DesiredStateChange} (IsSettling i wanted d) (not (e.plugin == c.plugin))
        (λ p. IsSettled-install i e wanted d k)
        (λ p.
          if_ind {A = Option DesiredStateChange} (IsSettling i wanted d)
            (not (config_fingerprint e.plugin e.config == c.config_fingerprint))
            (λ q. IsSettled-install i e wanted d k)
            (λ q. IsSettled-same i e c wanted d k n (ground arith) (ground arith)))
