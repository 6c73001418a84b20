-- ===== src/Capabilities/Composed.antt =====
-- The snapshot that a generation is composed with: `_snapshot_factory` of src/chassis/harness.py.
use chassis.Prelude.{
  String, ◌≡◌, refl, sym, ap, ◌∙◌, inl, inr, Bool, Option, List, [], ◌∷◌, nat_eq, string_eq,
  if◌then◌else◌, Bool-cases, select, elem,
}
use chassis.Prelude.Dict.{values}
use chassis.Prelude.Sorting.{IsOrder, sort, sort-sorted, sort-IsSorted, select-sort}
use chassis.Prelude.Texts.{pair_leb, pair_leb_total, pair_leb_trans}
use chassis.Capabilities
use chassis.Capabilities.{
  Packaging, CapabilityRequirement, CapabilityRegistration, Snapshot, Registry, ordered,
  registrations,
}
use chassis.Capabilities.Snapshots
use chassis.Capabilities.Snapshots.{from_registrations}
use chassis.Capabilities.Selection.{snapshot-resolve}

module _ (p : Packaging) (Value : Type 0) where
  -- The registrations that the instances of the generation provide.
  unfoldable pub generation_snapshot :
      (instance_ids : List String) → (generation_id : String) → Registry p Value → Snapshot p Value
  unfolding registrations from_registrations
  generation_snapshot instance_ids generation_id reg =
      from_registrations p Value generation_id
        (select (λ r. elem r.provider_id instance_ids) (registrations p Value reg))

  -- The live registry without the registrations of other providers.
  abbrev pub provided_by : List String → Registry p Value → Registry p Value
  provided_by instance_ids [] = []
  provided_by instance_ids ((i, r) ∷ reg) =
      let rest = provided_by instance_ids reg in
      if elem r.provider_id instance_ids then (i, r) ∷ rest else rest

  values-provided_by :
      (instance_ids : List String) (reg : Registry p Value)
      → values (provided_by instance_ids reg)
        ≡ select (λ r. elem r.provider_id instance_ids) (values reg)
  values-provided_by instance_ids [] = refl
  values-provided_by instance_ids ((i, r) ∷ reg) =
      elim (Bool-cases (elem r.provider_id instance_ids)) [
        | inl e ↦ rw e (ap (λ l. r ∷ l) (values-provided_by instance_ids reg))
        | inr e ↦ rw e (values-provided_by instance_ids reg)
      ]

  abbrev before : CapabilityRegistration p Value → CapabilityRegistration p Value → Bool
  before a b = pair_leb a.provider_name a.provider_id b.provider_name b.provider_id

  before-IsOrder : IsOrder before
  before-IsOrder = record {
    total = λ a b h. pair_leb_total a.provider_name a.provider_id b.provider_name b.provider_id h;
    trans = λ a b c h k.
        pair_leb_trans a.provider_name a.provider_id b.provider_name b.provider_id c.provider_name
          c.provider_id h k;
  }

  -- Ordering what was chosen from an ordered list changes nothing.
  ordered-select :
      (q : CapabilityRegistration p Value → Bool) (rs : List (CapabilityRegistration p Value))
      → ordered p Value (select q (ordered p Value rs)) ≡ ordered p Value (select q rs)
  unfolding ordered
  ordered-select q rs =
      ap (sort before) (select-sort before-IsOrder q rs)
      ∙ sort-sorted before-IsOrder (sort before (select q rs))
          (sort-IsSorted before-IsOrder (select q rs))

  -- The snapshot of a generation resolves every requirement, whatever the preferences, exactly as the
  -- live registry would that holds the registrations of the generation's instances and no others.
  pub generation_snapshot-resolve :
      (instance_ids : List String) (generation_id : String) (r : CapabilityRequirement p Value)
      (prefer : Option (List String)) (reg : Registry p Value)
      → Snapshots.resolve p Value r prefer (generation_snapshot instance_ids generation_id reg)
        ≡ Capabilities.resolve p Value r prefer (provided_by instance_ids reg)
  unfolding generation_snapshot from_registrations registrations
  generation_snapshot-resolve instance_ids generation_id r prefer reg =
      let chosen = λ (c : CapabilityRegistration p Value). elem c.provider_id instance_ids in
      let same : generation_snapshot instance_ids generation_id reg
          ≡ from_registrations p Value generation_id (values (provided_by instance_ids reg)) =
        ap (λ rs. record { generation_id = generation_id; registrations = rs })
          (ordered-select chosen (values reg)
            ∙ ap (ordered p Value) (sym (values-provided_by instance_ids reg))) in
      ap (Snapshots.resolve p Value r prefer) same
      ∙ snapshot-resolve p Value generation_id r prefer (provided_by instance_ids reg)
