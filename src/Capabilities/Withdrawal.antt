-- ===== src/Capabilities/Withdrawal.antt =====
-- Providing and withdrawing (capabilities/registry.py).
use chassis.Prelude.{
  String, ◌≡◌, refl, Bool, false, ◌&&◌, not, Option, none, some, List, [], ◌∷◌, arith, ◌==◌, eq_beq,
  nat_eq, string_eq, if◌then◌else◌, if_ind, select, any, All, any-select,
}
use chassis.Prelude.Dict.{
  values, get, has, put, pop, IsDistinct, get-pop, IsDistinct-put, IsDistinct-pop,
}
use chassis.Capabilities.{
  Packaging, CapabilityKey, CapabilityRegistration, Registry, Provided, provide, withdraw,
  withdraw_each, withdraw_provider,
}

module _ (p : Packaging) (Value : Type 0) where
  abbrev pub Registration : Type 0
  Registration = CapabilityRegistration p Value

  abbrev pub IsKeyed : String × Registration → Type 0
  IsKeyed e = e.0 ≡ e.1.registration_id

  -- Registrations stand under their own ids, and no id stands twice.
  pub record IsRegistry (reg : Registry p Value) : Type 0 where
    pub keyed : All IsKeyed reg
    pub distinct : IsDistinct reg

  IsKeyed-put :
      (k : String) (r : Registration) (reg : Registry p Value)
      → k ≡ r.registration_id
      → All IsKeyed reg
      → All IsKeyed (put k r reg)
  unfolding put
  IsKeyed-put k r [] e h = (e, tt)
  IsKeyed-put k r ((j, s) ∷ reg) e h = ground (arith, IsKeyed-put k r reg e h.1, eq_beq j k)

  IsKeyed-pop : (k : String) (reg : Registry p Value) → All IsKeyed reg → All IsKeyed (pop k reg)
  unfolding pop
  IsKeyed-pop k [] h = tt
  IsKeyed-pop k ((j, s) ∷ reg) h = ground (arith, IsKeyed-pop k reg h.1)

  get-withdraw_each :
      (k : String) (rs : List Registration) (reg : Registry p Value)
      → get k (withdraw_each p Value rs reg)
        ≡ (if any (λ r. r.registration_id == k) rs then none else get k reg)
  unfolding withdraw_each withdraw
  get-withdraw_each k [] reg = refl
  get-withdraw_each k (r ∷ rs) reg =
      ground
        (arith, get-withdraw_each k rs (pop r.registration_id reg), get-pop r.registration_id k reg)

  abbrev pub provided_by : String → Option Registration → Bool
  provided_by provider_id none = false
  provided_by provider_id (some r) = r.provider_id == provider_id

  any-has :
      (k provider_id : String) (reg : Registry p Value)
      → All IsKeyed reg
      → has k reg ≡ false
      → any (λ r. (r.provider_id == provider_id) && (r.registration_id == k)) (values reg) ≡ false
  unfolding has
  any-has k provider_id [] keyed h = refl
  any-has k provider_id ((j, r) ∷ reg) keyed h =
      ground (arith, any-has k provider_id reg keyed.1, eq_beq j k, eq_beq r.registration_id k)

  provider_of :
      (k provider_id : String) (reg : Registry p Value)
      → All IsKeyed reg
      → IsDistinct reg
      → any (λ r. (r.provider_id == provider_id) && (r.registration_id == k)) (values reg)
        ≡ provided_by provider_id (get k reg)
  unfolding get
  provider_of k provider_id [] keyed distinct = refl
  provider_of k provider_id ((j, r) ∷ reg) keyed distinct = ground (
    arith,
    provider_of k provider_id reg keyed.1 distinct.1,
    any-has k provider_id reg keyed.1,
    eq_beq j k,
    eq_beq r.registration_id k,
  )

  withdraw_each-IsRegistry :
      (rs : List Registration) (reg : Registry p Value)
      → IsRegistry reg
      → IsRegistry (withdraw_each p Value rs reg)
  unfolding withdraw_each withdraw
  withdraw_each-IsRegistry [] reg h = h
  withdraw_each-IsRegistry (r ∷ rs) reg h =
      withdraw_each-IsRegistry rs (pop r.registration_id reg) (record {
        keyed = IsKeyed-pop r.registration_id reg h.keyed;
        distinct = IsDistinct-pop r.registration_id reg h.distinct;
      })

  -- Providing, refused or not, keeps registrations under their own ids, each id once.
  pub provide-IsRegistry :
      (scope_open : Bool) (scope_id id : String) (key : CapabilityKey) (value : Value)
      (version : p.Version) (provider_id provider_name : String) (reg : Registry p Value)
      → IsRegistry reg
      → IsRegistry
          (provide p Value scope_open scope_id id key value version provider_id provider_name reg).1
  unfolding provide
  provide-IsRegistry scope_open scope_id id key value version provider_id provider_name reg h =
      if_ind Good (not scope_open) (λ _. h)
        λ _.
          if_ind Good (key.api_version == "") (λ _. h)
            λ _.
              if_ind Good (not (p.major version == key.api_version)) (λ _. h)
                λ _. record {
                  keyed = IsKeyed-put id _ reg refl h.keyed;
                  distinct = IsDistinct-put id _ reg h.distinct;
                }
    where
      Good : Provided p Value × Registry p Value → Type 0
      Good r = IsRegistry r.1

  -- Withdrawing a provider removes every registration of that provider and no other.
  pub get-withdraw_provider :
      (k provider_id : String) (reg : Registry p Value)
      → IsRegistry reg
      → get k (withdraw_provider p Value provider_id reg).1
        ≡ (if provided_by provider_id (get k reg) then none else get k reg)
  unfolding withdraw_provider
  get-withdraw_provider k provider_id reg h =
      let removed = select (λ r. r.provider_id == provider_id) (values reg) in
      rw get-withdraw_each (
        rw
          (any-select (λ r. r.provider_id == provider_id) (λ r. r.registration_id == k)
            (values reg))
          (rw (provider_of k provider_id reg h.keyed h.distinct)))
