-- ===== src/Lifecycle/Examples.antt =====
-- One plugin instance, and the theorems at it.
use chassis.Prelude.{arith, ap, Bool, true, false, ◌≡◌, refl, ◌≢◌, ◌⊎◌, [], ◌∷◌, nat_eq, string_eq}
use chassis.Lifecycle.{
  unloading, failed, PluginState, pending, loading, active, disposed, unknown, PluginInstance,
  moved, illegal_transition, transition,
}
use chassis.Lifecycle.Histories.{
  Documented, Undocumented, Step, transition_lem, is_unused, run, run_unused,
}

abbrev instance_in : PluginState → PluginInstance
instance_in s = record {
  instance_id = "plugin_1";
  entry_id = "db";
  state = s;
  health = unknown;
  generation_refs = 0;
}

skips_loading : (transition active (instance_in pending)).0 ≡ illegal_transition pending active
unfolding transition
skips_loading = refl

transition_lem_example :
    ((pending ≡ active) × (transition active (instance_in pending) ≡ (moved, instance_in pending)))
    ⊎ (Step pending active
        × (transition active (instance_in pending) ≡ (moved, instance_in active)))
    ⊎ (¬ Documented pending active
        × ¬ Undocumented pending active
        × (pending ≢ active)
        × (transition active (instance_in pending)
            ≡ (illegal_transition pending active, instance_in pending)))
transition_lem_example = transition_lem active (instance_in pending)

abbrev loads : PluginState → Bool
loads pending = false
loads loading = true
loads active = false
loads unloading = false
loads disposed = false
loads failed = false

active_not_loading : active ≢ loading
active_not_loading e = absurd (ground (arith, ap loads e))

disposed_not_loading : disposed ≢ loading
disposed_not_loading e = absurd (ground (arith, ap loads e))

run_unused_example :
    is_unused (run (active ∷ disposed ∷ active ∷ []) (instance_in pending)).state ≡ true
run_unused_example =
    run_unused (active ∷ disposed ∷ active ∷ []) (instance_in pending)
      (active_not_loading, (disposed_not_loading, (active_not_loading, tt))) refl
