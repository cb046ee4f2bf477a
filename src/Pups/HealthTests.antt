-- ===== src/Pups/HealthTests.antt =====
-- A pup with a required field and a dependency, and the theorems of its health.
use dogeboxd.Base.{
  String, ◌≡◌, refl, true, false, Option, some, none, [], ◌∷◌, Map, put, subst, sym, some_inj,
}
use dogeboxd.Pups.Health.{Pup, Field, Dependency, RunStatus, running, can_pup_start, IsReady}
use dogeboxd.Pups.Ready.{can_pup_start-IsReady, IsReady-can_pup_start}

abbrev wallet : Pup
wallet = record {
  enabled = true;
  sections = (record { name = "rpc"; required = true } ∷ []) ∷ [];
  show_on_install = true;
  config = put "rpc" "on" (λ k. none);
  config_saved = true;
  dependencies = record { interface_name = "core"; optional = false } ∷ [];
  providers = put "core" "p1" (λ k. none);
}

abbrev stats : Map RunStatus
stats = put "p1" running (λ k. none)

abbrev state : Map Pup
state = put "w1" wallet (λ k. none)

can_pup_start-IsReady_example : (p : Pup) × (state "w1" ≡ some p) × IsReady stats p
unfolding can_pup_start dogeboxd.Pups.Health.get_pup_health_state
    dogeboxd.Pups.Health.manifest_config_needs_values dogeboxd.Base.Text.trim_space
    dogeboxd.Pups.Health.is_met
can_pup_start-IsReady_example = can_pup_start-IsReady stats state "w1" refl

wallet-IsReady : IsReady stats wallet
unfolding can_pup_start dogeboxd.Pups.Health.get_pup_health_state
    dogeboxd.Pups.Health.manifest_config_needs_values dogeboxd.Base.Text.trim_space
    dogeboxd.Pups.Health.is_met
wallet-IsReady =
    let (p, e, x) = can_pup_start-IsReady stats state "w1" refl in
    subst (λ (q : Pup). IsReady stats q) (sym (some_inj e)) x

IsReady-can_pup_start_example : can_pup_start stats state "w1" ≡ some true
IsReady-can_pup_start_example = IsReady-can_pup_start stats state "w1" wallet refl wallet-IsReady
