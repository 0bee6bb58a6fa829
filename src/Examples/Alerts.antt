-- ===== src/Examples/Alerts.antt =====
-- The theorem on the PrometheusRule of a hub at a hub with one alert.
use mdai_operator.Prelude.{◌≡◌, refl, [], ◌∷◌, some, none}
use mdai_operator.Examples.{hub_spec, noisy_alert}
use mdai_operator.Controller.Lifecycle.{conflict, other_error}
use mdai_operator.Controller.Hub.Alerts.{
  Hub, Faults, PrometheusRule, new_rule, compose_prometheus_rule, evaluation_interval_of,
}
use mdai_operator.Controller.Hub.Alerts.Synchronized.{
  no_faults, run_all, new_interval, desired_groups, desired, alerts-synchronized,
}

abbrev hub : Hub
hub = record { name = "hub"; namespace = "mdai"; release_name = "operator" }

abbrev not_created : Faults
not_created = record no_faults { create = some (other_error "quota") }

abbrev not_updated : Faults
not_updated = record no_faults { update = some conflict }

abbrev synchronized_rule : PrometheusRule
synchronized_rule = record (new_rule hub) {
  groups =
      record {
        name = "mdai";
        interval = some "30s";
        rules = compose_prometheus_rule hub noisy_alert ∷ [];
      }
      ∷ [];
}

alerts-synchronized_example :
    run_all hub hub_spec (not_created ∷ not_updated ∷ no_faults ∷ []) none
    ≡ some (some synchronized_rule)
unfolding new_rule desired desired_groups new_interval evaluation_interval_of
alerts-synchronized_example =
    alerts-synchronized hub hub_spec (noisy_alert ∷ []) refl (not_created ∷ not_updated ∷ [])
