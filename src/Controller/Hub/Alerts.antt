-- ===== src/Controller/Hub/Alerts.antt =====
-- ensurePrometheusAlertsSynchronized and composePrometheusRule of internal/controller/hub_adapter.go.
-- The state is the PrometheusRule of the hub in the cluster, `none` if there is none.
pub mod Synchronized
use Prim.Native.String
use mdai_operator.Prelude.{
  String, List, [], ◌∷◌, map, Option, none, some, Dict, Bool, true, false, ◌≡◌, refl, is_nil, not,
}
use mdai_operator.Api.{IntOrString, PrometheusAlert, Config, MdaiHubSpec}
use mdai_operator.Controller.Operation.{Reply, continue_processing, requeue_after}
use mdai_operator.Controller.Lifecycle.{
  ApiError, not_found, conflict, already_exists, other_error, requeue_time,
}
use mdai_operator.Controller.Hub.Requests.{rule_name}

-- The resource's name and namespace, and the release of the operator.
pub record Hub : Type 0 where
  pub name : String
  pub namespace : String
  pub release_name : String

-- The types of the Prometheus operator, as far as they are used.
pub record AlertingRule : Type 0 where
  pub expr : IntOrString
  pub alert : String
  pub for_duration : Option String
  pub annotations : Dict String
  pub labels : Dict String

pub record RuleGroup : Type 0 where
  pub name : String
  pub interval : Option String
  pub rules : List AlertingRule

pub record PrometheusRule : Type 0 where
  pub name : String
  pub namespace : String
  pub labels : Dict String
  pub groups : List RuleGroup

-- The error that the API server answers each request with, `none` if it does what is asked. A
-- Get of a missing object is answered with `not_found` besides, and Create of an object that is
-- there with `already_exists`.
pub record Faults : Type 0 where
  pub get : Option ApiError
  pub create : Option ApiError
  pub update : Option ApiError
  pub delete : Option ApiError

pub data Got : Type 0 where
  get_failed : ApiError → Got
  got : PrometheusRule → Got

unfoldable pub get_rule : Option ApiError → Option PrometheusRule → Got
get_rule (some e) stored = get_failed e
get_rule none none = get_failed not_found
get_rule none (some r) = got r

-- What the operation returns, with the state after it; `none` is a panic.
abbrev pub Run : Type 0
Run = Option (Reply ApiError × Option PrometheusRule)

unfoldable pub compose_prometheus_rule : Hub → PrometheusAlert → AlertingRule
compose_prometheus_rule hub a = record {
  expr = a.expr;
  alert = a.name;
  for_duration = a.for_duration;
  annotations =
      ("alert_name", a.name)
      ∷ ("hub_name", hub.name)
      ∷ ("current_value", "{{ $value | printf \"%.2f\" }}")
      ∷ ("expression", a.expr.str_val)
      ∷ [];
  labels = ("severity", a.severity) ∷ [];
}

unfoldable pub new_rule : Hub → PrometheusRule
unfolding rule_name
new_rule hub = record {
  name = rule_name hub.name;
  namespace = hub.namespace;
  labels =
      ("app.kubernetes.io/managed-by", "mdai-operator")
      ∷ ("app.kubernetes.io/part-of", "kube-prometheus-stack")
      ∷ ("app.kubernetes.io/instance", hub.release_name)
      ∷ [];
  groups = record { name = "mdai"; interval = none; rules = [] } ∷ [];
}

-- Groups[0] of a slice without groups panics.
unfoldable pub first_group : (RuleGroup → RuleGroup) → List RuleGroup → Option (List RuleGroup)
first_group f [] = none
first_group f (g ∷ gs) = some (f g ∷ gs)

unfoldable pub evaluation_interval_of : Option Config → Option String
evaluation_interval_of none = none
evaluation_interval_of (some c) = c.evaluation_interval

unfoldable pub with_interval : Option String → List RuleGroup → Option (List RuleGroup)
unfolding first_group
with_interval none gs = some gs
with_interval (some i) gs = first_group (λ g. record g { interval = some i }) gs

unfoldable pub with_rules : List AlertingRule → List RuleGroup → Option (List RuleGroup)
unfolding first_group
with_rules rs gs = first_group (λ g. record g { rules = rs }) gs

-- The groups that the object is updated with.
unfoldable pub fill_groups :
    Hub → Option String → List PrometheusAlert → List RuleGroup → Option (List RuleGroup)
unfolding with_interval with_rules first_group compose_prometheus_rule
fill_groups hub none alerts gs = with_rules (map (compose_prometheus_rule hub) alerts) gs
fill_groups hub (some i) alerts gs = elim (with_interval (some i) gs) [
  | none ↦ none
  | some gs' ↦ with_rules (map (compose_prometheus_rule hub) alerts) gs'
]

-- A failed update leaves `stored`, and its error is only logged.
unfoldable pub update_rule :
    Option ApiError → (filled stored : PrometheusRule) → Option PrometheusRule
update_rule none filled stored = some filled
update_rule (some e) filled stored = some stored

unfoldable pub filled : Option ApiError → PrometheusRule → Option (List RuleGroup) → Run
unfolding update_rule
filled fault r none = none
filled fault r (some gs) =
    some (continue_processing, update_rule fault (record r { groups = gs }) r)

unfoldable pub fill_rule :
    Hub → Option String → List PrometheusAlert → Option ApiError → PrometheusRule → Run
unfolding fill_groups filled
fill_rule hub interval alerts fault r = filled fault r (fill_groups hub interval alerts r.groups)

unfoldable pub create_error : Option ApiError → Option PrometheusRule → Option ApiError
create_error (some e) stored = some e
create_error none none = none
create_error none (some r) = some already_exists

-- The error that is returned when the object cannot be created is that of the Get before.
unfoldable pub create_rule :
    Hub
    → Option String
    → List PrometheusAlert
    → (create update : Option ApiError) → Option PrometheusRule
    → Run
unfolding fill_rule new_rule
create_rule hub interval alerts (some e) update stored =
    some (requeue_after requeue_time (some not_found), stored)
create_rule hub interval alerts none update stored =
    fill_rule hub interval alerts update (new_rule hub)

unfoldable pub after_get :
    Hub → Option String → List PrometheusAlert → Faults → Got → Option PrometheusRule → Run
unfolding fill_rule create_rule create_error
after_get hub interval alerts faults (got r) stored = fill_rule hub interval alerts faults.update r
after_get hub interval alerts faults (get_failed not_found) stored =
    create_rule hub interval alerts (create_error faults.create stored) faults.update stored
after_get hub interval alerts faults (get_failed e) stored =
    some (requeue_after requeue_time (some e), stored)

-- A failed removal is only logged.
unfoldable pub delete_if_got : Option ApiError → Got → Option PrometheusRule → Option PrometheusRule
delete_if_got fault (get_failed e) stored = stored
delete_if_got none (got r) stored = none
delete_if_got (some e) (got r) stored = stored

unfoldable pub synchronize_alerts :
    Hub → Option String → Faults → Option PrometheusRule → Option (List PrometheusAlert) → Run
unfolding get_rule after_get delete_if_got
synchronize_alerts hub interval faults stored none =
    some (continue_processing, delete_if_got faults.delete (get_rule faults.get stored) stored)
synchronize_alerts hub interval faults stored (some alerts) =
    after_get hub interval alerts faults (get_rule faults.get stored) stored

unfoldable pub ensure_prometheus_alerts_synchronized :
    Hub → MdaiHubSpec → Faults → Option PrometheusRule → Run
unfolding synchronize_alerts evaluation_interval_of
ensure_prometheus_alerts_synchronized hub spec faults stored =
    synchronize_alerts hub (evaluation_interval_of spec.config) faults stored spec.prometheus_alerts
