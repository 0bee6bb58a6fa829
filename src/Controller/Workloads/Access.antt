-- ===== src/Controller/Workloads/Access.antt =====
-- createOrUpdateMdaiCollectorServiceAccount, createOrUpdateMdaiCollectorRole and
-- createOrUpdateMdaiCollectorRoleBinding of internal/controller/mdaicollector_adapter.go. The role and
-- the binding belong to the cluster, the service account to a namespace.
use mdai_operator.Prelude.{String, List, [], ◌∷◌, Dict}
use mdai_operator.Controller.Adapters.{scoped_collector_name}
use mdai_operator.Controller.Workloads.Shared.{
  managed_by_key, managed_by_value, hub_component_label,
}

pub record ServiceAccount : Type 0 where
  pub name : String
  pub namespace : String
  pub labels : Dict String

pub record PolicyRule : Type 0 where
  pub api_groups : List String
  pub resources : List String
  pub verbs : List String

pub record ClusterRole : Type 0 where
  pub name : String
  pub labels : Dict String
  pub rules : List PolicyRule

pub record Subject : Type 0 where
  pub kind : String
  pub name : String
  pub namespace : String

pub record ClusterRoleBinding : Type 0 where
  pub name : String
  pub labels : Dict String
  pub role_ref : String
  pub subjects : List Subject

abbrev pub access_labels : Dict String
access_labels = (managed_by_key, managed_by_value) ∷ (hub_component_label, "mdai-collector") ∷ []

-- The function given to CreateOrUpdate changes nothing.
unfoldable pub new_service_account : (name namespace : String) → ServiceAccount
unfolding scoped_collector_name
new_service_account name namespace = record {
  name = scoped_collector_name name "sa";
  namespace = namespace;
  labels = access_labels;
}

unfoldable pub new_role : String → ClusterRole
unfolding scoped_collector_name
new_role name = record {
  name = scoped_collector_name name "role";
  labels = access_labels;
  rules = [];
}

abbrev pub read_only : List String
read_only = "get" ∷ "list" ∷ "watch" ∷ []

abbrev pub may_read : (group : String) → List String → PolicyRule
may_read group resources = record {
  api_groups = group ∷ [];
  resources = resources;
  verbs = read_only;
}

unfoldable pub collector_rules : List PolicyRule
collector_rules =
    may_read "" (
      "events" ∷ "namespaces" ∷ "namespaces/status" ∷ "nodes" ∷ "nodes/spec" ∷ "pods"
      ∷ "pods/status" ∷ "replicationcontrollers" ∷ "replicationcontrollers/status"
      ∷ "resourcequotas" ∷ "services" ∷ [])
    ∷ may_read "apps" ("daemonsets" ∷ "deployments" ∷ "replicasets" ∷ "statefulsets" ∷ [])
    ∷ may_read "extensions" ("daemonsets" ∷ "deployments" ∷ "replicasets" ∷ [])
    ∷ may_read "batch" ("jobs" ∷ "cronjobs" ∷ [])
    ∷ may_read "autoscaling" ("horizontalpodautoscalers" ∷ [])
    ∷ []

unfoldable pub set_rules : ClusterRole → ClusterRole
unfolding collector_rules
set_rules role = record role { rules = collector_rules }

unfoldable pub new_binding : String → ClusterRoleBinding
unfolding scoped_collector_name
new_binding name = record {
  name = scoped_collector_name name "rb";
  labels = access_labels;
  role_ref = "";
  subjects = [];
}

unfoldable pub bind :
    (role_name account namespace : String) → ClusterRoleBinding → ClusterRoleBinding
bind role_name account namespace b = record b {
  role_ref = role_name;
  subjects = record { kind = "ServiceAccount"; name = account; namespace = namespace } ∷ [];
}
