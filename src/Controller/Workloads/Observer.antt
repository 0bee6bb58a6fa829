-- ===== src/Controller/Workloads/Observer.antt =====
-- createOrUpdateObserverResourceDeployment and createOrUpdateObserverResourceService of
-- internal/controller/observer.go.
use mdai_operator.Prelude.{ℕ, String, List, [], ◌∷◌, Option, none, some, Dict}
use mdai_operator.Builder.Maps.{set_entry}
use mdai_operator.Builder.Pods.{Container, container}
use mdai_operator.Builder.Tolerations.{Toleration}
use mdai_operator.Builder.Deployments.{Deployment}
use mdai_operator.Builder.Services.{Service}
use mdai_operator.Controller.Adapters.{scoped_observer_name}
use mdai_operator.Controller.Workloads.Shared.{
  managed_by_key, managed_by_value, component_key, hub_name_label, hub_component_label,
  otel_metrics_port, observer_metrics_port, otlp_ports, config_volume_mount,
  default_security_context, otlp_service_ports,
}

-- The name of the observer, the hash of its configuration and what is read of ObserverResource.
pub record ObserverParams : Type 0 where
  pub name : String
  pub hash : String
  pub image : String
  pub replicas : ℕ
  pub resources : Option String
  pub tolerations : Option (List Toleration)

unfoldable pub observer_labels : String → Dict String
unfolding scoped_observer_name
observer_labels name =
    ("app", scoped_observer_name name "")
    ∷ (hub_component_label, "mdai-observer")
    ∷ (hub_name_label, name)
    ∷ (managed_by_key, managed_by_value)
    ∷ []

-- Labels that are there are left alone.
unfoldable pub labels_or : Dict String → Option (Dict String) → Option (Dict String)
labels_or fresh none = some fresh
labels_or fresh (some labels) = some labels

-- The default image is overwritten by the image of the specification.
unfoldable pub observer_container : ObserverParams → Container
unfolding container otlp_ports config_volume_mount default_security_context scoped_observer_name
observer_container p = record (container (scoped_observer_name p.name "") p.image) {
  command = "/mdai-observer-collector" ∷ "--config=/conf/collector.yaml" ∷ [];
  ports =
      record { container_port = otel_metrics_port; name = "otel-metrics" }
      ∷ record { container_port = observer_metrics_port; name = "observe-metrics" }
      ∷ otlp_ports;
  volume_mounts = config_volume_mount ∷ [];
  security_context = some default_security_context;
  resources = p.resources;
}

unfoldable pub observer_annotations : String → Option (Dict String) → Option (Dict String)
unfolding set_entry
observer_annotations hash a = set_entry "mdai-collector-config/sha256" hash (
    set_entry "mdai_component_type" "mdai-observer" (
      set_entry "prometheus.io/scrape" "true"
        (set_entry "prometheus.io/port" "8899" (set_entry "prometheus.io/path" "/metrics" a))))

unfoldable pub deploy_observer : ObserverParams → Deployment → Deployment
unfolding labels_or observer_labels set_entry observer_annotations observer_container
    scoped_observer_name
deploy_observer p d =
    let app = scoped_observer_name p.name "" in
    record d {
      labels = labels_or (observer_labels p.name) d.labels;
      replicas = some p.replicas;
      selector = set_entry "app" app d.selector;
      template_labels = set_entry component_key app (set_entry "app" app d.template_labels);
      template_annotations = observer_annotations p.hash d.template_annotations;
      containers = observer_container p ∷ [];
      volumes =
          record { name = "config-volume"; config_map = scoped_observer_name p.name "config" } ∷ [];
      tolerations = p.tolerations;
    }

-- The whole specification is replaced.
unfoldable pub serve_observer : (name : String) → Service → Service
unfolding labels_or observer_labels otlp_service_ports scoped_observer_name
serve_observer name s = record s {
  labels = labels_or (observer_labels name) s.labels;
  selector = some (("app", scoped_observer_name name "") ∷ []);
  ports = otlp_service_ports;
  type = "ClusterIP";
}
