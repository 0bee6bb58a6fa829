-- ===== src/Controller/Workloads/Shared.antt =====
-- The constants of internal/controller/common.go and hub_adapter.go for labels and ports, and
-- DefaultSecurityContext of mdaicollector_adapter.go.
use mdai_operator.Prelude.{ℕ, String, List, [], ◌∷◌, none, true, false}
use mdai_operator.Builder.Pods.{ContainerPort, VolumeMount, SecurityContext}
use mdai_operator.Builder.Deployments.{Deployment}
use mdai_operator.Builder.Services.{Service, ServicePort, TargetPort}

abbrev pub managed_by_key : String
managed_by_key = "app.kubernetes.io/managed-by"

abbrev pub managed_by_value : String
managed_by_value = "mdai-operator"

abbrev pub app_name_key : String
app_name_key = "app.kubernetes.io/name"

abbrev pub app_instance_key : String
app_instance_key = "app.kubernetes.io/instance"

abbrev pub component_key : String
component_key = "app.kubernetes.io/component"

abbrev pub hub_name_label : String
hub_name_label = "mydecisive.ai/hub-name"

abbrev pub hub_component_label : String
hub_component_label = "mydecisive.ai/hub-component"

abbrev pub otlp_grpc_port : ℕ
otlp_grpc_port = 4317

abbrev pub otlp_http_port : ℕ
otlp_http_port = 4318

abbrev pub prom_http_port : ℕ
prom_http_port = 8899

abbrev pub otel_metrics_port : ℕ
otel_metrics_port = 8888

abbrev pub observer_metrics_port : ℕ
observer_metrics_port = 8899

unfoldable pub otlp_ports : List ContainerPort
otlp_ports =
    record { container_port = otlp_grpc_port; name = "otlp-grpc" }
    ∷ record { container_port = otlp_http_port; name = "otlp-http" }
    ∷ []

unfoldable pub config_volume_mount : VolumeMount
config_volume_mount = record {
  name = "config-volume";
  mount_path = "/conf/collector.yaml";
  sub_path = "collector.yaml";
}

unfoldable pub default_security_context : SecurityContext
default_security_context = record {
  seccomp_profile = "RuntimeDefault";
  allow_privilege_escalation = false;
  dropped = "ALL" ∷ [];
  run_as_non_root = true;
}

-- The two OTLP ports of a service, by name.
unfoldable pub otlp_service_ports : List ServicePort
otlp_service_ports =
    record { name = "otlp-grpc"; port = otlp_grpc_port; target = TargetPort.by_name "otlp-grpc" }
    ∷ record { name = "otlp-http"; port = otlp_http_port; target = TargetPort.by_name "otlp-http" }
    ∷ []

-- An object of which only the name is given.
unfoldable pub bare_deployment : String → Deployment
bare_deployment name = record {
  name = name;
  created = false;
  labels = none;
  selector = none;
  template_labels = none;
  template_annotations = none;
  replicas = none;
  service_account = "";
  containers = [];
  volumes = [];
  tolerations = none;
}

unfoldable pub bare_service : String → Service
bare_service name = record {
  name = name;
  created = false;
  labels = none;
  selector = none;
  ports = [];
  type = "";
}
