-- ===== src/Controller/Workloads/Collector.antt =====
-- createOrUpdateMdaiCollectorDeployment and createOrUpdateMdaiCollectorService of
-- internal/controller/mdaicollector_adapter.go.
use mdai_operator.Prelude.{ℕ, String, List, [], ◌∷◌, ◌++◌, Option, some}
use mdai_operator.Builder.Pods.{
  Container, container, with_command, with_ports, with_volume_mounts, with_env_from,
  with_aws_secret, with_security_context, config_map_ref,
}
use mdai_operator.Builder.Tolerations.{Toleration}
use mdai_operator.Builder.Deployments
use mdai_operator.Builder.Deployments.{Deployment}
use mdai_operator.Builder.Services
use mdai_operator.Builder.Services.{Service}
use mdai_operator.Controller.Adapters.{scoped_collector_name}
use mdai_operator.Controller.Workloads.Shared.{
  managed_by_key, managed_by_value, component_key, hub_name_label, hub_component_label,
  prom_http_port, otlp_ports, config_volume_mount, default_security_context, otlp_service_ports,
  bare_deployment, bare_service,
}

-- CollectorDeploymentParams, with the name of the collector.
pub record CollectorParams : Type 0 where
  pub name : String
  pub config_map_name : String
  pub env_config_name : String
  pub service_account_name : String
  pub aws_access_key_secret : Option String
  pub hash : String
  pub image : String
  pub tolerations : List Toleration
  pub replicas : ℕ

unfoldable pub collector_container : CollectorParams → Container
unfolding scoped_collector_name container with_command with_ports with_volume_mounts with_env_from
    with_aws_secret with_security_context otlp_ports config_volume_mount default_security_context
collector_container p = with_security_context default_security_context (
    with_aws_secret p.aws_access_key_secret (
      with_env_from (config_map_ref p.config_map_name ∷ []) (
        with_volume_mounts (config_volume_mount ∷ []) (
          with_ports
            (otlp_ports ++ record { container_port = prom_http_port; name = "prom-http" } ∷ [])
            (with_command ("/mdai-collector" ∷ "--config=/conf/collector.yaml" ∷ [])
              (container (scoped_collector_name p.name "") p.image))))))

-- The object that is made if there is none.
unfoldable pub new_collector_deployment : String → Deployment
unfolding bare_deployment scoped_collector_name
new_collector_deployment name = record (bare_deployment (scoped_collector_name name "")) {
  labels = some ((managed_by_key, managed_by_value) ∷ (hub_component_label, "mdai-collector") ∷ []);
}

unfoldable pub deploy_collector : CollectorParams → Deployment → Deployment
unfolding Deployments.with_label Deployments.with_selector_label Deployments.with_template_label
    Deployments.with_template_annotation Deployments.tolerating Deployments.with_replicas
    Deployments.with_service_account Deployments.with_containers Deployments.with_volumes
    collector_container scoped_collector_name
deploy_collector p d0 =
    let app = scoped_collector_name p.name "" in
    let d1 = Deployments.with_label hub_name_label p.name (Deployments.with_label "app" app d0) in
    let d2 = Deployments.with_selector_label "app" app d1 in
    let d3 =
      Deployments.with_template_label component_key app
        (Deployments.with_template_label "app" app d2) in
    let d4 = Deployments.with_template_annotation "mdai-collector-config/sha256" p.hash d3 in
    let d5 = Deployments.with_replicas p.replicas (Deployments.tolerating p.tolerations d4) in
    let d6 = Deployments.with_service_account p.service_account_name d5 in
    let d7 = Deployments.with_containers (collector_container p ∷ []) d6 in
    Deployments.with_volumes
      (record { name = "config-volume"; config_map = p.config_map_name } ∷ []) d7

unfoldable pub new_collector_service : String → Service
unfolding bare_service scoped_collector_name
new_collector_service name = record (bare_service (scoped_collector_name name "service")) {
  labels = some ((managed_by_key, managed_by_value) ∷ (hub_component_label, "mdai-collector") ∷ []);
}

-- `appName` is the name of the deployment.
unfoldable pub serve_collector : (name : String) → Service → Service
unfolding Services.with_label Services.with_selector_label Services.with_ports Services.with_type
    otlp_service_ports scoped_collector_name
serve_collector name s0 =
    let app = scoped_collector_name name "" in
    let s1 = Services.with_label hub_name_label name (Services.with_label "app" app s0) in
    Services.with_type "ClusterIP"
      (Services.with_ports otlp_service_ports (Services.with_selector_label "app" app s1))
