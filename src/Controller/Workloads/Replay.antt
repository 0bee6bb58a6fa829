-- ===== src/Controller/Workloads/Replay.antt =====
-- createOrUpdateReplayerDeployment, augmentDeploymentWithValues and createOrUpdateReplayerService of
-- internal/controller/mdaireplay_adapter.go.
use mdai_operator.Prelude.{String, [], ◌∷◌, Option, none, some, ◌==◌, if◌then◌else◌}
use mdai_operator.Api.{ReplayAwsConfig}
use mdai_operator.Builder.Pods.{
  Container, container, with_command, with_ports, with_volume_mounts, with_env_from,
  with_aws_secret, config_map_ref,
}
use mdai_operator.Builder.Deployments
use mdai_operator.Builder.Deployments.{Deployment}
use mdai_operator.Builder.Services
use mdai_operator.Builder.Services.{Service, TargetPort}
use mdai_operator.Controller.Adapters.{replayer_name}
use mdai_operator.Controller.Workloads.Shared.{
  managed_by_key, managed_by_value, component_key, hub_name_label, hub_component_label,
  otel_metrics_port, config_volume_mount,
}

pub record ReplayParams : Type 0 where
  pub name : String
  pub hub_name : String
  pub image : String
  pub aws_config : Option ReplayAwsConfig
  pub hash : String

unfoldable pub replay_image : String → String
replay_image image = if image == "" then "otel/opentelemetry-collector-contrib:0.136.0" else image

unfoldable pub with_replay_secret : Option ReplayAwsConfig → Container → Container
unfolding with_aws_secret
with_replay_secret none b = b
with_replay_secret (some aws) b = with_aws_secret aws.aws_access_key_secret b

unfoldable pub replay_container : ReplayParams → Container
unfolding replayer_name container with_command with_ports with_volume_mounts with_env_from
    with_replay_secret replay_image config_volume_mount
replay_container p = with_replay_secret p.aws_config (
    with_env_from (config_map_ref (replayer_name p.name p.hub_name "collector-config") ∷ []) (
      with_volume_mounts (config_volume_mount ∷ []) (
        with_ports (record { container_port = otel_metrics_port; name = "otelcol-metrics" } ∷ []) (
          with_command ("/otelcol-contrib" ∷ "--config=/conf/collector.yaml" ∷ [])
            (container (replayer_name p.name p.hub_name "collector") (replay_image p.image))))))

unfoldable pub deploy_replay : ReplayParams → Deployment → Deployment
unfolding Deployments.with_label Deployments.with_selector_label Deployments.with_template_label
    Deployments.with_template_annotation Deployments.with_replicas Deployments.with_containers
    Deployments.with_volumes replay_container replayer_name
deploy_replay p d0 =
    let app = replayer_name p.name p.hub_name "collector" in
    let d1 = Deployments.with_label hub_name_label p.name (Deployments.with_label "app" app d0) in
    let d2 =
      Deployments.with_label hub_component_label "mdai-replay"
        (Deployments.with_label managed_by_key managed_by_value d1) in
    let d3 = Deployments.with_selector_label "app" app d2 in
    let d4 =
      Deployments.with_template_label component_key app
        (Deployments.with_template_label "app" app d3) in
    let d5 = Deployments.with_template_annotation "replay-collector-config/sha256" p.hash d4 in
    let d6 =
      Deployments.with_containers (replay_container p ∷ []) (Deployments.with_replicas 1 d5) in
    Deployments.with_volumes
      (record {
        name = "config-volume";
        config_map = replayer_name p.name p.hub_name "collector-config";
      }
        ∷ [])
      d6

unfoldable pub serve_replay : ReplayParams → Service → Service
unfolding Services.with_label Services.with_selector_label Services.with_ports Services.with_type
    replayer_name
serve_replay p s0 =
    let app = replayer_name p.name p.hub_name "collector" in
    let s1 = Services.with_label hub_name_label p.name (Services.with_label "app" app s0) in
    let s2 =
      Services.with_label managed_by_key managed_by_value
        (Services.with_label hub_component_label "mdai-replay" s1) in
    Services.with_type "ClusterIP" (
      Services.with_ports
        (record {
          name = "otelcol-metrics";
          port = otel_metrics_port;
          target = TargetPort.by_name "otelcol-metrics";
        }
          ∷ [])
        (Services.with_selector_label "app" app s2))
