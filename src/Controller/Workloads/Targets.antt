-- ===== src/Controller/Workloads/Targets.antt =====
-- The target ports of the Services.
use mdai_operator.Prelude.{
  ◌≡◌, refl, ◌∙◌, String, List, [], ◌∷◌, ◌++◌, Option, none, some, Bool, true, false, ◌||◌, ◌==◌,
  arith, eqb, all, Bool-cases, inl, inr,
}
use mdai_operator.Api.{ReplayAwsConfig}
use mdai_operator.Builder.Pods.{
  ContainerPort, Container, container, with_ports, with_volume_mounts, with_env_from,
  with_aws_secret, with_security_context, with_env_from_secret_key, with_env_from_config_map,
  with_liveness_probe, with_readiness_probe,
}
use mdai_operator.Builder.Deployments
use mdai_operator.Builder.Deployments.{Deployment}
use mdai_operator.Builder.Services
use mdai_operator.Builder.Services.{Service, ServicePort, TargetPort, by_name, by_number}
use mdai_operator.Controller.Workloads.Shared.{otlp_ports, otlp_service_ports}
use mdai_operator.Controller.Workloads.Collector.{
  CollectorParams, collector_container, deploy_collector, serve_collector,
}
use mdai_operator.Controller.Workloads.Observer.{
  observer_container, deploy_observer, serve_observer,
}
use mdai_operator.Controller.Workloads.Replay.{
  ReplayParams, replay_container, with_replay_secret, deploy_replay, serve_replay,
}
use mdai_operator.Controller.Workloads.Dal.{
  MdaiDal, MdaiDalImageSpec, dal_container_of, deploy_dal, serve_dal, dal_ports, type_if_new,
}
use mdai_operator.Controller.Workloads.All.{
  Owner, collector_named, observer_named, dal_named, replay_named, Settings, deploy, serve,
}

abbrev some_port : (ContainerPort → Bool) → List ContainerPort → Bool
some_port p [] = false
some_port p (c ∷ cs) = p c || some_port p cs

-- Whether a container has the target of a port of a service, by its name or by its number.
unfoldable pub reaches : List ContainerPort → ServicePort → Bool
reaches ports s = elim s.target [
  | by_name n ↦ some_port (λ c. c.name == n) ports
  | by_number n ↦ some_port (λ c. eqb c.container_port n) ports
]

abbrev pub ports_of : List Container → List ContainerPort
ports_of [] = []
ports_of (c ∷ cs) = c.ports ++ ports_of cs

ports-with_aws_secret :
    (secret : Option String) (c : Container) → (with_aws_secret secret c).ports ≡ c.ports
unfolding with_aws_secret
ports-with_aws_secret none c = refl
ports-with_aws_secret (some s) c = refl

ports-with_env_from_secret_key :
    (v n k : String) (c : Container) → (with_env_from_secret_key v n k c).ports ≡ c.ports
unfolding with_env_from_secret_key
ports-with_env_from_secret_key v n k c = elim (Bool-cases (n == "" || k == "" || v == "")) [
  | inl h ↦ rw h refl
  | inr h ↦ rw h refl
]

ports-collector :
    (p : CollectorParams)
    → (collector_container p).ports
      ≡ otlp_ports ++ record { container_port = 8899; name = "prom-http" } ∷ []
unfolding collector_container with_security_context with_env_from with_volume_mounts with_ports
ports-collector p = ports-with_aws_secret p.aws_access_key_secret _

ports-dal :
    (dal : MdaiDal) (spec : MdaiDalImageSpec) → (dal_container_of dal spec).ports ≡ otlp_ports
unfolding dal_container_of with_readiness_probe with_liveness_probe with_security_context
    with_env_from_config_map with_ports
ports-dal dal spec =
    let keys = dal.credentials in
    ports-with_env_from_secret_key "AWS_SECRET_ACCESS_KEY" keys.secret_name keys.secret_key_field _
    ∙ ports-with_env_from_secret_key "AWS_ACCESS_KEY_ID" keys.secret_name keys.access_key_field _

ports-with_replay_secret :
    (aws : Option ReplayAwsConfig) (c : Container) → (with_replay_secret aws c).ports ≡ c.ports
unfolding with_replay_secret
ports-with_replay_secret none c = refl
ports-with_replay_secret (some aws) c = ports-with_aws_secret aws.aws_access_key_secret c

ports-replay :
    (p : ReplayParams)
    → (replay_container p).ports ≡ record { container_port = 8888; name = "otelcol-metrics" } ∷ []
unfolding replay_container with_env_from with_volume_mounts with_ports
ports-replay p = ports-with_replay_secret p.aws_config _

ports-type_if_new : (s : Service) → (type_if_new s).ports ≡ s.ports
unfolding type_if_new Services.with_type
ports-type_if_new s = ground arith

-- Whatever the settings are and whatever was there, each port of a Service leads to a port of the
-- container in its Deployment, by its name or by its number.
pub serve-reaches :
    (o : Owner) (st : Settings) (d : Deployment) (s : Service)
    → all (reaches (ports_of (deploy o st d).containers)) (serve o st s).ports ≡ true
unfolding deploy serve deploy_collector deploy_observer deploy_replay deploy_dal serve_collector
    serve_observer serve_replay serve_dal reaches otlp_ports otlp_service_ports dal_ports
    observer_container container Deployments.with_label Deployments.with_selector_label
    Deployments.with_template_label Deployments.with_template_annotation Deployments.tolerating
    Deployments.with_replicas Deployments.with_service_account Deployments.with_containers
    Deployments.with_volumes Services.with_label Services.with_selector_label Services.with_ports
    Services.with_type
serve-reaches (collector_named name) st d s = rw (ports-collector _) refl
serve-reaches (observer_named name) st d s = refl
serve-reaches (replay_named name hub_name) st d s = rw (ports-replay _) refl
serve-reaches (dal_named name) st d s =
    rw (ports-type_if_new _) (rw (ports-dal st.dal st.dal_image) refl)
