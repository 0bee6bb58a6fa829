-- ===== src/Controller/Workloads/Dal.antt =====
-- createOrUpdateDeployment, createOrUpdateService, the data of createOrUpdateConfigMap and imageRef of
-- internal/controller/mdaidal_adapter.go, and ToK8s of api/v1/mdaidal_types.go.
use Prim.Native.String
use mdai_operator.Prelude.{
  ℕ, String, List, [], ◌∷◌, Option, none, some, Bool, true, false, Dict, ◌==◌, if◌then◌else◌,
}
use mdai_operator.Builder.Pods.{
  Container, container, Probe, with_image_pull_policy, with_ports, with_env_from_secret_key,
  with_env_from_config_map, with_security_context, with_liveness_probe, with_readiness_probe,
}
use mdai_operator.Builder.Deployments
use mdai_operator.Builder.Deployments.{Deployment}
use mdai_operator.Builder.Services
use mdai_operator.Builder.Services.{Service, ServicePort, TargetPort}
use mdai_operator.Controller.Adapters.{dal_config_map_name}
use mdai_operator.Controller.Workloads.Shared.{
  managed_by_key, managed_by_value, app_name_key, app_instance_key, hub_component_label,
  otlp_grpc_port, otlp_http_port, otlp_ports, default_security_context,
}

pub record MdaiDalImageSpec : Type 0 where
  pub repository : String
  pub tag : String
  pub pull_policy : String

pub record MdaiDalAwsCredentials : Type 0 where
  pub secret_name : String
  pub access_key_field : String
  pub secret_key_field : String

-- The name of the DAL with its specification; `credentials` are those of `aws`.
pub record MdaiDal : Type 0 where
  pub name : String
  pub granularity : String
  pub use_payload_ts : Bool
  pub marshaler : String
  pub bucket : String
  pub prefix : String
  pub region : String
  pub credentials : MdaiDalAwsCredentials
  pub image_spec : Option MdaiDalImageSpec

unfoldable pub image_ref : MdaiDalImageSpec → String
image_ref i =
    if i.repository == ""
    then ""
    else if i.tag == ""
    then i.repository
    else String.◌++◌ i.repository (String.◌++◌ ":" i.tag)

unfoldable pub to_k8s : String → String
to_k8s policy = if policy == "" then "IfNotPresent" else policy

unfoldable pub format_bool : Bool → String
format_bool true = "true"
format_bool false = "false"

unfoldable pub dal_config_data : MdaiDal → Dict String
unfolding format_bool
dal_config_data dal =
    ("MDAI_DAL_S3_BUCKET", dal.bucket)
    ∷ ("MDAI_DAL_AWS_REGION", dal.region)
    ∷ ("MDAI_DAL_S3_PREFIX", dal.prefix)
    ∷ ("MDAI_DAL_GRANULARITY", dal.granularity)
    ∷ ("MDAI_DAL_USE_PAYLOAD_TS", format_bool dal.use_payload_ts)
    ∷ ("MDAI_DAL_MARSHALER", dal.marshaler)
    ∷ []

unfoldable pub health_probe : (initial_delay period : ℕ) → Probe
health_probe initial_delay period = record {
  path = "/healthz";
  port = otlp_http_port;
  initial_delay = initial_delay;
  period = period;
}

unfoldable pub dal_container_of : MdaiDal → MdaiDalImageSpec → Container
unfolding image_ref to_k8s health_probe container with_image_pull_policy with_ports
    with_env_from_secret_key with_env_from_config_map with_security_context with_liveness_probe
    with_readiness_probe otlp_ports default_security_context dal_config_map_name
dal_container_of dal spec =
    let keys = dal.credentials in
    with_readiness_probe (health_probe 3 5) (
      with_liveness_probe (health_probe 10 10) (
        with_security_context default_security_context (
          with_env_from_config_map (dal_config_map_name dal.name) (
            with_env_from_secret_key "AWS_SECRET_ACCESS_KEY" keys.secret_name keys.secret_key_field
              (with_env_from_secret_key "AWS_ACCESS_KEY_ID" keys.secret_name keys.access_key_field (
                with_ports otlp_ports (
                  with_image_pull_policy (to_k8s spec.pull_policy)
                    (container dal.name (image_ref spec)))))))))

-- A nil image specification is dereferenced.
unfoldable pub dal_container : MdaiDal → Option Container
unfolding dal_container_of
dal_container dal = elim dal.image_spec [
  | none ↦ none
  | some spec ↦ some (dal_container_of dal spec)
]

-- The selector of a deployment that is there is not changed.
unfoldable pub dal_selector : String → Deployment → Deployment
unfolding Deployments.with_selector_label
dal_selector name d =
    if d.created
    then d
    else Deployments.with_selector_label app_instance_key name (
        Deployments.with_selector_label managed_by_key managed_by_value
          (Deployments.with_selector_label app_name_key "mdai-dal" d))

unfoldable pub deploy_dal : (name : String) → Container → Deployment → Deployment
unfolding dal_selector Deployments.with_replicas Deployments.with_label
    Deployments.with_template_label Deployments.with_containers
deploy_dal name pod d0 =
    let d1 = Deployments.with_replicas 1 (dal_selector name d0) in
    let d2 =
      Deployments.with_label app_instance_key name
        (Deployments.with_label app_name_key "mdai-dal" d1) in
    let d3 =
      Deployments.with_label hub_component_label "mdai-dal"
        (Deployments.with_label managed_by_key managed_by_value d2) in
    let d4 =
      Deployments.with_template_label app_instance_key name
        (Deployments.with_template_label app_name_key "mdai-dal" d3) in
    Deployments.with_containers (pod ∷ [])
      (Deployments.with_template_label managed_by_key managed_by_value d4)

-- The targets are port numbers.
unfoldable pub dal_ports : List ServicePort
dal_ports =
    record {
      name = "otlp-grpc";
      port = otlp_grpc_port;
      target = TargetPort.by_number otlp_grpc_port;
    }
    ∷ record {
      name = "otlp-http";
      port = otlp_http_port;
      target = TargetPort.by_number otlp_http_port;
    }
    ∷ []

-- The type is set on a new service only.
unfoldable pub type_if_new : Service → Service
unfolding Services.with_type
type_if_new s = if s.created then s else Services.with_type "ClusterIP" s

unfoldable pub serve_dal : (name : String) → Service → Service
unfolding Services.with_label Services.with_selector_label Services.with_ports type_if_new dal_ports
serve_dal name s0 =
    let s1 =
      Services.with_label app_instance_key name (Services.with_label app_name_key "mdai-dal" s0) in
    let s2 =
      Services.with_label hub_component_label "mdai-dal"
        (Services.with_label managed_by_key managed_by_value s1) in
    let s3 =
      Services.with_selector_label app_instance_key name
        (Services.with_selector_label app_name_key "mdai-dal" s2) in
    type_if_new (Services.with_ports dal_ports s3)
