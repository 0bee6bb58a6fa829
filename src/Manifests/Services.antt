-- ===== src/Manifests/Services.antt =====
-- GrpcService and NonGrpcService of internal/manifests/collector/service_aws.go. `receiver_ports` and
-- `all_ports` are GetReceiverPorts and GetAllPorts of the OpenTelemetry operator on the collector's
-- configuration.
pub mod Split
use mdai_operator.Prelude.{
  ℕ, String, List, [], ◌∷◌, ◌++◌, Option, none, some, Bool, true, false, not, ◌&&◌, ◌||◌, ◌==◌,
  Dict, insert, codes, if◌then◌else◌,
}
use mdai_operator.Api.{MdaiIngress, IngressService}
use mdai_operator.Naming.Names
use mdai_operator.Manifests.Filtering.{delete_others}
use mdai_operator.Manifests.Ports.{CollectorPort, merge_ports}
use mdai_operator.Manifests.Labels.{labels_of, selector_labels}

-- What is read of an OpenTelemetryCollector.
pub record Otelcol : Type 0 where
  pub name : List ℕ
  pub namespace : List ℕ
  pub labels : Option (Dict (List ℕ))
  pub annotations : Dict String
  pub image : List ℕ
  pub mode : String
  pub ports : List CollectorPort
  pub ingress_type : String
  pub rule_type : String
  pub ingress_class_name : Option String

pub data PortsAnswer : Type 0 where
  ports_found : List CollectorPort → PortsAnswer
  ports_failed : String → PortsAnswer

-- No object, an object, an error, or a nil dereference or an index out of range.
pub data Built (A : Type 0) : Type 0 where
  skipped panicked : Built A
  build_failed : String → Built A
  built : A → Built A

pub record BuiltService : Type 0 where
  pub name : List ℕ
  pub namespace : List ℕ
  pub labels : Dict (List ℕ)
  pub annotations : Dict String
  pub type : String
  pub traffic_policy : String
  pub selector : Dict (List ℕ)
  pub ports : List CollectorPort

-- maps.Copy
unfoldable pub copy_map : {A : Type 0} → Dict A → Dict A → Dict A
unfolding insert
copy_map dst [] = dst
copy_map dst (e ∷ src) = copy_map (insert e.0 e.1 dst) src

-- The annotations of the collector, and over them those of the ingress.
unfoldable pub merged_annotations : Dict String → Dict String → Dict String
unfolding copy_map
merged_annotations otelcol own = copy_map (copy_map [] otelcol) own

unfoldable pub is_grpc : CollectorPort → Bool
is_grpc p = elim p.app_protocol [ none ↦ false | some a ↦ a == "grpc" ]

unfoldable pub is_not_grpc : CollectorPort → Bool
is_not_grpc p = elim p.app_protocol [ none ↦ true | some a ↦ not (a == "grpc") ]

-- For AWS and a collector without an ingress of its own.
unfoldable pub is_wanted : Otelcol → MdaiIngress → Bool
is_wanted otelcol ingress = otelcol.ingress_type == "" && ingress.cloud_type == "aws"

unfoldable pub traffic_policy_of : String → String
traffic_policy_of mode = if mode == "daemonset" then "Local" else "Cluster"

unfoldable pub service_type : IngressService → String
service_type s = if s.type == "" then "ClusterIP" else s.type

module _ (is_filtered : String → Bool) where
  -- Without ports there is no service.
  unfoldable pub from_ports :
      Otelcol → IngressService → (name : List ℕ) → Option (List CollectorPort) → Built BuiltService
  unfolding merged_annotations labels_of selector_labels traffic_policy_of service_type
  from_ports otelcol own name none = panicked
  from_ports otelcol own name (some []) = skipped
  from_ports otelcol own name (some (p ∷ ps)) = built (record {
    name = name;
    namespace = otelcol.namespace;
    labels = labels_of is_filtered otelcol.labels name otelcol.image;
    annotations = merged_annotations otelcol.annotations own.annotations;
    type = service_type own;
    traffic_policy = traffic_policy_of otelcol.mode;
    selector = selector_labels otelcol.namespace otelcol.name (codes "opentelemetry-collector");
    ports = p ∷ ps;
  })

  -- The common part of both: the annotations of the service are read before it is tested for nil.
  unfoldable pub service_of :
      (keep : CollectorPort → Bool)
      → PortsAnswer
      → (name : List ℕ) → Otelcol
      → MdaiIngress
      → Option IngressService
      → Built BuiltService
  unfolding is_wanted from_ports delete_others merge_ports
  service_of keep answer name otelcol ingress own =
      if is_wanted otelcol ingress
      then elim own [
        | none ↦ panicked
        | some s ↦ elim answer [
          | ports_failed e ↦ build_failed e
          | ports_found inferred ↦
              from_ports otelcol s name (delete_others keep (merge_ports otelcol.ports inferred))
        ]
      ]
      else skipped

  module _ (unicode_lower : ℕ → ℕ) (receiver_ports all_ports : Otelcol → PortsAnswer) where
    unfoldable pub grpc_service_of : Otelcol → MdaiIngress → Built BuiltService
    unfolding service_of is_grpc Names.grpc_service
    grpc_service_of otelcol ingress =
        service_of is_grpc (receiver_ports otelcol) (Names.grpc_service unicode_lower otelcol.name)
          otelcol ingress ingress.grpc_service

    unfoldable pub non_grpc_service_of : Otelcol → MdaiIngress → Built BuiltService
    unfolding service_of is_not_grpc Names.non_grpc_service
    non_grpc_service_of otelcol ingress =
        service_of is_not_grpc (all_ports otelcol)
          (Names.non_grpc_service unicode_lower otelcol.name) otelcol ingress
          ingress.non_grpc_service
