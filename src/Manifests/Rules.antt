-- ===== src/Manifests/Rules.antt =====
-- internal/manifests/collector/ingress_aws.go and Ingress of ingress.go. The ports of the receivers
-- with their URL paths are the answer of GetReceiverPortsWithUrlPaths.
use Prim.Native.Nat.{Ordering}
use Prim.Native.String.{compare}
use mdai_operator.Prelude.{
  ℕ, String, List, [], ◌∷◌, ◌++◌, Option, none, some, Bool, true, false, ◌||◌, ◌==◌, Dict, lookup,
  is_nil, if◌then◌else◌,
}
use mdai_operator.Api.{MdaiIngress}
use mdai_operator.Naming.Port.{pos, port_name}
use mdai_operator.Naming.Names
use mdai_operator.Manifests.Filtering.{delete_others}
use mdai_operator.Manifests.Ports.{CollectorPort}
use mdai_operator.Manifests.Services.{
  Otelcol, Built, skipped, panicked, build_failed, built, merged_annotations, is_grpc, is_wanted,
}

pub record PortUrlPaths : Type 0 where
  pub port : CollectorPort
  pub url_paths : List String

abbrev pub ComponentPorts : Type 0
ComponentPorts = Dict (List PortUrlPaths)

pub data PathsAnswer : Type 0 where
  paths_found : ComponentPorts → PathsAnswer
  paths_failed : String → PathsAnswer

-- A path of type Prefix, with the service and the port that it leads to.
pub record IngressPath : Type 0 where
  pub path : String
  pub service_name : List ℕ
  pub port_name : List ℕ

pub record IngressRule : Type 0 where
  pub host : String
  pub paths : List IngressPath

pub record BuiltIngress : Type 0 where
  pub name : List ℕ
  pub namespace : List ℕ
  pub labels : Option (Dict String)
  pub annotations : Dict String
  pub rules : List IngressRule
  pub ingress_class_name : Option String

abbrev pub has_grpc : PortUrlPaths → Bool
has_grpc p = is_grpc p.port

-- The ports that are not gRPC ports are deleted, and then the components without ports.
unfoldable pub grpc_components : ComponentPorts → Option ComponentPorts
unfolding delete_others
grpc_components [] = some []
grpc_components (c ∷ cs) =
    let rest = grpc_components cs in
    elim (delete_others has_grpc c.1) [
      | none ↦ none
      | some ports ↦ elim rest [
        | none ↦ none
        | some others ↦ some (if is_nil ports then others else (c.0, ports) ∷ others)
      ]
    ]

unfoldable pub port_paths : (service_name name : List ℕ) → List String → List IngressPath
port_paths service_name name [] = []
port_paths service_name name (path ∷ paths) =
    record { path = path; service_name = service_name; port_name = name }
    ∷ port_paths service_name name paths

-- The slice `paths`, which all rules of a component share, when it is filled.
unfoldable pub component_paths : (service_name : List ℕ) → List PortUrlPaths → List IngressPath
unfolding port_paths port_name
component_paths service_name [] = []
component_paths service_name (p ∷ ps) =
    port_paths service_name (port_name p.port.name (pos p.port.port)) p.url_paths
    ++ component_paths service_name ps

-- One rule is appended in each round of the loop over the ports.
unfoldable pub repeat_rule : IngressRule → List PortUrlPaths → List IngressRule
repeat_rule rule [] = []
repeat_rule rule (p ∷ ps) = rule ∷ repeat_rule rule ps

-- A component without a host name is left out.
unfoldable pub component_rules :
    (service_name : List ℕ) → Dict String → (comp : String) → List PortUrlPaths → List IngressRule
unfolding lookup component_paths repeat_rule
component_rules service_name endpoints comp ports = elim (lookup comp endpoints) [
  | none ↦ []
  | some host ↦
      repeat_rule (record { host = host; paths = component_paths service_name ports }) ports
]

-- createPathIngressRulesUrlPaths
unfoldable pub path_rules :
    (service_name : List ℕ) → Dict String → ComponentPorts → List IngressRule
unfolding component_rules
path_rules service_name endpoints [] = []
path_rules service_name endpoints (c ∷ cs) =
    component_rules service_name endpoints c.0 c.1 ++ path_rules service_name endpoints cs

unfoldable pub is_less : String → String → Bool
is_less s t = elim (compare s t) [ Ordering.lt ↦ true | _ ↦ false ]

unfoldable pub insert_rule : IngressRule → List IngressRule → List IngressRule
unfolding is_less
insert_rule r [] = r ∷ []
insert_rule r (q ∷ qs) =
    let rest = insert_rule r qs in if is_less q.host r.host then q ∷ rest else r ∷ q ∷ qs

-- sort.Slice by the host; rules with one host stay in order, which sort.Slice leaves open.
unfoldable pub sort_rules : List IngressRule → List IngressRule
unfolding insert_rule
sort_rules [] = []
sort_rules (r ∷ rs) = insert_rule r (sort_rules rs)

module _ (unicode_lower : ℕ → ℕ) where
  -- Without rules there is no ingress.
  unfoldable pub from_rules : Otelcol → MdaiIngress → List IngressRule → Built BuiltIngress
  unfolding sort_rules merged_annotations Names.ingress
  from_rules otelcol ingress [] = skipped
  from_rules otelcol ingress (r ∷ rs) = built (record {
    name = Names.ingress unicode_lower otelcol.name;
    namespace = otelcol.namespace;
    labels = ingress.labels;
    annotations = merged_annotations otelcol.annotations ingress.annotations;
    rules = sort_rules (r ∷ rs);
    ingress_class_name = otelcol.ingress_class_name;
  })

  -- The switch on the type of the rules, with gRPC ports.
  unfoldable pub by_rule_type : Otelcol → MdaiIngress → ComponentPorts → Built BuiltIngress
  unfolding from_rules path_rules Names.grpc_service
  by_rule_type otelcol ingress components =
      if otelcol.rule_type == "path" || otelcol.rule_type == ""
      then (if is_nil ingress.collector_endpoints
          then build_failed "empty components to hostnames mapping"
          else from_rules otelcol ingress (
              path_rules (Names.grpc_service unicode_lower otelcol.name) ingress.collector_endpoints
                components))
      else skipped

  unfoldable pub with_components :
      Otelcol → MdaiIngress → Option ComponentPorts → Built BuiltIngress
  unfolding by_rule_type
  with_components otelcol ingress none = panicked
  with_components otelcol ingress (some []) = skipped
  with_components otelcol ingress (some (c ∷ cs)) = by_rule_type otelcol ingress (c ∷ cs)

  unfoldable pub ingress_aws : PathsAnswer → Otelcol → MdaiIngress → Built BuiltIngress
  unfolding with_components grpc_components
  ingress_aws (paths_failed e) otelcol ingress = build_failed e
  ingress_aws (paths_found []) otelcol ingress = skipped
  ingress_aws (paths_found (c ∷ cs)) otelcol ingress =
      with_components otelcol ingress (grpc_components (c ∷ cs))

  -- Ingress
  unfoldable pub ingress_of : (Otelcol → PathsAnswer) → Otelcol → MdaiIngress → Built BuiltIngress
  unfolding is_wanted ingress_aws
  ingress_of paths otelcol ingress =
      if is_wanted otelcol ingress then ingress_aws (paths otelcol) otelcol ingress else skipped
