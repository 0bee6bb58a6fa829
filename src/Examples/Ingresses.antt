-- ===== src/Examples/Ingresses.antt =====
-- The theorems on the objects of an ingress, at a concrete ingress and collector.
use mdai_operator.Prelude.{
  ◌≡◌, refl, String, List, [], ◌∷◌, Option, none, some, true, false, all, codes,
}
use mdai_operator.Api.{MdaiIngress}
use mdai_operator.Webhook.Ingress.{default_ingress}
use mdai_operator.Naming.Port.{pos, port_name}
use mdai_operator.Naming.PortNames.{port_name_idem}
use mdai_operator.Controller.Desired.{ObjectApi, configured}
use mdai_operator.Controller.Desired.Pruning.{deleted}
use mdai_operator.Manifests.Filtering.{filter}
use mdai_operator.Manifests.Ports.{
  CollectorPort, merge_ports, is_free, fitted, port_numbers, port_names, merge_ports-free,
}
use mdai_operator.Manifests.Services.{
  Otelcol, ports_found, is_grpc, is_not_grpc, is_wanted, grpc_service_of, non_grpc_service_of,
}
use mdai_operator.Manifests.Services.Split.{offered, offered-split}
use mdai_operator.Manifests.Rules.{paths_found}
use mdai_operator.Manifests.Mutation.{
  StringMap, Merged, merged, ManagedObject, service_object, mutate, Follows, mutate-Follows,
}
use mdai_operator.Controller.Ingress.{
  Collectors, IngressApi, fetched, missing, no_otelcol, reconcile_ingress,
}
use mdai_operator.Controller.Ingress.Orphans.{orphans-deleted}

abbrev port : (name : String) → Option String → CollectorPort
port name app_protocol = record {
  name = codes name;
  port = 4317;
  protocol = "TCP";
  app_protocol = app_protocol;
}

abbrev grpc_port : CollectorPort
grpc_port = port "otlp-grpc" (some "grpc")

abbrev http_port : CollectorPort
http_port = record (port "otlp-http" (some "http")) { port = 4318 }

abbrev own_port : CollectorPort
own_port = record (port "otlp-http" none) { port = 9000 }

merge_ports-free_example :
    (merge_ports (own_port ∷ []) (grpc_port ∷ http_port ∷ [])
      ≡ own_port
        ∷ fitted
            (port_numbers (own_port ∷ []))
            (port_names (own_port ∷ []))
            (grpc_port ∷ http_port ∷ []))
    × (all (is_free (port_numbers (own_port ∷ [])) (port_names (own_port ∷ []))) (
          fitted
            (port_numbers (own_port ∷ []))
            (port_names (own_port ∷ []))
            (grpc_port ∷ http_port ∷ []))
        ≡ true)
merge_ports-free_example = merge_ports-free (own_port ∷ []) (grpc_port ∷ http_port ∷ [])

port_name_idem_example :
    port_name (port_name (codes "otlp/1") (pos 4317)) (pos 4317)
    ≡ port_name (codes "otlp/1") (pos 4317)
port_name_idem_example = port_name_idem (codes "otlp/1") 4317

abbrev collector : Otelcol
collector = record no_otelcol { name = codes "gateway"; ports = own_port ∷ [] }

abbrev ingress : MdaiIngress
ingress = record {
  name = "ingress";
  namespace = "mdai";
  otel_collector = "gateway";
  cloud_type = "aws";
  labels = none;
  annotations = [];
  collector_endpoints = ("otlp", "otlp.example.com") ∷ [];
  grpc_service = none;
  non_grpc_service = none;
}

-- An empty collector has no ports.
abbrev if_named : Otelcol → List CollectorPort → List CollectorPort
if_named otelcol ps = elim otelcol.name [ [] ↦ [] | c ∷ cs ↦ ps ]

abbrev env : Collectors
env = record {
  is_filtered = λ key. false;
  unicode_lower = λ c. c;
  receiver_ports = λ otelcol. ports_found (if_named otelcol (grpc_port ∷ http_port ∷ []));
  all_ports = λ otelcol. ports_found (if_named otelcol (grpc_port ∷ http_port ∷ []));
  receiver_paths = λ otelcol. paths_found [];
  as_desired = λ m. record { name = "object"; cluster_scoped = false };
}

offered-split_example :
    (offered (
        grpc_service_of env.is_filtered env.unicode_lower env.receiver_ports env.all_ports collector
          (default_ingress ingress))
      ≡ some (filter is_grpc (merge_ports (own_port ∷ []) (grpc_port ∷ http_port ∷ []))))
    × (offered (
          non_grpc_service_of env.is_filtered env.unicode_lower env.receiver_ports env.all_ports
            collector
            (default_ingress ingress))
        ≡ some (filter is_not_grpc (merge_ports (own_port ∷ []) (grpc_port ∷ http_port ∷ []))))
unfolding is_wanted default_ingress
offered-split_example =
    offered-split env.is_filtered env.unicode_lower env.receiver_ports env.all_ports collector
      ingress (grpc_port ∷ http_port ∷ []) (grpc_port ∷ http_port ∷ []) refl refl refl

abbrev take_second : StringMap → StringMap → Merged
take_second first second = merged second

abbrev service_with : (type : String) → List CollectorPort → ManagedObject CollectorPort String
service_with type ports = service_object (record {
  meta = record { labels = none; annotations = none; owner_references = [] };
  type = type;
  ports = ports;
  selector = none;
})

mutate-Follows_example :
    Follows
      (service_with "NodePort" [])
      (service_with "LoadBalancer" (grpc_port ∷ []))
      (service_with "NodePort" (grpc_port ∷ []))
unfolding mutate
mutate-Follows_example =
    mutate-Follows take_second (service_with "NodePort" [])
      (service_with "LoadBalancer" (grpc_port ∷ [])) (service_with "NodePort" (grpc_port ∷ [])) refl

abbrev objects : ObjectApi
objects = record {
  owner_error = λ d. none;
  on_configure = λ sent d. configured "uid";
  on_delete = λ sent uid. none;
}

-- The collector is gone.
abbrev api : IngressApi
api = record {
  objects = objects;
  on_get = λ namespace name. fetched (default_ingress ingress);
  on_get_otelcol = λ namespace name. missing;
  owned_services = λ namespace owner. fetched ("grpc" ∷ []);
  owned_ingresses = λ namespace owner. fetched ("ingress" ∷ []);
}

orphans-deleted_example :
    deleted (reconcile_ingress env api "mdai" "ingress").1 ≡ "grpc" ∷ "ingress" ∷ []
orphans-deleted_example =
    orphans-deleted env ingress refl refl refl api "mdai" "ingress" ("grpc" ∷ []) ("ingress" ∷ [])
      refl refl refl refl refl
