-- ===== src/Webhook/Ingress.antt =====
-- internal/webhook/v1/mdaiingress_webhook.go. The list of ingresses by the name of the collector that
-- they refer to is the answer of an index of the API server.
pub mod Unique
use mdai_operator.Prelude.{
  String, List, [], ◌∷◌, Option, none, some, Bool, true, false, ◌&&◌, ◌==◌, if◌then◌else◌,
}
use mdai_operator.Api.{MdaiIngress, IngressService}
use mdai_operator.Webhook.Verdicts.{Verdict}

unfoldable pub or_default : String → String → String
or_default default value = if value == "" then default else value

unfoldable pub default_service : String → Option IngressService → IngressService
unfolding or_default
default_service type none = record { type = type; annotations = [] }
default_service type (some service) = record service { type = or_default type service.type }

-- `Default`
unfoldable pub default_ingress : MdaiIngress → MdaiIngress
unfolding default_service or_default
default_ingress ingress = record ingress {
  cloud_type = or_default "aws" ingress.cloud_type;
  grpc_service = some (default_service "NodePort" ingress.grpc_service);
  non_grpc_service = some (default_service "LoadBalancer" ingress.non_grpc_service);
}

pub data IngressError : Type 0 where
  no_client : IngressError
  list_error : String → IngressError
  already_used : (namespace name : String) → IngressError

-- The answer of `client.List`.
pub data Ingresses : Type 0 where
  found : List MdaiIngress → Ingresses
  not_listed : String → Ingresses

unfoldable pub same_ingress : MdaiIngress → MdaiIngress → Bool
same_ingress i other = other.name == i.name && other.namespace == i.namespace

-- The first other ingress of the list is an error.
unfoldable pub used_by : MdaiIngress → List MdaiIngress → Option IngressError
unfolding same_ingress
used_by i [] = none
used_by i (other ∷ others) =
    let rest = used_by i others in
    if same_ingress i other then rest else some (already_used other.namespace other.name)

on_listed : MdaiIngress → Ingresses → Option IngressError
unfolding used_by
on_listed i (found others) = used_by i others
on_listed i (not_listed e) = some (list_error e)

-- `Validate`, on the client's `List` if there is a client; `ValidateCreate` and `ValidateUpdate`.
unfoldable pub validate_ingress :
    Option ((namespace otel_collector : String) → Ingresses) → MdaiIngress → Verdict IngressError
unfolding on_listed
validate_ingress none i = record { warnings = []; error = some no_client }
validate_ingress (some list) i = record {
  warnings = [];
  error = on_listed i (list i.namespace i.otel_collector);
}
