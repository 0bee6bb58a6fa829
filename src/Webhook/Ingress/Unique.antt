-- ===== src/Webhook/Ingress/Unique.antt =====
-- The defaults are settled, and a collector is referred to by one ingress.
use mdai_operator.Prelude.{
  ◌≡◌, refl, String, List, [], ◌∷◌, Option, none, some, true, eq_iff, arith, all, ◌↔◌,
}
use mdai_operator.Api.{MdaiIngress, IngressService}
use mdai_operator.Webhook.Verdicts.{Accepts}
use mdai_operator.Webhook.Ingress.{
  or_default, default_service, default_ingress, Ingresses, found, same_ingress, used_by, on_listed,
  validate_ingress,
}

or_default_twice : (d v : String) → or_default d (or_default d v) ≡ or_default d v
unfolding or_default
or_default_twice d v = ground (arith, eq_iff v "", eq_iff d "")

or_default_self : (d : String) → or_default d d ≡ d
unfolding or_default
or_default_self d = ground arith

default_service_twice :
    (d : String) (s : Option IngressService)
    → default_service d (some (default_service d s)) ≡ default_service d s
unfolding default_service
default_service_twice d none = rw (or_default_self d) refl
default_service_twice d (some s) = rw (or_default_twice d s.type) refl

-- Setting the defaults of an ingress again changes nothing.
pub default_ingress_idem :
    (i : MdaiIngress) → default_ingress (default_ingress i) ≡ default_ingress i
unfolding default_ingress
default_ingress_idem i = rw (or_default_twice "aws" i.cloud_type) (
    rw (default_service_twice "NodePort" i.grpc_service)
      (rw (default_service_twice "LoadBalancer" i.non_grpc_service) refl))

used_by-same :
    (i : MdaiIngress) (others : List MdaiIngress)
    → (used_by i others ≡ none → all (same_ingress i) others ≡ true)
      × (all (same_ingress i) others ≡ true → used_by i others ≡ none)
unfolding used_by
used_by-same i [] = ((λ h. refl), λ h. refl)
used_by-same i (other ∷ others) =
    let (f, g) = used_by-same i others in ((λ h. ground (arith, f)), λ h. ground (arith, g))

-- With a client whose list succeeds, the validator accepts an ingress exactly if each ingress of the
-- list, those that refer to the same collector in the namespace, is that ingress itself.
pub ingress-Accepts :
    (list : (namespace otel_collector : String) → Ingresses) (i : MdaiIngress)
    (others : List MdaiIngress)
    → list i.namespace i.otel_collector ≡ found others
    → Accepts (validate_ingress (some list) i) ↔ (all (same_ingress i) others ≡ true)
unfolding validate_ingress on_listed
ingress-Accepts list i others h = rw h (used_by-same i others)
