-- ===== src/Examples/Collectors.antt =====
-- The theorems on collectors, observers and ingresses at concrete resources.
use mdai_operator.Prelude.{
  ◌≡◌, ◌↔◌, refl, [], ◌∷◌, Option, none, some, true, false, all, member, lookup,
}
use mdai_operator.Api.{
  MdaiCollector, LogsConfig, S3LogsConfig, LogstreamConfig, MdaiObserver, MdaiIngress,
  ObserverResource,
}
use mdai_operator.Webhook.{Accepts}
use mdai_operator.Controller.Observer.{
  ObserverConfig, base_processor, observer_config, output_pipeline, volume_key,
}
use mdai_operator.Controller.Observer.Wired.{is_valid}
use mdai_operator.Controller.Observer.Valid.{is_watched, observer_config-valid}
use mdai_operator.Webhook.Observer.{validate_observer, has_metric, observer-Accepts}
use mdai_operator.Webhook.Ingress.{found, validate_ingress, same_ingress}
use mdai_operator.Webhook.Ingress.Unique.{ingress-Accepts}

abbrev warnings_only : Option LogstreamConfig
warnings_only = some (record { min_severity = some "warn"; disabled = false })

abbrev s3 : S3LogsConfig
s3 = record {
  audit_logs = some (record { disabled = true });
  collector_logs = warnings_only;
  hub_logs = none;
  other_logs = none;
  s3_region = "us-east-1";
  s3_bucket = "logs";
}

abbrev logs : LogsConfig
logs = record {
  s3 = some s3;
  otlp = some (record {
    audit_logs = none;
    collector_logs = none;
    hub_logs = warnings_only;
    other_logs = none;
    endpoint = "otlp.example:4317";
  });
}

abbrev collector : MdaiCollector
collector = record {
  name = "gateway-1";
  aws_config = some (record { aws_access_key_secret = some "aws" });
  logs = some logs;
}

abbrev ingress : MdaiIngress
ingress = record {
  name = "ingress";
  namespace = "mdai";
  otel_collector = "gateway";
  labels = none;
  annotations = [];
  collector_endpoints = [];
  cloud_type = "";
  grpc_service = some (record { type = ""; annotations = [] });
  non_grpc_service = none;
}

ingress-Accepts_example :
    Accepts (validate_ingress (some (λ namespace name. found (ingress ∷ []))) ingress)
    ↔ (all (same_ingress ingress) (ingress ∷ []) ≡ true)
ingress-Accepts_example =
    ingress-Accepts (λ namespace name. found (ingress ∷ [])) ingress (ingress ∷ []) refl

abbrev observer : MdaiObserver
observer = record {
  name = "observer";
  has_resources = false;
  observers =
      record {
        name = "watcher";
        label_resource_attributes = [];
        count_metric_name = none;
        bytes_metric_name = some "bytes";
        filter = some (record { error_mode = none; log_record = [] });
      }
      ∷ [];
}

observer-Accepts_example :
    Accepts (validate_observer observer) ↔ (all has_metric observer.observers ≡ true)
observer-Accepts_example = observer-Accepts observer

-- The base configuration.
abbrev observer_base : ObserverConfig
observer_base = record {
  receivers = "otlp" ∷ [];
  max_recv_msg_size_mib = some 32;
  processors = ("batch", base_processor "{}") ∷ ("deltatocumulative", base_processor "{}") ∷ [];
  connectors = [];
  exporters = "prometheus" ∷ [];
  pipelines = [];
  own_logs = none;
}

abbrev observer_resource : ObserverResource
observer_resource = record {
  grpc_receiver_max_msg_size = some 64;
  own_logs_otlp_endpoint = some "http://hub";
}

observer_config-valid_example :
    (is_valid (observer_config observer.observers observer_resource observer_base) ≡ true)
    × ((all
            (is_watched (observer_config observer.observers observer_resource observer_base))
            observer.observers
          ≡ true)
        × (lookup "metrics/observeroutput"
              (observer_config observer.observers observer_resource observer_base).pipelines
            ≡ some (output_pipeline ("datavolume/watcher" ∷ []))))
unfolding member lookup volume_key
observer_config-valid_example =
    observer_config-valid observer.observers observer_resource observer_base refl refl
