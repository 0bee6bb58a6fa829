-- ===== src/Api/Collector.antt =====
-- api/v1/mdaicollector_types.go, api/v1/mdaiobserver_types.go and api/v1/mdaiingress_types.go
use mdai_operator.Prelude.{ℕ, String, List, Option, Bool, Dict}

pub record AwsConfig : Type 0 where
  pub aws_access_key_secret : Option String

pub record AuditLogstreamConfig : Type 0 where
  pub disabled : Bool

pub record LogstreamConfig : Type 0 where
  pub min_severity : Option String
  pub disabled : Bool

pub record S3LogsConfig : Type 0 where
  pub audit_logs : Option AuditLogstreamConfig
  pub collector_logs : Option LogstreamConfig
  pub hub_logs : Option LogstreamConfig
  pub other_logs : Option LogstreamConfig
  pub s3_region : String
  pub s3_bucket : String

pub record OtlpLogsConfig : Type 0 where
  pub audit_logs : Option AuditLogstreamConfig
  pub collector_logs : Option LogstreamConfig
  pub hub_logs : Option LogstreamConfig
  pub other_logs : Option LogstreamConfig
  pub endpoint : String

pub record LogsConfig : Type 0 where
  pub s3 : Option S3LogsConfig
  pub otlp : Option OtlpLogsConfig

-- The name of the resource, and what the validator reads of its specification.
pub record MdaiCollector : Type 0 where
  pub name : String
  pub aws_config : Option AwsConfig
  pub logs : Option LogsConfig

-- `log_record` of the filter on logs, and nothing of it where the filter is nil.
pub record ObserverFilter : Type 0 where
  pub error_mode : Option String
  pub log_record : List String

pub record Observer : Type 0 where
  pub name : String
  pub label_resource_attributes : List String
  pub count_metric_name : Option String
  pub bytes_metric_name : Option String
  pub filter : Option ObserverFilter

-- What the collector configuration reads of the resource.
pub record ObserverResource : Type 0 where
  pub grpc_receiver_max_msg_size : Option ℕ
  pub own_logs_otlp_endpoint : Option String

-- `has_resources` tells whether `ObserverResource.Resources` is not nil.
pub record MdaiObserver : Type 0 where
  pub name : String
  pub has_resources : Bool
  pub observers : List Observer

pub record IngressService : Type 0 where
  pub type : String
  pub annotations : Dict String

pub record MdaiIngress : Type 0 where
  pub name : String
  pub namespace : String
  pub otel_collector : String
  pub cloud_type : String
  pub labels : Option (Dict String)
  pub annotations : Dict String
  pub collector_endpoints : Dict String
  pub grpc_service : Option IngressService
  pub non_grpc_service : Option IngressService
