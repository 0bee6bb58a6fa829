-- ===== src/Controller/Collector.antt =====
-- The collector configuration of internal/controller/mdaicollector_adapter.go: getMdaiCollectorConfig
-- and what it calls. The maps of the configuration block that it changes are dictionaries, the log
-- streams are their texts, and the base configuration, which is a YAML file, is an argument.
pub mod Routed
pub mod Complete
pub mod Filters
use Prim.Native.String
use mdai_operator.Prelude.{
  String, List, [], ◌∷◌, ◌++◌, Option, none, some, Bool, true, false, not, ◌==◌, Dict, lookup,
  insert, if◌then◌else◌,
}
use mdai_operator.Api.{
  LogsConfig, S3LogsConfig, OtlpLogsConfig, LogstreamConfig, AuditLogstreamConfig,
}

pub data LogStream : Type 0 where
  audit collector hub other : LogStream

unfoldable pub stream_name : LogStream → String
stream_name audit = "audit"
stream_name collector = "collector"
stream_name hub = "hub"
stream_name other = "other"

pub data Exporter : Type 0 where
  otlp_exporter : (endpoint : String) → Exporter
  s3_exporter :
      (region bucket prefix file_prefix partition_format : String) → (disable_ssl : Bool) → Exporter
  base_exporter : String → Exporter

pub record Pipeline : Type 0 where
  pub receivers : List String
  pub processors : List String
  pub exporters : List String

pub record RoutingEntry : Type 0 where
  pub context : String
  pub condition : String
  pub pipelines : List String

abbrev pub RoutingTable : Type 0
RoutingTable = Dict RoutingEntry

-- The maps that are changed, with the routing table.
pub record Blocks : Type 0 where
  pub exporters : Dict Exporter
  pub pipelines : Dict Pipeline
  pub table : RoutingTable

-- severityFilterMap
unfoldable pub severity_filter : String → Option String
severity_filter severity =
    if severity == "debug"
    then some "filter/severity_min_debug"
    else if severity == "info"
    then some "filter/severity_min_info"
    else if severity == "warn"
    then some "filter/severity_min_warn"
    else if severity == "error"
    then some "filter/severity_min_error"
    else none

-- routingTableContextMap and routingTableConditionMap; a missing key is the empty text.
routing_context : LogStream → String
routing_context audit = "log"
routing_context collector = "resource"
routing_context hub = "resource"
routing_context other = ""

routing_condition : LogStream → String
routing_condition audit = "attributes[\"mdai-logstream\"] == \"audit\""
routing_condition collector = "attributes[\"mdai-logstream\"] == \"collector\""
routing_condition hub = "attributes[\"mdai-logstream\"] == \"hub\""
routing_condition other = ""

is_other : LogStream → Bool
is_other other = true
is_other _ = false

-- The entry of a stream with one more pipeline.
extend_entry : LogStream → String → Option RoutingEntry → RoutingEntry
unfolding routing_context routing_condition
extend_entry stream pipeline none = record {
  context = routing_context stream;
  condition = routing_condition stream;
  pipelines = pipeline ∷ [];
}
extend_entry stream pipeline (some entry) = record entry {
  pipelines = entry.pipelines ++ pipeline ∷ [];
}

-- addOrCreateRoutingTableEntryWithPipeline
unfoldable pub add_routing : LogStream → String → RoutingTable → RoutingTable
unfolding is_other extend_entry lookup insert stream_name
add_routing stream pipeline table =
    if is_other stream
    then table
    else insert (stream_name stream)
        (extend_entry stream pipeline (lookup (stream_name stream) table)) table

unfoldable pub filter_of : Option String → List String
unfolding severity_filter
filter_of none = []
filter_of (some severity) = elim (severity_filter severity) [
  | none ↦ []
  | some filter ↦ filter ∷ []
]

-- getPipelineWithExporterAndSeverityFilter; an empty batch processor is left out.
unfoldable pub pipeline_with :
    (receiver exporter : String) → Option String → (batch : String) → Pipeline
unfolding filter_of
pipeline_with receiver exporter min_severity batch = record {
  receivers = receiver ∷ [];
  processors = filter_of min_severity ++ (if batch == "" then [] else batch ∷ []);
  exporters = exporter ∷ [];
}

abbrev pub router : String
router = "routing/logstream"

unfoldable pub otlp_pipeline : LogStream → String
unfolding stream_name
otlp_pipeline stream = String.◌++◌ "logs/otlp_" (stream_name stream)

unfoldable pub s3_pipeline : LogStream → String
unfolding stream_name
s3_pipeline stream = String.◌++◌ "logs/s3_" (stream_name stream)

unfoldable pub s3_key : LogStream → String
unfolding stream_name
s3_key stream = String.◌++◌ "awss3/" (stream_name stream)

-- getS3ExporterForLogstream
unfoldable pub s3_exporter_for : String → LogStream → S3LogsConfig → Exporter
unfolding stream_name
s3_exporter_for hub_name stream s3 =
    s3_exporter s3.s3_region s3.s3_bucket
      (String.◌++◌ hub_name (String.◌++◌ "-" (String.◌++◌ (stream_name stream) "-logs")))
      (String.◌++◌ (stream_name stream) "-") "%Y/%m/%d/%H" true

-- A pipeline of a stream, with its entry in the routing table.
unfoldable pub add_pipeline : LogStream → String → Pipeline → Blocks → Blocks
unfolding add_routing insert
add_pipeline stream name pipeline b = record b {
  pipelines = insert name pipeline b.pipelines;
  table = add_routing stream name b.table;
}

unfoldable pub set_exporter : String → Exporter → Blocks → Blocks
unfolding insert
set_exporter key exporter b = record b { exporters = insert key exporter b.exporters }

unfoldable pub min_severity_of : Option LogstreamConfig → Option String
min_severity_of none = none
min_severity_of (some config) = config.min_severity

unfoldable pub is_enabled : Option LogstreamConfig → Bool
is_enabled none = true
is_enabled (some config) = not config.disabled

unfoldable pub is_audit_enabled : Option AuditLogstreamConfig → Bool
is_audit_enabled none = true
is_audit_enabled (some config) = not config.disabled

-- addS3ComponentsAndPipeline
unfoldable pub add_s3 : String → LogStream → S3LogsConfig → Option String → Blocks → Blocks
unfolding add_pipeline set_exporter s3_key s3_exporter_for s3_pipeline pipeline_with
add_s3 hub_name stream s3 min_severity b =
    add_pipeline stream (s3_pipeline stream)
      (pipeline_with router (s3_key stream) min_severity "batch")
      (set_exporter (s3_key stream) (s3_exporter_for hub_name stream s3) b)

-- addPipelineForLogstream, and the pipeline of the audit stream.
unfoldable pub add_otlp : LogStream → Option String → (batch : String) → Blocks → Blocks
unfolding add_pipeline otlp_pipeline pipeline_with
add_otlp stream min_severity batch b =
    add_pipeline stream (otlp_pipeline stream) (pipeline_with router "otlp" min_severity batch) b

abbrev pub when_enabled : Bool → (Blocks → Blocks) → Blocks → Blocks
when_enabled true f b = f b
when_enabled false f b = b

abbrev pub when_default : Bool → String → List String
when_default true name = name ∷ []
when_default false name = []

-- augmentPipelinesForS3ConfigAndGetOtherLogstreamPipelines, where S3 and the secret are set.
unfoldable pub augment_s3_config : String → S3LogsConfig → Blocks → List String × Blocks
unfolding is_audit_enabled is_enabled add_s3 min_severity_of set_exporter s3_key s3_exporter_for
    s3_pipeline
augment_s3_config hub_name s3 b0 =
    let b1 = when_enabled (is_audit_enabled s3.audit_logs) (add_s3 hub_name audit s3 none) b0 in
    let b2 =
      when_enabled (is_enabled s3.collector_logs)
        (λ b.
          add_s3 hub_name collector s3 (min_severity_of s3.collector_logs)
            (set_exporter (s3_key collector) (s3_exporter_for hub_name collector s3) b))
        b1 in
    let b3 =
      when_enabled (is_enabled s3.hub_logs) (add_s3 hub_name hub s3 (min_severity_of s3.hub_logs))
        b2 in
    let b4 =
      when_enabled (is_enabled s3.other_logs)
        (add_s3 hub_name other s3 (min_severity_of s3.other_logs)) b3 in
    (when_default (is_enabled s3.other_logs) (s3_pipeline other), b4)

unfoldable pub augment_s3 :
    String → Option S3LogsConfig → (secret : Option String) → Blocks → List String × Blocks
unfolding augment_s3_config
augment_s3 hub_name s3 none b = ([], b)
augment_s3 hub_name none (some secret) b = ([], b)
augment_s3 hub_name (some s3) (some secret) b = augment_s3_config hub_name s3 b

-- augmentConfigForOtlpConfigAndGetOtherLogstreamPipelines, with an endpoint.
unfoldable pub augment_otlp_config : OtlpLogsConfig → Blocks → List String × Blocks
unfolding is_audit_enabled is_enabled add_otlp min_severity_of set_exporter otlp_pipeline
augment_otlp_config otlp b =
    let b0 = set_exporter "otlp" (otlp_exporter otlp.endpoint) b in
    let b1 =
      when_enabled (is_audit_enabled otlp.audit_logs) (add_otlp audit none "batch/audit") b0 in
    let b2 =
      when_enabled (is_enabled otlp.collector_logs)
        (add_otlp collector (min_severity_of otlp.collector_logs) "") b1 in
    let b3 =
      when_enabled (is_enabled otlp.hub_logs) (add_otlp hub (min_severity_of otlp.hub_logs) "")
        b2 in
    let b4 =
      when_enabled (is_enabled otlp.other_logs)
        (add_otlp other (min_severity_of otlp.other_logs) "") b3 in
    (when_default (is_enabled otlp.other_logs) (otlp_pipeline other), b4)

unfoldable pub augment_otlp : Option OtlpLogsConfig → Blocks → List String × Blocks
unfolding augment_otlp_config
augment_otlp none b = ([], b)
augment_otlp (some otlp) b = if otlp.endpoint == "" then ([], b) else augment_otlp_config otlp b

-- getMdaiCollectorConfig, on the exporters and pipelines of the base configuration: the blocks, and
-- the default pipelines of the router, which are set if there are any.
unfoldable pub collector_config :
    String
    → LogsConfig
    → (secret : Option String) → Dict Exporter
    → Dict Pipeline
    → List String × Blocks
unfolding augment_otlp augment_s3
collector_config hub_name logs secret exporters pipelines =
    let (otlp_defaults, b1) =
      augment_otlp logs.otlp
        (record { exporters = exporters; pipelines = pipelines; table = [] }) in
    let (s3_defaults, b2) = augment_s3 hub_name logs.s3 secret b1 in
    (otlp_defaults ++ s3_defaults, b2)
