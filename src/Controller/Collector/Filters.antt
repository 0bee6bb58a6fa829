-- ===== src/Controller/Collector/Filters.antt =====
-- The severities that the webhook of internal/webhook/v1/mdaicollector_webhook.go lets pass have a
-- filter in the collector configuration.
use Prim.Native.String
use mdai_operator.Prelude.{◌≡◌, String, Option, none, some, List, [], ◌∷◌}
use mdai_operator.Api.{S3LogsConfig, OtlpLogsConfig, LogstreamConfig, AwsConfig}
use mdai_operator.Controller.Collector.{filter_of, min_severity_of}

-- The filter of a severity by its name; of the severities, these texts are the API's.
unfoldable pub filters_named : Option String → List String
filters_named none = []
filters_named (some severity) = String.◌++◌ "filter/severity_min_" severity ∷ []

-- A severity that is set gives exactly its own filter.
abbrev pub Filtered : Option LogstreamConfig → Type 0
Filtered o = filter_of (min_severity_of o) ≡ filters_named (min_severity_of o)

abbrev pub FilteredS3 : Option S3LogsConfig → Type 0
FilteredS3 none = Unit
FilteredS3 (some s3) = Filtered s3.collector_logs × Filtered s3.hub_logs × Filtered s3.other_logs

abbrev pub FilteredOtlp : Option OtlpLogsConfig → Type 0
FilteredOtlp none = Unit
FilteredOtlp (some otlp) =
    Filtered otlp.collector_logs × Filtered otlp.hub_logs × Filtered otlp.other_logs

-- With an S3 configuration the secret is there.
abbrev pub HasSecret : Option S3LogsConfig → Option AwsConfig → Type 0
HasSecret none aws = Unit
HasSecret (some s3) none = ⊥
HasSecret (some s3) (some aws) = (secret : String) × (aws.aws_access_key_secret ≡ some secret)
