-- ===== src/Webhook/Collector.antt =====
-- internal/webhook/v1/mdaicollector_webhook.go
use mdai_operator.Prelude.{
  ℕ, String, List, [], ◌∷◌, ◌++◌, Option, none, some, Bool, false, ◌&&◌, ◌||◌, ◌==◌, member, codes,
  length, ltb, leb, eqb, if◌then◌else◌,
}
use mdai_operator.Api.{
  MdaiCollector, LogsConfig, S3LogsConfig, OtlpLogsConfig, LogstreamConfig, AuditLogstreamConfig,
  AwsConfig,
}
use mdai_operator.Webhook.Verdicts.{Verdict}

pub data CollectorError : Type 0 where
  name_invalid aws_config_missing bucket_missing region_missing secret_missing : CollectorError
  endpoint_missing : CollectorError
  invalid_severity : (logstream severity : String) → CollectorError

abbrev pub valid_severity_levels : List String
valid_severity_levels = "debug" ∷ "info" ∷ "warn" ∷ "error" ∷ []

name_char : ℕ → Bool
name_char c = (leb b'a' c && leb c b'z') || (leb b'0' c && leb c b'9')

-- `[a-z0-9-]*[a-z0-9]` after a first character that matched.
name_rest : ℕ → List ℕ → Bool
unfolding name_char
name_rest c [] = name_char c
name_rest c (d ∷ s) = (name_char c || eqb c b'-') && name_rest d s

-- validNameRegex
matches_name : List ℕ → Bool
unfolding name_rest name_char
matches_name [] = false
matches_name (c ∷ s) = name_char c && name_rest c s

unfoldable pub validate_name : List ℕ → Bool
unfolding matches_name
validate_name name =
    if ltb (length name) 1 || ltb 32 (length name) then false else matches_name name

is_audit_disabled : Option AuditLogstreamConfig → Bool
is_audit_disabled none = false
is_audit_disabled (some a) = a.disabled

-- The severity that is set and not one of the levels.
unfoldable pub bad_severity : Option LogstreamConfig → Option String
unfolding member
bad_severity none = none
bad_severity (some config) = elim config.min_severity [
  | none ↦ none
  | some severity ↦ if member severity valid_severity_levels then none else some severity
]

-- The checks of the three streams, and what follows them.
unfoldable pub severity_error :
    (collector_logs hub_logs other_logs : Option LogstreamConfig)
    → Option CollectorError
    → Option CollectorError
unfolding bad_severity
severity_error collector_logs hub_logs other_logs next = elim (bad_severity collector_logs) [
  | some severity ↦ some (invalid_severity "collector logs" severity)
  | none ↦ elim (bad_severity hub_logs) [
    | some severity ↦ some (invalid_severity "hub logs" severity)
    | none ↦ elim (bad_severity other_logs) [
      | some severity ↦ some (invalid_severity "other logs" severity)
      | none ↦ next
    ]
  ]
]

unfoldable pub secret_error : Option String → Option CollectorError
secret_error none = some secret_missing
secret_error (some secret) = none

-- With an AWS configuration.
unfoldable pub validate_s3_config : S3LogsConfig → AwsConfig → Verdict CollectorError
unfolding is_audit_disabled severity_error secret_error
validate_s3_config s3 aws =
    if s3.s3_bucket == ""
    then record { warnings = []; error = some bucket_missing }
    else if s3.s3_region == ""
    then record { warnings = []; error = some region_missing }
    else record {
      warnings =
          if is_audit_disabled s3.audit_logs
          then "s3 audit logs disabled, hub audit events will not be recorded to s3!" ∷ []
          else [];
      error =
          severity_error s3.collector_logs s3.hub_logs s3.other_logs
            (secret_error aws.aws_access_key_secret);
    }

unfoldable pub validate_s3_logs_config :
    Option S3LogsConfig → Option AwsConfig → Verdict CollectorError
unfolding validate_s3_config
validate_s3_logs_config none aws = record { warnings = []; error = none }
validate_s3_logs_config (some s3) none = record { warnings = []; error = some aws_config_missing }
validate_s3_logs_config (some s3) (some aws) = validate_s3_config s3 aws

unfoldable pub validate_otlp_logs_config : Option OtlpLogsConfig → Verdict CollectorError
unfolding is_audit_disabled severity_error
validate_otlp_logs_config none = record { warnings = []; error = none }
validate_otlp_logs_config (some otlp) =
    if otlp.endpoint == ""
    then record { warnings = []; error = some endpoint_missing }
    else record {
      warnings =
          if is_audit_disabled otlp.audit_logs
          then "OTLP audit logs disabled, hub audit events will not be recorded to OTLP!" ∷ []
          else [];
      error = severity_error otlp.collector_logs otlp.hub_logs otlp.other_logs none;
    }

-- One validator after the other, up to an error.
unfoldable pub then_check : Verdict CollectorError → Verdict CollectorError → Verdict CollectorError
then_check first second = record {
  warnings = elim first.error [
    | some e ↦ first.warnings
    | none ↦ first.warnings ++ second.warnings
  ];
  error = elim first.error [ some e ↦ some e | none ↦ second.error ];
}

unfoldable pub validate_logs : Option LogsConfig → Option AwsConfig → Verdict CollectorError
unfolding validate_s3_logs_config validate_otlp_logs_config then_check
validate_logs none aws = record {
  warnings = "logs configuration not present in MDAI Collector spec" ∷ [];
  error = none;
}
validate_logs (some logs) aws =
    then_check (validate_s3_logs_config logs.s3 aws) (validate_otlp_logs_config logs.otlp)

-- `Validate`, which `ValidateCreate`, `ValidateUpdate` and `ValidateDelete` call.
unfoldable pub validate_collector : MdaiCollector → Verdict CollectorError
unfolding validate_name validate_logs
validate_collector collector =
    if validate_name (codes collector.name)
    then validate_logs collector.logs collector.aws_config
    else record { warnings = []; error = some name_invalid }
