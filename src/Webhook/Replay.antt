-- ===== src/Webhook/Replay.antt =====
-- internal/webhook/v1/mdaireplay_webhook.go
use mdai_operator.Prelude.{
  String, List, [], ◌∷◌, Option, none, some, Bool, true, false, not, ◌||◌, ◌==◌, member,
  if◌then◌else◌,
}
use mdai_operator.Api.{
  ReplaySpec, ReplaySourceConfiguration, ReplayAwsConfig, ReplayS3Configuration,
}
use mdai_operator.Webhook.External.{Parsers}
use mdai_operator.Webhook.Verdicts.{Verdict}

-- `other_mode` stands for any other text of the type `ValidatorMode`.
pub data ValidatorMode : Type 0 where
  replay_custom_resource hub_automation other_mode : ValidatorMode

pub data ReplayError : Type 0 where
  invalid_mode hub_name_empty start_time_format end_time_format : ReplayError
  telemetry_type_invalid status_ref_empty opamp_endpoint_empty : ReplayError
  aws_config_missing access_key_missing partition_invalid : ReplayError

abbrev pub time_str_layouts : List String
time_str_layouts = "2006-01-02T15:04:05Z07:00" ∷ "2006-01-02 15:04" ∷ "2006-01-02" ∷ []

abbrev pub valid_telemetry_types : List String
valid_telemetry_types = "logs" ∷ "metrics" ∷ "traces" ∷ []

abbrev pub valid_partitions : List String
valid_partitions = "minute" ∷ "hour" ∷ []

unfoldable pub is_valid_mode : ValidatorMode → Bool
is_valid_mode other_mode = false
is_valid_mode _ = true

unfoldable pub is_hub_automation : ValidatorMode → Bool
is_hub_automation hub_automation = true
is_hub_automation _ = false

module _ (parsers : Parsers) where
  open parsers use {time_parses}

  -- Whether one of the layouts parses the text.
  parses_with : List String → String → Bool
  parses_with [] value = false
  parses_with (layout ∷ layouts) value = time_parses layout value || parses_with layouts value

  validate_time_str : String → Bool
  unfolding parses_with
  validate_time_str value = parses_with time_str_layouts value

  -- The checks that the hub's automations leave out.
  unfoldable pub validate_custom_resource : ReplaySpec → Option ReplayError
  unfolding validate_time_str
  validate_custom_resource spec =
      if spec.hub_name == ""
      then some hub_name_empty
      else if not (validate_time_str spec.start_time)
      then some start_time_format
      else if not (validate_time_str spec.end_time)
      then some end_time_format
      else if spec.telemetry_type == "" || not (member spec.telemetry_type valid_telemetry_types)
      then some telemetry_type_invalid
      else none

  validate_s3 : ReplayS3Configuration → Option ReplayAwsConfig → Option ReplayError
  validate_s3 s3 none = some aws_config_missing
  validate_s3 s3 (some aws) = elim aws.aws_access_key_secret [
    | none ↦ some access_key_missing
    | some _ ↦
        if s3.s3_partition == "" || not (member s3.s3_partition valid_partitions)
        then some partition_invalid
        else none
  ]

  validate_source : ReplaySourceConfiguration → Option ReplayError
  unfolding validate_s3
  validate_source source = elim source.s3 [
    | none ↦ none
    | some s3 ↦ validate_s3 s3 source.aws_config
  ]

  -- The checks of every mode.
  validate_common : ReplaySpec → Option ReplayError
  unfolding validate_source
  validate_common spec =
      if spec.status_variable_ref == ""
      then some status_ref_empty
      else if spec.opamp_endpoint == ""
      then some opamp_endpoint_empty
      else validate_source spec.source

  unfoldable pub validate_replay_spec : ReplaySpec → ValidatorMode → Verdict ReplayError
  unfolding validate_common validate_custom_resource is_valid_mode is_hub_automation member
  validate_replay_spec spec mode = record {
    warnings = [];
    error =
        if not (is_valid_mode mode)
        then some invalid_mode
        else if is_hub_automation mode
        then validate_common spec
        else elim (validate_custom_resource spec) [ some e ↦ some e | none ↦ validate_common spec ];
  }

  -- `ValidateCreate` and `ValidateUpdate`.
  unfoldable pub validate : ReplaySpec → Verdict ReplayError
  unfolding validate_replay_spec
  validate spec = validate_replay_spec spec replay_custom_resource
