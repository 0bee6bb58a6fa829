-- ===== src/Api/Replay.antt =====
-- api/v1/mdaireplay_types.go
use mdai_operator.Prelude.{String, Option, Bool}

pub record ReplayAwsConfig : Type 0 where
  pub aws_access_key_secret : Option String

pub record ReplayS3Configuration : Type 0 where
  pub s3_region : String
  pub s3_bucket : String
  pub file_prefix : String
  pub s3_path : String
  pub s3_partition : String

pub record ReplaySourceConfiguration : Type 0 where
  pub aws_config : Option ReplayAwsConfig
  pub s3 : Option ReplayS3Configuration

-- The destination is its OTLP endpoint, if one is given.
pub record ReplaySpec : Type 0 where
  pub start_time : String
  pub end_time : String
  pub telemetry_type : String
  pub hub_name : String
  pub status_variable_ref : String
  pub opamp_endpoint : String
  pub ignore_sending_queue : Bool
  pub source : ReplaySourceConfiguration
  pub otlp_http_endpoint : Option String
  pub image : String
