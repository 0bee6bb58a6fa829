-- ===== src/Examples/Replays.antt =====
-- The theorems on replays and on the status of a DAL at concrete resources.
use mdai_operator.Prelude.{ℕ, ◌≡◌, refl, [], ◌∷◌, some, none, true, false, ltb, member}
use mdai_operator.Api.{ReplaySpec, ReplayS3Configuration}
use mdai_operator.Webhook.Replay.{
  validate, validate_replay_spec, validate_custom_resource, is_valid_mode, is_hub_automation,
}
use mdai_operator.Controller.Operation.{requeue_after}
use mdai_operator.Controller.Lifecycle.{work, requeue_time}
use mdai_operator.Controller.Replay.{queue_metric, replay_ensure_deletion_processed}
use mdai_operator.Controller.Replay.Config.{augmented, augment_collector_config_per_spec}
use mdai_operator.Controller.Replay.Config.Base.{base_replay_collector}
use mdai_operator.Controller.Replay.Config.Configured.{for_endpoint, accepted-configured}
use mdai_operator.Controller.Replay.Config.Wired.{is_wired, accepted-wired}
use mdai_operator.Controller.Replay.Metrics.{
  families, Response, response, reading, is_drained, reading_error, sending_queue, undrained-held,
}
use mdai_operator.Controller.Adapters.DalStatus.{
  DalApi, DalResource, DalState, fetched, ReportedAs, dal_status_set_to_done, with_dal,
  with_deployment, with_service, store_done, after_update, done-FetchedAs,
}
use mdai_operator.Examples.{parsers, replay, deleted_replay}

abbrev bucket : ReplayS3Configuration
bucket = record {
  s3_region = "us-east-1";
  s3_bucket = "logs";
  file_prefix = "log-";
  s3_path = "hub";
  s3_partition = "hour";
}

abbrev again : ReplaySpec
again = record {
  start_time = "2024-01-01";
  end_time = "2024-01-02";
  telemetry_type = "logs";
  hub_name = "hub";
  status_variable_ref = "status";
  opamp_endpoint = "http://opamp:4320";
  ignore_sending_queue = false;
  source = record {
    aws_config = some (record { aws_access_key_secret = some "aws" });
    s3 = some bucket;
  };
  otlp_http_endpoint = some "http://gateway:4318";
  image = "";
}

again-accepted : (validate parsers again).error ≡ none
unfolding validate validate_replay_spec validate_custom_resource is_valid_mode is_hub_automation
    member
again-accepted = refl

accepted-configured_example :
    augment_collector_config_per_spec "again" "hub" base_replay_collector again
    ≡ augmented (for_endpoint "again" "hub" again bucket (some "http://gateway:4318"))
accepted-configured_example = accepted-configured "again" "hub" again parsers again-accepted

accepted-wired_example :
    is_wired (for_endpoint "again" "hub" again bucket (some "http://gateway:4318")) ≡ true
accepted-wired_example =
    accepted-wired "again" "hub" again parsers
      (for_endpoint "again" "hub" again bucket (some "http://gateway:4318")) again-accepted
      accepted-configured_example

-- One exporter still holds three items.
abbrev busy : Response ℕ
busy = response (
    families (("otelcol_exporter_queue_size", record { gauge = some 3; counter = none } ∷ []) ∷ []))

undrained-held_example :
    replay_ensure_deletion_processed
      (reading (λ n. ltb 0 n) "hub" (λ sent url. busy) replay.api)
      false
      deleted_replay
    ≡ (
      requeue_after requeue_time none,
      record deleted_replay { sent = work (queue_metric "hub" "mdai") ∷ [] },
    )
unfolding member is_drained reading_error sending_queue
undrained-held_example =
    undrained-held (λ n. ltb 0 n) "hub" (λ sent url. busy) replay.api deleted_replay refl refl refl

abbrev dal : DalResource
dal = record {
  name = "dal";
  namespace = "mdai";
  generation = 2;
  status = record {
    conditions = [];
    observed_generation = 1;
    replicas = 0;
    ready_replicas = 0;
    endpoint = "";
    last_synced_time = 0;
  };
}

abbrev dal_api : DalApi
dal_api = record {
  on_dal = λ name namespace. fetched dal;
  on_deployment = λ name namespace. fetched (record { replicas = 1; ready_replicas = 1 });
  on_service = λ name namespace. fetched (record { name = name; namespace = namespace });
  on_status_update = λ r. none;
  set_condition = λ c cs. (c ∷ cs, true);
  now = 7;
}

abbrev dal_state : DalState
dal_state = record { resource = dal; stored = [] }

done-FetchedAs_example : ReportedAs dal_api dal [] (dal_status_set_to_done dal_api dal_state).1
unfolding dal_status_set_to_done with_dal with_deployment with_service store_done after_update
done-FetchedAs_example = done-FetchedAs dal_api dal_state refl
