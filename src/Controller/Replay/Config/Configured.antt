-- ===== src/Controller/Replay/Config/Configured.antt =====
-- The configuration that augmentCollectorConfigPerSpec of internal/controller/mdaireplay_adapter.go
-- makes of the base configuration, for the replays that the webhook of
-- internal/webhook/v1/mdaireplay_webhook.go accepts.
use mdai_operator.Prelude.{
  String, Option, none, some, true, false, ◌==◌, ◌≡◌, refl, if◌then◌else◌, arith,
}
use mdai_operator.Builder.Config.{
  Value, flag, str, partition, items, block, config_block, no_items, item, ConfigBlock, empty,
  entry, get, set, get_map, get_slice, in_map, get_as, as_map, as_slice,
}
use mdai_operator.Api.{ReplaySpec, ReplayS3Configuration}
use mdai_operator.Webhook.{Parsers}
use mdai_operator.Webhook.Replay.{
  validate, validate_replay_spec, validate_custom_resource, is_valid_mode, is_hub_automation,
}
use mdai_operator.Controller.Replay.Config.{
  Augmented, panicked, augmented, otlp_http_exporter, replay_pipeline, pipeline_name,
  upsert_replay_id, augment_collector_config_per_spec, add_destination, add_exporter, and_then,
  or_panic, add_replay_id, add_source, add_opamp, add_action, append_item, set_otlp_exporter,
  add_replay_pipeline, in_map_again, set_receiver, set_downloader, set_attributes, set_agent,
  set_server, set_opamp,
}
use mdai_operator.Controller.Replay.Config.Base.{
  only, notifications, service_block, tls, base_replay_collector,
}

module _ (replay_id hub_name : String) (spec : ReplaySpec) where
  abbrev pub downloader : ReplayS3Configuration → Value
  downloader s3 = block (
      entry "file_prefix" (str s3.file_prefix) (
        entry "region" (str s3.s3_region) (
          entry "s3_bucket" (str s3.s3_bucket) (
            entry "s3_prefix" (str s3.s3_path)
              (entry "s3_partition" (partition s3.s3_partition) empty)))))

  abbrev pub receivers : ReplayS3Configuration → Value
  receivers s3 = only "awss3" (
      block (
        entry "notifications" notifications (
          entry "s3downloader" (downloader s3)
            (entry "starttime" (str spec.start_time) (entry "endtime" (str spec.end_time) empty)))))

  abbrev pub processors : Value
  processors =
      only "attributes" (only "actions" (items (item (upsert_replay_id replay_id) no_items)))

  abbrev pub attributes : Value
  attributes = config_block (
      entry "replay_id" (str replay_id) (
        entry "hub_name" (str hub_name)
          (entry "replay_status_variable" (str spec.status_variable_ref) empty)))

  abbrev pub extensions : Value
  extensions = only "opamp" (
      block (
        entry "agent_description"
          (block (
            entry "include_resource_attributes" (flag true)
              (entry "non_identifying_attributes" attributes empty)))
          (entry "server"
            (config_block (
              entry "http"
                (block (entry "tls" tls (entry "endpoint" (str spec.opamp_endpoint) empty))) empty))
            empty)))

  -- The configuration with these exporters and pipelines.
  abbrev pub replay_config :
      (exporters : Value) → (pipelines : ConfigBlock) → ReplayS3Configuration → ConfigBlock
  replay_config exporters pipelines s3 = entry "receivers" (receivers s3) (
      entry "processors" processors (
        entry "exporters" exporters
          (entry "extensions" extensions (entry "service" (service_block pipelines) empty))))

  -- With the exporter and the pipeline if the destination has an endpoint.
  abbrev pub for_endpoint : ReplayS3Configuration → Option String → ConfigBlock
  for_endpoint s3 none = replay_config (block empty) empty s3
  for_endpoint s3 (some endpoint) =
      if endpoint == ""
      then replay_config (block empty) empty s3
      else replay_config (config_block (entry "otlphttp" (otlp_http_exporter endpoint) empty))
          (entry (pipeline_name spec.telemetry_type) replay_pipeline empty) s3

  abbrev pub for_source : Option ReplayS3Configuration → Option String → Augmented
  for_source none endpoint = panicked
  for_source (some s3) endpoint = augmented (for_endpoint s3 endpoint)

  -- The steps after the processor is set.
  abbrev finished : Option ReplayS3Configuration → ConfigBlock → Augmented
  finished s3 c =
      and_then (or_panic (add_source spec s3 c))
        (λ c'. or_panic (add_opamp replay_id hub_name spec c'))

  from_base-for_source :
      (source : Option ReplayS3Configuration) (endpoint : Option String)
      → (spec.telemetry_type == "") ≡ false
      → and_then
          (or_panic (add_replay_id replay_id base_replay_collector))
          (λ c. and_then (add_destination endpoint spec.telemetry_type c) (finished source))
        ≡ for_source source endpoint
  unfolding and_then or_panic add_replay_id add_destination add_source add_opamp get set get_map
      get_slice in_map add_action append_item set_otlp_exporter add_replay_pipeline in_map_again
      set_receiver set_downloader set_attributes set_agent set_server set_opamp get_as as_map
      as_slice add_exporter
  from_base-for_source none none h = refl
  from_base-for_source (some s3) none h = refl
  from_base-for_source none (some endpoint) h = ground arith
  from_base-for_source (some s3) (some endpoint) h = ground arith

  module _ (parsers : Parsers) where
    has_telemetry_type : (validate parsers spec).error ≡ none → (spec.telemetry_type == "") ≡ false
    unfolding validate validate_replay_spec validate_custom_resource is_valid_mode is_hub_automation
    has_telemetry_type h = ground arith

    -- For a replay that the webhook accepts: without an S3 source the adapter panics, and with one it
    -- makes of the base configuration exactly the configuration that reads the S3 source from the
    -- start to the end time, marks what it reads with the name of the replay and reports to the OpAMP
    -- endpoint, with one pipeline of the replay's telemetry type to the OTLP endpoint if the
    -- destination has one, and no pipeline if not.
    pub accepted-configured :
        (validate parsers spec).error ≡ none
        → augment_collector_config_per_spec replay_id hub_name base_replay_collector spec
          ≡ for_source spec.source.s3 spec.otlp_http_endpoint
    unfolding augment_collector_config_per_spec
    accepted-configured h =
        from_base-for_source spec.source.s3 spec.otlp_http_endpoint (has_telemetry_type h)
