-- ===== src/Controller/Replay/Config.antt =====
-- The collector configuration of a replay: getReplayCollectorConfigYAML and
-- augmentCollectorConfigPerSpec of internal/controller/mdaireplay_adapter.go. The base configuration is
-- an argument; Base has the one of the program.
pub mod Base
pub mod Configured
pub mod Wired
use Prim.Native.String
use mdai_operator.Prelude.{String, [], ◌∷◌, Option, none, some, ◌==◌, if◌then◌else◌}
use mdai_operator.Builder.Config.{
  Value, str, partition, texts, text_map, items, block, config_block, Items, no_items, item,
  ConfigBlock, empty, entry, get, set, get_map, get_slice, in_map,
}
use mdai_operator.Api.{ReplaySpec, ReplayS3Configuration}

-- What a function that changes the configuration does: it panics, returns an error, or goes on.
pub data Augmented : Type 0 where
  panicked : Augmented
  augment_failed : String → Augmented
  augmented : ConfigBlock → Augmented

unfoldable pub or_panic : Option ConfigBlock → Augmented
or_panic none = panicked
or_panic (some c) = augmented c

unfoldable pub and_then : Augmented → (ConfigBlock → Augmented) → Augmented
and_then panicked next = panicked
and_then (augment_failed e) next = augment_failed e
and_then (augmented c) next = next c

-- append(actions, action)
unfoldable pub append_item : Items → Value → Items
append_item no_items v = item v no_items
append_item (item x xs) v = item x (append_item xs v)

-- MustMap, a change of the map, and Set, which stores it as a ConfigBlock.
unfoldable pub in_map_again :
    (key : String) → (ConfigBlock → Option ConfigBlock) → ConfigBlock → Option ConfigBlock
unfolding get_map set
in_map_again key change c = elim (get_map c key) [
  | none ↦ none
  | some inner ↦ elim (change inner) [
    | none ↦ none
    | some new ↦ some (set c key (config_block new))
  ]
]

unfoldable pub upsert_replay_id : String → Value
upsert_replay_id replay_id =
    text_map (("key", "replay_name") ∷ ("action", "upsert") ∷ ("value", replay_id) ∷ [])

unfoldable pub add_action : String → ConfigBlock → Option ConfigBlock
unfolding get_slice set append_item upsert_replay_id
add_action replay_id processor = elim (get_slice processor "actions") [
  | none ↦ none
  | some actions ↦
      some (set processor "actions" (items (append_item actions (upsert_replay_id replay_id))))
]

unfoldable pub add_replay_id : String → ConfigBlock → Option ConfigBlock
unfolding in_map add_action
add_replay_id replay_id c = in_map "processors" (in_map "attributes" (add_action replay_id)) c

unfoldable pub otlp_http_exporter : String → Value
otlp_http_exporter endpoint = block (entry "endpoint" (str endpoint) empty)

unfoldable pub replay_pipeline : Value
replay_pipeline = block (
    entry "receivers" (texts ("awss3" ∷ [])) (
      entry "processors" (texts ("attributes" ∷ []))
        (entry "exporters" (texts ("otlphttp" ∷ [])) empty)))

unfoldable pub pipeline_name : String → String
pipeline_name telemetry_type = String.◌++◌ telemetry_type "/replay"

unfoldable pub set_otlp_exporter : String → ConfigBlock → Option ConfigBlock
unfolding in_map_again set otlp_http_exporter
set_otlp_exporter endpoint c =
    in_map_again "exporters" (λ e. some (set e "otlphttp" (otlp_http_exporter endpoint))) c

-- The map of the pipelines is changed in place.
unfoldable pub add_replay_pipeline : String → ConfigBlock → Augmented
unfolding get_map set replay_pipeline pipeline_name
add_replay_pipeline telemetry_type c = elim (get_map c "service") [
  | none ↦ panicked
  | some service ↦ elim (get_map service "pipelines") [
    | none ↦ augment_failed "pipelines is not a map[string]any"
    | some pipelines ↦ augmented (
        set c "service" (
          block (
            set service "pipelines"
              (block (set pipelines (pipeline_name telemetry_type) replay_pipeline)))))
  ]
]

unfoldable pub add_exporter : String → String → ConfigBlock → Augmented
unfolding and_then or_panic set_otlp_exporter add_replay_pipeline
add_exporter endpoint telemetry_type c =
    if endpoint == ""
    then augmented c
    else and_then (or_panic (set_otlp_exporter endpoint c)) (λ c'.
      if telemetry_type == ""
      then augment_failed "telemetry type is missing in replay spec"
      else add_replay_pipeline telemetry_type c')

unfoldable pub add_destination : Option String → String → ConfigBlock → Augmented
unfolding add_exporter
add_destination none telemetry_type c = augmented c
add_destination (some endpoint) telemetry_type c = add_exporter endpoint telemetry_type c

unfoldable pub set_downloader : ReplayS3Configuration → ConfigBlock → ConfigBlock
unfolding set
set_downloader s3 d =
    let d1 = set (set d "file_prefix" (str s3.file_prefix)) "region" (str s3.s3_region) in
    let d2 = set (set d1 "s3_bucket" (str s3.s3_bucket)) "s3_prefix" (str s3.s3_path) in
    set d2 "s3_partition" (partition s3.s3_partition)

unfoldable pub set_receiver : ReplaySpec → ReplayS3Configuration → ConfigBlock → Option ConfigBlock
unfolding set in_map set_downloader
set_receiver spec s3 r =
    in_map "s3downloader" (λ d. some (set_downloader s3 d))
      (set (set r "starttime" (str spec.start_time)) "endtime" (str spec.end_time))

-- A source without S3 is dereferenced.
unfoldable pub add_source :
    ReplaySpec → Option ReplayS3Configuration → ConfigBlock → Option ConfigBlock
unfolding in_map set_receiver
add_source spec none c = none
add_source spec (some s3) c = in_map "receivers" (in_map "awss3" (set_receiver spec s3)) c

unfoldable pub set_attributes :
    (replay_id hub_name : String) → ReplaySpec → ConfigBlock → ConfigBlock
unfolding set
set_attributes replay_id hub_name spec a =
    set (set (set a "replay_id" (str replay_id)) "hub_name" (str hub_name)) "replay_status_variable"
      (str spec.status_variable_ref)

unfoldable pub set_agent :
    (replay_id hub_name : String) → ReplaySpec → ConfigBlock → Option ConfigBlock
unfolding in_map in_map_again set_attributes
set_agent replay_id hub_name spec opamp =
    in_map "agent_description"
      (in_map_again "non_identifying_attributes"
        (λ a. some (set_attributes replay_id hub_name spec a)))
      opamp

unfoldable pub set_server : ReplaySpec → ConfigBlock → Option ConfigBlock
unfolding in_map in_map_again set
set_server spec opamp =
    in_map_again "server" (in_map "http" (λ h. some (set h "endpoint" (str spec.opamp_endpoint))))
      opamp

unfoldable pub set_opamp :
    (replay_id hub_name : String) → ReplaySpec → ConfigBlock → Option ConfigBlock
unfolding set_agent set_server
set_opamp replay_id hub_name spec opamp = elim (set_agent replay_id hub_name spec opamp) [
  | none ↦ none
  | some opamp' ↦ set_server spec opamp'
]

unfoldable pub add_opamp :
    (replay_id hub_name : String) → ReplaySpec → ConfigBlock → Option ConfigBlock
unfolding in_map set_opamp
add_opamp replay_id hub_name spec c =
    in_map "extensions" (in_map "opamp" (set_opamp replay_id hub_name spec)) c

unfoldable pub augment_collector_config_per_spec :
    (replay_id hub_name : String) → ConfigBlock → ReplaySpec → Augmented
unfolding and_then or_panic add_replay_id add_destination add_source add_opamp
augment_collector_config_per_spec replay_id hub_name config spec =
    and_then (or_panic (add_replay_id replay_id config)) (λ c.
      and_then (add_destination spec.otlp_http_endpoint spec.telemetry_type c) (λ c'.
        and_then (or_panic (add_source spec spec.source.s3 c'))
          (λ c''. or_panic (add_opamp replay_id hub_name spec c''))))

-- The answer of yaml.Unmarshal.
pub data Parsed : Type 0 where
  parsed : ConfigBlock → Parsed
  not_parsed : String → Parsed

-- What getReplayCollectorConfigYAML returns, before the configuration is encoded.
unfoldable pub get_replay_collector_config :
    (replay_id hub_name : String) → Parsed → ReplaySpec → Augmented
unfolding augment_collector_config_per_spec
get_replay_collector_config replay_id hub_name (not_parsed e) spec =
    augment_failed (String.◌++◌ "unmarshal base collector config: " e)
get_replay_collector_config replay_id hub_name (parsed config) spec =
    elim (augment_collector_config_per_spec replay_id hub_name config spec) [
      | panicked ↦ panicked
      | augment_failed e ↦
          augment_failed (String.◌++◌ "failed to build replay config with error: " e)
      | augmented c ↦ augmented c
    ]
