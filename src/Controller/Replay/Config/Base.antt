-- ===== src/Controller/Replay/Config/Base.antt =====
-- internal/controller/config/replay_collector_base_config.yaml, as it is unmarshalled.
use mdai_operator.Prelude.{String, true}
use mdai_operator.Builder.Config.{
  Value, flag, whole, str, items, block, no_items, item, ConfigBlock, empty, entry,
}

-- A map with one entry.
abbrev pub only : String → Value → Value
only key v = block (entry key v empty)

abbrev pub notifications : Value
notifications = only "opampextension" (str "opamp")

abbrev pub telemetry : Value
telemetry = only "metrics" (
    only "readers" (
      items (
        item
          (only "pull" (
            only "exporter" (
              only "prometheus"
                (block (entry "host" (str "0.0.0.0") (entry "port" (whole 8888) empty))))))
          no_items)))

-- The part `service` with its pipelines.
abbrev pub service_block : ConfigBlock → Value
service_block pipelines = block (
    entry "telemetry" telemetry (
      entry "extensions" (items (item (str "opamp") no_items))
        (entry "pipelines" (block pipelines) empty)))

abbrev pub awss3 : Value
awss3 = block (entry "notifications" notifications (entry "s3downloader" (block empty) empty))

abbrev pub agent : Value
agent = block (
    entry "include_resource_attributes" (flag true)
      (entry "non_identifying_attributes" (block empty) empty))

abbrev pub tls : Value
tls = only "insecure" (flag true)

abbrev pub opamp_extension : Value
opamp_extension =
    block (entry "agent_description" agent (entry "server" (only "http" (only "tls" tls)) empty))

abbrev pub base_replay_collector : ConfigBlock
base_replay_collector = entry "receivers" (only "awss3" awss3) (
    entry "processors" (only "attributes" (only "actions" (items no_items))) (
      entry "exporters" (block empty) (
        entry "extensions" (only "opamp" opamp_extension)
          (entry "service" (service_block empty) empty))))
