-- ===== src/Examples/Workloads.antt =====
-- The theorems on Deployments, Services and tolerations at concrete objects.
use mdai_operator.Prelude.{◌≡◌, refl, String, [], ◌∷◌, some, none, true, false, all, Option, Dict}
use mdai_operator.Builder.Maps.{find}
use mdai_operator.Builder.Tolerations.{Toleration}
use mdai_operator.Builder.Deployments.{Deployment}
use mdai_operator.Builder.Services.{Service}
use mdai_operator.Controller.ConfigMaps.{
  ConfigMap, ConfigMapApi, found, ok, collector_config_map, yaml_config_map, then_try,
  create_or_update, after_lookup, put_yaml, or_error, with_sha,
}
use mdai_operator.Controller.ConfigMaps.Stored.{stored-annotated}
use mdai_operator.Controller.Workloads.Collector.{deploy_collector}
use mdai_operator.Controller.Workloads.All.{
  Owner, dal_named, Settings, new_deployment, new_service, deploy, serve, Reachable, start,
  deployed, served,
}
use mdai_operator.Controller.Workloads.Stable.{Selects, reachable-Selects}
use mdai_operator.Controller.Workloads.Targets.{reaches, ports_of, serve-reaches}

abbrev on_spot : Toleration
on_spot = record { key = "spot"; operator = "Exists"; value = ""; effect = "NoSchedule" }

abbrev settings : Settings
settings = record {
  collector = record {
    name = "logs";
    config_map_name = "logs-mdai-collector-config";
    env_config_name = "logs-mdai-collector-env";
    service_account_name = "logs-mdai-collector-sa";
    aws_access_key_secret = some "aws";
    hash = "abc";
    image = "mdai-collector:0.1.6";
    tolerations = on_spot ∷ [];
    replicas = 2;
  };
  observer = record {
    name = "watch";
    hash = "abc";
    image = "observer-collector:0.1";
    replicas = 1;
    resources = none;
    tolerations = none;
  };
  replay = record {
    name = "again";
    hub_name = "hub";
    image = "";
    aws_config = some (record { aws_access_key_secret = some "aws" });
    hash = "abc";
  };
  dal = record {
    name = "dal";
    granularity = "hourly";
    use_payload_ts = true;
    marshaler = "proto";
    bucket = "logs";
    prefix = "";
    region = "us-east-1";
    credentials = record { secret_name = "aws"; access_key_field = "id"; secret_key_field = "key" };
    image_spec = none;
  };
  dal_image = record { repository = "mdai-dal"; tag = "0.0.1"; pull_policy = "" };
}

abbrev owner : Owner
owner = dal_named "dal"

abbrev stored : Deployment
stored = record (deploy owner settings (new_deployment owner)) { created = true }

abbrev stored_service : Service
stored_service = record (serve owner settings (new_service owner)) { created = true }

steps : Reachable owner stored stored_service
steps =
    served stored (new_service owner) settings
      (deployed (new_deployment owner) (new_service owner) settings start)

reachable-Selects_example :
    Selects owner stored.selector stored.template_labels
    × (Selects owner stored_service.selector stored.template_labels
        × ((st : Settings) (k : String)
            → find k (deploy owner st stored).selector ≡ find k stored.selector))
reachable-Selects_example = reachable-Selects steps refl refl

serve-reaches_example :
    all
      (reaches (ports_of (deploy owner settings (new_deployment owner)).containers))
      (serve owner settings (new_service owner)).ports
    ≡ true
serve-reaches_example = serve-reaches owner settings (new_deployment owner) (new_service owner)

abbrev new_entries : Option (Dict String)
new_entries = some (("collector.yaml", "new") ∷ [])

abbrev held : ConfigMap
held = record {
  name = "logs-mdai-collector-config";
  namespace = "mdai";
  labels = none;
  owner = some "logs";
  entries = some (("collector.yaml", "old") ∷ []);
}

-- The ConfigMap is there with another configuration.
abbrev config_map_api : ConfigMapApi
config_map_api = record {
  on_get = λ name namespace. found held;
  on_create = λ m. none;
  on_update = λ m. none;
  set_owner = λ m. ok m;
  deep_equal = λ m n. false;
  sha = λ m. ok "abc";
}

stored-annotated_example :
    (find "collector.yaml" new_entries ≡ some "new")
    × ((config_map_api.sha (record held { entries = new_entries }) ≡ ok "abc")
        × (find "mdai-collector-config/sha256"
              (deploy_collector
                (record settings.collector { hash = "abc" })
                (new_deployment owner)).template_annotations
            ≡ some "abc"))
unfolding collector_config_map yaml_config_map then_try create_or_update after_lookup put_yaml
    or_error with_sha
stored-annotated_example =
    stored-annotated config_map_api "new" "logs" "mdai" settings.collector (new_deployment owner)
      (record held { entries = new_entries }) "abc" refl
