-- ===== src/Controller/ConfigMaps.antt =====
-- The ConfigMaps of the adapters: createOrUpdateMdaiCollectorConfigMap and
-- createOrUpdateMdaiCollectorEnvVarConfigMap of internal/controller/mdaicollector_adapter.go,
-- createOrUpdateObserverResourceConfigMap of internal/controller/observer.go,
-- createOrUpdateReplayerConfigMap of internal/controller/mdaireplay_adapter.go, createOrUpdateConfigMap
-- of internal/controller/mdaidal_adapter.go, and getConfigMapSHA of internal/controller/hub_adapter.go.
pub mod Stored
use mdai_operator.Prelude.{
  String, List, [], ◌∷◌, Option, none, some, Bool, Dict, insert, if◌then◌else◌,
}
use mdai_operator.Builder.Maps.{set_entry}
use mdai_operator.Controller.Lifecycle.{ApiError}
use mdai_operator.Controller.Adapters.{
  scoped_collector_name, scoped_observer_name, replayer_name, dal_config_map_name,
}
use mdai_operator.Controller.Workloads.Shared.{
  managed_by_key, managed_by_value, app_name_key, app_instance_key, hub_component_label,
  hub_name_label,
}
use mdai_operator.Controller.Workloads.Dal.{MdaiDal, dal_config_data}

-- A ConfigMap with its controller; a nil map is `none`.
pub record ConfigMap : Type 0 where
  pub name : String
  pub namespace : String
  pub labels : Option (Dict String)
  pub owner : Option String
  pub entries : Option (Dict String)

-- A result, an error, or a panic.
pub data Try (A : Type 0) : Type 0 where
  ok : A → Try A
  err : ApiError → Try A
  crash : Try A

unfoldable pub then_try : {A B : Type 0} → Try A → (A → Try B) → Try B
then_try (ok x) next = next x
then_try (err e) next = err e
then_try crash next = crash

-- The answer of the Get in CreateOrUpdate.
pub data Lookup : Type 0 where
  found : ConfigMap → Lookup
  missing : Lookup
  lookup_failed : ApiError → Lookup

-- The API server's answers, SetControllerReference, the comparison of CreateOrUpdate, and the JSON
-- encoding with SHA-256.
pub record ConfigMapApi : Type 0 where
  pub on_get : (name namespace : String) → Lookup
  pub on_create : ConfigMap → Option ApiError
  pub on_update : ConfigMap → Option ApiError
  pub set_owner : ConfigMap → Try ConfigMap
  pub deep_equal : ConfigMap → ConfigMap → Bool
  pub sha : ConfigMap → Try String

unfoldable pub or_error : Option ApiError → ConfigMap → Try ConfigMap
or_error none m = ok m
or_error (some e) m = err e

-- `desiredConfigMap.Data["collector.yaml"] = collectorYAML` panics on a nil map.
unfoldable pub put_yaml : (yaml : String) → ConfigMap → Try ConfigMap
unfolding insert
put_yaml yaml m = elim m.entries [
  | none ↦ crash
  | some d ↦ ok (record m { entries = some (insert "collector.yaml" yaml d) })
]

unfoldable pub component_labels : (app component hub : String) → Dict String
component_labels app component hub =
    ("app", app)
    ∷ (managed_by_key, managed_by_value)
    ∷ (hub_component_label, component)
    ∷ (hub_name_label, hub)
    ∷ []

module _ (api : ConfigMapApi) where
  open api use {on_get, on_create, on_update, set_owner, deep_equal, sha}

  -- CreateOrUpdate: the object after it, which is stored. What is there takes the place of `desired`
  -- before it is changed.
  unfoldable pub after_lookup : (ConfigMap → Try ConfigMap) → ConfigMap → Lookup → Try ConfigMap
  unfolding then_try or_error
  after_lookup mutate desired missing = then_try (mutate desired) (λ m. or_error (on_create m) m)
  after_lookup mutate desired (lookup_failed e) = err e
  after_lookup mutate desired (found old) =
      then_try (mutate old) (λ m. if deep_equal old m then ok m else or_error (on_update m) m)

  unfoldable pub create_or_update : (ConfigMap → Try ConfigMap) → ConfigMap → Try ConfigMap
  unfolding after_lookup
  create_or_update mutate desired =
      after_lookup mutate desired (on_get desired.name desired.namespace)

  -- The ConfigMap with its hash.
  unfoldable pub with_sha : Try ConfigMap → Try (ConfigMap × String)
  unfolding then_try
  with_sha r = then_try r (λ m. then_try (sha m) (λ h. ok (m, h)))

  -- The ConfigMap of a collector's configuration: the common part of three adapters.
  unfoldable pub yaml_config_map :
      (name namespace : String) → Dict String → Try String → Try (ConfigMap × String)
  unfolding then_try create_or_update put_yaml with_sha
  yaml_config_map name namespace labels config = then_try config (λ yaml.
      then_try
        (set_owner (record {
          name = name;
          namespace = namespace;
          labels = some labels;
          owner = none;
          entries = some (("collector.yaml", yaml) ∷ []);
        }))
        (λ desired. with_sha (create_or_update (put_yaml yaml) desired)))

  unfoldable pub collector_config_map :
      (name namespace : String) → Try String → Try (ConfigMap × String)
  unfolding yaml_config_map component_labels scoped_collector_name
  collector_config_map name namespace =
      yaml_config_map (scoped_collector_name name "config") namespace
        (component_labels "mdai-collector" "mdai-collector" name)

  unfoldable pub observer_config_map :
      (name namespace : String) → Try String → Try (ConfigMap × String)
  unfolding yaml_config_map component_labels scoped_observer_name
  observer_config_map name namespace =
      yaml_config_map (scoped_observer_name name "config") namespace
        (component_labels (scoped_observer_name name "") "mdai-observer" name)

  unfoldable pub replay_config_map :
      (name hub_name namespace : String) → Try String → Try (ConfigMap × String)
  unfolding yaml_config_map component_labels replayer_name
  replay_config_map name hub_name namespace =
      yaml_config_map (replayer_name name hub_name "collector-config") namespace
        (component_labels (replayer_name name hub_name "collector") "mdai-observer" hub_name)

  unfoldable pub env_data : (namespace : String) → Dict String
  env_data namespace = ("LOG_SEVERITY", "SEVERITY_NUMBER_WARN") ∷ ("K8S_NAMESPACE", namespace) ∷ []

  unfoldable pub env_config_map : (name namespace : String) → Try ConfigMap
  unfolding then_try create_or_update env_data component_labels scoped_collector_name
  env_config_map name namespace =
      then_try
        (set_owner (record {
          name = scoped_collector_name name "env";
          namespace = namespace;
          labels = some (component_labels "mdai-collector" "mdai-collector" name);
          owner = none;
          entries = some (env_data namespace);
        }))
        (create_or_update (λ m. ok (record m { entries = some (env_data namespace) })))

  unfoldable pub dal_mutation : MdaiDal → ConfigMap → Try ConfigMap
  unfolding then_try set_entry dal_config_data
  dal_mutation dal m = then_try (set_owner m) (λ m'.
      let l1 = set_entry app_instance_key dal.name (set_entry app_name_key "mdai-dal" m'.labels) in
      let l2 =
        set_entry hub_component_label "mdai-dal" (set_entry managed_by_key managed_by_value l1) in
      ok (record m' { labels = l2; entries = some (dal_config_data dal) }))

  unfoldable pub dal_config_map : MdaiDal → (namespace : String) → Try ConfigMap
  unfolding create_or_update dal_mutation dal_config_map_name
  dal_config_map dal namespace = create_or_update (dal_mutation dal) (record {
    name = dal_config_map_name dal.name;
    namespace = namespace;
    labels = none;
    owner = none;
    entries = none;
  })
