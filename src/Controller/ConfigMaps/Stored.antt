-- ===== src/Controller/ConfigMaps/Stored.antt =====
-- What the ConfigMaps of internal/controller hold after they were created or updated, and what a
-- collector's Deployment has of it.
use mdai_operator.Prelude.{
  ◌≡◌, refl, subst, String, Option, none, some, Bool, true, false, Dict, insert, if◌then◌else◌,
  lookup_after-insert,
}
use mdai_operator.Builder.Maps.{find, or_empty, find_after-set_entry}
use mdai_operator.Builder.Deployments
use mdai_operator.Builder.Deployments.{Deployment}
use mdai_operator.Controller.Lifecycle.{ApiError}
use mdai_operator.Controller.Workloads.Collector.{CollectorParams, deploy_collector}
use mdai_operator.Controller.ConfigMaps.{
  ConfigMap, Try, ok, err, crash, then_try, Lookup, found, missing, lookup_failed, ConfigMapApi,
  or_error, put_yaml, after_lookup, create_or_update, with_sha, yaml_config_map,
  collector_config_map,
}

-- The configuration is in the ConfigMap, if there is one.
abbrev pub HasYaml : String → Try ConfigMap → Type 0
HasYaml yaml r = elim r [
  | ok m ↦ find "collector.yaml" m.entries ≡ some yaml
  | err e ↦ true ≡ true
  | crash ↦ true ≡ true
]

module _ (api : ConfigMapApi) (yaml : String) where
  or_error-HasYaml :
      (e : Option ApiError) (m : ConfigMap) → HasYaml yaml (ok m) → HasYaml yaml (or_error e m)
  unfolding or_error
  or_error-HasYaml none m h = h
  or_error-HasYaml (some e) m h = refl

  put_yaml-HasYaml : (m : ConfigMap) → HasYaml yaml (put_yaml yaml m)
  unfolding put_yaml find or_empty
  put_yaml-HasYaml m = in_entries m.entries
    where
      in_entries :
          (o : Option (Dict String))
          → HasYaml yaml (elim o [
            | none ↦ crash
            | some d ↦ ok (record m { entries = some (insert "collector.yaml" yaml d) })
          ])
      in_entries none = refl
      in_entries (some d) = lookup_after-insert "collector.yaml" "collector.yaml" yaml d

  after_lookup-HasYaml :
      (desired : ConfigMap) (answer : Lookup)
      → HasYaml yaml (after_lookup api (put_yaml yaml) desired answer)
  unfolding after_lookup then_try
  after_lookup-HasYaml desired missing = created (put_yaml yaml desired) (put_yaml-HasYaml desired)
    where
      created :
          (r : Try ConfigMap)
          → HasYaml yaml r
          → HasYaml yaml (then_try r (λ m. or_error (api.on_create m) m))
      created (ok m) h = or_error-HasYaml (api.on_create m) m h
      created (err e) h = refl
      created crash h = refl
  after_lookup-HasYaml desired (lookup_failed e) = refl
  after_lookup-HasYaml desired (found old) = updated (put_yaml yaml old) (put_yaml-HasYaml old)
    where
      compared :
          (b : Bool) (m : ConfigMap)
          → HasYaml yaml (ok m)
          → HasYaml yaml (if b then ok m else or_error (api.on_update m) m)
      compared true m h = h
      compared false m h = or_error-HasYaml (api.on_update m) m h

      updated :
          (r : Try ConfigMap)
          → HasYaml yaml r
          → HasYaml yaml (
              then_try r (λ m. if api.deep_equal old m then ok m else or_error (api.on_update m) m))
      updated (ok m) h = compared (api.deep_equal old m) m h
      updated (err e) h = refl
      updated crash h = refl

  -- A ConfigMap with the configuration, and its hash.
  abbrev Hashed : Try (ConfigMap × String) → Type 0
  Hashed r = elim r [
    | ok p ↦ (find "collector.yaml" p.0.entries ≡ some yaml) × (api.sha p.0 ≡ ok p.1)
    | err e ↦ true ≡ true
    | crash ↦ true ≡ true
  ]

  with_sha-Hashed : (r : Try ConfigMap) → HasYaml yaml r → Hashed (with_sha api r)
  unfolding with_sha then_try
  with_sha-Hashed (ok m) h = hashed (api.sha m) refl
    where
      hashed : (x : Try String) → api.sha m ≡ x → Hashed (then_try x (λ s. ok (m, s)))
      hashed (ok s) k = (h, k)
      hashed (err e) k = refl
      hashed crash k = refl
  with_sha-Hashed (err e) h = refl
  with_sha-Hashed crash h = refl

  yaml_config_map-Hashed :
      (name namespace : String) (labels : Dict String)
      → Hashed (yaml_config_map api name namespace labels (ok yaml))
  unfolding yaml_config_map then_try create_or_update
  yaml_config_map-Hashed name namespace labels = owned (api.set_owner _)
    where
      owned :
          (r : Try ConfigMap)
          → Hashed
              (then_try r (λ desired. with_sha api (create_or_update api (put_yaml yaml) desired)))
      owned (ok desired) = with_sha-Hashed _ (after_lookup-HasYaml desired _)
      owned (err e) = refl
      owned crash = refl

-- The pods of a collector are annotated with the hash of its parameters.
annotated-hash :
    (p : CollectorParams) (d : Deployment)
    → find "mdai-collector-config/sha256" (deploy_collector p d).template_annotations ≡ some p.hash
unfolding deploy_collector Deployments.with_label Deployments.with_selector_label
    Deployments.with_template_label Deployments.with_template_annotation Deployments.tolerating
    Deployments.with_replicas Deployments.with_service_account Deployments.with_containers
    Deployments.with_volumes
annotated-hash p d =
    find_after-set_entry "mdai-collector-config/sha256" "mdai-collector-config/sha256" p.hash
      d.template_annotations

-- If the ConfigMap of a collector is created or updated without an error, it holds the configuration,
-- whatever was there before, and the pods of the Deployment that is then synchronized with its hash are
-- annotated with the hash of just that ConfigMap.
pub stored-annotated :
    (api : ConfigMapApi) (yaml name namespace : String) (p : CollectorParams) (d : Deployment)
    (m : ConfigMap) (h : String)
    → collector_config_map api name namespace (ok yaml) ≡ ok (m, h)
    → (find "collector.yaml" m.entries ≡ some yaml)
      × ((api.sha m ≡ ok h)
          × (find "mdai-collector-config/sha256"
                (deploy_collector (record p { hash = h }) d).template_annotations
              ≡ some h))
unfolding collector_config_map
stored-annotated api yaml name namespace p d m h k =
    let (held, hashed) =
      subst (Hashed api yaml) k (yaml_config_map-Hashed api yaml _ namespace _) in
    (held, (hashed, annotated-hash (record p { hash = h }) d))
