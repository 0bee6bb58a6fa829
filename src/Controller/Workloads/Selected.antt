-- ===== src/Controller/Workloads/Selected.antt =====
-- The selectors of Deployments and Services find the pods that the Deployments make.
use mdai_operator.Prelude.{
  ◌≡◌, refl, String, [], ◌∷◌, Option, none, some, false, ◌==◌, eq_iff, arith, Dict, lookup,
  Bool-cases, inl, inr,
}
use mdai_operator.Builder.Maps.{set_entry, find, or_empty, find_after-set_entry}
use mdai_operator.Builder.Deployments
use mdai_operator.Builder.Deployments.{Deployment}
use mdai_operator.Builder.Services
use mdai_operator.Builder.Services.{Service}
use mdai_operator.Controller.Adapters.{scoped_collector_name, scoped_observer_name, replayer_name}
use mdai_operator.Controller.Workloads.Shared.{
  managed_by_key, managed_by_value, app_name_key, app_instance_key, component_key,
}
use mdai_operator.Controller.Workloads.Collector.{deploy_collector, serve_collector}
use mdai_operator.Controller.Workloads.Observer.{deploy_observer, serve_observer}
use mdai_operator.Controller.Workloads.Replay.{deploy_replay, serve_replay}
use mdai_operator.Controller.Workloads.Dal.{deploy_dal, serve_dal, dal_selector, type_if_new}
use mdai_operator.Controller.Workloads.All.{
  Owner, collector_named, observer_named, dal_named, replay_named, Settings, deploy, serve,
  pod_labels, own_key, own_value,
}

-- Every entry of the map is one of these labels.
pub record Within (m : Option (Dict String)) (e : Dict String) : Type 0 where
  pub entry : (k v : String) → find k m ≡ some v → lookup k e ≡ some v

-- Each of these labels is an entry of the map.
pub record Covers (m : Option (Dict String)) (e : Dict String) : Type 0 where
  pub label : (k v : String) → lookup k e ≡ some v → find k m ≡ some v

pub Within-none : (e : Dict String) → Within none e
unfolding find or_empty lookup
Within-none e = record { entry = λ k v h. cc }

Within-set_entry :
    (key value : String) (m : Option (Dict String)) (e : Dict String)
    → lookup key e ≡ some value
    → Within m e
    → Within (set_entry key value m) e
Within-set_entry key value m e h w = record {
  entry = λ k v i. ground (arith, find_after-set_entry key k value m, eq_iff key k, w.entry k v);
}

pub Covers-nil : (m : Option (Dict String)) → Covers m []
unfolding lookup
Covers-nil m = record { label = λ k v h. cc }

pub Covers-cons :
    (key value : String) (m : Option (Dict String)) (e : Dict String)
    → find key m ≡ some value
    → Covers m e
    → Covers m ((key, value) ∷ e)
unfolding lookup
Covers-cons key value m e h c = record {
  label = λ k v i. ground (arith, eq_iff key k, c.label k v);
}

pub find_set :
    (key value : String) (m : Option (Dict String)) → find key (set_entry key value m) ≡ some value
find_set key value m = ground (arith, find_after-set_entry key key value m, eq_iff key key)

-- Setting another label leaves one.
pub find_other :
    (key j value v : String) (m : Option (Dict String))
    → (key == j) ≡ false
    → find j m ≡ some v
    → find j (set_entry key value m) ≡ some v
find_other key j value v m h i = ground (arith, find_after-set_entry key j value m)

-- With one label for the pods.
Covers-app :
    (app : String) (m : Option (Dict String))
    → Covers (set_entry component_key app (set_entry "app" app m)) (("app", app) ∷ [])
Covers-app app m =
    Covers-cons "app" app _ []
      (find_other component_key "app" app app (set_entry "app" app m) refl (find_set "app" app m))
      (Covers-nil _)

Covers-dal :
    (name : String) (m : Option (Dict String))
    → Covers
        (set_entry managed_by_key managed_by_value
          (set_entry app_instance_key name (set_entry app_name_key "mdai-dal" m)))
        (pod_labels (dal_named name))
unfolding pod_labels
Covers-dal name m =
    let m1 = set_entry app_name_key "mdai-dal" m in
    let m2 = set_entry app_instance_key name m1 in
    let m3 = set_entry managed_by_key managed_by_value m2 in
    let named : find app_name_key m3 ≡ some "mdai-dal" =
      find_other managed_by_key app_name_key managed_by_value "mdai-dal" m2 refl (
        find_other app_instance_key app_name_key name "mdai-dal" m1 refl
          (find_set app_name_key "mdai-dal" m)) in
    let instance_of : find app_instance_key m3 ≡ some name =
      find_other managed_by_key app_instance_key managed_by_value name m2 refl
        (find_set app_instance_key name m1) in
    Covers-cons app_name_key "mdai-dal" m3 _ named (
      Covers-cons managed_by_key managed_by_value m3 _ (find_set managed_by_key managed_by_value m2)
        (Covers-cons app_instance_key name m3 _ instance_of (Covers-nil m3)))

-- Whatever was there, the pods carry the labels after a reconciliation.
pub deploy-Covers :
    (o : Owner) (st : Settings) (d : Deployment)
    → Covers (deploy o st d).template_labels (pod_labels o)
unfolding deploy deploy_collector deploy_observer deploy_replay deploy_dal pod_labels
    Deployments.with_label Deployments.with_selector_label Deployments.with_template_label
    Deployments.with_template_annotation Deployments.tolerating Deployments.with_replicas
    Deployments.with_service_account Deployments.with_containers Deployments.with_volumes
deploy-Covers (collector_named name) st d =
    Covers-app (scoped_collector_name name "") d.template_labels
deploy-Covers (observer_named name) st d =
    Covers-app (scoped_observer_name name "") d.template_labels
deploy-Covers (replay_named name hub_name) st d =
    Covers-app (replayer_name name hub_name "collector") d.template_labels
deploy-Covers (dal_named name) st d = Covers-dal name (dal_selector name d).template_labels

-- One more pod label.
Within-app :
    (app : String) (m : Option (Dict String))
    → Within m (("app", app) ∷ [])
    → Within (set_entry "app" app m) (("app", app) ∷ [])
unfolding lookup
Within-app app m w = Within-set_entry "app" app m (("app", app) ∷ []) refl w

-- The selector of a DAL's deployment, which is set on a new one only.
Within-dal_selector :
    (name : String) (d : Deployment)
    → Within d.selector (pod_labels (dal_named name))
    → Within (dal_selector name d).selector (pod_labels (dal_named name))
unfolding dal_selector pod_labels lookup Deployments.with_selector_label
Within-dal_selector name d w =
    let e = pod_labels (dal_named name) in
    elim (Bool-cases d.created) [
      | inl h ↦ rw h w
      | inr h ↦ rw h (
          Within-set_entry app_instance_key name _ e refl (
            Within-set_entry managed_by_key managed_by_value _ e refl
              (Within-set_entry app_name_key "mdai-dal" _ e refl w)))
    ]

pub deploy-Within :
    (o : Owner) (st : Settings) (d : Deployment)
    → Within d.selector (pod_labels o)
    → Within (deploy o st d).selector (pod_labels o)
unfolding deploy deploy_collector deploy_observer deploy_replay deploy_dal pod_labels
    Deployments.with_label Deployments.with_selector_label Deployments.with_template_label
    Deployments.with_template_annotation Deployments.tolerating Deployments.with_replicas
    Deployments.with_service_account Deployments.with_containers Deployments.with_volumes
deploy-Within (collector_named name) st d w =
    Within-app (scoped_collector_name name "") d.selector w
deploy-Within (observer_named name) st d w = Within-app (scoped_observer_name name "") d.selector w
deploy-Within (replay_named name hub_name) st d w =
    Within-app (replayer_name name hub_name "collector") d.selector w
deploy-Within (dal_named name) st d w = Within-dal_selector name d w

type_if_new-selector : (s : Service) → (type_if_new s).selector ≡ s.selector
unfolding type_if_new Services.with_type
type_if_new-selector s = ground arith

pub serve-Within :
    (o : Owner) (st : Settings) (s : Service)
    → Within s.selector (pod_labels o)
    → Within (serve o st s).selector (pod_labels o)
unfolding serve serve_collector serve_observer serve_replay serve_dal pod_labels lookup find
    or_empty Services.with_label Services.with_selector_label Services.with_ports Services.with_type
serve-Within (collector_named name) st s w = Within-app (scoped_collector_name name "") s.selector w
serve-Within (observer_named name) st s w = record { entry = λ k v h. h }
serve-Within (replay_named name hub_name) st s w =
    Within-app (replayer_name name hub_name "collector") s.selector w
serve-Within (dal_named name) st s w =
    let e = pod_labels (dal_named name) in
    rw (type_if_new-selector _) (
      Within-set_entry app_instance_key name _ e refl
        (Within-set_entry app_name_key "mdai-dal" s.selector e refl w))

-- After a reconciliation the selector of the Service has the owner's label.
pub serve-own :
    (o : Owner) (st : Settings) (s : Service)
    → find (own_key o) (serve o st s).selector ≡ some (own_value o)
unfolding serve serve_collector serve_observer serve_replay serve_dal own_key own_value lookup find
    or_empty Services.with_label Services.with_selector_label Services.with_ports Services.with_type
serve-own (collector_named name) st s = find_set "app" (scoped_collector_name name "") s.selector
serve-own (observer_named name) st s = refl
serve-own (replay_named name hub_name) st s =
    find_set "app" (replayer_name name hub_name "collector") s.selector
serve-own (dal_named name) st s =
    rw (type_if_new-selector _)
      (find_set app_instance_key name (set_entry app_name_key "mdai-dal" s.selector))
