-- ===== src/Controller/Workloads/Stable.antt =====
-- The states of a Deployment and its Service that the operator can reach.
use mdai_operator.Prelude.{
  ◌≡◌, refl, sym, ◌∙◌, String, [], Option, some, true, Dict, lookup, Bool-cases, Option-cases, inl,
  inr,
}
use mdai_operator.Builder.Maps.{set_entry, find}
use mdai_operator.Builder.Deployments
use mdai_operator.Builder.Deployments.{Deployment}
use mdai_operator.Builder.Services.{Service}
use mdai_operator.Controller.Adapters.{scoped_collector_name, scoped_observer_name, replayer_name}
use mdai_operator.Controller.Workloads.Shared.{
  managed_by_key, managed_by_value, app_name_key, app_instance_key, bare_deployment, bare_service,
}
use mdai_operator.Controller.Workloads.Collector.{
  new_collector_deployment, deploy_collector, new_collector_service,
}
use mdai_operator.Controller.Workloads.Observer.{deploy_observer}
use mdai_operator.Controller.Workloads.Replay.{deploy_replay}
use mdai_operator.Controller.Workloads.Dal.{deploy_dal, dal_selector}
use mdai_operator.Controller.Workloads.All.{
  Owner, collector_named, observer_named, dal_named, replay_named, Settings, new_deployment,
  new_service, deploy, Reachable, start, deployed, served, pod_labels, own_key, own_value,
}
use mdai_operator.Controller.Workloads.Selected.{
  Within, Covers, Within-none, Covers-nil, Covers-cons, find_set, find_other, deploy-Covers,
  deploy-Within, serve-Within, serve-own,
}

Covers-selector :
    (name : String) (m : Option (Dict String))
    → Covers
        (set_entry app_instance_key name
          (set_entry managed_by_key managed_by_value (set_entry app_name_key "mdai-dal" m)))
        (pod_labels (dal_named name))
unfolding pod_labels
Covers-selector name m =
    let m1 = set_entry app_name_key "mdai-dal" m in
    let m2 = set_entry managed_by_key managed_by_value m1 in
    let m3 = set_entry app_instance_key name m2 in
    let named : find app_name_key m3 ≡ some "mdai-dal" =
      find_other app_instance_key app_name_key name "mdai-dal" m2 refl (
        find_other managed_by_key app_name_key managed_by_value "mdai-dal" m1 refl
          (find_set app_name_key "mdai-dal" m)) in
    let managed : find managed_by_key m3 ≡ some managed_by_value =
      find_other app_instance_key managed_by_key name managed_by_value m2 refl
        (find_set managed_by_key managed_by_value m1) in
    Covers-cons app_name_key "mdai-dal" m3 _ named (
      Covers-cons managed_by_key managed_by_value m3 _ managed (
        Covers-cons app_instance_key name m3 _ (find_set app_instance_key name m2) (Covers-nil m3)))

Covers-dal_selector :
    (name : String) (d : Deployment)
    → (d.created ≡ true → Covers d.selector (pod_labels (dal_named name)))
    → Covers (dal_selector name d).selector (pod_labels (dal_named name))
unfolding dal_selector Deployments.with_selector_label
Covers-dal_selector name d c = elim (Bool-cases d.created) [
  | inl h ↦ rw h (c h)
  | inr h ↦ rw h (Covers-selector name d.selector)
]

-- After a reconciliation the selector has every label of the pods.
selector-Covers :
    (o : Owner) (st : Settings) (d : Deployment)
    → (d.created ≡ true → Covers d.selector (pod_labels o))
    → Covers (deploy o st d).selector (pod_labels o)
unfolding deploy deploy_collector deploy_observer deploy_replay deploy_dal pod_labels
    Deployments.with_label Deployments.with_selector_label Deployments.with_template_label
    Deployments.with_template_annotation Deployments.tolerating Deployments.with_replicas
    Deployments.with_service_account Deployments.with_containers Deployments.with_volumes
selector-Covers (collector_named name) st d c =
    let app = scoped_collector_name name "" in
    Covers-cons "app" app _ [] (find_set "app" app d.selector) (Covers-nil _)
selector-Covers (observer_named name) st d c =
    let app = scoped_observer_name name "" in
    Covers-cons "app" app _ [] (find_set "app" app d.selector) (Covers-nil _)
selector-Covers (replay_named name hub_name) st d c =
    let app = replayer_name name hub_name "collector" in
    Covers-cons "app" app _ [] (find_set "app" app d.selector) (Covers-nil _)
selector-Covers (dal_named name) st d c = Covers-dal_selector name d c

record Coherent (o : Owner) (d : Deployment) (s : Service) : Type 0 where
  pub deployment_within : Within d.selector (pod_labels o)
  pub service_within : Within s.selector (pod_labels o)
  pub pods : d.created ≡ true → Covers d.template_labels (pod_labels o)
  pub selector : d.created ≡ true → Covers d.selector (pod_labels o)
  pub service : s.created ≡ true → find (own_key o) s.selector ≡ some (own_value o)

Coherent-start : (o : Owner) → Coherent o (new_deployment o) (new_service o)
unfolding new_deployment new_service new_collector_deployment new_collector_service bare_deployment
    bare_service
Coherent-start (collector_named name) = record {
  deployment_within = Within-none _;
  service_within = Within-none _;
  pods = λ h. cc;
  selector = λ h. cc;
  service = λ h. cc;
}
Coherent-start (observer_named name) = record {
  deployment_within = Within-none _;
  service_within = Within-none _;
  pods = λ h. cc;
  selector = λ h. cc;
  service = λ h. cc;
}
Coherent-start (replay_named name hub_name) = record {
  deployment_within = Within-none _;
  service_within = Within-none _;
  pods = λ h. cc;
  selector = λ h. cc;
  service = λ h. cc;
}
Coherent-start (dal_named name) = record {
  deployment_within = Within-none _;
  service_within = Within-none _;
  pods = λ h. cc;
  selector = λ h. cc;
  service = λ h. cc;
}

reachable-Coherent : {o : Owner} {d : Deployment} {s : Service} → Reachable o d s → Coherent o d s
reachable-Coherent {o} start = Coherent-start o
reachable-Coherent {o} (deployed d s st r) =
    let c = reachable-Coherent r in
    record {
      deployment_within = deploy-Within o st d c.deployment_within;
      service_within = c.service_within;
      pods = λ h. deploy-Covers o st d;
      selector = λ h. selector-Covers o st d c.selector;
      service = c.service;
    }
reachable-Coherent {o} (served d s st r) =
    let c = reachable-Coherent r in
    record {
      deployment_within = c.deployment_within;
      service_within = serve-Within o st s c.service_within;
      pods = c.pods;
      selector = c.selector;
      service = λ h. serve-own o st s;
    }

-- Maps with just these labels read alike.
find-agrees :
    (m n : Option (Dict String)) (e : Dict String) (k : String)
    → Within m e
    → Covers m e
    → Within n e
    → Covers n e
    → find k m ≡ find k n
find-agrees m n e k w c w' c' = elim (Option-cases (find k m)) [
  | inl h ↦ elim (Option-cases (find k n)) [
    | inl i ↦ h ∙ sym i
    | inr (v, i) ↦ c.label k v (w'.entry k v i) ∙ sym i
  ]
  | inr (v, h) ↦ h ∙ sym (c'.label k v (w.entry k v h))
]

lookup-own : (o : Owner) → lookup (own_key o) (pod_labels o) ≡ some (own_value o)
unfolding lookup pod_labels own_key own_value
lookup-own (collector_named name) = refl
lookup-own (observer_named name) = refl
lookup-own (replay_named name hub_name) = refl
lookup-own (dal_named name) = refl

-- A selector finds these pods of an owner: each of its labels is one of theirs, and one of them is the
-- label that tells the owner's pods from others.
abbrev pub Selects : Owner → Option (Dict String) → Option (Dict String) → Type 0
Selects o selector labels =
    ((k v : String) → find k selector ≡ some v → find k labels ≡ some v)
    × (find (own_key o) selector ≡ some (own_value o))

-- Whatever reconciliations a Deployment and its Service have been through, with any settings: once
-- both are created, the Deployment's own selector and that of the Service have the label that is the
-- owner's own, and no label that the pods that the Deployment makes do not have, and no further
-- reconciliation changes a label of the Deployment's selector, which the API server would refuse.
pub reachable-Selects :
    {o : Owner} {d : Deployment} {s : Service}
    → Reachable o d s
    → d.created ≡ true
    → s.created ≡ true
    → Selects o d.selector d.template_labels
      × (Selects o s.selector d.template_labels
          × ((st : Settings) (k : String) → find k (deploy o st d).selector ≡ find k d.selector))
reachable-Selects {o} {d} r h i =
    let c = reachable-Coherent r in
    (
      (
        λ k v j. (c.pods h).label k v (c.deployment_within.entry k v j),
        (c.selector h).label _ _ (lookup-own o),
      ),
      (
        (λ k v j. (c.pods h).label k v (c.service_within.entry k v j), c.service i),
        λ st k.
            find-agrees _ _ (pod_labels o) k (deploy-Within o st d c.deployment_within)
              (selector-Covers o st d c.selector) c.deployment_within (c.selector h),
      ),
    )
