-- ===== src/Builder/Deployments.antt =====
-- internal/builder/deployment.go
use mdai_operator.Prelude.{ℕ, String, List, Option, some, Bool, Dict}
use mdai_operator.Builder.Maps.{set_entry}
use mdai_operator.Builder.Pods.{Container}
use mdai_operator.Builder.Tolerations.{Toleration, with_tolerations}

-- A volume that holds a ConfigMap.
pub record Volume : Type 0 where
  pub name : String
  pub config_map : String

-- `created` tells whether the creation timestamp is set; `selector` is `Spec.Selector.MatchLabels`.
pub record Deployment : Type 0 where
  pub name : String
  pub created : Bool
  pub labels : Option (Dict String)
  pub selector : Option (Dict String)
  pub template_labels : Option (Dict String)
  pub template_annotations : Option (Dict String)
  pub replicas : Option ℕ
  pub service_account : String
  pub containers : List Container
  pub volumes : List Volume
  pub tolerations : Option (List Toleration)

unfoldable pub with_label : (key value : String) → Deployment → Deployment
unfolding set_entry
with_label key value d = record d { labels = set_entry key value d.labels }

unfoldable pub with_selector_label : (key value : String) → Deployment → Deployment
unfolding set_entry
with_selector_label key value d = record d { selector = set_entry key value d.selector }

unfoldable pub with_template_label : (key value : String) → Deployment → Deployment
unfolding set_entry
with_template_label key value d = record d {
  template_labels = set_entry key value d.template_labels;
}

unfoldable pub with_template_annotation : (key value : String) → Deployment → Deployment
unfolding set_entry
with_template_annotation key value d = record d {
  template_annotations = set_entry key value d.template_annotations;
}

unfoldable pub with_replicas : ℕ → Deployment → Deployment
with_replicas n d = record d { replicas = some n }

unfoldable pub with_service_account : String → Deployment → Deployment
with_service_account name d = record d { service_account = name }

unfoldable pub with_containers : List Container → Deployment → Deployment
with_containers containers d = record d { containers = containers }

unfoldable pub with_volumes : List Volume → Deployment → Deployment
with_volumes volumes d = record d { volumes = volumes }

unfoldable pub tolerating : List Toleration → Deployment → Deployment
unfolding with_tolerations
tolerating ts d = record d { tolerations = with_tolerations ts }
