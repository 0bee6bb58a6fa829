-- ===== src/Builder/Services.antt =====
-- internal/builder/service.go
use mdai_operator.Prelude.{ℕ, String, List, Option, Bool, Dict}
use mdai_operator.Builder.Maps.{set_entry}

-- `intstr.FromString` and `intstr.FromInt32`
pub data TargetPort : Type 0 where
  by_name : String → TargetPort
  by_number : ℕ → TargetPort

-- All ports of the program are TCP ports.
pub record ServicePort : Type 0 where
  pub name : String
  pub port : ℕ
  pub target : TargetPort

pub record Service : Type 0 where
  pub name : String
  pub created : Bool
  pub labels : Option (Dict String)
  pub selector : Option (Dict String)
  pub ports : List ServicePort
  pub type : String

unfoldable pub with_label : (key value : String) → Service → Service
unfolding set_entry
with_label key value s = record s { labels = set_entry key value s.labels }

unfoldable pub with_selector_label : (key value : String) → Service → Service
unfolding set_entry
with_selector_label key value s = record s { selector = set_entry key value s.selector }

unfoldable pub with_ports : List ServicePort → Service → Service
with_ports ports s = record s { ports = ports }

unfoldable pub with_type : String → Service → Service
with_type type s = record s { type = type }
