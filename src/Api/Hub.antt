-- ===== src/Api/Hub.antt =====
-- api/v1/mdaihub_types.go
use mdai_operator.Prelude.{String, List, Option, Dict}
use mdai_operator.Api.Replay.{ReplaySpec}

pub data TransformerType : Type 0 where
  join : TransformerType
  other_transformer : String → TransformerType

pub record JoinTransformer : Type 0 where
  pub delimiter : String

pub record VariableTransformer : Type 0 where
  pub type : TransformerType
  pub join : Option JoinTransformer

pub record Serializer : Type 0 where
  pub name : String
  pub transformers : List VariableTransformer

pub data VariableType : Type 0 where
  manual computed meta : VariableType
  other_type : String → VariableType

pub data VariableDataType : Type 0 where
  int float boolean string set_of map_of meta_hash_set meta_priority_list : VariableDataType
  other_data_type : String → VariableDataType

pub data VariableStorageType : Type 0 where
  mdai_valkey : VariableStorageType
  other_storage : String → VariableStorageType

-- `variable_refs` is `none` for the nil slice.
pub record Variable : Type 0 where
  pub key : String
  pub type : VariableType
  pub data_type : VariableDataType
  pub storage_type : VariableStorageType
  pub variable_refs : Option (List String)
  pub serialize_as : Option (List Serializer)

-- An `intstr.IntOrString`; an integer is kept as its decimal digits, with its sign.
pub record IntOrString : Type 0 where
  pub int_val : String
  pub str_val : String

pub record PrometheusAlert : Type 0 where
  pub name : String
  pub expr : IntOrString
  pub for_duration : Option String
  pub keep_firing_for : Option String
  pub severity : String

pub record Config : Type 0 where
  pub evaluation_interval : Option String

pub record When : Type 0 where
  pub alert_name : Option String
  pub status : Option String
  pub variable_updated : Option String
  pub update_type : Option String

pub record SetAction : Type 0 where
  pub set : String
  pub value : String

pub record ScalarAction : Type 0 where
  pub scalar : String
  pub value : String

pub record MapAction : Type 0 where
  pub map : String
  pub key : String
  pub value : Option String

-- `value_from` is the reference to a key of a Secret or ConfigMap, which no modelled code follows.
pub record StringOrFrom : Type 0 where
  pub value : Option String
  pub value_from : Option String

pub record CallWebhookAction : Type 0 where
  pub url : StringOrFrom
  pub method : String
  pub template_ref : String
  pub payload_template : Option StringOrFrom
  pub headers : Dict String

pub record DeployReplayAction : Type 0 where
  pub replay_spec : ReplaySpec

pub data CleanUpReplayAction : Type 0 where
  clean_up : CleanUpReplayAction

pub record Action : Type 0 where
  pub add_to_set : Option SetAction
  pub remove_from_set : Option SetAction
  pub set_variable : Option ScalarAction
  pub add_to_map : Option MapAction
  pub remove_from_map : Option MapAction
  pub call_webhook : Option CallWebhookAction
  pub deploy_replay : Option DeployReplayAction
  pub clean_up_replay : Option CleanUpReplayAction

pub record AutomationRule : Type 0 where
  pub name : String
  pub when : When
  pub then_do : List Action

-- `rules` and `prometheus_alerts` are `none` for the nil slice.
pub record MdaiHubSpec : Type 0 where
  pub variables : List Variable
  pub prometheus_alerts : Option (List PrometheusAlert)
  pub config : Option Config
  pub rules : Option (List AutomationRule)
