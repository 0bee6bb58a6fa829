-- ===== src/Builder/Pods.antt =====
-- internal/builder/container.go
use mdai_operator.Prelude.{
  ℕ, String, List, [], ◌∷◌, ◌++◌, Option, none, some, Bool, ◌||◌, ◌==◌, if◌then◌else◌,
}

pub record ContainerPort : Type 0 where
  pub container_port : ℕ
  pub name : String

pub record VolumeMount : Type 0 where
  pub name : String
  pub mount_path : String
  pub sub_path : String

-- A variable that is read from a key of a Secret.
pub record EnvVar : Type 0 where
  pub name : String
  pub secret : String
  pub key : String

pub data EnvSource : Type 0 where
  config_map_ref secret_ref : (name : String) → EnvSource

-- An HTTP probe.
pub record Probe : Type 0 where
  pub path : String
  pub port : ℕ
  pub initial_delay : ℕ
  pub period : ℕ

pub record SecurityContext : Type 0 where
  pub seccomp_profile : String
  pub allow_privilege_escalation : Bool
  pub dropped : List String
  pub run_as_non_root : Bool

-- `resources` are the requests and limits, as a value that is only passed on.
pub record Container : Type 0 where
  pub name : String
  pub image : String
  pub command : List String
  pub ports : List ContainerPort
  pub volume_mounts : List VolumeMount
  pub env : List EnvVar
  pub env_from : List EnvSource
  pub security_context : Option SecurityContext
  pub liveness_probe : Option Probe
  pub readiness_probe : Option Probe
  pub image_pull_policy : String
  pub resources : Option String

unfoldable pub container : (name image : String) → Container
container name image = record {
  name = name;
  image = image;
  command = [];
  ports = [];
  volume_mounts = [];
  env = [];
  env_from = [];
  security_context = none;
  liveness_probe = none;
  readiness_probe = none;
  image_pull_policy = "";
  resources = none;
}

unfoldable pub with_command : List String → Container → Container
with_command cmd b = record b { command = cmd }

unfoldable pub with_ports : List ContainerPort → Container → Container
with_ports ports b = record b { ports = ports }

unfoldable pub with_volume_mounts : List VolumeMount → Container → Container
with_volume_mounts mounts b = record b { volume_mounts = b.volume_mounts ++ mounts }

unfoldable pub with_env_from : List EnvSource → Container → Container
with_env_from sources b = record b { env_from = b.env_from ++ sources }

unfoldable pub with_security_context : SecurityContext → Container → Container
with_security_context sc b = record b { security_context = some sc }

unfoldable pub with_env_from_config_map : String → Container → Container
with_env_from_config_map name b = record b { env_from = b.env_from ++ config_map_ref name ∷ [] }

unfoldable pub with_aws_secret : Option String → Container → Container
with_aws_secret none b = b
with_aws_secret (some name) b = record b { env_from = b.env_from ++ secret_ref name ∷ [] }

-- Nothing is added where one of the three texts is empty.
unfoldable pub with_env_from_secret_key :
    (env_var_name secret_name key : String) → Container → Container
with_env_from_secret_key env_var_name secret_name key b =
    if secret_name == "" || key == "" || env_var_name == "" then b else record b {
      env = b.env ++ record { name = env_var_name; secret = secret_name; key = key } ∷ [];
    }

unfoldable pub with_liveness_probe : Probe → Container → Container
with_liveness_probe probe b = record b { liveness_probe = some probe }

unfoldable pub with_readiness_probe : Probe → Container → Container
with_readiness_probe probe b = record b { readiness_probe = some probe }

unfoldable pub with_image_pull_policy : String → Container → Container
with_image_pull_policy policy b = record b { image_pull_policy = policy }
