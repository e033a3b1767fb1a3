-- ===== src/Api/Workload.antt =====
-- The built-in kinds that an agent runs as, with the fields that the code sets or looks at.
use kubecopilot_core.Common.{ℕ, String, Option, List}
use kubecopilot_core.Api.Meta.{ObjectMeta}

pub data VolumeSource : Type 0 where
  persistent_volume_claim config_map secret : String → VolumeSource

pub record Volume : Type 0 where
  pub name : String
  pub source : VolumeSource

pub record VolumeMount : Type 0 where
  pub name : String
  pub mount_path : String
  pub sub_path : String

-- `secret_key_ref` is the name of a secret and a key in it.
pub record EnvVar : Type 0 where
  pub name : String
  pub value : String
  pub secret_key_ref : Option (String × String)

pub record HttpGetProbe : Type 0 where
  pub path : String
  pub port : ℕ

-- Quantities are texts.
pub record Container : Type 0 where
  pub name : String
  pub image : String
  pub image_pull_policy : String
  pub ports : List ℕ
  pub env : List EnvVar
  pub volume_mounts : List VolumeMount
  pub liveness_probe : HttpGetProbe
  pub readiness_probe : HttpGetProbe
  pub requests : List (String × String)
  pub limits : List (String × String)

pub record PodSpec : Type 0 where
  pub containers : List Container
  pub volumes : List Volume

pub record PodStatus : Type 0 where
  pub phase : String

pub record Pod : Type 0 where
  pub meta : ObjectMeta
  pub spec : PodSpec
  pub status : PodStatus

pub record PersistentVolumeClaim : Type 0 where
  pub meta : ObjectMeta
  pub access_modes : List String
  pub requests : List (String × String)

pub record ServicePort : Type 0 where
  pub port : ℕ
  pub target_port : ℕ

pub record Service : Type 0 where
  pub meta : ObjectMeta
  pub selector : List (String × String)
  pub ports : List ServicePort
  pub type : String
