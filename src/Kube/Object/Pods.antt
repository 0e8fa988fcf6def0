-- ===== src/Kube/Object/Pods.antt =====
-- Pods, and what runs them: deployments and stateful sets.
use workshop_operator.Prelude.{ℕ, String, Bool, Option, List, StringMap}

pub data EnvSource : Type 0 where
  literal : String → EnvSource
  secret_key : (key secret_name : String) → EnvSource
  field_ref : (field_path : String) → EnvSource

pub record EnvVar : Type 0 where
  pub name : String
  pub source : EnvSource

pub data Handler : Type 0 where
  exec : List String → Handler
  tcp_socket : ℕ → Handler
  http_get : (path : String) (port : ℕ) (scheme : String) → Handler

-- A number that is left out is 0.
pub record Probe : Type 0 where
  pub handler : Handler
  pub initial_delay_seconds : ℕ
  pub period_seconds : ℕ
  pub success_threshold : ℕ
  pub failure_threshold : ℕ
  pub timeout_seconds : ℕ

pub record ContainerPort : Type 0 where
  pub name : String
  pub container_port : ℕ
  pub protocol : String

pub record VolumeMount : Type 0 where
  pub name : String
  pub mount_path : String
  pub read_only : Bool

-- Quantities are kept as they are written.
pub record Container : Type 0 where
  pub name : String
  pub command : List String
  pub args : List String
  pub env : List EnvVar
  pub image : String
  pub image_pull_policy : String
  pub memory_request : Option String
  pub memory_limit : Option String
  pub readiness_probe : Option Probe
  pub liveness_probe : Option Probe
  pub pre_stop : Option Handler
  pub added_capabilities : List String
  pub ports : List ContainerPort
  pub volume_mounts : List VolumeMount

pub data VolumeSource : Type 0 where
  claim_source : (claim_name : String) → VolumeSource
  config_map_source : (config_map_name : String) → VolumeSource
  empty_dir_source : VolumeSource
  no_source : VolumeSource

pub record Volume : Type 0 where
  pub name : String
  pub source : VolumeSource

pub record PodSecurityContext : Type 0 where
  pub run_as_non_root : Bool
  pub run_as_group : ℕ
  pub run_as_user : ℕ
  pub fs_group : Option ℕ

pub record AntiAffinity : Type 0 where
  pub match_labels : StringMap String
  pub topology_key : String

pub record PodSpec : Type 0 where
  pub service_account_name : String
  pub security_context : Option PodSecurityContext
  pub anti_affinity : List AntiAffinity
  pub termination_grace_period_seconds : Option ℕ
  pub volumes : List Volume
  pub init_containers : List Container
  pub containers : List Container

pub record DeploymentSpec : Type 0 where
  pub replicas : Option ℕ
  pub match_labels : StringMap String
  pub strategy : String
  pub template_labels : StringMap String
  pub pod : PodSpec

pub record ClaimTemplate : Type 0 where
  pub name : String
  pub access_modes : List String
  pub storage : String

pub record StatefulSetSpec : Type 0 where
  pub service_name : String
  pub pod_management_policy : String
  pub replicas : Option ℕ
  pub update_strategy : String
  pub match_labels : StringMap String
  pub template_labels : StringMap String
  pub pod : PodSpec
  pub claim_templates : List ClaimTemplate
