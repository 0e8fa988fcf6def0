-- ===== src/Kube/Object/Resources.antt =====
-- Rules, definitions of custom resources, webhooks, and the custom resources of the components.
use workshop_operator.Prelude.{ℕ, String, Bool, Option, List, StringMap}

pub record PolicyRule : Type 0 where
  pub api_groups : List String
  pub resource_names : List String
  pub resources : List String
  pub verbs : List String

-- The only subresource is an empty status.
pub record CustomResourceDefinitionSpec : Type 0 where
  pub group : String
  pub version : String
  pub scope : String
  pub kind : String
  pub list_kind : String
  pub plural : String
  pub singular : String
  pub short_names : List String

pub record WebhookRule : Type 0 where
  pub operations : List String
  pub api_groups : List String
  pub api_versions : List String
  pub resources : List String

-- The certificate bundle is empty.
pub record MutatingWebhook : Type 0 where
  pub name : String
  pub service_name : String
  pub service_namespace : String
  pub service_path : String
  pub side_effects : String
  pub failure_policy : String
  pub admission_review_versions : List String
  pub rules : List WebhookRule

pub record MavenProxySpec : Type 0 where
  pub name : String
  pub remote_url : String
  pub layout_policy : String

pub record MavenHostedSpec : Type 0 where
  pub name : String
  pub version_policy : String
  pub write_policy : String

pub record GroupSpec : Type 0 where
  pub name : String
  pub member_repos : List String

pub record DockerHostedSpec : Type 0 where
  pub name : String
  pub http_port : ℕ
  pub v1_enabled : Bool

pub record NpmProxySpec : Type 0 where
  pub name : String
  pub remote_url : String

pub record NexusResourceSpec : Type 0 where
  pub volume_size : String
  pub ssl : Bool
  pub image_tag : String
  pub cpu_request : ℕ
  pub cpu_limit : ℕ
  pub memory_request : String
  pub memory_limit : String
  pub maven_proxy : List MavenProxySpec
  pub maven_hosted : List MavenHostedSpec
  pub maven_group : List GroupSpec
  pub docker_hosted : List DockerHostedSpec
  pub npm_proxy : List NpmProxySpec
  pub npm_group : List GroupSpec

pub record GiteaResourceSpec : Type 0 where
  pub volume_size : String
  pub ssl : Bool
  pub service_name : String
  pub postgresql_volume_size : String

-- The privileges of a set of constraints are copied as a whole, the users are read and written.
pub record SecurityContextConstraintsSpec : Type 0 where
  pub privileges : StringMap String
  pub users : List String

pub record ArgoCdSpec : Type 0 where
  pub application_instance_label_key : String
  pub insecure : Bool
  pub route_enabled : Bool
  pub default_policy : Option String
  pub policy : Option String
  pub scopes : Option String

pub record AppProjectDestination : Type 0 where
  pub namespace_name : String
  pub server : String

pub record AppProjectSpec : Type 0 where
  pub destinations : List AppProjectDestination
  pub source_repos : List String

-- The add-ons Prometheus and Kiali are asked for without any setting.
pub record ControlPlaneSpec : Type 0 where
  pub version : String
  pub tracing_type : String
  pub sampling : ℕ
  pub policy_type : String
  pub telemetry_type : String
  pub jaeger_storage_type : String
