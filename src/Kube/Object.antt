-- ===== src/Kube/Object.antt =====
-- The objects of the cluster, with the fields that the operator sets or reads.
pub mod Pods
pub mod Resources
use workshop_operator.Prelude.{ℕ, String, Bool, true, false, Option, List, StringMap}
use workshop_operator.Api.{WorkshopSpec}
pub use workshop_operator.Kube.Object.Pods.{
  EnvSource, EnvVar, Handler, Probe, ContainerPort, VolumeMount, Container, VolumeSource, Volume,
  PodSecurityContext, AntiAffinity, PodSpec, DeploymentSpec, ClaimTemplate, StatefulSetSpec,
  literal, secret_key, field_ref, exec, tcp_socket, http_get, claim_source, config_map_source,
  empty_dir_source, no_source,
}
pub use workshop_operator.Kube.Object.Resources.{
  PolicyRule, CustomResourceDefinitionSpec, WebhookRule, MutatingWebhook, MavenProxySpec,
  MavenHostedSpec, GroupSpec, DockerHostedSpec, NpmProxySpec, NexusResourceSpec, GiteaResourceSpec,
  SecurityContextConstraintsSpec, ArgoCdSpec, AppProjectDestination, AppProjectSpec,
  ControlPlaneSpec,
}

pub data Kind : Type 0 where
  namespace user identity user_identity_mapping secret role_binding : Kind
  subscription install_plan route workshop deployment service : Kind
  persistent_volume_claim cert_manager : Kind
  custom_resource_definition service_account cluster_role cluster_role_binding : Kind
  role config_map stateful_set mutating_webhook_configuration : Kind
  security_context_constraints nexus gitea argo_cd app_project cluster_service_version : Kind
  service_mesh_control_plane service_mesh_member_roll kiali : Kind
  validating_webhook_configuration : Kind

-- Objects of these kinds belong to the whole cluster: the client drops the namespace that the code
-- gives them.
abbrev pub is_cluster_wide : Kind → Bool
is_cluster_wide namespace = true
is_cluster_wide user = true
is_cluster_wide identity = true
is_cluster_wide user_identity_mapping = true
is_cluster_wide custom_resource_definition = true
is_cluster_wide cluster_role = true
is_cluster_wide cluster_role_binding = true
is_cluster_wide mutating_webhook_configuration = true
is_cluster_wide validating_webhook_configuration = true
is_cluster_wide security_context_constraints = true
is_cluster_wide _ = false

-- Where an object is found; the namespace is empty for an object of the whole cluster.
pub record Ref : Type 0 where
  pub kind : Kind
  pub namespace_name : String
  pub name : String

pub record Meta : Type 0 where
  pub name : String
  pub namespace_name : String
  pub labels : StringMap String
  pub uid : String
  pub finalizers : List String
  pub deletion_timestamp : Option ℕ
  pub owner_references : List Ref

pub record ObjectReference : Type 0 where
  pub name : String
  pub uid : String

pub record Subject : Type 0 where
  pub kind : String
  pub api_group : String
  pub name : String
  pub namespace_name : String

pub record RoleRef : Type 0 where
  pub api_group : String
  pub kind : String
  pub name : String

pub record SubscriptionSpec : Type 0 where
  pub catalog_source : String
  pub catalog_source_namespace : String
  pub package_name : String
  pub channel : String
  pub starting_csv : String
  pub install_plan_approval : String

pub record SubscriptionStatus : Type 0 where
  pub installed_csv : String
  pub install_plan_ref : Option ObjectReference

pub record InstallPlanSpec : Type 0 where
  pub cluster_service_version_names : List String
  pub approved : Bool

-- `host` is filled in by the cluster.
pub record RouteSpec : Type 0 where
  pub host : String
  pub to_kind : String
  pub to_name : String
  pub target_port : ℕ
  pub tls_termination : Option String

-- The target port is the port itself when it is left out.
pub record ServicePort : Type 0 where
  pub name : String
  pub port : ℕ
  pub target_port : Option ℕ
  pub protocol : String

pub data Spec : Type 0 where
  namespace_spec : (finalizers : List String) → Spec
  user_spec : (full_name : String) → Spec
  identity_spec : (provider_name provider_user_name : String) → ObjectReference → Spec
  user_identity_mapping_spec : (identity user : ObjectReference) → Spec
  secret_spec : (type : String) (content string_data : StringMap String) → Spec
  role_binding_spec : List Subject → RoleRef → Spec
  subscription_spec : SubscriptionSpec → SubscriptionStatus → Spec
  install_plan_spec : InstallPlanSpec → Spec
  route_spec : RouteSpec → Spec
  workshop_spec : WorkshopSpec → Spec
  deployment_spec : DeploymentSpec → Spec
  service_spec : List ServicePort → (selector : StringMap String) → Spec
  persistent_volume_claim_spec : (access_modes : List String) (storage : String) → Spec
  cert_manager_spec : Spec
  custom_resource_definition_spec : CustomResourceDefinitionSpec → Spec
  service_account_spec : Spec
  cluster_role_spec : List PolicyRule → Spec
  cluster_role_binding_spec : List Subject → RoleRef → Spec
  role_spec : List PolicyRule → Spec
  config_map_spec : StringMap String → Spec
  stateful_set_spec : StatefulSetSpec → Spec
  mutating_webhook_configuration_spec : List MutatingWebhook → Spec
  security_context_constraints_spec : SecurityContextConstraintsSpec → Spec
  nexus_spec : NexusResourceSpec → Spec
  gitea_spec : GiteaResourceSpec → Spec
  argo_cd_spec : ArgoCdSpec → Spec
  app_project_spec : AppProjectSpec → Spec
  cluster_service_version_spec : Spec
  service_mesh_control_plane_spec : ControlPlaneSpec → Spec
  service_mesh_member_roll_spec : (members : List String) → Spec
  kiali_spec : Spec
  validating_webhook_configuration_spec : Spec

pub record Object : Type 0 where
  pub meta : Meta
  pub spec : Spec

abbrev pub kind_of : Spec → Kind
kind_of (namespace_spec _) = namespace
kind_of (user_spec _) = user
kind_of (identity_spec _ _ _) = identity
kind_of (user_identity_mapping_spec _ _) = user_identity_mapping
kind_of (secret_spec _ _ _) = secret
kind_of (role_binding_spec _ _) = role_binding
kind_of (subscription_spec _ _) = subscription
kind_of (install_plan_spec _) = install_plan
kind_of (route_spec _) = route
kind_of (workshop_spec _) = workshop
kind_of (deployment_spec _) = deployment
kind_of (service_spec _ _) = service
kind_of (persistent_volume_claim_spec _ _) = persistent_volume_claim
kind_of cert_manager_spec = cert_manager
kind_of (custom_resource_definition_spec _) = custom_resource_definition
kind_of service_account_spec = service_account
kind_of (cluster_role_spec _) = cluster_role
kind_of (cluster_role_binding_spec _ _) = cluster_role_binding
kind_of (role_spec _) = role
kind_of (config_map_spec _) = config_map
kind_of (stateful_set_spec _) = stateful_set
kind_of (mutating_webhook_configuration_spec _) = mutating_webhook_configuration
kind_of (security_context_constraints_spec _) = security_context_constraints
kind_of (nexus_spec _) = nexus
kind_of (gitea_spec _) = gitea
kind_of (argo_cd_spec _) = argo_cd
kind_of (app_project_spec _) = app_project
kind_of cluster_service_version_spec = cluster_service_version
kind_of (service_mesh_control_plane_spec _) = service_mesh_control_plane
kind_of (service_mesh_member_roll_spec _) = service_mesh_member_roll
kind_of kiali_spec = kiali
kind_of validating_webhook_configuration_spec = validating_webhook_configuration

abbrev pub ref : Object → Ref
ref o = record {
  kind = kind_of o.spec;
  namespace_name = elim (is_cluster_wide (kind_of o.spec)) [
    | true ↦ ""
    | false ↦ o.meta.namespace_name
  ];
  name = o.meta.name;
}
