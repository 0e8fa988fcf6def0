-- ===== src/Api.antt =====
-- api/v1/workshop_types.go: the custom resource that describes a workshop.
use workshop_operator.Prelude.{String, Bool, StringMap}
use workshop_operator.Prelude.Int.{ℤ}

pub record OperatorHubSpec : Type 0 where
  pub channel : String
  pub cluster_service_version : String

pub record ImageSpec : Type 0 where
  pub name : String
  pub tag : String

pub record UserDetailsSpec : Type 0 where
  pub user_name_prefix : String
  pub number_of_users : ℤ
  pub default_password : String

pub record SourceSpec : Type 0 where
  pub git_url : String
  pub git_branch : String

pub record CertManagerSpec : Type 0 where
  pub enabled : Bool
  pub operator_hub : OperatorHubSpec

pub record CodeReadyWorkspaceSpec : Type 0 where
  pub enabled : Bool
  pub operator_hub : OperatorHubSpec
  pub openshift_oauth : Bool
  pub plugin_registry_image : ImageSpec

pub record GiteaSpec : Type 0 where
  pub enabled : Bool
  pub image : ImageSpec

pub record GitOpsSpec : Type 0 where
  pub enabled : Bool
  pub operator_hub : OperatorHubSpec

pub record BookbagSpec : Type 0 where
  pub enabled : Bool
  pub image : ImageSpec

pub record ScholarsSpec : Type 0 where
  pub enabled : Bool
  pub guide_url : StringMap String

pub record GuideSpec : Type 0 where
  pub bookbag : BookbagSpec
  pub scholars : ScholarsSpec

pub record NexusSpec : Type 0 where
  pub enabled : Bool
  pub image : ImageSpec

pub record PipelineSpec : Type 0 where
  pub enabled : Bool
  pub operator_hub : OperatorHubSpec

pub record ProjectSpec : Type 0 where
  pub enabled : Bool
  pub staging_name : String

pub record ServiceMeshSpec : Type 0 where
  pub enabled : Bool
  pub service_mesh_operator_hub : OperatorHubSpec
  pub elastic_search_operator_hub : OperatorHubSpec
  pub jaeger_operator_hub : OperatorHubSpec
  pub kiali_operator_hub : OperatorHubSpec

pub record ServerlessSpec : Type 0 where
  pub enabled : Bool
  pub operator_hub : OperatorHubSpec

pub record VaultSpec : Type 0 where
  pub enabled : Bool
  pub image : ImageSpec
  pub agent_injector_image : ImageSpec

pub record InfrastructureSpec : Type 0 where
  pub cert_manager : CertManagerSpec
  pub code_ready_workspace : CodeReadyWorkspaceSpec
  pub gitea : GiteaSpec
  pub git_ops : GitOpsSpec
  pub guide : GuideSpec
  pub nexus : NexusSpec
  pub pipeline : PipelineSpec
  pub project : ProjectSpec
  pub service_mesh : ServiceMeshSpec
  pub serverless : ServerlessSpec
  pub vault : VaultSpec

pub record WorkshopSpec : Type 0 where
  pub source : SourceSpec
  pub infrastructure : InfrastructureSpec
  pub user_details : UserDetailsSpec
