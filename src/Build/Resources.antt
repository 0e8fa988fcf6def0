-- ===== src/Build/Resources.antt =====
-- common/nexus/customresource.go, common/gitea/customresource.go and common/argocd/customresource.go;
-- and the cluster service version of common/kubernetes/subscription.go
use workshop_operator.Prelude.{String, true, some, [], ◌∷◌, StringMap}
use workshop_operator.Kube.Object.{
  Object, MavenProxySpec, NexusResourceSpec, nexus_spec, gitea_spec, argo_cd_spec, app_project_spec,
  cluster_service_version_spec,
}
use workshop_operator.Build.Base.{object_meta}

abbrev permissive_proxy : (name remote_url : String) → MavenProxySpec
permissive_proxy name remote_url = record {
  name = name;
  remote_url = remote_url;
  layout_policy = "permissive";
}

abbrev nexus_resource_spec : NexusResourceSpec
nexus_resource_spec = record {
  volume_size = "5Gi";
  ssl = true;
  image_tag = "3.18.1-01-ubi-3";
  cpu_request = 1;
  cpu_limit = 2;
  memory_request = "2Gi";
  memory_limit = "2Gi";
  maven_proxy =
      permissive_proxy "maven-central" "https://repo1.maven.org/maven2/"
      ∷ permissive_proxy "redhat-ga" "https://maven.repository.redhat.com/ga/"
      ∷ permissive_proxy "jboss" "https://repository.jboss.org/nexus/content/groups/public"
      ∷ [];
  maven_hosted =
      record { name = "releases"; version_policy = "release"; write_policy = "allow_once" } ∷ [];
  maven_group =
      record {
        name = "maven-all-public";
        member_repos = "maven-central" ∷ "redhat-ga" ∷ "jboss" ∷ [];
      }
      ∷ [];
  docker_hosted = record { name = "docker"; http_port = 5000; v1_enabled = true } ∷ [];
  npm_proxy = record { name = "npm"; remote_url = "https://registry.npmjs.org" } ∷ [];
  npm_group = record { name = "npm-all"; member_repos = "npm" ∷ [] } ∷ [];
}

unfoldable pub new_nexus_custom_resource :
    (name namespace_name : String) (labels : StringMap String) → Object
new_nexus_custom_resource name namespace_name labels = record {
  meta = object_meta name namespace_name labels;
  spec = nexus_spec nexus_resource_spec;
}

unfoldable pub new_gitea_custom_resource :
    (name namespace_name : String) (labels : StringMap String) → Object
new_gitea_custom_resource name namespace_name labels = record {
  meta = object_meta name namespace_name labels;
  spec = gitea_spec (record {
    volume_size = "4Gi";
    ssl = true;
    service_name = "";
    postgresql_volume_size = "4Gi";
  });
}

unfoldable pub new_argo_cd_custom_resource :
    (name namespace_name : String) (labels : StringMap String) (argocd_policy : String) → Object
new_argo_cd_custom_resource name namespace_name labels argocd_policy = record {
  meta = object_meta name namespace_name labels;
  spec = argo_cd_spec (record {
    application_instance_label_key = "argocd.argoproj.io/instance";
    insecure = true;
    route_enabled = true;
    default_policy = some "";
    policy = some argocd_policy;
    scopes = some "[preferred_username]";
  });
}

-- The policy that the callers give is not used.
unfoldable pub new_app_project_custom_resource :
    (name namespace_name : String) (labels : StringMap String) (argocd_policy : String) → Object
new_app_project_custom_resource name namespace_name labels argocd_policy = record {
  meta = object_meta name namespace_name labels;
  spec = app_project_spec (record {
    destinations = record { namespace_name = name; server = "https://kubernetes.default.svc" } ∷ [];
    source_repos = "*" ∷ [];
  });
}

unfoldable pub new_red_hat_cluster_service_version : (starting_csv namespace_name : String) → Object
new_red_hat_cluster_service_version starting_csv namespace_name = record {
  meta = object_meta starting_csv namespace_name [];
  spec = cluster_service_version_spec;
}
