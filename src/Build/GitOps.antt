-- ===== src/Build/GitOps.antt =====
-- controllers/gitops_reconciler.go: the objects of Argo CD, and what the loop over the users gathers
-- for them.
use workshop_operator.Prelude.{ℕ, String, ◌<>◌, true, false, List, [], ◌∷◌, StringMap, insert, eqb}
use workshop_operator.Kube.Object.{Object, Subject}
use workshop_operator.Build.Base.{Workshop}
use workshop_operator.Build.Cluster.{new_role_binding_users}
use workshop_operator.Build.Workloads.{new_string_data_secret, new_config_map}
use workshop_operator.Build.Roles.{new_role, argo_cd_rules}
use workshop_operator.Build.Subscriptions.{new_red_hat_subscription}
use workshop_operator.Build.Resources.{new_argo_cd_custom_resource, new_app_project_custom_resource}

abbrev pub argocd_namespace_name : String
argocd_namespace_name = "argocd"

abbrev pub git_ops_subscription_name : String
git_ops_subscription_name = "openshift-gitops-operator"

abbrev pub git_ops_operator_namespace_name : String
git_ops_operator_namespace_name = "openshift-operators"

abbrev pub git_ops_deployment_name : String
git_ops_deployment_name = "gitops-operator"

abbrev pub argocd_deployment_name : String
argocd_deployment_name = "argocd-server"

abbrev pub argocd_role_name : String
argocd_role_name = "argocd-manager"

abbrev pub argocd_role_binding_name : String
argocd_role_binding_name = "argocd-manager"

-- One map is shared by all objects; its second entry is replaced before an object is made.
abbrev pub argocd_labels : (name : String) → StringMap String
argocd_labels name = ("app.kubernetes.io/part-of", "argocd") ∷ ("app.kubernetes.io/name", name) ∷ []

abbrev pub git_ops_subscription : Workshop → Object
git_ops_subscription ws =
    new_red_hat_subscription git_ops_subscription_name git_ops_operator_namespace_name
      "openshift-gitops-operator" ws.spec.infrastructure.git_ops.operator_hub.channel
      ws.spec.infrastructure.git_ops.operator_hub.cluster_service_version

-- The rules for one user, as lines of text.
abbrev pub user_policy : (username project_name : String) → String
user_policy username project_name =
    let user_role = "role:" <> username in
    "p, " <> user_role <> ", applications, *, " <> project_name <> "/*, allow\np, " <> user_role
    <> ", clusters, get, https://kubernetes.default.svc, allow\np, " <> user_role
    <> ", projects, *," <> project_name <> ", allow\np, " <> user_role
    <> ", repositories, *, http://gitea-server.gitea.svc:3000/" <> username <> "/*, allow\ng, "
    <> username <> ", " <> user_role <> "\n"

-- What the loop over the users gathers.
pub record Gathered : Type 0 where
  pub argocd_policy : String
  pub namespace_list : String
  pub secret_content : StringMap String
  pub config_map_content : StringMap String

abbrev pub nothing_gathered : Gathered
nothing_gathered = record {
  argocd_policy = "";
  namespace_list = "";
  secret_content = [];
  config_map_content = [];
}

abbrev pub gather : (username project_name password : String) → ℕ → Gathered → Gathered
gather username project_name password id acc = record {
  argocd_policy = acc.argocd_policy <> user_policy username project_name;
  namespace_list = elim (eqb id 1) [
    | true ↦ project_name
    | false ↦ acc.namespace_list <> "," <> project_name
  ];
  secret_content = insert ("accounts." <> username <> ".password") password acc.secret_content;
  config_map_content = insert ("accounts." <> username) "login" acc.config_map_content;
}

abbrev pub app_project_resource : (project_name argocd_policy : String) → Object
app_project_resource project_name argocd_policy =
    new_app_project_custom_resource project_name argocd_namespace_name
      (argocd_labels "appproject-cr") argocd_policy

abbrev pub manager_role : (project_name label : String) → Object
manager_role project_name label =
    new_role argocd_role_name project_name (argocd_labels label) argo_cd_rules

abbrev pub controller_subjects : List Subject
controller_subjects =
    record {
      kind = "User";
      api_group = "rbac.authorization.k8s.io";
      name = "system:serviceaccount:argocd:argocd-argocd-application-controller";
      namespace_name = "";
    }
    ∷ []

abbrev pub manager_role_binding : (project_name label : String) → Object
manager_role_binding project_name label =
    new_role_binding_users argocd_role_binding_name project_name (argocd_labels label)
      controller_subjects argocd_role_name "Role"

abbrev pub argocd_secret : StringMap String → Object
argocd_secret content =
    new_string_data_secret "argocd-secret" argocd_namespace_name (argocd_labels "argocd-secret")
      content

abbrev pub argocd_config_map : StringMap String → Object
argocd_config_map content =
    new_config_map "argocd-cm" argocd_namespace_name (argocd_labels "argocd-cm") content

abbrev pub argocd_resource : (argocd_policy : String) → Object
argocd_resource argocd_policy =
    new_argo_cd_custom_resource "argocd" argocd_namespace_name (argocd_labels "argocd-cr")
      argocd_policy

abbrev pub cluster_config : (namespace_list : String) → StringMap String
cluster_config namespace_list =
    ("config", "{\"tlsClientConfig\":{\"insecure\":false}}")
    ∷ ("name", "in-cluster")
    ∷ ("namespaces", namespace_list)
    ∷ ("server", "https://kubernetes.default.svc")
    ∷ []

abbrev pub cluster_config_secret : (namespace_list : String) → Object
cluster_config_secret namespace_list =
    new_string_data_secret "argocd-default-cluster-config" argocd_namespace_name
      (argocd_labels "argocd-default-cluster-config") (cluster_config namespace_list)
