-- ===== src/GitOps.antt =====
-- controllers/gitops_reconciler.go: the GitOps operator, Argo CD and the projects of the users in it.
pub mod Objects
pub mod Accounts
pub mod Deletion
use workshop_operator.Prelude.{
  ◌≡◌, ℕ, zero, suc, String, ◌<>◌, Bool, true, false, not, ◌&&◌, Option, none, some, List, [], ◌∷◌,
  StringMap, itoa, insert, eqb, ◌=ₛ◌,
}
use workshop_operator.Kube.Object.{
  Object, Ref, Kind, Spec, Subject, RoleRef, ArgoCdSpec, AppProjectSpec, AppProjectDestination,
  namespace, app_project, role_binding, config_map, secret, argo_cd, namespace_spec,
  subscription_spec, secret_spec, role_binding_spec, config_map_spec, argo_cd_spec,
  app_project_spec,
}
use workshop_operator.Kube.Env.{Env, Error, already_exists, other, Got, found, failed}
use workshop_operator.Kube.Flow.{
  Code, Return, success, requeued, failure, panic, is_requeued, pure, give_back, ◌>>=◌, ◌>>◌,
  function, propagate,
}
use workshop_operator.Kube.Idiom.{
  create_or_exists, delete_or_return, update_or_return, create_err, get_object, return_error,
}
use workshop_operator.Kube.Watch.{wait_for_deployment}
use workshop_operator.Build.Base.{Workshop}
use workshop_operator.Build.Cluster.{new_namespace, new_role_binding_users}
use workshop_operator.Build.Workloads.{new_string_data_secret, new_config_map}
use workshop_operator.Build.Roles.{new_role, argo_cd_rules}
use workshop_operator.Build.Subscriptions.{new_red_hat_subscription}
use workshop_operator.Build.Resources.{
  new_argo_cd_custom_resource, new_app_project_custom_resource, new_red_hat_cluster_service_version,
}
use workshop_operator.Build.GitOps.{
  argocd_namespace_name, git_ops_subscription_name, git_ops_operator_namespace_name,
  git_ops_deployment_name, argocd_deployment_name, argocd_role_name, argocd_role_binding_name,
  argocd_labels, git_ops_subscription, user_policy, nothing_gathered, gather, app_project_resource,
  manager_role, controller_subjects, manager_role_binding, argocd_secret, argocd_config_map,
  argocd_resource, cluster_config, cluster_config_secret, Gathered,
}
use workshop_operator.Kube.Merge.{Change, merge}
use workshop_operator.Kube.Same.{same_texts, subjects_change}
use workshop_operator.Kube.Release.{release_in_namespace, finalizers_of}
use workshop_operator.Util.{is_intersect_map}
use workshop_operator.InstallPlan.{approve_install_plan}
use workshop_operator.Project.{staging_project_name, project_username}
use workshop_operator.CertManager.{requeue_if_failed}

-- `reflect.DeepEqual` on what the operator writes of a project and on subjects
same_destinations : List AppProjectDestination → List AppProjectDestination → Bool
same_destinations [] [] = true
same_destinations (x ∷ xs) (y ∷ ys) =
    let rest = same_destinations xs ys in
    x.namespace_name =ₛ y.namespace_name && x.server =ₛ y.server && rest
same_destinations _ _ = false

project_change : Spec → Change
project_change wanted = record {
  is_due = λ s. elim s [
    | app_project_spec p ↦ elim wanted [
      | app_project_spec q ↦ not (
          same_destinations q.destinations p.destinations
          && same_texts q.source_repos p.source_repos)
      | _ ↦ true
    ]
    | _ ↦ true
  ];
  apply = λ s. wanted;
}

config_map_change : StringMap String → Change
config_map_change content = record {
  is_due = λ s. not (is_intersect_map content (elim s [ config_map_spec there ↦ there | _ ↦ [] ]));
  apply = λ s. config_map_spec content;
}

same_policy : String → Option String → Bool
same_policy p none = false
same_policy p (some q) = p =ₛ q

no_argocd : ArgoCdSpec
no_argocd = record {
  application_instance_label_key = "";
  insecure = false;
  route_enabled = false;
  default_policy = none;
  policy = none;
  scopes = none;
}

argocd_of : Spec → ArgoCdSpec
argocd_of s = elim s [ argo_cd_spec a ↦ a | _ ↦ no_argocd ]

policy_change : (argocd_policy : String) → Change
policy_change argocd_policy = record {
  is_due = λ s. not (same_policy argocd_policy (argocd_of s).policy);
  apply = λ s. argo_cd_spec (record (argocd_of s) { policy = some argocd_policy });
}

with_string_data : StringMap String → Spec → Spec
with_string_data string_data (secret_spec type content _) = secret_spec type content string_data
with_string_data string_data _ = secret_spec "" [] string_data

secret_change : StringMap String → Change
secret_change string_data = record {
  is_due =
      λ s. not (is_intersect_map string_data (elim s [ secret_spec _ _ there ↦ there | _ ↦ [] ]));
  apply = with_string_data string_data;
}

abbrev pub argocd_ref : Kind → (name : String) → Ref
argocd_ref kind name = record { kind = kind; namespace_name = argocd_namespace_name; name = name }

abbrev pub argocd_namespace_ref : Ref
argocd_namespace_ref = record {
  kind = namespace;
  namespace_name = "";
  name = argocd_namespace_name;
}

module _ (env : Env) where
  open env use {World}

  unfoldable pub hash : (password : String) → Code World String
  hash password w =
      let (hashed, w') = env.bcrypt password w in
      elim hashed [ some h ↦ pure h w' | none ↦ give_back (failure (other "bcrypt")) w' ]

  unfoldable pub add_account : (project_name argocd_policy : String) → Code World (Unit {0})
  unfolding project_change same_destinations
  add_account project_name argocd_policy = do
    e ← create_err env (app_project_resource project_name argocd_policy)
    merge env (argocd_ref app_project project_name)
        (project_change (app_project_resource project_name argocd_policy).spec) e
    create_or_exists env (manager_role project_name "appproject-cr")
    e' ← create_err env (manager_role_binding project_name "appproject-cr")
    merge env
        (record {
          kind = role_binding;
          namespace_name = project_name;
          name = argocd_role_binding_name;
        })
        (subjects_change controller_subjects) e'

  -- `for id := 1; id <= users; id++`, from an id on
  unfoldable pub add_accounts :
      Workshop → (password : String) (id : ℕ) → ℕ → Gathered → Code World Gathered
  add_accounts ws password id zero acc = pure acc
  add_accounts ws password id (suc n) acc =
      let acc' = gather (project_username id) (staging_project_name ws id) password id acc in
      add_account (staging_project_name ws id) acc'.argocd_policy
      >> add_accounts ws password (suc id) n acc'

  unfoldable pub manage_argocd_default_cluster_config_secret :
      (namespace_list : String) → Code World Return
  unfolding secret_change with_string_data
  manage_argocd_default_cluster_config_secret namespace_list = function do
    e ← create_err env (cluster_config_secret namespace_list)
    merge env (argocd_ref secret "argocd-default-cluster-config")
        (secret_change (cluster_config namespace_list)) e
    pure success

  unfoldable pub add_git_ops :
      Workshop → (users : ℕ) (suffix console_url : String) → Code World Return
  unfolding add_accounts add_account project_change config_map_change policy_change same_policy
      argocd_of no_argocd
  add_git_ops ws users suffix console_url = function do
    create_or_exists env (git_ops_subscription ws)
    approval ←
        approve_install_plan env ws.spec.infrastructure.git_ops.operator_hub.cluster_service_version
          git_ops_subscription_name git_ops_operator_namespace_name
    requeue_if_failed env approval
    wait_for_deployment env git_ops_deployment_name git_ops_operator_namespace_name requeued
    create_or_exists env (new_namespace argocd_namespace_name)
    password ← hash ws.spec.user_details.default_password
    acc ← add_accounts ws password 1 users nothing_gathered
    create_or_exists env (argocd_secret acc.secret_content)
    e ← create_err env (argocd_config_map acc.config_map_content)
    merge env (argocd_ref config_map "argocd-cm") (config_map_change acc.config_map_content) e
    e' ← create_err env (argocd_resource acc.argocd_policy)
    merge env (argocd_ref argo_cd "argocd") (policy_change acc.argocd_policy) e'
    wait_for_deployment env argocd_deployment_name argocd_namespace_name requeued
    propagate is_requeued (manage_argocd_default_cluster_config_secret acc.namespace_list)
    pure success

  add_if_enabled :
      Workshop → (users : ℕ) (suffix console_url : String) → Bool → Code World (Unit {0})
  add_if_enabled ws users suffix console_url true =
      propagate is_requeued (add_git_ops ws users suffix console_url)
  add_if_enabled ws users suffix console_url false = pure tt

  unfoldable pub reconcile_git_ops :
      Workshop → (users : ℕ) (suffix console_url : String) → Code World Return
  unfolding add_if_enabled
  reconcile_git_ops ws users suffix console_url = function do
    add_if_enabled ws users suffix console_url ws.spec.infrastructure.git_ops.enabled
    pure success

  unfoldable pub delete_argocd_default_cluster_config_secret :
      (namespace_list : String) → Code World Return
  delete_argocd_default_cluster_config_secret namespace_list =
      function do delete_or_return env (cluster_config_secret namespace_list); pure success

  -- The label is that of the object that was made before. The texts that this loop gathers too go
  -- nowhere, but for the policy, which the builder of the project does not use.
  delete_accounts : Workshop → (label argocd_policy : String) (id : ℕ) → ℕ → Code World (Unit {0})
  delete_accounts ws label argocd_policy id zero = pure tt
  delete_accounts ws label argocd_policy id (suc n) =
      let project_name = staging_project_name ws id in
      let policy = argocd_policy <> user_policy (project_username id) project_name in
      do
        delete_or_return env (manager_role_binding project_name label)
        delete_or_return env (manager_role project_name label)
        delete_or_return env (app_project_resource project_name policy)
        delete_accounts ws "appproject-cr" policy (suc id) n

  abbrev starting_csv_of : Object → String
  starting_csv_of o = elim o.spec [ subscription_spec s _ ↦ s.starting_csv | _ ↦ "" ]

  release_argocd : Got → Code World (Unit {0})
  release_argocd (failed e) = give_back (failure e)
  release_argocd (found o) =
      release_in_namespace env (argocd_ref argo_cd "argocd") (finalizers_of o)

  unfoldable pub delete_git_ops :
      Workshop → (users : ℕ) (suffix console_url : String) → Code World Return
  unfolding delete_accounts release_argocd
  delete_git_ops ws users suffix console_url = function do
    hash ws.spec.user_details.default_password
    propagate is_requeued (delete_argocd_default_cluster_config_secret "")
    delete_or_return env (argocd_resource "")
    delete_or_return env (argocd_config_map [])
    delete_or_return env (argocd_secret [])
    delete_accounts ws "argocd-secret" "" 1 users
    delete_or_return env (git_ops_subscription ws)
    delete_or_return env (
        new_red_hat_cluster_service_version (starting_csv_of (git_ops_subscription ws))
          git_ops_operator_namespace_name)
    delete_or_return env (new_namespace argocd_namespace_name)
    answer ← get_object env argocd_namespace_ref
    release_argocd answer
    pure success
