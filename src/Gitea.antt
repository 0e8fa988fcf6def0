-- ===== src/Gitea.antt =====
-- controllers/gitea_reconciler.go: the Gitea server, its operator and the accounts of the users.
pub mod Objects
pub mod Accounts
use workshop_operator.Prelude.{
  ℕ, zero, suc, String, ◌<>◌, Bool, true, false, [], ◌∷◌, StringMap, itoa,
}
use workshop_operator.Kube.Object.{Object, Ref, route, route_spec}
use workshop_operator.Kube.Env.{
  Env, HttpRequest, HttpAnswer, status_code, http_failed, Got, found, failed,
}
use workshop_operator.Kube.Flow.{
  Code, Return, success, failure, panic, has_error, is_requeued, pure, give_back, ◌>>=◌, ◌>>◌,
  function, propagate,
}
use workshop_operator.Kube.Idiom.{create_or_exists, delete_or_return, get_object}
use workshop_operator.Kube.Watch.{wait_for_deployment, requeued_after_second}
use workshop_operator.Build.Base.{Workshop}
use workshop_operator.Build.Cluster.{new_namespace}
use workshop_operator.Build.Workloads.{new_service_account}
use workshop_operator.Build.Roles.{new_cluster_role, new_cluster_role_binding_sa, gitea_rules}
use workshop_operator.Build.Operators.{
  new_custom_resource_definition, new_ansible_operator_deployment,
}
use workshop_operator.Build.Resources.{new_gitea_custom_resource}

-- `url.Values.Encode`, the length of a text in bytes, and whether `http.NewRequest` takes a URL.
pub record Web : Type 0 where
  pub encode : StringMap String → String
  pub byte_length : String → ℕ
  pub is_url : String → Bool

abbrev pub gitea_labels : StringMap String
gitea_labels =
    ("app", "gitea")
    ∷ ("app.kubernetes.io/name", "gitea")
    ∷ ("app.kubernetes.io/part-of", "gitea")
    ∷ []

abbrev pub gitea_namespace_name : String
gitea_namespace_name = "gitea"

abbrev pub gitea_deployment_name : String
gitea_deployment_name = "gitea-server"

abbrev pub gitea_ansible_deployment_name : String
gitea_ansible_deployment_name = "gitea-operator"

abbrev pub gitea_role_binding_name : String
gitea_role_binding_name = "gitea-operator"

abbrev pub gitea_service_account_name : String
gitea_service_account_name = "gitea-operator"

abbrev pub gitea_cluster_role_name : String
gitea_cluster_role_name = "gitea-operator"

abbrev pub gitea_custom_resource_definition : Object
gitea_custom_resource_definition =
    new_custom_resource_definition "giteas.gpte.opentlc.com" "gpte.opentlc.com" "Gitea" "GiteaList"
      "giteas" "gitea" "v1alpha1" []

abbrev pub gitea_service_account : Object
gitea_service_account =
    new_service_account gitea_service_account_name gitea_namespace_name gitea_labels

abbrev pub gitea_cluster_role : Object
gitea_cluster_role =
    new_cluster_role gitea_cluster_role_name gitea_namespace_name gitea_labels gitea_rules

-- `addGitea` gives the name of the role binding as the role, `deleteGitea` that of the cluster
-- role: the two are one text.
abbrev pub gitea_cluster_role_binding : (role_name : String) → Object
gitea_cluster_role_binding role_name =
    new_cluster_role_binding_sa gitea_role_binding_name gitea_namespace_name gitea_labels
      gitea_service_account_name role_name "ClusterRole"

abbrev pub gitea_operator : Workshop → Object
gitea_operator ws =
    new_ansible_operator_deployment gitea_ansible_deployment_name gitea_namespace_name gitea_labels
      (ws.spec.infrastructure.gitea.image.name <> ":" <> ws.spec.infrastructure.gitea.image.tag)
      gitea_service_account_name

abbrev pub gitea_custom_resource : Object
gitea_custom_resource = new_gitea_custom_resource "gitea-server" gitea_namespace_name gitea_labels

abbrev pub gitea_route_ref : Ref
gitea_route_ref = record {
  kind = route;
  namespace_name = gitea_namespace_name;
  name = gitea_deployment_name;
}

abbrev pub gitea_url : Object → String
gitea_url o = "https://" <> (elim o.spec [ route_spec s ↦ s.host | _ ↦ "" ])

abbrev pub sign_up_form : (username default_password : String) → StringMap String
sign_up_form username default_password =
    ("user_name", username)
    ∷ ("email", username <> "@none.com")
    ∷ ("password", default_password)
    ∷ ("retype", default_password)
    ∷ []

abbrev pub sign_up_request : Web → Workshop → (username gitea_url : String) → HttpRequest
sign_up_request web ws username gitea_url =
    let body = web.encode (sign_up_form username ws.spec.user_details.default_password) in
    record {
      method = "POST";
      url = gitea_url <> "/user/sign_up";
      headers =
          ("Content-Type", "application/x-www-form-urlencoded")
          ∷ ("Accept", "application/json")
          ∷ ("Content-Length", itoa (web.byte_length body))
          ∷ [];
      body = body;
    }

module _ (env : Env) (web : Web) where
  open env use {World}

  -- Any answer will do: the status is only logged.
  after_answer : HttpAnswer → Return
  after_answer (http_failed e) = failure e
  after_answer (status_code _) = success

  -- A request that cannot be made is logged, and then nil is read.
  unfoldable pub create_git_user : Workshop → (username gitea_url : String) → Code World Return
  unfolding after_answer
  create_git_user ws username gitea_url w = elim (web.is_url (gitea_url <> "/user/sign_up")) [
    | true ↦
        let (answer, w') = env.send (sign_up_request web ws username gitea_url) w in
        pure (after_answer answer) w'
    | false ↦ (panic, w)
  ]

  -- `for id := 1; id <= users; id++`, from an id on
  pub create_git_users : Workshop → (gitea_url : String) (id : ℕ) → ℕ → Code World (Unit {0})
  create_git_users ws gitea_url id zero = pure tt
  create_git_users ws gitea_url id (suc n) = do
    propagate has_error (create_git_user ws ("user" <> itoa id) gitea_url)
    create_git_users ws gitea_url (suc id) n

  create_accounts : Workshop → (users : ℕ) → Got → Code World (Unit {0})
  create_accounts ws users (failed e) = give_back (failure e)
  create_accounts ws users (found o) = create_git_users ws (gitea_url o) 1 users

  unfoldable pub add_gitea : Workshop → (users : ℕ) → Code World Return
  unfolding create_accounts create_git_users
  add_gitea ws users = function do
    create_or_exists env (new_namespace gitea_namespace_name)
    create_or_exists env gitea_custom_resource_definition
    create_or_exists env gitea_service_account
    create_or_exists env gitea_cluster_role
    create_or_exists env (gitea_cluster_role_binding gitea_role_binding_name)
    create_or_exists env (gitea_operator ws)
    create_or_exists env gitea_custom_resource
    wait_for_deployment env gitea_deployment_name gitea_namespace_name requeued_after_second
    gitea_route ← get_object env gitea_route_ref
    create_accounts ws users gitea_route
    pure success

  add_if_enabled : Workshop → (users : ℕ) → Bool → Code World (Unit {0})
  add_if_enabled ws users true = propagate is_requeued (add_gitea ws users)
  add_if_enabled ws users false = pure tt

  unfoldable pub reconcile_gitea : Workshop → (users : ℕ) → Code World Return
  unfolding add_if_enabled
  reconcile_gitea ws users =
      function do add_if_enabled ws users ws.spec.infrastructure.gitea.enabled; pure success

module _ (env : Env) where
  open env use {World}

  unfoldable pub delete_gitea : Workshop → Code World Return
  delete_gitea ws = function do
    delete_or_return env gitea_custom_resource
    delete_or_return env (gitea_operator ws)
    delete_or_return env (gitea_cluster_role_binding gitea_cluster_role_name)
    delete_or_return env gitea_cluster_role
    delete_or_return env gitea_service_account
    delete_or_return env gitea_custom_resource_definition
    delete_or_return env (new_namespace gitea_namespace_name)
    pure success
