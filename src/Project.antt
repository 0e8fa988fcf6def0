-- ===== src/Project.antt =====
-- controllers/project_reconciler.go: a namespace with three role bindings for each user.
pub mod Deletion
pub mod Objects
pub mod Termination
pub mod Endless
use workshop_operator.Prelude.{
  ℕ, zero, suc, String, ◌<>◌, Bool, true, false, ◌&&◌, List, [], ◌∷◌, StringMap, itoa, leb, ◌=ₛ◌,
}
use workshop_operator.Kube.Object.{Object, Ref, Subject, namespace}
use workshop_operator.Kube.Env.{Env, Got, found, failed, not_found}
use workshop_operator.Kube.Flow.{
  Code, Return, success, has_error, is_requeued, out_of_fuel, pure, ◌>>=◌, ◌>>◌, function,
  propagate,
}
use workshop_operator.Kube.Idiom.{create_or_exists, delete_or_return, get_object}
use workshop_operator.Kube.Rounds.{rounds_from}
use workshop_operator.Build.Base.{Workshop}
use workshop_operator.Build.Cluster.{new_namespace, new_role_binding_users, new_role_binding_sa}
use workshop_operator.User.{user_role_binding_name, kind_cluster_role}

abbrev pub project_labels : StringMap String
project_labels = ("app.kubernetes.io/part-of", "project") ∷ []

abbrev pub project_serviceaccount_name : String
project_serviceaccount_name = "default"

abbrev pub default_role_binding_name : String
default_role_binding_name = "view"

abbrev pub argocd_edit_role_binding_name : String
argocd_edit_role_binding_name = "edit"

-- `rbac.UserKind` is "User".
abbrev pub user_subject : String → Subject
user_subject name = record { kind = "User"; api_group = ""; name = name; namespace_name = "" }

abbrev pub argocd_subject : Subject
argocd_subject = user_subject "system:serviceaccount:argocd:argocd-argocd-application-controller"

unfoldable pub user_role_binding : (project_name username : String) → Object
user_role_binding project_name username =
    new_role_binding_users (username <> "-project") project_name project_labels
      (user_subject username ∷ []) user_role_binding_name kind_cluster_role

unfoldable pub default_role_binding : (project_name username : String) → Object
default_role_binding project_name username =
    new_role_binding_sa (username <> "-default") project_name project_labels
      project_serviceaccount_name default_role_binding_name kind_cluster_role

unfoldable pub argocd_edit_role_binding : (project_name username : String) → Object
argocd_edit_role_binding project_name username =
    new_role_binding_users (username <> "-argocd") project_name project_labels (argocd_subject ∷ [])
      argocd_edit_role_binding_name kind_cluster_role

-- `fmt.Sprintf("user%d", id)` and `fmt.Sprintf("%s%d", StagingName, id)`
abbrev pub project_username : ℕ → String
project_username id = "user" <> itoa id

abbrev pub staging_project_name : Workshop → ℕ → String
staging_project_name ws id = ws.spec.infrastructure.project.staging_name <> itoa id

abbrev pub project_ref : Workshop → ℕ → Ref
project_ref ws id = record {
  kind = namespace;
  namespace_name = "";
  name = staging_project_name ws id;
}

module _ (env : Env) where
  open env use {World}

  unfoldable pub manage_roles : (project_name username : String) → Code World Return
  manage_roles project_name username = function do
    create_or_exists env (user_role_binding project_name username)
    create_or_exists env (default_role_binding project_name username)
    create_or_exists env (argocd_edit_role_binding project_name username)
    pure success

  unfoldable pub add_project : (project_name username : String) → Code World Return
  add_project project_name username = function do
    create_or_exists env (new_namespace project_name)
    propagate has_error (manage_roles project_name username)
    pure success

  unfoldable pub delete_manage_roles : (project_name username : String) → Code World Return
  delete_manage_roles project_name username = function do
    delete_or_return env (argocd_edit_role_binding project_name username)
    delete_or_return env (default_role_binding project_name username)
    delete_or_return env (user_role_binding project_name username)
    pure success

  unfoldable pub delete_project_namespace : (project_name username : String) → Code World Return
  delete_project_namespace project_name username = function do
    propagate has_error (delete_manage_roles project_name username)
    delete_or_return env (new_namespace project_name)
    pure success

  module _ (ws : Workshop) where
    -- The work of a round for a user, if the projects have a name.
    per_user : (String → String → Code World Return) → ℕ → Bool → Code World (Unit {0})
    per_user work id true = pure tt
    per_user work id false =
        propagate is_requeued (work (staging_project_name ws id) (project_username id))

    -- A round is for a user, or looks for the namespace of a project.
    abbrev project_rounds :
        (String → String → Code World Return) → (ℕ → Bool) → ℕ → ℕ → Code World (Unit {0})
    project_rounds work wanted =
        rounds_from env wanted
          (λ id. per_user work id (ws.spec.infrastructure.project.staging_name =ₛ ""))
          (project_ref ws)

    -- `id <= users && enabledProject`
    abbrev pub is_added : ℕ → ℕ → Bool
    is_added users id = leb id users && ws.spec.infrastructure.project.enabled

    -- `id >= userId && enabledProject`
    abbrev pub is_deleted : ℕ → ℕ → Bool
    is_deleted user_id id = leb user_id id && ws.spec.infrastructure.project.enabled

    unfoldable pub reconcile_project : (fuel users : ℕ) → Code World Return
    unfolding per_user
    reconcile_project fuel users =
        function do project_rounds add_project (is_added users) fuel 1; pure success

    unfoldable pub delete_project : (fuel user_id : ℕ) → Code World Return
    unfolding per_user
    delete_project fuel user_id =
        function
          do project_rounds delete_project_namespace (is_deleted user_id) fuel 1; pure success
