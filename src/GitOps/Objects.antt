-- ===== src/GitOps/Objects.antt =====
-- The objects of `reconcileGitOps`.
use workshop_operator.Prelude.{
  ◌≡◌, ◌≢◌, refl, ℕ, zero, suc, String, Bool, true, false, List, [], ◌∷◌, ◌++◌, arith, StringMap,
}
use workshop_operator.Kube.Object.{
  Ref, Kind, Spec, kind_of, workshop, app_project, role, role_binding, secret, config_map, argo_cd,
  secret_spec,
}
use workshop_operator.Kube.Env.{Env, other}
use workshop_operator.Kube.Flow.{Return, next, requeued, success, is_requeued, pure, give_back}
use workshop_operator.Kube.Errors.{requeue_fails}
use workshop_operator.Kube.Lawful.{IsLawful}
use workshop_operator.Kube.Meets.{Meets-propagate}
use workshop_operator.Kube.Installs.{
  AllPresent, Installs, InstallsCall, InstallsCall-function, Installs-pure, Installs-bind,
  Installs-create, Installs-call, Installs-last, Installs-weaken,
}
use workshop_operator.Kube.Merge.Objects.{Installs-merge, Installs-merged}
use workshop_operator.Kube.Watch.Answer.{Installs-wait}
use workshop_operator.Kube.Same.{subjects_change, subjects-kind}
use workshop_operator.Build.Base.{Workshop}
use workshop_operator.Build.GitOps.{Gathered}
use workshop_operator.Build.Cluster.{new_namespace, new_role_binding_users}
use workshop_operator.Build.Workloads.{new_string_data_secret, new_config_map}
use workshop_operator.Build.Roles.{new_role}
use workshop_operator.Build.Subscriptions.{new_red_hat_subscription}
use workshop_operator.Build.Resources.{new_argo_cd_custom_resource, new_app_project_custom_resource}
use workshop_operator.InstallPlan.{subscription_ref}
use workshop_operator.Project.{staging_project_name}
use workshop_operator.CertManager.Objects.{approve-Installs, requeue-Installs}
use workshop_operator.GitOps.{
  argocd_ref, argocd_namespace_ref, add_account, add_accounts, add_git_ops, add_if_enabled, hash,
  reconcile_git_ops, manage_argocd_default_cluster_config_secret, with_string_data, secret_change,
  project_change, config_map_change, policy_change,
}

-- An object in the project of a user.
abbrev pub in_project : Kind → (project_name : String) → Ref
in_project kind project_name = record {
  kind = kind;
  namespace_name = project_name;
  name = "argocd-manager";
}

-- The objects for a user, in the order in which they are created.
abbrev pub account_refs : (project_name : String) → List Ref
account_refs project_name =
    argocd_ref app_project project_name
    ∷ in_project role project_name
    ∷ in_project role_binding project_name
    ∷ []

-- Those for `n` users from an id on.
abbrev pub accounts_refs : Workshop → (id : ℕ) → ℕ → List Ref
accounts_refs ws id zero = []
accounts_refs ws id (suc n) =
    account_refs (staging_project_name ws id) ++ accounts_refs ws (suc id) n

abbrev pub git_ops_refs : Workshop → (users : ℕ) → List Ref
git_ops_refs ws users =
    subscription_ref "openshift-gitops-operator" "openshift-operators"
      ∷ argocd_namespace_ref
      ∷ accounts_refs ws 1 users
    ++ argocd_ref secret "argocd-secret"
      ∷ argocd_ref config_map "argocd-cm"
      ∷ argocd_ref argo_cd "argocd"
      ∷ argocd_ref secret "argocd-default-cluster-config"
      ∷ []

-- A change makes no workshop.
string_data-kind :
    (content : StringMap String) (s : Spec) → kind_of (with_string_data content s) ≢ workshop
unfolding with_string_data
string_data-kind content (secret_spec _ _ _) h = cc
string_data-kind content _ h = cc

module _ (env : Env) (law : IsLawful env) where
  open env use {World}

  add_account-Installs :
      (project_name argocd_policy : String)
      → Installs env law is_requeued
          (add_account env project_name argocd_policy)
          (account_refs project_name)
  unfolding add_account new_app_project_custom_resource new_role new_role_binding_users
      project_change subjects_change
  add_account-Installs project_name argocd_policy =
      Installs-merge env law is_requeued requeue_fails _ _ (λ s h. cc) _ _
        (Installs-create env law is_requeued requeue_fails _ _
          (Installs-merged env law is_requeued requeue_fails _ _ (subjects-kind _) _))

  add_accounts-Installs :
      (ws : Workshop) (password : String) (id n : ℕ) (acc : Gathered)
      → Installs env law is_requeued (add_accounts env ws password id n acc) (accounts_refs ws id n)
  unfolding add_accounts
  add_accounts-Installs ws password id zero acc = Installs-pure env law is_requeued acc
  add_accounts-Installs ws password id (suc n) acc =
      Installs-bind env law is_requeued {l = account_refs (staging_project_name ws id)} _ _
        (add_account-Installs _ _) (λ _. add_accounts-Installs ws password (suc id) n _)

  hash-Installs : (password : String) → Installs env law is_requeued (hash env password) []
  unfolding hash pure give_back
  hash-Installs password = record {
    meets = record {
      keeps = λ w r h. ground (arith, law.bcrypt_keeps password w r);
      done = λ w a e. tt;
      early = λ w r e. ground (arith, requeue_fails (other "bcrypt"));
    };
  }

  config-Installs :
      (namespace_list : String)
      → InstallsCall env law is_requeued
          (manage_argocd_default_cluster_config_secret env namespace_list)
          (argocd_ref secret "argocd-default-cluster-config" ∷ [])
  unfolding manage_argocd_default_cluster_config_secret new_string_data_secret secret_change
  config-Installs namespace_list = InstallsCall-function env law is_requeued _ (
      Installs-merge env law is_requeued requeue_fails _ _ (string_data-kind _) _ _
        (Installs-pure env law is_requeued success))

  module _ (ws : Workshop) where
    add_git_ops-Installs :
        (users : ℕ) (suffix console_url : String)
        → InstallsCall env law is_requeued
            (add_git_ops env ws users suffix console_url)
            (git_ops_refs ws users)
    unfolding add_git_ops new_red_hat_subscription new_namespace new_string_data_secret
        new_config_map new_argo_cd_custom_resource config_map_change policy_change is_requeued
    add_git_ops-Installs users suffix console_url = InstallsCall-function env law is_requeued _ (
        Installs-create env law is_requeued requeue_fails _ _ (
          Installs-bind env law is_requeued {l = []} _ _ (approve-Installs env law _ _ _)
            λ approval.
              Installs-bind env law is_requeued {l = []} _ _ (requeue-Installs env law approval)
                λ _. Installs-wait env _ _ law is_requeued requeued refl _ (
                  Installs-create env law is_requeued requeue_fails _ _ (
                    Installs-bind env law is_requeued {l = []} _ _ (hash-Installs _) λ password.
                      Installs-bind env law is_requeued {l = accounts_refs ws 1 users} _ _
                        (add_accounts-Installs ws password 1 users _)
                        λ acc. Installs-create env law is_requeued requeue_fails _ _ (
                          Installs-merge env law is_requeued requeue_fails _ _ (λ s h. cc) _ _
                            (Installs-merge env law is_requeued requeue_fails _ _ (λ s h. cc) _ _
                              (Installs-wait env _ _ law is_requeued requeued refl _ (
                                Installs-call env law is_requeued {k = []} is_requeued _ _
                                  (λ r e. e) (config-Installs _)
                                  (Installs-pure env law is_requeued success)))))))))

    enabled-Installs :
        (users : ℕ) (suffix console_url : String) (b : Bool)
        → b ≡ true
        → Installs env law is_requeued
            (add_if_enabled env ws users suffix console_url b)
            (git_ops_refs ws users)
    unfolding add_if_enabled
    enabled-Installs users suffix console_url true on = record {
      meets = Meets-propagate _ (add_git_ops-Installs users suffix console_url).meets (λ r h. h);
    }
    enabled-Installs users suffix console_url false on = cc

    -- In a lawful cluster, with the component enabled, a run of `reconcileGitOps` that is not
    -- requeued leaves the subscription, the namespace, the secrets, the config map and the custom
    -- resource of Argo CD, and for every user an Argo CD project and a role and its binding in the
    -- user's project.
    pub reconcile_git_ops-AllPresent :
        (users : ℕ) (suffix console_url : String) (w : World) (r : Return)
        → ws.spec.infrastructure.git_ops.enabled ≡ true
        → (reconcile_git_ops env ws users suffix console_url w).0 ≡ next r
        → is_requeued r ≡ false
        → AllPresent env law
            (reconcile_git_ops env ws users suffix console_url w).1
            (git_ops_refs ws users)
    unfolding reconcile_git_ops
    reconcile_git_ops-AllPresent users suffix console_url w r on e n =
        (InstallsCall-function env law is_requeued _ (
            Installs-last env law is_requeued _ success
              (enabled-Installs users suffix console_url _ on))).meets.done
          w r e n

    any-Installs :
        (users : ℕ) (suffix console_url : String) (b : Bool)
        → Installs env law is_requeued (add_if_enabled env ws users suffix console_url b) []
    unfolding add_if_enabled
    any-Installs users suffix console_url false = Installs-pure env law is_requeued tt
    any-Installs users suffix console_url true =
        Installs-weaken env law is_requeued _ (enabled-Installs users suffix console_url true refl)

    -- In a lawful cluster, whether the component is enabled or not and however the run ends, with
    -- success, a requeue, an error or a panic, `reconcileGitOps` takes away no object: one that is
    -- there before the run is there after it.
    pub reconcile_git_ops-keeps :
        (users : ℕ) (suffix console_url : String) (w : World) (r : Ref)
        → law.present w r ≡ true
        → law.present (reconcile_git_ops env ws users suffix console_url w).1 r ≡ true
    unfolding reconcile_git_ops
    reconcile_git_ops-keeps users suffix console_url w r h =
        (InstallsCall-function env law is_requeued _ (
            Installs-last env law is_requeued _ success
              (any-Installs users suffix console_url _))).meets.keeps
          w r h
