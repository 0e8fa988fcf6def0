-- ===== src/GitOps/Deletion.antt =====
-- The objects of `deleteGitOps`.
use workshop_operator.Prelude.{◌≡◌, ℕ, zero, suc, String, false, List, [], ◌∷◌, ◌++◌, arith}
use workshop_operator.Kube.Object.{
  Ref, app_project, role, role_binding, secret, config_map, argo_cd, cluster_service_version,
}
use workshop_operator.Kube.Env.{Env, Got, found, failed, other}
use workshop_operator.Kube.Flow.{Return, next, success, is_requeued, pure, give_back}
use workshop_operator.Kube.Errors.{requeue_fails}
use workshop_operator.Kube.Lawful.{IsLawful}
use workshop_operator.Kube.Removes.{
  Removed, Removes, RemovesCall, RemovesCall-function, Removes-pure, Removes-bind, Removes-get,
  Removes-delete, Removes-call,
}
use workshop_operator.Kube.Release.Objects.{give_back-Removes, release_in_namespace-Removes}
use workshop_operator.Build.Base.{Workshop}
use workshop_operator.Build.Cluster.{new_namespace, new_role_binding_users}
use workshop_operator.Build.Workloads.{new_string_data_secret, new_config_map}
use workshop_operator.Build.Roles.{new_role}
use workshop_operator.Build.Subscriptions.{new_red_hat_subscription}
use workshop_operator.Build.Resources.{
  new_argo_cd_custom_resource, new_app_project_custom_resource, new_red_hat_cluster_service_version,
}
use workshop_operator.InstallPlan.{subscription_ref}
use workshop_operator.Project.{staging_project_name}
use workshop_operator.GitOps.{
  argocd_ref, argocd_namespace_ref, hash, delete_argocd_default_cluster_config_secret,
  delete_accounts, release_argocd, delete_git_ops,
}
use workshop_operator.GitOps.Objects.{in_project}

-- Those of `n` users from an id on, in the order in which they are deleted.
abbrev pub deleted_accounts_refs : Workshop → (id : ℕ) → ℕ → List Ref
deleted_accounts_refs ws id zero = []
deleted_accounts_refs ws id (suc n) =
    in_project role_binding (staging_project_name ws id)
    ∷ in_project role (staging_project_name ws id)
    ∷ argocd_ref app_project (staging_project_name ws id)
    ∷ deleted_accounts_refs ws (suc id) n

abbrev pub deleted_git_ops_refs : Workshop → (users : ℕ) → List Ref
deleted_git_ops_refs ws users =
    argocd_ref secret "argocd-default-cluster-config"
      ∷ argocd_ref argo_cd "argocd"
      ∷ argocd_ref config_map "argocd-cm"
      ∷ argocd_ref secret "argocd-secret"
      ∷ deleted_accounts_refs ws 1 users
    ++ subscription_ref "openshift-gitops-operator" "openshift-operators"
      ∷ record {
        kind = cluster_service_version;
        namespace_name = "openshift-operators";
        name = ws.spec.infrastructure.git_ops.operator_hub.cluster_service_version;
      }
      ∷ argocd_namespace_ref
      ∷ []

module _ (env : Env) (law : IsLawful env) where
  open env use {World}

  delete_accounts-Removes :
      (ws : Workshop) (label argocd_policy : String) (id n : ℕ)
      → Removes env law is_requeued
          (delete_accounts env ws label argocd_policy id n)
          (deleted_accounts_refs ws id n)
  unfolding delete_accounts new_app_project_custom_resource new_role new_role_binding_users
  delete_accounts-Removes ws label argocd_policy id zero = Removes-pure env law is_requeued tt
  delete_accounts-Removes ws label argocd_policy id (suc n) =
      Removes-delete env law is_requeued requeue_fails _ _ (
        Removes-delete env law is_requeued requeue_fails _ _ (
          Removes-delete env law is_requeued requeue_fails _ _
            (delete_accounts-Removes ws "appproject-cr" _ (suc id) n)))

  hash-Removes : (password : String) → Removes env law is_requeued (hash env password) []
  unfolding hash pure give_back
  hash-Removes password = record {
    meets = record {
      keeps = λ w r h. ground (arith, law.bcrypt_keeps password w r);
      done = λ w a e. tt;
      early = λ w r e. ground (arith, requeue_fails (other "bcrypt"));
    };
  }

  release_argocd-Removes : (g : Got) → Removes env law is_requeued (release_argocd env g) []
  unfolding release_argocd
  release_argocd-Removes (failed e) = give_back-Removes env law e
  release_argocd-Removes (found o) = release_in_namespace-Removes env law _ _

  config-Removes :
      RemovesCall env law is_requeued
        (delete_argocd_default_cluster_config_secret env "")
        (argocd_ref secret "argocd-default-cluster-config" ∷ [])
  unfolding delete_argocd_default_cluster_config_secret new_string_data_secret
  config-Removes = RemovesCall-function env law is_requeued _ (
      Removes-delete env law is_requeued requeue_fails _ _
        (Removes-pure env law is_requeued success))

  module _ (ws : Workshop) where
    git_ops-Removes :
        (users : ℕ) (suffix console_url : String)
        → RemovesCall env law is_requeued
            (delete_git_ops env ws users suffix console_url)
            (deleted_git_ops_refs ws users)
    unfolding delete_git_ops new_red_hat_subscription new_namespace new_string_data_secret
        new_config_map new_argo_cd_custom_resource new_red_hat_cluster_service_version
    git_ops-Removes users suffix console_url = RemovesCall-function env law is_requeued _ (
        Removes-bind env law is_requeued {l = []} _ _ (hash-Removes _) λ _.
          Removes-call env law is_requeued is_requeued _ _ (λ r e. e) config-Removes
            (Removes-delete env law is_requeued requeue_fails _ _ (
              Removes-delete env law is_requeued requeue_fails _ _ (
                Removes-delete env law is_requeued requeue_fails _ _ (
                  Removes-bind env law is_requeued {l = deleted_accounts_refs ws 1 users} _ _
                    (delete_accounts-Removes ws _ _ 1 users)
                    λ _. Removes-delete env law is_requeued requeue_fails _ _ (
                      Removes-delete env law is_requeued requeue_fails _ _ (
                        Removes-delete env law is_requeued requeue_fails _ _ (
                          Removes-get env law is_requeued _ _ λ g.
                            Removes-bind env law is_requeued {l = []} _ _ (release_argocd-Removes g)
                              (λ _. Removes-pure env law is_requeued success)))))))))

    -- In a lawful cluster, a run of `deleteGitOps` that is not requeued has found the objects of
    -- Argo CD, the three objects of every user, the subscription and its version, and the namespace,
    -- and all but the namespace and the custom resource, which linger, are gone.
    pub delete_git_ops-Removed :
        (users : ℕ) (suffix console_url : String) (w : World) (r : Return)
        → (delete_git_ops env ws users suffix console_url w).0 ≡ next r
        → is_requeued r ≡ false
        → Removed env law
            (deleted_git_ops_refs ws users)
            w
            (delete_git_ops env ws users suffix console_url w).1
    delete_git_ops-Removed users suffix console_url w r e n =
        (git_ops-Removes users suffix console_url).meets.done w r e n
