-- ===== src/Gitea/Objects.antt =====
-- The objects of `reconcileGitea` and `deleteGitea`.
use workshop_operator.Prelude.{◌≡◌, refl, ℕ, zero, suc, String, true, false, List, [], ◌∷◌, arith}
use workshop_operator.Kube.Object.{
  Ref, namespace, custom_resource_definition, service_account, cluster_role, cluster_role_binding,
  deployment, gitea,
}
use workshop_operator.Kube.Env.{Env, Got, found, failed}
use workshop_operator.Kube.Flow.{Return, next, success, has_error, is_requeued, pure, ◌>>◌}
use workshop_operator.Kube.Errors.{requeue_fails, error_requeued}
use workshop_operator.Kube.Lawful.{IsLawful}
use workshop_operator.Kube.Installs.{
  AllPresent, Installs, InstallsCall, InstallsCall-function, Installs-pure, Installs-bind,
  Installs-get, Installs-create, Installs-call,
}
use workshop_operator.Kube.Stores.{give_back-Installs}
use workshop_operator.Kube.Watch.{requeued_after_second}
use workshop_operator.Kube.Watch.Answer.{Installs-wait}
use workshop_operator.Kube.Removes.{
  reverse_refs, Removed, RemovesCall, RemovesCall-function, Removes-pure, Removes-delete,
}
use workshop_operator.Build.Base.{Workshop}
use workshop_operator.Build.Cluster.{new_namespace}
use workshop_operator.Build.Workloads.{new_service_account}
use workshop_operator.Build.Roles.{new_cluster_role, new_cluster_role_binding_sa}
use workshop_operator.Build.Operators.{
  new_custom_resource_definition, new_ansible_operator_deployment,
}
use workshop_operator.Build.Resources.{new_gitea_custom_resource}
use workshop_operator.Gitea.{
  Web, create_git_user, after_answer, sign_up_request, create_git_users, create_accounts, gitea_url,
  add_gitea, add_if_enabled, reconcile_gitea, delete_gitea,
}

-- In the order in which they are created.
abbrev pub gitea_refs : List Ref
gitea_refs =
    record { kind = namespace; namespace_name = ""; name = "gitea" }
    ∷ record {
      kind = custom_resource_definition;
      namespace_name = "";
      name = "giteas.gpte.opentlc.com";
    }
    ∷ record { kind = service_account; namespace_name = "gitea"; name = "gitea-operator" }
    ∷ record { kind = cluster_role; namespace_name = ""; name = "gitea-operator" }
    ∷ record { kind = cluster_role_binding; namespace_name = ""; name = "gitea-operator" }
    ∷ record { kind = deployment; namespace_name = "gitea"; name = "gitea-operator" }
    ∷ record { kind = gitea; namespace_name = "gitea"; name = "gitea-server" }
    ∷ []

module _ (env : Env) (law : IsLawful env) where
  open env use {World}

  module _ (web : Web) (ws : Workshop) where
    create_git_user-Installs :
        (username gitea_url : String)
        → InstallsCall env law has_error (create_git_user env web ws username gitea_url) []
    unfolding create_git_user pure after_answer
    create_git_user-Installs username gitea_url = record {
      meets = record {
        keeps =
            λ w r h. ground (arith, law.send_keeps (sign_up_request web ws username gitea_url) w r);
        done = λ w r e n. tt;
        returns = λ w r e. ground arith;
      };
    }

    users-Installs :
        (gitea_url : String) (id n : ℕ)
        → Installs env law is_requeued (create_git_users env web ws gitea_url id n) []
    unfolding create_git_users
    users-Installs gitea_url id zero = Installs-pure env law is_requeued tt
    users-Installs gitea_url id (suc n) =
        Installs-call env law is_requeued {l = []} has_error _ _ error_requeued
          (create_git_user-Installs _ gitea_url) (users-Installs gitea_url (suc id) n)

    accounts-Installs :
        (users : ℕ) (g : Got) → Installs env law is_requeued (create_accounts env web ws users g) []
    unfolding create_accounts
    accounts-Installs users (failed e) = give_back-Installs env law is_requeued requeue_fails e
    accounts-Installs users (found o) = users-Installs (gitea_url o) 1 users

    create_accounts-Installs :
        (users : ℕ) (g : Got)
        → Installs env law is_requeued (create_accounts env web ws users g >> pure success) []
    create_accounts-Installs users g =
        Installs-bind env law is_requeued {l = []} _ _ (accounts-Installs users g)
          (λ _. Installs-pure env law is_requeued success)

    add_gitea-Installs :
        (users : ℕ) → InstallsCall env law is_requeued (add_gitea env web ws users) gitea_refs
    unfolding add_gitea new_namespace new_custom_resource_definition new_service_account
        new_cluster_role new_cluster_role_binding_sa new_ansible_operator_deployment
        new_gitea_custom_resource is_requeued
    add_gitea-Installs users = InstallsCall-function env law is_requeued _ (
        search
          (
            Installs-get env law is_requeued,
            Installs-create env law is_requeued requeue_fails,
            Installs-wait env "gitea-server" "gitea" law is_requeued requeued_after_second refl,
            create_accounts-Installs users,
          )
          depth 12)

    enabled-Installs :
        (users : ℕ)
        → ws.spec.infrastructure.gitea.enabled ≡ true
        → InstallsCall env law is_requeued (reconcile_gitea env web ws users) gitea_refs
    unfolding reconcile_gitea
    enabled-Installs users on =
        rw (on, add_if_enabled)
          (InstallsCall-function env law is_requeued _ (
            Installs-call env law is_requeued {k = []} is_requeued _ _ (λ r e. e)
              (add_gitea-Installs users) (Installs-pure env law is_requeued success)))

    -- In a lawful cluster, with the component enabled, a run of `reconcileGitea` that is not
    -- requeued leaves the namespace, the custom resource definition, the service account, the
    -- cluster role and its binding, the operator and the custom resource in the cluster.
    pub reconcile_gitea-AllPresent :
        (users : ℕ) (w : World) (r : Return)
        → ws.spec.infrastructure.gitea.enabled ≡ true
        → (reconcile_gitea env web ws users w).0 ≡ next r
        → is_requeued r ≡ false
        → AllPresent env law (reconcile_gitea env web ws users w).1 gitea_refs
    reconcile_gitea-AllPresent users w r on e n = (enabled-Installs users on).meets.done w r e n

  module _ (ws : Workshop) where
    delete-Removes : RemovesCall env law is_requeued (delete_gitea env ws) (reverse_refs gitea_refs)
    unfolding delete_gitea new_namespace new_custom_resource_definition new_service_account
        new_cluster_role new_cluster_role_binding_sa new_ansible_operator_deployment
        new_gitea_custom_resource
    delete-Removes = RemovesCall-function env law is_requeued _ (
        search (Removes-pure env law is_requeued, Removes-delete env law is_requeued requeue_fails)
          depth 10)

    -- In a lawful cluster, a run of `deleteGitea` that is not requeued has found each object that
    -- `reconcileGitea` creates, and all but the namespace and the
    -- custom resource definition, which linger, are gone.
    pub delete_gitea-Removed :
        (w : World) (r : Return)
        → (delete_gitea env ws w).0 ≡ next r
        → is_requeued r ≡ false
        → Removed env law (reverse_refs gitea_refs) w (delete_gitea env ws w).1
    delete_gitea-Removed w r e n = delete-Removes.meets.done w r e n
