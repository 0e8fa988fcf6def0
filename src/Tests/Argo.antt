-- ===== src/Tests/Argo.antt =====
-- Examples for controllers/gitops_reconciler.go.
use workshop_operator.Build.Roles.{new_role}
use workshop_operator.Build.Cluster.{new_role_binding_users, new_namespace}
use workshop_operator.Kube.Idiom.{
  delete_or_return, update_or_return, create_or_exists, create_err, get_object,
}
use workshop_operator.Util.{is_intersect_map, string_in_slice}
use workshop_operator.Kube.Merge.{merge}
use workshop_operator.Build.Workloads.{new_string_data_secret, new_config_map}
use workshop_operator.Kube.Watch.{get_deployment_status, wait_for_deployment}
use workshop_operator.CertManager.{requeue_if_failed}
use workshop_operator.InstallPlan.{approve_install_plan, set_approved, can_approve}
use workshop_operator.Build.Subscriptions.{new_red_hat_subscription}
use workshop_operator.Prelude.{
  ◌≡◌, refl, ℕ, ◌<>◌, ◌&&◌, none, some, List, [], ◌∷◌, lookup, leb, if◌then◌else◌, digits, digit,
  itoa, true, String, elem,
}
use workshop_operator.Kube.Object.{Object, subscription_spec, namespace_spec}
use workshop_operator.Kube.Flow.{
  success, is_requeued, return_if, give_back, propagate, function, ◌>>=◌, pure,
}
use workshop_operator.Kube.Release.{release, release_in_namespace}
use workshop_operator.Kube.Memory.{
  memory, memory-IsLawful, is_there, without, number, same, find, present_lem,
}
use workshop_operator.Kube.Installs.{AllPresent}
use workshop_operator.Kube.Removes.{Removed}
use workshop_operator.Build.Base.{object_meta}
use workshop_operator.Build.Resources.{
  new_red_hat_cluster_service_version, new_app_project_custom_resource, new_argo_cd_custom_resource,
}
use workshop_operator.Build.GitOps.{Gathered, gather, nothing_gathered}
use workshop_operator.Project.{project_username}
use workshop_operator.GitOps.{
  reconcile_git_ops, delete_git_ops, add_accounts, add_git_ops,
  delete_argocd_default_cluster_config_secret, manage_argocd_default_cluster_config_secret,
  add_account, hash, argocd_namespace_ref,
}
use workshop_operator.GitOps.Objects.{
  git_ops_refs, reconcile_git_ops-AllPresent, reconcile_git_ops-keeps,
}
use workshop_operator.GitOps.Deletion.{deleted_git_ops_refs, delete_git_ops-Removed}
use workshop_operator.GitOps.Accounts.{policies, add_accounts-gathers, account_names}
use workshop_operator.Tests.{two_users, deployment_of}

-- The operator is subscribed to and running, and so is the server of Argo CD; the namespace has the
-- finalizer that each namespace has.
abbrev running : List Object
running =
    record {
      meta = object_meta "openshift-gitops-operator" "openshift-operators" [];
      spec =
          subscription_spec
            (record {
              catalog_source = "redhat-operators";
              catalog_source_namespace = "openshift-marketplace";
              package_name = "openshift-gitops-operator";
              channel = "stable";
              starting_csv = "v1.2.0";
              install_plan_approval = "Manual";
            })
            (record { installed_csv = "v1.2.0"; install_plan_ref = none });
    }
    ∷ record { meta = object_meta "argocd" "" []; spec = namespace_spec ("kubernetes" ∷ []) }
    ∷ deployment_of "gitops-operator" "openshift-operators"
    ∷ deployment_of "argocd-server" "argocd"
    ∷ new_red_hat_cluster_service_version "v1.2.0" "openshift-operators"
    ∷ []

reconcile_git_ops-AllPresent_example :
    AllPresent memory memory-IsLawful
      (reconcile_git_ops memory two_users 1 ".example.com" "https://console" running).1
      (git_ops_refs two_users 1)
unfolding reconcile_git_ops function ◌>>=◌ propagate add_git_ops create_or_exists is_there find same
    new_red_hat_subscription approve_install_plan get_object requeue_if_failed wait_for_deployment
    get_deployment_status new_namespace hash new_argo_cd_custom_resource new_config_map
    new_string_data_secret manage_argocd_default_cluster_config_secret can_approve set_approved
    give_back is_requeued pure return_if create_err update_or_return number merge lookup
    is_intersect_map string_in_slice new_app_project_custom_resource
    new_red_hat_cluster_service_version new_role new_role_binding_users
reconcile_git_ops-AllPresent_example =
    reconcile_git_ops-AllPresent memory memory-IsLawful two_users 1 ".example.com" "https://console"
      running success refl refl refl

-- What `addGitOps` leaves.
abbrev with_argocd : List Object
with_argocd = (add_git_ops memory two_users 1 ".example.com" "https://console" running).1

delete_git_ops-Removed_example :
    Removed memory memory-IsLawful
      (deleted_git_ops_refs two_users 1)
      with_argocd
      (delete_git_ops memory two_users 1 ".example.com" "https://console" with_argocd).1
unfolding delete_git_ops function ◌>>=◌ hash propagate delete_argocd_default_cluster_config_secret
    delete_or_return is_there find add_git_ops create_or_exists same new_red_hat_subscription
    approve_install_plan get_object requeue_if_failed wait_for_deployment new_namespace
    new_role_binding_users new_app_project_custom_resource new_argo_cd_custom_resource
    new_red_hat_cluster_service_version new_role new_config_map new_string_data_secret
    manage_argocd_default_cluster_config_secret can_approve set_approved give_back is_requeued pure
    return_if create_err update_or_return number merge get_deployment_status lookup digit digits
    itoa is_intersect_map string_in_slice without release_in_namespace release
delete_git_ops-Removed_example =
    delete_git_ops-Removed memory memory-IsLawful two_users 1 ".example.com" "https://console"
      with_argocd success refl refl

-- The accounts of one user.
abbrev one_account : Gathered
one_account = gather "user1" "project1" "hashed" 1 nothing_gathered

add_accounts-gathers_example :
    (one_account.argocd_policy ≡ policies two_users 1 1)
    × ((i : ℕ)
        → lookup ("accounts." <> project_username i) one_account.config_map_content
          ≡ (if leb 1 i && leb i 1 then some "login" else none))
    × ((key : String)
        → lookup key one_account.config_map_content
          ≡ (if elem key (account_names 1 1) then some "login" else none))
unfolding add_accounts ◌>>=◌ add_account create_err merge is_there find create_or_exists same
    new_app_project_custom_resource new_role new_role_binding_users itoa
add_accounts-gathers_example = add_accounts-gathers two_users "hashed" memory 1 one_account [] refl

reconcile_git_ops-keeps_example :
    memory-IsLawful.present
      (reconcile_git_ops memory two_users 2 ".example.com" "https://console" running).1
      argocd_namespace_ref
    ≡ true
unfolding is_there find same number
reconcile_git_ops-keeps_example =
    reconcile_git_ops-keeps memory memory-IsLawful two_users 2 ".example.com" "https://console"
      running argocd_namespace_ref (present_lem argocd_namespace_ref running refl)
