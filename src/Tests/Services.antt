-- ===== src/Tests/Services.antt =====
-- Examples for Nexus, Gitea, Vault, and for waiting for a deployment.
use workshop_operator.Vault.Deletion.{deleted_vault_refs, delete_vault-Removed}
use workshop_operator.Build.Vault.{
  new_mutating_webhook_configuration, new_agent_injector_deployment, new_stateful_set,
}
use workshop_operator.Build.Workloads.{
  new_service_with_target, new_service_account, new_config_map, new_service,
}
use workshop_operator.Kube.Idiom.{update_or_return, create_or_exists, delete_or_return, get_object}
use workshop_operator.Build.Resources.{new_gitea_custom_resource, new_nexus_custom_resource}
use workshop_operator.Build.Operators.{
  new_ansible_operator_deployment, new_custom_resource_definition,
}
use workshop_operator.Build.Roles.{new_cluster_role_binding_sa, new_cluster_role}
use workshop_operator.Build.Cluster.{new_namespace}
use workshop_operator.Prelude.{
  ◌≡◌, refl, none, some, List, [], ◌∷◌, ◌++◌, eqb, if◌then◌else◌, false, true,
}
use workshop_operator.Kube.Object.{
  Object, deployment_spec, route_spec, security_context_constraints_spec,
}
use workshop_operator.Kube.Env.{Env, modified, watch_error, WatchEvent, other_event}
use workshop_operator.Kube.Flow.{
  next, success, is_requeued, return_if, give_back, propagate, function, ◌>>=◌, pure,
}
use workshop_operator.Kube.Memory.{
  memory, memory-IsLawful, is_there, without, number, same, find, memory-update_nameless,
  memory-get_at, memory-get_found,
}
use workshop_operator.Kube.Installs.{AllPresent}
use workshop_operator.Kube.Removes.{Removed, reverse_refs}
use workshop_operator.Kube.Watch.{get_deployment_status, wait_for_deployment}
use workshop_operator.Kube.Watch.Answer.{first_report, heard, get_deployment_status-answer}
use workshop_operator.Build.Base.{object_meta, pod_of, container_of}
use workshop_operator.Nexus.{reconcile_nexus, delete_nexus, add_nexus}
use workshop_operator.Nexus.Objects.{nexus_refs, reconcile_nexus-AllPresent, delete_nexus-Removed}
use workshop_operator.Gitea.{
  reconcile_gitea, delete_gitea, add_gitea, create_git_users, create_git_user,
}
use workshop_operator.Gitea.Objects.{gitea_refs, reconcile_gitea-AllPresent, delete_gitea-Removed}
use workshop_operator.Gitea.Accounts.{sign_up_requests, send_all, create_git_users-send_all}
use workshop_operator.Vault.{
  reconcile_vault, delete_vault, delete_vault_agent_injector, add_vault_agent_injector,
  delete_vault_namespace, delete_vault_server, delete_constraints, add_vault_server,
  add_constraints, constraints_ref,
}
use workshop_operator.Vault.Objects.{
  vault_server_refs, vault_agent_refs, reconcile_vault-AllPresent,
}
use workshop_operator.Tests.{two_users, web}

-- The deployments that the operators of Nexus and Gitea make, and the route of Gitea.
abbrev served : List Object
served =
    record {
      meta = object_meta "nexus" "nexus" [];
      spec = deployment_spec (record {
        replicas = some 1;
        match_labels = [];
        strategy = "";
        template_labels = [];
        pod = pod_of (container_of "nexus" "nexus" ∷ []);
      });
    }
    ∷ record {
      meta = object_meta "gitea-server" "gitea" [];
      spec = deployment_spec (record {
        replicas = some 1;
        match_labels = [];
        strategy = "";
        template_labels = [];
        pod = pod_of (container_of "gitea" "gitea" ∷ []);
      });
    }
    ∷ record {
      meta = object_meta "gitea-server" "gitea" [];
      spec = route_spec (record {
        host = "gitea.example.com";
        to_kind = "Service";
        to_name = "gitea-server";
        target_port = 3000;
        tls_termination = none;
      });
    }
    ∷ []

-- A watch that reports a second replica, then an error, behind which one event still comes.
abbrev events : List WatchEvent
events = modified 2 ∷ watch_error ∷ other_event ∷ modified 1 ∷ []

abbrev watched : Env
watched = record memory {
  watch_deployment = λ name namespace_name os. (some events, os);
  stop_watch = λ os. (1, os);
  ready_replicas = λ name namespace_name os. (some 2, os);
}

get_deployment_status-answer_example :
    (get_deployment_status watched "nexus" "nexus" []).0
    ≡ (if eqb 2 1 then next true else first_report (heard 1 events))
get_deployment_status-answer_example =
    get_deployment_status-answer watched "nexus" "nexus" 2 1 (λ u. refl) (λ u. refl) events [] refl

reconcile_nexus-AllPresent_example :
    AllPresent memory memory-IsLawful (reconcile_nexus memory two_users served).1 nexus_refs
unfolding reconcile_nexus function ◌>>=◌ propagate add_nexus create_or_exists is_there find same
    new_namespace new_custom_resource_definition new_service_account new_cluster_role
    new_cluster_role_binding_sa new_ansible_operator_deployment new_nexus_custom_resource
    wait_for_deployment give_back is_requeued pure return_if number get_deployment_status
reconcile_nexus-AllPresent_example =
    reconcile_nexus-AllPresent memory memory-IsLawful two_users served success refl refl refl

abbrev with_nexus : List Object
with_nexus = (add_nexus memory two_users served).1

delete_nexus-Removed_example :
    Removed memory memory-IsLawful
      (reverse_refs nexus_refs)
      with_nexus
      (delete_nexus memory two_users with_nexus).1
unfolding delete_nexus function ◌>>=◌ delete_or_return is_there find add_nexus create_or_exists same
    new_namespace new_custom_resource_definition new_service_account new_cluster_role
    new_cluster_role_binding_sa new_ansible_operator_deployment new_nexus_custom_resource
    wait_for_deployment get_deployment_status without is_requeued
delete_nexus-Removed_example =
    delete_nexus-Removed memory memory-IsLawful two_users with_nexus success refl refl

reconcile_gitea-AllPresent_example :
    AllPresent memory memory-IsLawful (reconcile_gitea memory web two_users 2 served).1 gitea_refs
unfolding reconcile_gitea function ◌>>=◌ propagate add_gitea create_or_exists is_there find same
    new_namespace new_custom_resource_definition new_service_account new_cluster_role
    new_cluster_role_binding_sa new_ansible_operator_deployment new_gitea_custom_resource
    wait_for_deployment get_deployment_status get_object create_git_user is_requeued
reconcile_gitea-AllPresent_example =
    reconcile_gitea-AllPresent memory memory-IsLawful web two_users 2 served success refl refl refl

abbrev with_gitea : List Object
with_gitea = (add_gitea memory web two_users 2 served).1

delete_gitea-Removed_example :
    Removed memory memory-IsLawful
      (reverse_refs gitea_refs)
      with_gitea
      (delete_gitea memory two_users with_gitea).1
unfolding delete_gitea function ◌>>=◌ delete_or_return is_there find add_gitea create_or_exists same
    new_namespace new_custom_resource_definition new_service_account new_cluster_role
    new_cluster_role_binding_sa new_ansible_operator_deployment new_gitea_custom_resource
    wait_for_deployment get_deployment_status get_object propagate create_git_user without
    is_requeued
delete_gitea-Removed_example =
    delete_gitea-Removed memory memory-IsLawful two_users with_gitea success refl refl

create_git_users-send_all_example :
    create_git_users memory web two_users "https://gitea.example.com" 1 2
    ≡ send_all memory (sign_up_requests web two_users "https://gitea.example.com" 1 2)
create_git_users-send_all_example =
    create_git_users-send_all memory web two_users "https://gitea.example.com" refl 1 2

-- The set of constraints that the one of Vault is copied from.
abbrev constrained : List Object
constrained =
    record {
      meta = object_meta "privileged" "" [];
      spec = security_context_constraints_spec (record { privileges = []; users = [] });
    }
    ∷ []

reconcile_vault-AllPresent_example :
    AllPresent memory memory-IsLawful
      (reconcile_vault memory two_users 2 constrained).1
      (vault_server_refs ++ vault_agent_refs)
unfolding reconcile_vault function ◌>>=◌ propagate add_vault_server create_or_exists is_there find
    same new_namespace new_config_map new_service_account add_constraints get_object
    update_or_return is_requeued new_cluster_role_binding_sa new_service new_stateful_set
    add_vault_agent_injector new_cluster_role new_service_with_target new_agent_injector_deployment
    new_mutating_webhook_configuration
reconcile_vault-AllPresent_example =
    reconcile_vault-AllPresent memory memory-IsLawful two_users memory-update_nameless
      (λ o os. memory-get_found (constraints_ref "vault") os o) 2 constrained success refl refl refl

abbrev with_vault : List Object
with_vault = (reconcile_vault memory two_users 2 constrained).1

delete_vault-Removed_example :
    Removed memory memory-IsLawful deleted_vault_refs with_vault
      (delete_vault memory two_users with_vault).1
    × (memory-IsLawful.present
          (delete_vault memory two_users with_vault).1
          (constraints_ref "vault")
        ≡ false)
unfolding delete_vault function ◌>>=◌ propagate delete_vault_server delete_or_return is_there find
    reconcile_vault add_vault_server create_or_exists same new_namespace new_config_map
    new_service_account add_constraints get_object update_or_return is_requeued new_stateful_set
    new_cluster_role_binding_sa new_service add_vault_agent_injector new_cluster_role
    new_service_with_target new_agent_injector_deployment new_mutating_webhook_configuration without
    delete_constraints delete_vault_agent_injector delete_vault_namespace
delete_vault-Removed_example =
    delete_vault-Removed memory memory-IsLawful (memory-get_at (constraints_ref "vault")) two_users
      with_vault success refl refl
