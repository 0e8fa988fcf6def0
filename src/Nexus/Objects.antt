-- ===== src/Nexus/Objects.antt =====
-- The objects of `reconcileNexus` and `deleteNexus`.
use workshop_operator.Prelude.{◌≡◌, refl, true, false, List, [], ◌∷◌}
use workshop_operator.Kube.Object.{
  Ref, namespace, custom_resource_definition, service_account, cluster_role, cluster_role_binding,
  deployment, nexus,
}
use workshop_operator.Kube.Env.{Env}
use workshop_operator.Kube.Flow.{Return, next, success, is_requeued}
use workshop_operator.Kube.Errors.{requeue_fails}
use workshop_operator.Kube.Lawful.{IsLawful}
use workshop_operator.Kube.Installs.{
  AllPresent, InstallsCall, InstallsCall-function, Installs-pure, Installs-create, Installs-call,
}
use workshop_operator.Kube.Watch.{requeued_after_second}
use workshop_operator.Kube.Watch.Answer.{Installs-wait}
use workshop_operator.Kube.Removes.{
  reverse_refs, Removed, RemovesCall, RemovesCall-function, Removes-pure, Removes-delete,
}
use workshop_operator.Build.Base.{Workshop}
use workshop_operator.Build.Cluster.{new_namespace}
use workshop_operator.Build.Workloads.{new_service_account}
use workshop_operator.Build.Roles.{new_cluster_role, new_cluster_role_binding_sa}
use workshop_operator.Build.Operators.{
  new_custom_resource_definition, new_ansible_operator_deployment,
}
use workshop_operator.Build.Resources.{new_nexus_custom_resource}
use workshop_operator.Nexus.{add_nexus, add_if_enabled, reconcile_nexus, delete_nexus}

-- In the order in which they are created.
abbrev pub nexus_refs : List Ref
nexus_refs =
    record { kind = namespace; namespace_name = ""; name = "nexus" }
    ∷ record {
      kind = custom_resource_definition;
      namespace_name = "";
      name = "nexus.gpte.opentlc.com";
    }
    ∷ record { kind = service_account; namespace_name = "nexus"; name = "nexus-operator" }
    ∷ record { kind = cluster_role; namespace_name = ""; name = "nexus-operator" }
    ∷ record { kind = cluster_role_binding; namespace_name = ""; name = "nexus-operator" }
    ∷ record { kind = deployment; namespace_name = "nexus"; name = "nexus-operator" }
    ∷ record { kind = nexus; namespace_name = "nexus"; name = "nexus" }
    ∷ []

module _ (env : Env) (law : IsLawful env) where
  open env use {World}

  module _ (ws : Workshop) where
    add_nexus-Installs : InstallsCall env law is_requeued (add_nexus env ws) nexus_refs
    unfolding add_nexus new_namespace new_custom_resource_definition new_service_account
        new_cluster_role new_cluster_role_binding_sa new_ansible_operator_deployment
        new_nexus_custom_resource is_requeued
    add_nexus-Installs = InstallsCall-function env law is_requeued _ (
        search
          (
            Installs-pure env law is_requeued,
            Installs-create env law is_requeued requeue_fails,
            Installs-wait env "nexus" "nexus" law is_requeued requeued_after_second refl,
          )
          depth 12)

    enabled-Installs :
        ws.spec.infrastructure.nexus.enabled ≡ true
        → InstallsCall env law is_requeued (reconcile_nexus env ws) nexus_refs
    unfolding reconcile_nexus
    enabled-Installs on =
        rw (on, add_if_enabled)
          (InstallsCall-function env law is_requeued _ (
            Installs-call env law is_requeued {k = []} is_requeued _ _ (λ r e. e) add_nexus-Installs
              (Installs-pure env law is_requeued success)))

    delete-Removes : RemovesCall env law is_requeued (delete_nexus env ws) (reverse_refs nexus_refs)
    unfolding delete_nexus new_namespace new_custom_resource_definition new_service_account
        new_cluster_role new_cluster_role_binding_sa new_ansible_operator_deployment
        new_nexus_custom_resource
    delete-Removes = RemovesCall-function env law is_requeued _ (
        search (Removes-pure env law is_requeued, Removes-delete env law is_requeued requeue_fails)
          depth 10)

    -- In a lawful cluster, with the component enabled, a run of `reconcileNexus` that is not
    -- requeued leaves the namespace, the custom resource definition, the service account, the
    -- cluster role and its binding, the operator and the custom resource in the cluster.
    pub reconcile_nexus-AllPresent :
        (w : World) (r : Return)
        → ws.spec.infrastructure.nexus.enabled ≡ true
        → (reconcile_nexus env ws w).0 ≡ next r
        → is_requeued r ≡ false
        → AllPresent env law (reconcile_nexus env ws w).1 nexus_refs
    reconcile_nexus-AllPresent w r on e n = (enabled-Installs on).meets.done w r e n

    -- In a lawful cluster, a run of `deleteNexus` that is not requeued has found each object that
    -- `reconcileNexus` creates, and all but the namespace and the custom resource definition,
    -- which linger, are gone.
    pub delete_nexus-Removed :
        (w : World) (r : Return)
        → (delete_nexus env ws w).0 ≡ next r
        → is_requeued r ≡ false
        → Removed env law (reverse_refs nexus_refs) w (delete_nexus env ws w).1
    delete_nexus-Removed w r e n = delete-Removes.meets.done w r e n
