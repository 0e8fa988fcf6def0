-- ===== src/Tests/Meshes.antt =====
-- Examples for controllers/servicemesh_reconciler.go.
use workshop_operator.Kube.Release.{release_in_namespace, release}
use workshop_operator.Kube.Idiom.{
  delete_or_return, update_or_return, create_or_exists, create_err, get_object,
}
use workshop_operator.Util.{string_in_slice}
use workshop_operator.Kube.Watch.{get_deployment_status, wait_for_deployment}
use workshop_operator.Kube.Same.{subjects_change, with_subjects, same_subjects, same_texts, differs}
use workshop_operator.Kube.Merge.{merge}
use workshop_operator.Build.Roles.{new_role}
use workshop_operator.Build.Cluster.{new_role_binding_users, new_namespace}
use workshop_operator.Kube.Flow.{
  is_requeued, return_if, give_back, propagate, function, success, ◌>>=◌, pure,
}
use workshop_operator.CertManager.{requeue_if_failed}
use workshop_operator.InstallPlan.{
  approve_install_plan, set_approved, can_approve, subscription_ref,
}
use workshop_operator.Build.Subscriptions.{new_red_hat_subscription}
use workshop_operator.Prelude.{
  refl, String, List, [], ◌∷◌, inr, ◌++◌, none, digits, digit, itoa, ◌≡◌, true,
}
use workshop_operator.Kube.Object.{Object, subscription_spec, namespace_spec, kiali_spec}
use workshop_operator.Kube.Memory.{
  memory, memory-IsLawful, is_there, without, number, same, find, present_lem,
}
use workshop_operator.Kube.Installs.{AllPresent}
use workshop_operator.Kube.Removes.{Removed}
use workshop_operator.Build.Base.{object_meta}
use workshop_operator.Build.Mesh.{
  mesh_validating_webhook, mesh_mutating_webhook, member_roll, control_plane,
  mesh_user_role_binding, jaeger_role_binding, jaeger_role, new_service_mesh_control_plane_cr,
  new_service_mesh_member_roll_cr,
}
use workshop_operator.Build.Resources.{new_red_hat_cluster_service_version}
use workshop_operator.ServiceMesh.{
  InstalledVersions, reconcile_service_mesh, delete_service_mesh_service,
  delete_elastic_search_operator, delete_istio_system_namespace, add_elastic_search_operator,
  delete_jaeger_subscription, delete_kiali_subscription, patch_istio_project, delete_service_mesh,
  add_jaeger_operator, add_kiali_operator, add_service_mesh, delete_csv, subscribe, get_csv,
}
use workshop_operator.ServiceMesh.Objects.{
  service_mesh_refs, reconcile_service_mesh-AllPresent, reconcile_service_mesh-keeps,
}
use workshop_operator.ServiceMesh.Deletion.{
  deleted_service_mesh_refs, delete_service_mesh_service-Removed,
}
use workshop_operator.Tests.{two_users, deployment_of}

abbrev subscribed : (name namespace_name installed_csv : String) → Object
subscribed name namespace_name installed_csv = record {
  meta = object_meta name namespace_name [];
  spec =
      subscription_spec
        (record {
          catalog_source = "redhat-operators";
          catalog_source_namespace = "openshift-marketplace";
          package_name = name;
          channel = "stable";
          starting_csv = "v1.2.0";
          install_plan_approval = "Manual";
        })
        (record { installed_csv = installed_csv; install_plan_ref = none });
}

abbrev space : (name : String) → Object
space name = record { meta = object_meta name "" []; spec = namespace_spec ("kubernetes" ∷ []) }

-- The four operators are subscribed to, and that of Istio is running.
abbrev operators : (kiali_csv mesh_csv : String) → List Object
operators kiali_csv mesh_csv =
    subscribed "elasticsearch-operator-stable" "openshift-operators-redhat" "v1.2.0"
    ∷ subscribed "jaeger-product" "openshift-operators" "v1.2.0"
    ∷ subscribed "kiali-ossm" "openshift-operators" kiali_csv
    ∷ subscribed "servicemeshoperator" "openshift-operators" mesh_csv
    ∷ deployment_of "istio-operator" "openshift-operators"
    ∷ []

reconcile_service_mesh-AllPresent_example :
    AllPresent memory memory-IsLawful
      (reconcile_service_mesh memory two_users 1 (operators "v1.2.0" "v1.2.0")).1
      (service_mesh_refs two_users)
unfolding reconcile_service_mesh function ◌>>=◌ propagate add_elastic_search_operator
    create_or_exists is_there find same new_namespace subscribe new_red_hat_subscription
    approve_install_plan get_object requeue_if_failed is_requeued add_jaeger_operator
    add_kiali_operator new_role_binding_users new_service_mesh_control_plane_cr
    new_service_mesh_member_roll_cr new_role can_approve set_approved give_back pure return_if
    create_err update_or_return number merge differs same_subjects same_texts subjects_change
    with_subjects get_deployment_status wait_for_deployment digit digits itoa add_service_mesh
    string_in_slice
reconcile_service_mesh-AllPresent_example =
    reconcile_service_mesh-AllPresent memory memory-IsLawful two_users 1
      (operators "v1.2.0" "v1.2.0") success (inr refl) refl refl

-- The objects of the mesh, with versions installed.
abbrev installed : List Object
installed =
    operators "v1.3.0" "v1.4.0"
    ++ member_roll []
      ∷ control_plane
      ∷ mesh_user_role_binding []
      ∷ jaeger_role_binding []
      ∷ jaeger_role
      ∷ mesh_validating_webhook
      ∷ mesh_mutating_webhook
      ∷ new_red_hat_cluster_service_version "v1.2.0" "openshift-operators"
      ∷ new_red_hat_cluster_service_version "v1.3.0" "openshift-operators"
      ∷ new_red_hat_cluster_service_version "v1.4.0" "openshift-operators"
      ∷ space "istio-system"
      ∷ space "openshift-operators-redhat"
      ∷ record { meta = object_meta "kiali" "istio-system" []; spec = kiali_spec }
      ∷ []

abbrev versions : InstalledVersions
versions = record { service_mesh = "v1.4.0"; jaeger = "v1.2.0"; kiali = "v1.3.0"; error = none }

delete_service_mesh_service-Removed_example :
    Removed memory memory-IsLawful
      (deleted_service_mesh_refs two_users versions)
      installed
      (delete_service_mesh_service memory two_users 0 installed).1
unfolding delete_service_mesh_service get_csv ◌>>=◌ get_object find same function propagate
    delete_service_mesh delete_or_return is_there new_service_mesh_member_roll_cr
    new_service_mesh_control_plane_cr new_role_binding_users without new_role
    new_red_hat_subscription is_requeued new_namespace new_red_hat_cluster_service_version give_back
    pure return_if number release release_in_namespace digit digits itoa delete_csv
    delete_elastic_search_operator delete_istio_system_namespace delete_jaeger_subscription
    delete_kiali_subscription patch_istio_project
delete_service_mesh_service-Removed_example =
    delete_service_mesh_service-Removed memory memory-IsLawful two_users 0 versions installed
      success refl refl refl

-- The run asks to be called again here: the version of Kiali is not the wanted one, and there is no
-- plan to approve.
reconcile_service_mesh-keeps_example :
    memory-IsLawful.present
      (reconcile_service_mesh memory two_users 2 installed).1
      (subscription_ref "kiali-ossm" "openshift-operators")
    ≡ true
unfolding is_there find same number
reconcile_service_mesh-keeps_example =
    reconcile_service_mesh-keeps memory memory-IsLawful two_users 2 installed
      (subscription_ref "kiali-ossm" "openshift-operators")
      (present_lem (subscription_ref "kiali-ossm" "openshift-operators") installed refl)
