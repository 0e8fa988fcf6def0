-- ===== src/Tests/Components.antt =====
-- Examples for the portal and the cert manager.
use workshop_operator.Prelude.{refl, none, List, [], ◌∷◌, ◌++◌}
use workshop_operator.Kube.Object.{Object, subscription_spec}
use workshop_operator.Kube.Flow.{success, is_requeued, ◌>>=◌, function, propagate}
use workshop_operator.Kube.Idiom.{create_or_exists, create_err, delete_or_return, get_object}
use workshop_operator.Kube.Memory.{memory, memory-IsLawful, find, is_there, same, without}
use workshop_operator.Kube.Installs.{AllPresent}
use workshop_operator.Kube.Removes.{Removed}
use workshop_operator.Build.Base.{object_meta}
use workshop_operator.Build.Cluster.{new_namespace}
use workshop_operator.InstallPlan.{approve_install_plan}
use workshop_operator.Portal.{
  delete_portal, delete_redis, delete_username_distribution, reconcile_portal, add_redis,
  add_update_username_distribution, guide_names,
}
use workshop_operator.Kube.Deploy.{store_deployment}
use workshop_operator.Portal.Deletion.{deleted_refs, delete_portal-Removed}
use workshop_operator.Portal.Objects.{
  redis_refs, username_distribution_refs, reconcile_portal-AllPresent,
}
use workshop_operator.Build.Workloads.{
  new_string_data_secret, new_persistent_volume_claim, new_service, new_secured_route,
}
use workshop_operator.Build.Deployments.{new_redis_deployment, new_portal_deployment}
use workshop_operator.CertManager.{
  reconcile_cert_manager, add_cert_manager, requeue_if_failed, delete_cert_manager,
  new_custom_resource, cert_manager_resource, cert_manager_namespace_name,
}
use workshop_operator.CertManager.Objects.{
  cert_manager_refs, deleted_cert_manager_refs, reconcile_cert_manager-AllPresent,
  delete_cert_manager-Removed,
}
use workshop_operator.Build.Subscriptions.{new_certified_subscription}
use workshop_operator.Tests.{two_users}

reconcile_portal-AllPresent_example :
    AllPresent memory memory-IsLawful
      (reconcile_portal memory (λ text. text) two_users 2 ".example.com" "https://console" []).1
      (redis_refs two_users ++ username_distribution_refs two_users)
unfolding reconcile_portal add_redis add_update_username_distribution function ◌>>=◌ propagate
    create_or_exists create_err is_requeued is_there find same new_string_data_secret
    new_persistent_volume_claim store_deployment new_redis_deployment new_service guide_names
    new_portal_deployment new_secured_route
reconcile_portal-AllPresent_example =
    reconcile_portal-AllPresent memory memory-IsLawful (λ text. text) two_users 2 ".example.com"
      "https://console" [] success refl refl

-- The subscription to the cert manager, with the wanted version installed.
abbrev subscribed : List Object
subscribed =
    record {
      meta = object_meta "cert-manager-operator" "openshift-operators" [];
      spec =
          subscription_spec
            (record {
              catalog_source = "certified-operators";
              catalog_source_namespace = "openshift-marketplace";
              package_name = "cert-manager-operator";
              channel = "stable";
              starting_csv = "v1.2.0";
              install_plan_approval = "Manual";
            })
            (record { installed_csv = "v1.2.0"; install_plan_ref = none });
    }
    ∷ []

reconcile_cert_manager-AllPresent_example :
    AllPresent memory memory-IsLawful
      (reconcile_cert_manager memory two_users subscribed).1
      cert_manager_refs
unfolding reconcile_cert_manager add_cert_manager approve_install_plan requeue_if_failed function
    ◌>>=◌ propagate create_or_exists get_object is_requeued is_there find same new_namespace
    new_certified_subscription new_custom_resource
reconcile_cert_manager-AllPresent_example =
    reconcile_cert_manager-AllPresent memory memory-IsLawful two_users subscribed success refl refl
      refl

-- The three objects of the cert manager.
abbrev cert_manager_objects : List Object
cert_manager_objects =
    cert_manager_resource ∷ new_namespace cert_manager_namespace_name ∷ subscribed

delete_cert_manager-Removed_example :
    Removed memory memory-IsLawful deleted_cert_manager_refs cert_manager_objects
      (delete_cert_manager memory two_users cert_manager_objects).1
unfolding delete_cert_manager function ◌>>=◌ delete_or_return is_requeued is_there find same without
    new_namespace new_certified_subscription new_custom_resource
delete_cert_manager-Removed_example =
    delete_cert_manager-Removed memory memory-IsLawful two_users cert_manager_objects success refl
      refl

-- What `reconcilePortal` leaves.
abbrev portal_objects : List Object
portal_objects =
    (reconcile_portal memory (λ text. text) two_users 2 ".example.com" "https://console" []).1

delete_portal-Removed_example :
    Removed memory memory-IsLawful
      (deleted_refs two_users)
      portal_objects
      (delete_portal memory
        (λ text. text)
        two_users
        2
        ".example.com"
        "https://console"
        portal_objects).1
unfolding delete_portal delete_username_distribution delete_redis reconcile_portal add_redis
    add_update_username_distribution function ◌>>=◌ propagate create_or_exists create_err
    delete_or_return get_object is_requeued is_there find same without new_string_data_secret
    new_persistent_volume_claim store_deployment new_redis_deployment new_service guide_names
    new_portal_deployment new_secured_route
delete_portal-Removed_example =
    delete_portal-Removed memory memory-IsLawful (λ text. text) two_users 2 ".example.com"
      "https://console" portal_objects success refl refl
