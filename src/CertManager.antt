-- ===== src/CertManager.antt =====
-- controllers/certmanager_reconciler.go and common/certmanager: the cert-manager operator.
pub mod Objects
use workshop_operator.Prelude.{String, Bool, true, false, [], ◌∷◌, StringMap}
use workshop_operator.Kube.Object.{Object, cert_manager_spec}
use workshop_operator.Kube.Env.{Env}
use workshop_operator.Kube.Flow.{
  Code, Return, success, requeued, has_error, is_requeued, pure, give_back, ◌>>=◌, ◌>>◌, function,
  propagate,
}
use workshop_operator.Kube.Idiom.{create_or_exists, delete_or_return}
use workshop_operator.Build.Base.{Workshop, object_meta}
use workshop_operator.Build.Cluster.{new_namespace}
use workshop_operator.Build.Subscriptions.{new_certified_subscription}
use workshop_operator.InstallPlan.{approve_install_plan}

abbrev pub cert_manager_subscription_name : String
cert_manager_subscription_name = "cert-manager-operator"

abbrev pub cert_manager_subscription_namespace_name : String
cert_manager_subscription_namespace_name = "openshift-operators"

abbrev pub cert_manager_package_name : String
cert_manager_package_name = "cert-manager-operator"

abbrev pub cert_manager_namespace_name : String
cert_manager_namespace_name = "cert-manager"

abbrev pub cert_manager_custom_resource_name : String
cert_manager_custom_resource_name = "cert-manager"

abbrev pub cert_manager_labels : StringMap String
cert_manager_labels = ("app.kubernetes.io/part-of", "certmanager") ∷ []

unfoldable pub new_custom_resource :
    (name namespace_name : String) (labels : StringMap String) → Object
new_custom_resource name namespace_name labels = record {
  meta = object_meta name namespace_name labels;
  spec = cert_manager_spec;
}

abbrev pub cert_manager_resource : Object
cert_manager_resource =
    new_custom_resource cert_manager_custom_resource_name cert_manager_namespace_name
      cert_manager_labels

abbrev pub cert_manager_subscription : Workshop → Object
cert_manager_subscription ws =
    new_certified_subscription cert_manager_subscription_name
      cert_manager_subscription_namespace_name cert_manager_package_name
      ws.spec.infrastructure.cert_manager.operator_hub.channel
      ws.spec.infrastructure.cert_manager.operator_hub.cluster_service_version

module _ (env : Env) where
  open env use {World}

  -- An approval that fails is tried again by another run.
  unfoldable pub requeue_if_failed : Return → Code World (Unit {0})
  requeue_if_failed approval = elim (has_error approval) [
    | true ↦ give_back requeued
    | false ↦ pure tt
  ]

  unfoldable pub add_cert_manager : Workshop → Code World Return
  add_cert_manager ws = function do
    create_or_exists env (cert_manager_subscription ws)
    approval ←
        approve_install_plan env
          ws.spec.infrastructure.cert_manager.operator_hub.cluster_service_version
          cert_manager_subscription_name cert_manager_subscription_namespace_name
    requeue_if_failed approval
    create_or_exists env (new_namespace cert_manager_namespace_name)
    create_or_exists env cert_manager_resource
    pure success

  add_if_enabled : Workshop → Bool → Code World (Unit {0})
  add_if_enabled ws true = propagate is_requeued (add_cert_manager ws)
  add_if_enabled ws false = pure tt

  unfoldable pub reconcile_cert_manager : Workshop → Code World Return
  unfolding add_if_enabled
  reconcile_cert_manager ws =
      function do add_if_enabled ws ws.spec.infrastructure.cert_manager.enabled; pure success

  unfoldable pub delete_cert_manager : Workshop → Code World Return
  delete_cert_manager ws = function do
    delete_or_return env cert_manager_resource
    delete_or_return env (new_namespace cert_manager_namespace_name)
    delete_or_return env (cert_manager_subscription ws)
    pure success
