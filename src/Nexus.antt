-- ===== src/Nexus.antt =====
-- controllers/nexus_reconciler.go: the Nexus repository manager and its operator.
pub mod Objects
use workshop_operator.Prelude.{String, ◌<>◌, Bool, true, false, [], ◌∷◌, StringMap}
use workshop_operator.Kube.Object.{Object}
use workshop_operator.Kube.Env.{Env}
use workshop_operator.Kube.Flow.{
  Code, Return, success, is_requeued, pure, ◌>>=◌, ◌>>◌, function, propagate,
}
use workshop_operator.Kube.Idiom.{create_or_exists, delete_or_return}
use workshop_operator.Kube.Watch.{wait_for_deployment, requeued_after_second}
use workshop_operator.Build.Base.{Workshop}
use workshop_operator.Build.Cluster.{new_namespace}
use workshop_operator.Build.Workloads.{new_service_account}
use workshop_operator.Build.Roles.{new_cluster_role, new_cluster_role_binding_sa, new_rules}
use workshop_operator.Build.Operators.{
  new_custom_resource_definition, new_ansible_operator_deployment,
}
use workshop_operator.Build.Resources.{new_nexus_custom_resource}

abbrev pub nexus_labels : StringMap String
nexus_labels = ("app.kubernetes.io/part-of", "nexus") ∷ []

abbrev pub nexus_namespace_name : String
nexus_namespace_name = "nexus"

abbrev pub nexus_service_account_name : String
nexus_service_account_name = "nexus-operator"

abbrev pub nexus_cluster_role_name : String
nexus_cluster_role_name = "nexus-operator"

abbrev pub nexus_role_binding_sa_name : String
nexus_role_binding_sa_name = "nexus-operator"

abbrev pub nexus_ansible_deployment_name : String
nexus_ansible_deployment_name = "nexus-operator"

abbrev pub nexus_deployment_name : String
nexus_deployment_name = "nexus"

abbrev pub nexus_custom_resource_definition : Object
nexus_custom_resource_definition =
    new_custom_resource_definition "nexus.gpte.opentlc.com" "gpte.opentlc.com" "Nexus" "NexusList"
      "nexus" "nexus" "v1alpha1" []

abbrev pub nexus_service_account : Object
nexus_service_account =
    new_service_account nexus_service_account_name nexus_namespace_name nexus_labels

abbrev pub nexus_cluster_role : Object
nexus_cluster_role =
    new_cluster_role nexus_cluster_role_name nexus_namespace_name nexus_labels new_rules

abbrev pub nexus_cluster_role_binding : Object
nexus_cluster_role_binding =
    new_cluster_role_binding_sa nexus_role_binding_sa_name nexus_namespace_name nexus_labels
      nexus_service_account_name nexus_role_binding_sa_name "ClusterRole"

abbrev pub nexus_operator : Workshop → Object
nexus_operator ws =
    new_ansible_operator_deployment nexus_ansible_deployment_name nexus_namespace_name nexus_labels
      (ws.spec.infrastructure.nexus.image.name <> ":" <> ws.spec.infrastructure.nexus.image.tag)
      nexus_service_account_name

abbrev pub nexus_custom_resource : Object
nexus_custom_resource = new_nexus_custom_resource "nexus" nexus_namespace_name nexus_labels

module _ (env : Env) where
  open env use {World}

  unfoldable pub add_nexus : Workshop → Code World Return
  add_nexus ws = function do
    create_or_exists env (new_namespace nexus_namespace_name)
    create_or_exists env nexus_custom_resource_definition
    create_or_exists env nexus_service_account
    create_or_exists env nexus_cluster_role
    create_or_exists env nexus_cluster_role_binding
    create_or_exists env (nexus_operator ws)
    create_or_exists env nexus_custom_resource
    wait_for_deployment env nexus_deployment_name nexus_namespace_name requeued_after_second
    pure success

  add_if_enabled : Workshop → Bool → Code World (Unit {0})
  add_if_enabled ws true = propagate is_requeued (add_nexus ws)
  add_if_enabled ws false = pure tt

  unfoldable pub reconcile_nexus : Workshop → Code World Return
  unfolding add_if_enabled
  reconcile_nexus ws =
      function do add_if_enabled ws ws.spec.infrastructure.nexus.enabled; pure success

  unfoldable pub delete_nexus : Workshop → Code World Return
  delete_nexus ws = function do
    delete_or_return env nexus_custom_resource
    delete_or_return env (nexus_operator ws)
    delete_or_return env nexus_cluster_role_binding
    delete_or_return env nexus_cluster_role
    delete_or_return env nexus_service_account
    delete_or_return env nexus_custom_resource_definition
    delete_or_return env (new_namespace nexus_namespace_name)
    pure success
