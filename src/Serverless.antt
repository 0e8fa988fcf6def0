-- ===== src/Serverless.antt =====
-- controllers/serverless_reconciler.go: the serverless operator and the namespaces of Knative.
pub mod Objects
use workshop_operator.Prelude.{String, Bool, true, false}
use workshop_operator.Kube.Object.{Object}
use workshop_operator.Kube.Env.{Env}
use workshop_operator.Kube.Flow.{
  Code, Return, success, is_requeued, pure, ◌>>=◌, ◌>>◌, function, propagate,
}
use workshop_operator.Kube.Idiom.{create_or_exists, delete_or_return}
use workshop_operator.Build.Base.{Workshop}
use workshop_operator.Build.Cluster.{new_namespace}
use workshop_operator.Build.Subscriptions.{new_red_hat_subscription}

abbrev pub serverless_namespace_name : String
serverless_namespace_name = "openshift-serverless"

abbrev pub serverless_subscription_name : String
serverless_subscription_name = "serverless-operator"

abbrev pub serverless_subscription_namespace_name : String
serverless_subscription_namespace_name = "openshift-serverless"

abbrev pub serverless_package_name : String
serverless_package_name = "serverless-operator"

abbrev pub knative_serving_namespace_name : String
knative_serving_namespace_name = "knative-serving"

abbrev pub knative_eventing_namespace_name : String
knative_eventing_namespace_name = "knative-eventing"

abbrev pub serverless_subscription : Workshop → Object
serverless_subscription ws =
    new_red_hat_subscription serverless_subscription_name serverless_subscription_namespace_name
      serverless_package_name ws.spec.infrastructure.serverless.operator_hub.channel
      ws.spec.infrastructure.serverless.operator_hub.cluster_service_version

module _ (env : Env) where
  open env use {World}

  unfoldable pub add_serverless : Workshop → Code World Return
  add_serverless ws = function do
    create_or_exists env (new_namespace serverless_namespace_name)
    create_or_exists env (serverless_subscription ws)
    create_or_exists env (new_namespace knative_serving_namespace_name)
    create_or_exists env (new_namespace knative_eventing_namespace_name)
    pure success

  add_if_enabled : Workshop → Bool → Code World (Unit {0})
  add_if_enabled ws true = propagate is_requeued (add_serverless ws)
  add_if_enabled ws false = pure tt

  unfoldable pub reconcile_serverless : Workshop → Code World Return
  unfolding add_if_enabled
  reconcile_serverless ws =
      function do add_if_enabled ws ws.spec.infrastructure.serverless.enabled; pure success

  unfoldable pub delete_serverless : Workshop → Code World Return
  delete_serverless ws = function do
    delete_or_return env (new_namespace knative_eventing_namespace_name)
    delete_or_return env (new_namespace knative_serving_namespace_name)
    delete_or_return env (serverless_subscription ws)
    delete_or_return env (new_namespace serverless_namespace_name)
    pure success
