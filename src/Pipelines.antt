-- ===== src/Pipelines.antt =====
-- controllers/pipelines_reconciler.go: the subscription to the pipelines operator.
pub mod Calls
use workshop_operator.Prelude.{String, Bool, true, false}
use workshop_operator.Kube.Object.{Object}
use workshop_operator.Kube.Env.{Env, Got, found, failed}
use workshop_operator.Kube.Flow.{
  Code, Return, success, requeued, failure, has_error, is_requeued, pure, give_back, ◌>>=◌, ◌>>◌,
  function, propagate,
}
use workshop_operator.Kube.Idiom.{create_or_exists, delete_or_return, get_object}
use workshop_operator.Build.Base.{Workshop}
use workshop_operator.Build.Subscriptions.{new_red_hat_subscription}
use workshop_operator.InstallPlan.{approve_install_plan, subscription_ref}

abbrev pub pipelines_subscription_name : String
pipelines_subscription_name = "openshift-pipelines-operator-rh"

abbrev pub pipelines_subscription_namespace_name : String
pipelines_subscription_namespace_name = "openshift-operators"

abbrev pub pipelines_subscription_package_name : String
pipelines_subscription_package_name = "openshift-pipelines-operator-rh"

abbrev pub pipeline_subscription : Workshop → Object
pipeline_subscription ws =
    new_red_hat_subscription pipelines_subscription_name pipelines_subscription_namespace_name
      pipelines_subscription_package_name ws.spec.infrastructure.pipeline.operator_hub.channel
      ws.spec.infrastructure.pipeline.operator_hub.cluster_service_version

module _ (env : Env) where
  open env use {World}

  -- The subscription could be read, or not.
  after_read : Workshop → Got → Code World Return
  after_read ws (found _) = pure success
  after_read ws (failed e) = do
    approval ←
        approve_install_plan env
          ws.spec.infrastructure.pipeline.operator_hub.cluster_service_version
          pipelines_subscription_name pipelines_subscription_namespace_name
    elim (has_error approval) [ true ↦ give_back requeued | false ↦ give_back (failure e) ]

  unfoldable pub add_pipelines : Workshop → Code World Return
  unfolding after_read
  add_pipelines ws = function do
    create_or_exists env (pipeline_subscription ws)
    subscription ←
        get_object env
          (subscription_ref pipelines_subscription_name pipelines_subscription_namespace_name)
    after_read ws subscription

  add_if_enabled : Workshop → Bool → Code World (Unit {0})
  add_if_enabled ws true = propagate is_requeued (add_pipelines ws)
  add_if_enabled ws false = pure tt

  unfoldable pub reconcile_pipelines : Workshop → Code World Return
  unfolding add_if_enabled
  reconcile_pipelines ws =
      function do add_if_enabled ws ws.spec.infrastructure.pipeline.enabled; pure success

  unfoldable pub delete_pipelines : Workshop → Code World Return
  delete_pipelines ws = function do delete_or_return env (pipeline_subscription ws); pure success
