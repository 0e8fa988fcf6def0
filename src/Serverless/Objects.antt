-- ===== src/Serverless/Objects.antt =====
-- The objects of the serverless component.
use workshop_operator.Prelude.{◌≡◌, refl, String, true, false, List, [], ◌∷◌}
use workshop_operator.Kube.Object.{Ref, namespace}
use workshop_operator.Kube.Env.{Env, Error}
use workshop_operator.Kube.Flow.{Return, failure, next, success, is_requeued}
use workshop_operator.Kube.Lawful.{IsLawful}
use workshop_operator.Kube.Installs.{
  AllPresent, InstallsCall, InstallsCall-function, Installs-pure, Installs-create, Installs-call,
}
use workshop_operator.Kube.Removes.{
  Removed, RemovesCall, RemovesCall-function, Removes-pure, Removes-delete,
}
use workshop_operator.Build.Base.{Workshop}
use workshop_operator.Build.Cluster.{new_namespace}
use workshop_operator.Build.Subscriptions.{new_red_hat_subscription}
use workshop_operator.InstallPlan.{subscription_ref}
use workshop_operator.Serverless.{
  add_serverless, delete_serverless, reconcile_serverless, add_if_enabled,
  serverless_namespace_name, knative_serving_namespace_name, knative_eventing_namespace_name,
  serverless_subscription_name, serverless_subscription_namespace_name,
}

abbrev pub namespace_ref : String → Ref
namespace_ref name = record { kind = namespace; namespace_name = ""; name = name }

abbrev pub serverless_refs : List Ref
serverless_refs =
    namespace_ref serverless_namespace_name
    ∷ subscription_ref serverless_subscription_name serverless_subscription_namespace_name
    ∷ namespace_ref knative_serving_namespace_name
    ∷ namespace_ref knative_eventing_namespace_name
    ∷ []

abbrev pub deleted_serverless_refs : List Ref
deleted_serverless_refs =
    namespace_ref knative_eventing_namespace_name
    ∷ namespace_ref knative_serving_namespace_name
    ∷ subscription_ref serverless_subscription_name serverless_subscription_namespace_name
    ∷ namespace_ref serverless_namespace_name
    ∷ []

fails : (e : Error) → is_requeued (failure e) ≡ true
unfolding is_requeued
fails e = refl

module _ (env : Env) (law : IsLawful env) (ws : Workshop) where
  open env use {World}

  add_serverless-Installs : InstallsCall env law is_requeued (add_serverless env ws) serverless_refs
  unfolding add_serverless new_namespace new_red_hat_subscription
  add_serverless-Installs = InstallsCall-function env law is_requeued _ (
      search (Installs-pure env law is_requeued, Installs-create env law is_requeued fails) depth 8)

  delete_serverless-Removes :
      RemovesCall env law is_requeued (delete_serverless env ws) deleted_serverless_refs
  unfolding delete_serverless new_namespace new_red_hat_subscription
  delete_serverless-Removes =
      RemovesCall-function env law is_requeued _ (
        search (Removes-pure env law is_requeued, Removes-delete env law is_requeued fails) depth 8)

  enabled-Installs :
      ws.spec.infrastructure.serverless.enabled ≡ true
      → InstallsCall env law is_requeued (reconcile_serverless env ws) serverless_refs
  unfolding reconcile_serverless
  enabled-Installs on =
      rw (on, add_if_enabled)
        (InstallsCall-function env law is_requeued _ (
          Installs-call env law is_requeued {k = []} is_requeued _ _ (λ r e. e)
            add_serverless-Installs (Installs-pure env law is_requeued success)))

  -- In a lawful cluster, with the component enabled, a run that is not requeued leaves the
  -- namespace of the operator, its subscription and the two namespaces of Knative in the cluster.
  pub reconcile_serverless-AllPresent :
      (w : World) (r : Return)
      → ws.spec.infrastructure.serverless.enabled ≡ true
      → (reconcile_serverless env ws w).0 ≡ next r
      → is_requeued r ≡ false
      → AllPresent env law (reconcile_serverless env ws w).1 serverless_refs
  reconcile_serverless-AllPresent w r on e n = (enabled-Installs on).meets.done w r e n

  -- In a lawful cluster, a deletion that is not requeued has found each of the objects, and the
  -- subscription is gone.
  pub delete_serverless-Removed :
      (w : World) (r : Return)
      → (delete_serverless env ws w).0 ≡ next r
      → is_requeued r ≡ false
      → Removed env law deleted_serverless_refs w (delete_serverless env ws w).1
  delete_serverless-Removed w r e n = delete_serverless-Removes.meets.done w r e n
