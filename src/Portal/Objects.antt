-- ===== src/Portal/Objects.antt =====
-- The objects of `reconcilePortal`.
use workshop_operator.Prelude.{
  ◌≡◌, ◌≢◌, refl, ap, ◌∙◌, ℕ, String, Bool, true, false, List, [], ◌∷◌, ◌++◌, keys,
}
use workshop_operator.Kube.Object.{
  Object, Ref, Kind, kind_of, secret, persistent_volume_claim, deployment, service, route, workshop,
}
use workshop_operator.Kube.Env.{Env}
use workshop_operator.Kube.Flow.{Code, Return, next, has_error, is_requeued, success, pure}
use workshop_operator.Kube.Lawful.{IsLawful}
use workshop_operator.Kube.Installs.{
  AllPresent, Installs, InstallsCall, InstallsCall-function, Installs-pure, Installs-bind,
  Installs-create, Installs-call,
}
use workshop_operator.Kube.Errors.{fails, requeue_fails, error_requeued}
use workshop_operator.Kube.Stores.{Installs-store, Installs-create_at}
use workshop_operator.Kube.Deploy.{env_changed}
use workshop_operator.Build.Base.{Workshop}
use workshop_operator.Build.Workloads.{
  new_string_data_secret, new_persistent_volume_claim, new_service, new_secured_route,
}
use workshop_operator.Build.Deployments.{new_redis_deployment, new_portal_deployment}
use workshop_operator.User.{range_keys}
use workshop_operator.Portal.{
  env_or_image_changed, guide_names, add_redis, add_update_username_distribution, reconcile_portal,
}

-- The object of a kind with a name in the namespace of the workshop.
abbrev pub portal_ref : Workshop → Kind → String → Ref
portal_ref ws kind name = record {
  kind = kind;
  namespace_name = ws.meta.namespace_name;
  name = name;
}

abbrev pub redis_refs : Workshop → List Ref
redis_refs ws =
    portal_ref ws secret "redis"
    ∷ portal_ref ws persistent_volume_claim "redis"
    ∷ portal_ref ws deployment "redis"
    ∷ portal_ref ws service "redis"
    ∷ []

abbrev pub username_distribution_refs : Workshop → List Ref
username_distribution_refs ws =
    portal_ref ws deployment "portal"
    ∷ portal_ref ws service "portal"
    ∷ portal_ref ws route "portal"
    ∷ []

module _ (env : Env) (law : IsLawful env) (query_escape : String → String) (ws : Workshop) where
  open env use {World}

  -- The owner of a deployment makes no workshop of it.
  owned_deployment :
      (owner o : Object)
      → kind_of o.spec ≡ deployment
      → kind_of (env.set_controller_reference owner o).spec ≢ workshop
  owned_deployment owner o k h = let same = ap (λ r. r.kind) (law.owner_keeps_ref owner o) in cc

  add_redis-Installs :
      InstallsCall env law is_requeued (add_redis env query_escape ws) (redis_refs ws)
  unfolding add_redis new_string_data_secret new_persistent_volume_claim new_redis_deployment
      new_service
  add_redis-Installs = InstallsCall-function env law is_requeued _ (
      Installs-create env law is_requeued requeue_fails _ _ (
        Installs-create_at env law is_requeued requeue_fails _ _ _ (law.owner_keeps_ref _ _) (
          Installs-store env law is_requeued requeue_fails ws.meta.namespace_name env_changed _
            (owned_deployment _ _ refl) _ _ (law.owner_keeps_ref _ _)
            (Installs-create env law is_requeued requeue_fails _ _
              (Installs-pure env law is_requeued success)))))

  guide_names-Installs : Installs env law has_error (guide_names env query_escape ws) []
  unfolding guide_names range_keys
  guide_names-Installs = names_or_none ws.spec.infrastructure.guide.scholars.enabled
    where
      ranged : (ks : List String) → Installs env law has_error (range_keys env ks) []
      ranged ks = record {
        meets = record {
          keeps = λ w r h. law.range_keeps ks w r ∙ h;
          done = λ w a e. tt;
          early = λ w r e. cc;
        };
      }

      names_or_none :
          (b : Bool)
          → Installs env law has_error
              (elim b as (λ _. Code World (List String)) [
                | true ↦ range_keys env (keys ws.spec.infrastructure.guide.scholars.guide_url)
                | false ↦ pure []
              ])
              []
      names_or_none true = ranged _
      names_or_none false = Installs-pure env law has_error []

  add_username_distribution-Installs :
      (users : ℕ) (suffix console_url : String)
      → InstallsCall env law has_error
          (add_update_username_distribution env query_escape ws users suffix console_url)
          (username_distribution_refs ws)
  unfolding add_update_username_distribution new_portal_deployment new_service new_secured_route
  add_username_distribution-Installs users suffix console_url =
      InstallsCall-function env law has_error _ (
        Installs-bind env law has_error {l = []} _ _ guide_names-Installs λ names.
          Installs-store env law has_error fails ws.meta.namespace_name env_or_image_changed _
            (owned_deployment _ _ refl) _ _ (law.owner_keeps_ref _ _)
            (Installs-create env law has_error fails _ _ (
              Installs-create_at env law has_error fails _ _ _ (law.owner_keeps_ref _ _)
                (Installs-pure env law has_error success))))

  portal-Installs :
      (users : ℕ) (suffix console_url : String)
      → InstallsCall env law is_requeued
          (reconcile_portal env query_escape ws users suffix console_url)
          (redis_refs ws ++ username_distribution_refs ws)
  unfolding reconcile_portal
  portal-Installs users suffix console_url = InstallsCall-function env law is_requeued _ (
      Installs-call env law is_requeued is_requeued _ _ (λ r e. e) add_redis-Installs
        (Installs-call env law is_requeued {k = []} has_error _ _ error_requeued
          (add_username_distribution-Installs users suffix console_url)
          (Installs-pure env law is_requeued success)))

  -- In a lawful cluster, a run of `reconcilePortal` that is not requeued leaves the secret, the
  -- volume claim, the deployment and the service of Redis, and the deployment, the service and
  -- the route of the portal.
  pub reconcile_portal-AllPresent :
      (users : ℕ) (suffix console_url : String) (w : World) (r : Return)
      → (reconcile_portal env query_escape ws users suffix console_url w).0 ≡ next r
      → is_requeued r ≡ false
      → AllPresent env law
          (reconcile_portal env query_escape ws users suffix console_url w).1
          (redis_refs ws ++ username_distribution_refs ws)
  reconcile_portal-AllPresent users suffix console_url w r e n =
      (portal-Installs users suffix console_url).meets.done w r e n
