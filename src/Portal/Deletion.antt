-- ===== src/Portal/Deletion.antt =====
-- The objects of `deletePortal`.
use workshop_operator.Prelude.{◌≡◌, refl, ℕ, String, false, List, [], ◌∷◌, keys, arith}
use workshop_operator.Kube.Object.{
  Object, Ref, secret, persistent_volume_claim, deployment, service, route,
}
use workshop_operator.Kube.Env.{Env, Got, found, failed}
use workshop_operator.Kube.Flow.{Code, Return, next, is_requeued, success, pure, ◌>>◌}
use workshop_operator.Kube.Lawful.{IsLawful}
use workshop_operator.Kube.Removes.{
  Removed, Removes, RemovesCall, RemovesCall-function, Removes-pure, Removes-bind, Removes-get,
  delete-Removes, Removes-call,
}
use workshop_operator.Kube.Errors.{requeue_fails}
use workshop_operator.Kube.Deletes.{delete_at-Removes, some_removed}
use workshop_operator.Build.Base.{Workshop}
use workshop_operator.Build.Workloads.{
  new_string_data_secret, new_persistent_volume_claim, new_service, new_secured_route,
}
use workshop_operator.Build.Deployments.{new_redis_deployment}
use workshop_operator.User.{range_keys}
use workshop_operator.Portal.{
  guide_names, delete_redis, delete_found, delete_username_distribution, delete_portal,
}
use workshop_operator.Portal.Objects.{portal_ref}

-- In the order in which they are deleted.
abbrev pub deleted_refs : Workshop → List Ref
deleted_refs ws =
    portal_ref ws route "portal"
    ∷ portal_ref ws service "portal"
    ∷ portal_ref ws service "redis"
    ∷ portal_ref ws deployment "redis"
    ∷ portal_ref ws persistent_volume_claim "redis"
    ∷ portal_ref ws secret "redis"
    ∷ []

module _ (env : Env) (law : IsLawful env) where
  open env use {World}

  module _ (query_escape : String → String) (ws : Workshop) where
    delete_redis-Removes : RemovesCall env law is_requeued (delete_redis env query_escape ws) (
        portal_ref ws service "redis"
        ∷ portal_ref ws deployment "redis"
        ∷ portal_ref ws persistent_volume_claim "redis"
        ∷ portal_ref ws secret "redis"
        ∷ [])
    unfolding delete_redis new_service new_redis_deployment new_persistent_volume_claim
        new_string_data_secret
    delete_redis-Removes = RemovesCall-function env law is_requeued _ (
        delete_at-Removes env law is_requeued requeue_fails _ _ _ refl (
          delete_at-Removes env law is_requeued requeue_fails _ _ _ (law.owner_keeps_ref _ _) (
            delete_at-Removes env law is_requeued requeue_fails _ _ _ (law.owner_keeps_ref _ _) (
              delete_at-Removes env law is_requeued requeue_fails _ _ _ refl
                (Removes-pure env law is_requeued success)))))

    names-Removes : Removes env law is_requeued (guide_names env query_escape ws) []
    unfolding guide_names range_keys pure
    names-Removes = record {
      meets = record {
        keeps = λ w r h.
            ground
              (arith, law.range_keeps (keys ws.spec.infrastructure.guide.scholars.guide_url) w r);
        done = λ w a e. tt;
        early = λ w r e. ground arith;
      };
    }

    found-Removes :
        {l : List Ref} (dep : Object) (g : Got) (n : Code World Return)
        → Removes env law is_requeued n l
        → Removes env law is_requeued (delete_found env query_escape ws dep g >> n) l
    unfolding delete_found
    found-Removes dep (failed e) n i =
        Removes-bind env law is_requeued {l = []} _ _ (Removes-pure env law is_requeued tt) (λ _. i)
    found-Removes dep (found o) n i =
        Removes-bind env law is_requeued {l = []} _ _
          (some_removed env law is_requeued (delete-Removes env law is_requeued requeue_fails dep))
          (λ _. i)

    delete_username_distribution-Removes :
        (users : ℕ) (suffix console_url : String)
        → RemovesCall env law is_requeued
            (delete_username_distribution env query_escape ws users suffix console_url)
            (portal_ref ws route "portal" ∷ portal_ref ws service "portal" ∷ [])
    unfolding delete_username_distribution new_secured_route new_service
    delete_username_distribution-Removes users suffix console_url =
        RemovesCall-function env law is_requeued _ (
          delete_at-Removes env law is_requeued requeue_fails _ _ _ (law.owner_keeps_ref _ _) (
            delete_at-Removes env law is_requeued requeue_fails _ _ _ refl (
              Removes-bind env law is_requeued {l = []} _ _ names-Removes λ names.
                Removes-get env law is_requeued _ _
                  λ answer. found-Removes _ answer _ (Removes-pure env law is_requeued success))))

    portal-Removes :
        (users : ℕ) (suffix console_url : String)
        → RemovesCall env law is_requeued
            (delete_portal env query_escape ws users suffix console_url)
            (deleted_refs ws)
    unfolding delete_portal
    portal-Removes users suffix console_url = RemovesCall-function env law is_requeued _ (
        Removes-call env law is_requeued is_requeued _ _ (λ r e. e)
          (delete_username_distribution-Removes users suffix console_url)
          (Removes-call env law is_requeued {k = []} is_requeued _ _ (λ r e. e) delete_redis-Removes
            (Removes-pure env law is_requeued success)))

    -- In a lawful cluster, a run of `deletePortal` that is not requeued has found the route and
    -- the service of the portal and all objects of Redis, and those that do not linger are gone.
    pub delete_portal-Removed :
        (users : ℕ) (suffix console_url : String) (w : World) (r : Return)
        → (delete_portal env query_escape ws users suffix console_url w).0 ≡ next r
        → is_requeued r ≡ false
        → Removed env law
            (deleted_refs ws)
            w
            (delete_portal env query_escape ws users suffix console_url w).1
    delete_portal-Removed users suffix console_url w r e n =
        (portal-Removes users suffix console_url).meets.done w r e n
