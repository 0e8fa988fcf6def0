-- ===== src/Portal.antt =====
-- controllers/portal_reconciler.go: Redis, and the portal that hands out user names.
pub mod Objects
pub mod Deletion
use workshop_operator.Prelude.{
  ℕ, String, Bool, true, false, not, ◌&&◌, ◌||◌, Option, none, some, List, [], ◌∷◌, StringMap, ◌=ₛ◌,
  keys,
}
use workshop_operator.Kube.Object.{
  Object, Ref, EnvSource, literal, secret_key, EnvVar, Container, deployment, deployment_spec,
}
use workshop_operator.Kube.Env.{Env, Error, already_exists, not_found, other, Got, found, failed}
use workshop_operator.Kube.Flow.{
  Code, Return, success, failure, panic, has_error, is_requeued, pure, give_back, ◌>>=◌, ◌>>◌,
  function, propagate,
}
use workshop_operator.Kube.Idiom.{
  create_or_exists, delete_or_return, update_or_return, create_err, get_object,
}
use workshop_operator.Kube.Deploy.{env_changed, deployment_ref, store_deployment}
use workshop_operator.Build.Base.{Workshop}
use workshop_operator.Build.Workloads.{
  new_string_data_secret, new_persistent_volume_claim, new_service, new_secured_route,
}
use workshop_operator.Build.Deployments.{new_redis_deployment, new_portal_deployment}
use workshop_operator.User.{range_keys}

abbrev pub redis_volume_size : String
redis_volume_size = "512Mi"

abbrev pub redis_deployment_name : String
redis_deployment_name = "redis"

abbrev pub redis_service_name : String
redis_service_name = "redis"

abbrev pub redis_pvc_name : String
redis_pvc_name = "redis"

abbrev pub redis_secret_name : String
redis_secret_name = "redis"

abbrev pub portal_service_name : String
portal_service_name = "portal"

abbrev pub portal_deployment_name : String
portal_deployment_name = "portal"

abbrev pub portal_route_name : String
portal_route_name = "portal"

abbrev pub portal_route_port : ℕ
portal_route_port = 8080

abbrev pub redis_labels : StringMap String
redis_labels = ("app", redis_service_name) ∷ ("app.kubernetes.io/part-of", "portal") ∷ []

abbrev pub redis_credentials : StringMap String
redis_credentials = ("database-password", "redis") ∷ []

-- Whether the deployment of the portal has to be updated.
unfoldable pub env_or_image_changed : Container → Container → Bool
unfolding env_changed
env_or_image_changed c d = env_changed c d || not (c.image =ₛ d.image)

module _ (env : Env) where
  open env use {World}

  module _ (query_escape : String → String) (ws : Workshop) where
    abbrev pub redis_secret : Object
    redis_secret =
        new_string_data_secret redis_secret_name ws.meta.namespace_name redis_labels
          redis_credentials

    abbrev pub redis_pvc : Object
    redis_pvc =
        new_persistent_volume_claim env ws redis_pvc_name ws.meta.namespace_name redis_labels
          redis_volume_size

    abbrev pub redis_deployment : Object
    redis_deployment =
        new_redis_deployment env ws redis_deployment_name ws.meta.namespace_name redis_labels

    abbrev pub redis_service : Object
    redis_service =
        new_service redis_service_name ws.meta.namespace_name redis_labels (("http", 6379) ∷ [])

    abbrev pub portal_service : Object
    portal_service =
        new_service portal_service_name ws.meta.namespace_name redis_labels (("http", 8080) ∷ [])

    abbrev pub portal_route : Object
    portal_route =
        new_secured_route env ws portal_route_name ws.meta.namespace_name redis_labels
          portal_service_name portal_route_port

    abbrev pub portal_deployment : (users : ℕ) (suffix : String) (names : List String) → Object
    portal_deployment users suffix names =
        new_portal_deployment env query_escape ws portal_deployment_name redis_labels
          redis_service_name users suffix names

    -- The order of the range over the guides, where there is one.
    unfoldable pub guide_names : Code World (List String)
    guide_names = elim ws.spec.infrastructure.guide.scholars.enabled [
      | true ↦ range_keys env (keys ws.spec.infrastructure.guide.scholars.guide_url)
      | false ↦ pure []
    ]

    unfoldable pub add_redis : Code World Return
    add_redis = function do
      create_or_exists env redis_secret
      create_or_exists env redis_pvc
      e ← create_err env redis_deployment
      store_deployment env ws.meta.namespace_name env_changed redis_deployment e
      create_or_exists env redis_service
      pure success

    unfoldable pub add_update_username_distribution :
        (users : ℕ) (suffix console_url : String) → Code World Return
    add_update_username_distribution users suffix console_url = function do
      names ← guide_names
      e ← create_err env (portal_deployment users suffix names)
      store_deployment env ws.meta.namespace_name env_or_image_changed
          (portal_deployment users suffix names) e
      create_or_exists env portal_service
      create_or_exists env portal_route
      pure success

    unfoldable pub reconcile_portal : (users : ℕ) (suffix console_url : String) → Code World Return
    reconcile_portal users suffix console_url = function do
      propagate is_requeued add_redis
      propagate has_error (add_update_username_distribution users suffix console_url)
      pure success

    unfoldable pub delete_redis : Code World Return
    delete_redis = function do
      delete_or_return env redis_service
      delete_or_return env redis_deployment
      delete_or_return env redis_pvc
      delete_or_return env redis_secret
      pure success

    -- The deployment is deleted if it could be read.
    delete_found : Object → Got → Code World (Unit {0})
    delete_found dep (found _) = delete_or_return env dep
    delete_found dep (failed _) = pure tt

    unfoldable pub delete_username_distribution :
        (users : ℕ) (suffix console_url : String) → Code World Return
    unfolding delete_found
    delete_username_distribution users suffix console_url = function do
      delete_or_return env portal_route
      delete_or_return env portal_service
      names ← guide_names
      answer ←
          get_object env
            (deployment_ref ws.meta.namespace_name (portal_deployment users suffix names).meta.name)
      delete_found (portal_deployment users suffix names) answer
      pure success

    unfoldable pub delete_portal : (user_id : ℕ) (suffix console_url : String) → Code World Return
    delete_portal user_id suffix console_url = function do
      propagate is_requeued (delete_username_distribution user_id suffix console_url)
      propagate is_requeued delete_redis
      pure success
