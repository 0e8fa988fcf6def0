-- ===== src/Bookbag.antt =====
-- controllers/bookbag_reconciler.go: a guide for each user, with its own service account.
pub mod Objects
pub mod Termination
pub mod Deletion
use workshop_operator.Prelude.{
  ℕ, zero, suc, String, ◌<>◌, Bool, true, false, ◌&&◌, [], ◌∷◌, StringMap, itoa, leb,
}
use workshop_operator.Kube.Object.{Object, Ref, deployment}
use workshop_operator.Kube.Env.{Env}
use workshop_operator.Kube.Flow.{
  Code, Return, success, is_requeued, out_of_fuel, pure, ◌>>=◌, ◌>>◌, function, propagate,
}
use workshop_operator.Kube.Idiom.{create_or_exists, delete_or_return, create_err, get_object}
use workshop_operator.Kube.Deploy.{env_changed, deployment_ref, store_deployment}
use workshop_operator.Kube.Rounds.{rounds_from, is_not_found}
use workshop_operator.Build.Base.{Workshop}
use workshop_operator.Build.Cluster.{new_namespace, new_role_binding_sa}
use workshop_operator.Build.Workloads.{new_config_map, new_service_account, new_service, new_route}
use workshop_operator.Build.Bookbag.{new_bookbag_deployment}

abbrev pub bookbag_namespace_name : String
bookbag_namespace_name = "workshop-guides"

abbrev pub bookbag_role_binding_name : String
bookbag_role_binding_name = "adim"

abbrev pub bookbag_role_kind_name : String
bookbag_role_kind_name = "Role"

abbrev pub bookbag_port : ℕ
bookbag_port = 10080

abbrev pub bookbag_config_data : StringMap String
bookbag_config_data = ("gateway.sh", "") ∷ ("terminal.sh", "") ∷ ("workshop.sh", "") ∷ []

-- `fmt.Sprintf("user%s-bookbag", userID)`
abbrev pub bookbag_name : (user_id : String) → String
bookbag_name user_id = "user" <> user_id <> "-bookbag"

abbrev pub bookbag_labels : (name : String) → StringMap String
bookbag_labels name = ("app", name) ∷ ("app.kubernetes.io/part-of", "bookbag") ∷ []

abbrev pub env_config_map : (name : String) → Object
env_config_map name =
    new_config_map (name <> "-env") bookbag_namespace_name (bookbag_labels name) bookbag_config_data

abbrev pub var_config_map : (name : String) → Object
var_config_map name =
    new_config_map (name <> "-vars") bookbag_namespace_name (bookbag_labels name) []

abbrev pub bookbag_service_account : (name : String) → Object
bookbag_service_account name = new_service_account name bookbag_namespace_name (bookbag_labels name)

abbrev pub bookbag_role_binding : (name : String) → Object
bookbag_role_binding name =
    new_role_binding_sa name bookbag_namespace_name (bookbag_labels name) name
      bookbag_role_binding_name bookbag_role_kind_name

abbrev pub bookbag_deployment : Workshop → (name user_id suffix console_url : String) → Object
bookbag_deployment ws name user_id suffix console_url =
    new_bookbag_deployment ws name bookbag_namespace_name (bookbag_labels name) user_id suffix
      console_url

abbrev pub bookbag_service : (name : String) → Object
bookbag_service name =
    new_service name bookbag_namespace_name (bookbag_labels name) (("http", bookbag_port) ∷ [])

abbrev pub bookbag_route : (name : String) → Object
bookbag_route name = new_route name bookbag_namespace_name (bookbag_labels name) name bookbag_port

-- What is looked for behind the users: `fmt.Sprintf("bookbag-%d", id)`.
abbrev pub looked_up : ℕ → Ref
looked_up id = deployment_ref bookbag_namespace_name ("bookbag-" <> itoa id)

-- `id <= users && enabled`
abbrev pub has_bookbag : Workshop → (users : ℕ) → ℕ → Bool
has_bookbag ws users id = leb id users && ws.spec.infrastructure.guide.bookbag.enabled

module _ (env : Env) (ws : Workshop) where
  open env use {World}

  unfoldable pub add_update_bookbag : (user_id suffix console_url : String) → Code World Return
  add_update_bookbag user_id suffix console_url =
      let name = bookbag_name user_id in
      let dep = bookbag_deployment ws name user_id suffix console_url in
      function do
        create_or_exists env (new_namespace bookbag_namespace_name)
        create_or_exists env (env_config_map name)
        create_or_exists env (var_config_map name)
        create_or_exists env (bookbag_service_account name)
        create_or_exists env (bookbag_role_binding name)
        e ← create_err env dep
        store_deployment env bookbag_namespace_name env_changed dep e
        create_or_exists env (bookbag_service name)
        create_or_exists env (bookbag_route name)
        pure success

  abbrev per_user : (suffix console_url : String) → ℕ → Code World (Unit {0})
  per_user suffix console_url id =
      propagate is_requeued (add_update_bookbag (itoa id) suffix console_url)

  unfoldable pub reconcile_bookbag :
      (fuel users : ℕ) (suffix console_url : String) → Code World Return
  reconcile_bookbag fuel users suffix console_url = function do
    rounds_from env (has_bookbag ws users) (per_user suffix console_url) looked_up fuel 1
    pure success

  -- One round: the bookbag of a user. The deployment is built for `userID`, whoever's it is.
  abbrev pub delete_user : (name user_id suffix console_url : String) → Code World (Unit {0})
  delete_user name user_id suffix console_url = do
    delete_or_return env (bookbag_route name)
    delete_or_return env (bookbag_service name)
    delete_or_return env (bookbag_deployment ws name user_id suffix console_url)
    delete_or_return env (bookbag_role_binding name)
    delete_or_return env (bookbag_service_account name)
    delete_or_return env (var_config_map name)
    delete_or_return env (env_config_map name)

  -- `for { … id++ }`, from an id on
  delete_from : (fuel id : ℕ) (user_id suffix console_url : String) → Code World (Unit {0})
  delete_from zero id user_id suffix console_url = λ w. (out_of_fuel, w)
  delete_from (suc fuel) id user_id suffix console_url = do
    delete_user (bookbag_name (itoa id)) user_id suffix console_url
    answer ← get_object env (deployment_ref bookbag_namespace_name (bookbag_name (itoa id)))
    elim (is_not_found answer) [
      | true ↦ pure tt
      | false ↦ delete_from fuel (suc id) user_id suffix console_url
    ]

  unfoldable pub delete_bookbag :
      (fuel user_id : ℕ) (suffix console_url : String) → Code World Return
  unfolding delete_from
  delete_bookbag fuel user_id suffix console_url = function do
    delete_from fuel 1 (itoa user_id) suffix console_url
    delete_or_return env (new_namespace bookbag_namespace_name)
    pure success
