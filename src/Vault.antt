-- ===== src/Vault.antt =====
-- controllers/vault_reconciler.go: the Vault server and the agent that injects secrets.
pub mod Objects
pub mod Deletion
use workshop_operator.Prelude.{
  ℕ, String, ◌<>◌, Bool, true, false, none, List, [], ◌∷◌, ◌++◌, StringMap,
}
use workshop_operator.Kube.Object.{
  Object, Ref, SecurityContextConstraintsSpec, security_context_constraints,
  security_context_constraints_spec,
}
use workshop_operator.Kube.Env.{Env, Got, found, failed}
use workshop_operator.Kube.Flow.{
  Code, Return, success, is_requeued, pure, ◌>>=◌, ◌>>◌, function, propagate,
}
use workshop_operator.Kube.Idiom.{create_or_exists, delete_or_return, update_or_return, get_object}
use workshop_operator.Build.Base.{Workshop, object_meta}
use workshop_operator.Build.Cluster.{new_namespace}
use workshop_operator.Build.Workloads.{
  new_config_map, new_service_account, new_service, new_service_with_target,
}
use workshop_operator.Build.Roles.{
  new_cluster_role, new_cluster_role_binding_sa, vault_agent_injector_rules,
}
use workshop_operator.Build.Vault.{
  new_stateful_set, new_agent_injector_deployment, new_agent_injector_web_hook,
  new_mutating_webhook_configuration,
}
use workshop_operator.Util.{string_in_slice}

abbrev pub extra_config_from_values : StringMap String
extra_config_from_values =
    (
      "extraconfig-from-values.hcl",
      "disable_mlock = true\nui = true\n\nlistener \"tcp\" {\n\ttls_disable = 1\n\taddress = \"[::]:8200\"\n\tcluster_address = \"[::]:8201\"\n}\nstorage \"file\" {\n\tpath = \"/vault/data\"\n}\n",
    )
    ∷ []

abbrev pub vault_server_labels : StringMap String
vault_server_labels =
    ("app", "vault")
    ∷ ("app.kubernetes.io/name", "vault")
    ∷ ("app.kubernetes.io/part-of", "vault")
    ∷ ("component", "server")
    ∷ []

abbrev pub vault_agent_labels : StringMap String
vault_agent_labels =
    ("app", "vault")
    ∷ ("app.kubernetes.io/name", "vault-agent-injector")
    ∷ ("app.kubernetes.io/part-of", "vault")
    ∷ ("component", "webhook")
    ∷ []

abbrev pub vault_namespace_name : String
vault_namespace_name = "vault"

abbrev pub vault_service_account_name : String
vault_service_account_name = "vault"

abbrev pub vault_agent_service_account_name : String
vault_agent_service_account_name = "vault-agent-injector"

abbrev pub vault_config_map : Object
vault_config_map =
    new_config_map "vault-config" vault_namespace_name vault_server_labels extra_config_from_values

abbrev pub vault_service_account : Object
vault_service_account =
    new_service_account vault_service_account_name vault_namespace_name vault_server_labels

abbrev pub vault_cluster_role_binding : Object
vault_cluster_role_binding =
    new_cluster_role_binding_sa "vault-server-binding" vault_namespace_name vault_server_labels
      vault_service_account_name "system:auth-delegator" "ClusterRole"

-- The services `vault-internal` and `vault`.
abbrev pub vault_service : (name : String) → Object
vault_service name =
    new_service name vault_namespace_name vault_server_labels
      (("http", 8200) ∷ ("internal", 8201) ∷ [])

abbrev pub vault_stateful_set : Workshop → Object
vault_stateful_set ws = new_stateful_set ws "vault" vault_namespace_name vault_server_labels

abbrev pub vault_agent_service_account : Object
vault_agent_service_account =
    new_service_account vault_agent_service_account_name vault_namespace_name vault_agent_labels

abbrev pub vault_agent_cluster_role : Object
vault_agent_cluster_role =
    new_cluster_role "vault-agent-injector" vault_namespace_name vault_agent_labels
      vault_agent_injector_rules

abbrev pub vault_agent_cluster_role_binding : Object
vault_agent_cluster_role_binding =
    new_cluster_role_binding_sa "vault-agent-injector" vault_namespace_name vault_agent_labels
      vault_agent_service_account_name "vault-agent-injector" "ClusterRole"

abbrev pub vault_agent_service : Object
vault_agent_service =
    new_service_with_target "vault-agent-injector" vault_namespace_name vault_agent_labels
      (("http", 443, 8080) ∷ [])

abbrev pub vault_agent_deployment : Workshop → Object
vault_agent_deployment ws =
    new_agent_injector_deployment ws "vault-agent-injector" vault_namespace_name vault_agent_labels

abbrev pub vault_agent_webhook : Object
vault_agent_webhook =
    new_mutating_webhook_configuration "vault-agent-injector-cfg" vault_agent_labels
      (new_agent_injector_web_hook vault_namespace_name)

abbrev pub service_account_user : (service_account_name : String) → String
service_account_user service_account_name =
    "system:serviceaccount:" <> vault_namespace_name <> ":" <> service_account_name

abbrev pub constraints_ref : (name : String) → Ref
constraints_ref name = record {
  kind = security_context_constraints;
  namespace_name = "";
  name = name;
}

abbrev no_constraints : SecurityContextConstraintsSpec
no_constraints = record { privileges = []; users = [] }

-- An object of another kind is read as an empty one.
abbrev pub constraints_of : Object → SecurityContextConstraintsSpec
constraints_of o = elim o.spec [ security_context_constraints_spec s ↦ s | _ ↦ no_constraints ]

-- `if !util.StringInSlice(user, users) { users = append(users, user) }`
abbrev pub with_user : (user : String) → List String → List String
with_user user users = elim (string_in_slice user users) [
  | true ↦ users
  | false ↦ users ++ user ∷ []
]

abbrev pub constraints_for : (name user : String) → SecurityContextConstraintsSpec → Object
constraints_for name user constraints = record {
  meta = object_meta name "" [];
  spec =
      security_context_constraints_spec
        (record constraints { users = with_user user constraints.users });
}

module _ (env : Env) where
  open env use {World}

  -- The set `privileged` is copied for the account. If it cannot be read either, the empty set that
  -- the first read has left is written, under no name.
  copy_constraints : (user : String) → Got → Code World (Unit {0})
  copy_constraints user (found o) =
      create_or_exists env (constraints_for "vault" user (constraints_of o))
  copy_constraints user (failed _) = update_or_return env (constraints_for "" user no_constraints)

  if_not_found : (user : String) → Got → Code World (Unit {0})
  if_not_found user (found _) = pure tt
  if_not_found user (failed _) = do
    privileged ← get_object env (constraints_ref "privileged")
    copy_constraints user privileged

  unfoldable pub add_constraints : (user : String) → Code World (Unit {0})
  unfolding if_not_found copy_constraints
  add_constraints user = do
    answer ← get_object env (constraints_ref "vault")
    if_not_found user answer

  unfoldable pub add_vault_server : Workshop → Code World Return
  add_vault_server ws = function do
    create_or_exists env (new_namespace vault_namespace_name)
    create_or_exists env vault_config_map
    create_or_exists env vault_service_account
    add_constraints (service_account_user vault_service_account_name)
    create_or_exists env vault_cluster_role_binding
    create_or_exists env (vault_service "vault-internal")
    create_or_exists env (vault_service "vault")
    create_or_exists env (vault_stateful_set ws)
    pure success

  unfoldable pub add_vault_agent_injector : Workshop → Code World Return
  add_vault_agent_injector ws = function do
    create_or_exists env (new_namespace vault_namespace_name)
    create_or_exists env vault_agent_service_account
    add_constraints (service_account_user vault_agent_service_account_name)
    create_or_exists env vault_agent_cluster_role
    create_or_exists env vault_agent_cluster_role_binding
    create_or_exists env vault_agent_service
    create_or_exists env (vault_agent_deployment ws)
    create_or_exists env vault_agent_webhook
    pure success

  add_if_enabled : Workshop → Bool → Code World (Unit {0})
  add_if_enabled ws true = do
    propagate is_requeued (add_vault_server ws)
    propagate is_requeued (add_vault_agent_injector ws)
  add_if_enabled ws false = pure tt

  unfoldable pub reconcile_vault : Workshop → (users : ℕ) → Code World Return
  unfolding add_if_enabled
  reconcile_vault ws users =
      function do add_if_enabled ws ws.spec.infrastructure.vault.enabled; pure success

  -- `if err := r.Get(…); err == nil { … r.Delete(…) … }`
  delete_if_found : Got → Code World (Unit {0})
  delete_if_found (found o) = delete_or_return env o
  delete_if_found (failed _) = pure tt

  unfoldable pub delete_constraints : Code World (Unit {0})
  unfolding delete_if_found
  delete_constraints = do answer ← get_object env (constraints_ref "vault"); delete_if_found answer

  unfoldable pub delete_vault_server : Workshop → Code World Return
  delete_vault_server ws = function do
    delete_or_return env (vault_stateful_set ws)
    delete_or_return env (vault_service "vault")
    delete_or_return env (vault_service "vault-internal")
    delete_or_return env vault_cluster_role_binding
    delete_constraints
    delete_or_return env vault_service_account
    delete_or_return env vault_config_map
    pure success

  unfoldable pub delete_vault_agent_injector : Workshop → Code World Return
  delete_vault_agent_injector ws = function do
    delete_or_return env vault_agent_webhook
    delete_or_return env (vault_agent_deployment ws)
    delete_or_return env vault_agent_service
    delete_or_return env vault_agent_cluster_role_binding
    delete_or_return env vault_agent_cluster_role
    delete_constraints
    delete_or_return env vault_agent_service_account
    pure success

  unfoldable pub delete_vault_namespace : Code World Return
  delete_vault_namespace =
      function do delete_or_return env (new_namespace vault_namespace_name); pure success

  unfoldable pub delete_vault : Workshop → Code World Return
  delete_vault ws = function do
    propagate is_requeued (delete_vault_server ws)
    propagate is_requeued (delete_vault_agent_injector ws)
    propagate is_requeued delete_vault_namespace
    pure success
