-- ===== src/Vault/Objects.antt =====
-- The objects of `reconcileVault`.
use workshop_operator.Prelude.{
  ◌≡◌, ℕ, String, true, false, List, [], ◌∷◌, ◌++◌, ◌≢◌, refl, none, some, Option, ◌∙◌,
}
use workshop_operator.Kube.Object.{
  Ref, Kind, namespace, config_map, service_account, cluster_role, cluster_role_binding, service,
  stateful_set, deployment, mutating_webhook_configuration, Object,
}
use workshop_operator.Kube.Env.{Env, Got, found, failed, Error}
use workshop_operator.Kube.Flow.{Code, Return, next, success, is_requeued, ◌>>◌, pure, ◌>>=◌}
use workshop_operator.Kube.Idiom.{update_or_return, return_error, get_object}
use workshop_operator.Kube.Errors.{requeue_fails}
use workshop_operator.Kube.Lawful.{IsLawful}
use workshop_operator.Kube.Meets.{Meets-propagate}
use workshop_operator.Kube.Installs.{
  AllPresent, Installs, InstallsCall, InstallsCall-function, Installs-pure, Installs-bind,
  Installs-get, Installs-create, Installs-call, create-Installs,
}
use workshop_operator.Kube.Stores.{update-Installs}
use workshop_operator.Build.Base.{Workshop}
use workshop_operator.Build.Cluster.{new_namespace}
use workshop_operator.Build.Workloads.{
  new_config_map, new_service_account, new_service, new_service_with_target,
}
use workshop_operator.Build.Roles.{new_cluster_role, new_cluster_role_binding_sa}
use workshop_operator.Build.Vault.{
  new_stateful_set, new_agent_injector_deployment, new_mutating_webhook_configuration,
}
use workshop_operator.Vault.{
  add_constraints, if_not_found, copy_constraints, add_vault_server, add_vault_agent_injector,
  add_if_enabled, reconcile_vault, constraints_ref, constraints_for, constraints_of,
}

abbrev pub vault_ref : Kind → (name : String) → Ref
vault_ref kind name = record { kind = kind; namespace_name = "vault"; name = name }

abbrev pub cluster_ref : Kind → (name : String) → Ref
cluster_ref kind name = record { kind = kind; namespace_name = ""; name = name }

-- In the order in which they are created.
abbrev pub vault_server_refs : List Ref
vault_server_refs =
    cluster_ref namespace "vault"
    ∷ vault_ref config_map "vault-config"
    ∷ vault_ref service_account "vault"
    ∷ constraints_ref "vault"
    ∷ cluster_ref cluster_role_binding "vault-server-binding"
    ∷ vault_ref service "vault-internal"
    ∷ vault_ref service "vault"
    ∷ vault_ref stateful_set "vault"
    ∷ []

abbrev pub vault_agent_refs : List Ref
vault_agent_refs =
    cluster_ref namespace "vault"
    ∷ vault_ref service_account "vault-agent-injector"
    ∷ constraints_ref "vault"
    ∷ cluster_ref cluster_role "vault-agent-injector"
    ∷ cluster_ref cluster_role_binding "vault-agent-injector"
    ∷ vault_ref service "vault-agent-injector"
    ∷ vault_ref deployment "vault-agent-injector"
    ∷ cluster_ref mutating_webhook_configuration "vault-agent-injector-cfg"
    ∷ []

module _ (env : Env) (law : IsLawful env) where
  open env use {World}

  some_installed :
      {A : Type 0} {m : Code World A} {l : List Ref}
      → Installs env law is_requeued m l
      → Installs env law is_requeued m []
  some_installed i = record {
    meets = record { keeps = i.meets.keeps; done = λ w a e. tt; early = i.meets.early };
  }

  copy-Installs :
      (user : String) (g : Got) → Installs env law is_requeued (copy_constraints env user g) []
  unfolding copy_constraints
  copy-Installs user (found o) =
      some_installed (create-Installs env law is_requeued requeue_fails _)
  copy-Installs user (failed e) = update-Installs env law is_requeued requeue_fails _ (λ h. cc)

  if_not_found-Installs :
      (user : String) (g : Got) → Installs env law is_requeued (if_not_found env user g) []
  unfolding if_not_found
  if_not_found-Installs user (found o) = Installs-pure env law is_requeued tt
  if_not_found-Installs user (failed e) = Installs-get env law is_requeued _ _ (copy-Installs user)

  -- An object without a name cannot be updated.
  abbrev pub RefusesNameless : Type 0
  RefusesNameless = (o : Object) (w : World) → o.meta.name ≡ "" → (env.update o w).0 ≢ none

  -- A read finds the constraints only if they are there.
  abbrev pub FindsConstraints : Type 0
  FindsConstraints =
      (o : Object) (w : World)
      → (env.get (constraints_ref "vault") w).0 ≡ found o
      → law.present w (constraints_ref "vault") ≡ true

  module _ (nameless : RefusesNameless) (finds : FindsConstraints) where
    went_on :
        (o : Object) (w : World) (a : Unit {0})
        → (update_or_return env o w).0 ≡ next a
        → (env.update o w).0 ≡ none
    unfolding update_or_return
    went_on o w a h = by_error (env.update o w).0 (env.update o w).1 h
      where
        by_error : (e : Option Error) (u : World) → (return_error (e, u)).0 ≡ next a → e ≡ none
        by_error none u p = refl
        by_error (some e) u p = cc

    copied :
        (user : String) (g : Got) (w : World) (a : Unit {0})
        → (copy_constraints env user g w).0 ≡ next a
        → law.present (copy_constraints env user g w).1 (constraints_ref "vault") ≡ true
    unfolding copy_constraints
    copied user (found o) w a h =
        ((create-Installs env law is_requeued requeue_fails
            (constraints_for "vault" user (constraints_of o))).meets.done
          w a h).0
    copied user (failed e) w a h = absurd (nameless _ w refl (went_on _ w a h))

    by_read :
        (user : String) (w : World) (g : Got) (a : Unit {0})
        → (env.get (constraints_ref "vault") w).0 ≡ g
        → let u = (env.get (constraints_ref "vault") w).1 in
          (if_not_found env user g u).0 ≡ next a
          → law.present (if_not_found env user g u).1 (constraints_ref "vault") ≡ true
    unfolding if_not_found pure get_object ◌>>=◌
    by_read user w (found o) a e h = law.get_keeps _ w _ ∙ finds o w e
    by_read user w (failed x) a e h = copied user _ _ a h

    add_constraints-Installs :
        (user : String)
        → Installs env law is_requeued (add_constraints env user) (constraints_ref "vault" ∷ [])
    unfolding add_constraints get_object ◌>>=◌
    add_constraints-Installs user = record {
      meets =
          let kept =
            Installs-get env law is_requeued (constraints_ref "vault") _
              (if_not_found-Installs user) in
          record {
            keeps = kept.meets.keeps;
            done = λ w a h. (by_read user w (env.get (constraints_ref "vault") w).0 a refl h, tt);
            early = kept.meets.early;
          };
    }

    -- The constraints, then the rest of the block.
    Installs-constraints :
        {l : List Ref} (user : String) (n : Code World Return)
        → Installs env law is_requeued n l
        → Installs env law is_requeued (add_constraints env user >> n) (constraints_ref "vault" ∷ l)
    Installs-constraints user n i =
        Installs-bind env law is_requeued {l = constraints_ref "vault" ∷ []} _ _
          (add_constraints-Installs user) (λ _. i)

  module _ (ws : Workshop) (nameless : RefusesNameless) (finds : FindsConstraints) where
    add_vault_server-Installs :
        InstallsCall env law is_requeued (add_vault_server env ws) vault_server_refs
    unfolding add_vault_server new_namespace new_config_map new_service_account
        new_cluster_role_binding_sa new_service new_stateful_set
    add_vault_server-Installs = InstallsCall-function env law is_requeued _ (
        search
          (
            Installs-pure env law is_requeued,
            Installs-create env law is_requeued requeue_fails,
            Installs-constraints nameless finds,
          )
          depth 12)

    add_vault_agent_injector-Installs :
        InstallsCall env law is_requeued (add_vault_agent_injector env ws) vault_agent_refs
    unfolding add_vault_agent_injector new_namespace new_service_account new_cluster_role
        new_cluster_role_binding_sa new_service_with_target new_agent_injector_deployment
        new_mutating_webhook_configuration
    add_vault_agent_injector-Installs = InstallsCall-function env law is_requeued _ (
        search
          (
            Installs-pure env law is_requeued,
            Installs-create env law is_requeued requeue_fails,
            Installs-constraints nameless finds,
          )
          depth 12)

    enabled-Installs :
        (users : ℕ)
        → ws.spec.infrastructure.vault.enabled ≡ true
        → InstallsCall env law is_requeued
            (reconcile_vault env ws users)
            (vault_server_refs ++ vault_agent_refs)
    unfolding reconcile_vault
    enabled-Installs users on =
        rw (on, add_if_enabled)
          (InstallsCall-function env law is_requeued _ (
            Installs-bind env law is_requeued {l = vault_server_refs ++ vault_agent_refs} {k = []} _
              _
              (Installs-call env law is_requeued is_requeued _ _ (λ r e. e)
                add_vault_server-Installs
                (record {
                  meets = Meets-propagate _ add_vault_agent_injector-Installs.meets (λ r h. h);
                }))
              (λ _. Installs-pure env law is_requeued success)))

    -- In a lawful cluster that refuses the update of an object without a name, and in which a read
    -- finds the constraints `vault` only if they are there, with the component enabled, a run of
    -- `reconcileVault` that is not requeued leaves the namespace, the config map, the service account,
    -- the cluster role binding, the two services and the stateful set of the server, the service
    -- account, the cluster role and its binding, the service, the deployment and the webhook of the
    -- agent, and the security context constraints of both.
    pub reconcile_vault-AllPresent :
        (users : ℕ) (w : World) (r : Return)
        → ws.spec.infrastructure.vault.enabled ≡ true
        → (reconcile_vault env ws users w).0 ≡ next r
        → is_requeued r ≡ false
        → AllPresent env law
            (reconcile_vault env ws users w).1
            (vault_server_refs ++ vault_agent_refs)
    reconcile_vault-AllPresent users w r on e n = (enabled-Installs users on).meets.done w r e n
