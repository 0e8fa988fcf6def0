-- ===== src/Vault/Deletion.antt =====
-- The objects of `deleteVault`.
use workshop_operator.Kube.Object.{
  Ref, namespace, config_map, service_account, cluster_role, cluster_role_binding, service,
  stateful_set, deployment, mutating_webhook_configuration, Object, ref,
}
use workshop_operator.Kube.Env.{Env, Got, found, failed, not_found}
use workshop_operator.Kube.Flow.{Code, Return, next, success, is_requeued, ◌>>◌, pure, ◌>>=◌}
use workshop_operator.Prelude.{◌⊎◌, inl, inr, refl, ◌∙◌, ap, sym, ◌≡◌, false, List, [], ◌∷◌, ◌++◌}
use workshop_operator.Kube.Idiom.{delete_or_return, get_object}
use workshop_operator.Kube.Meets.{Meets, MeetsCall, Meets-bind, MeetsCall-function, Meets-propagate}
use workshop_operator.Vault.Objects.{vault_ref, cluster_ref}
use workshop_operator.Kube.Errors.{requeue_fails}
use workshop_operator.Kube.Lawful.{IsLawful, lingers}
use workshop_operator.Kube.Removes.{
  Removed, Removes, RemovesCall, RemovesCall-function, Removes-pure, Removes-bind, Removes-get,
  Removes-delete, Removes-call, delete-Removes, AddsNothing, AddsNothing-IsPreorder,
}
use workshop_operator.Kube.Deletes.{some_removed}
use workshop_operator.Build.Base.{Workshop}
use workshop_operator.Build.Cluster.{new_namespace}
use workshop_operator.Build.Workloads.{
  new_config_map, new_service_account, new_service, new_service_with_target,
}
use workshop_operator.Build.Roles.{new_cluster_role, new_cluster_role_binding_sa}
use workshop_operator.Build.Vault.{
  new_stateful_set, new_agent_injector_deployment, new_mutating_webhook_configuration,
}
use workshop_operator.Vault.{
  delete_if_found, delete_constraints, delete_vault_server, delete_vault_agent_injector,
  delete_vault_namespace, delete_vault, constraints_ref, vault_cluster_role_binding, vault_service,
  vault_stateful_set,
}

-- In the order in which they are deleted.
abbrev pub deleted_server_refs : List Ref
deleted_server_refs =
    vault_ref stateful_set "vault"
    ∷ vault_ref service "vault"
    ∷ vault_ref service "vault-internal"
    ∷ cluster_ref cluster_role_binding "vault-server-binding"
    ∷ vault_ref service_account "vault"
    ∷ vault_ref config_map "vault-config"
    ∷ []

abbrev pub deleted_agent_refs : List Ref
deleted_agent_refs =
    cluster_ref mutating_webhook_configuration "vault-agent-injector-cfg"
    ∷ vault_ref deployment "vault-agent-injector"
    ∷ vault_ref service "vault-agent-injector"
    ∷ cluster_ref cluster_role_binding "vault-agent-injector"
    ∷ cluster_ref cluster_role "vault-agent-injector"
    ∷ vault_ref service_account "vault-agent-injector"
    ∷ []

abbrev pub deleted_vault_refs : List Ref
deleted_vault_refs = deleted_server_refs ++ deleted_agent_refs ++ cluster_ref namespace "vault" ∷ []

module _ (env : Env) (law : IsLawful env) where
  open env use {World}

  delete_if_found-Removes : (g : Got) → Removes env law is_requeued (delete_if_found env g) []
  unfolding delete_if_found
  delete_if_found-Removes (found o) =
      some_removed env law is_requeued (delete-Removes env law is_requeued requeue_fails o)
  delete_if_found-Removes (failed e) = Removes-pure env law is_requeued tt

  Removes-constraints :
      {l : List Ref} (n : Code World Return)
      → Removes env law is_requeued n l
      → Removes env law is_requeued (delete_constraints env >> n) l
  unfolding delete_constraints
  Removes-constraints n i =
      Removes-bind env law is_requeued {l = []} _ _
        (Removes-get env law is_requeued _ _ delete_if_found-Removes) (λ _. i)

  module _ (ws : Workshop) where
    delete_vault_server-Removes :
        RemovesCall env law is_requeued (delete_vault_server env ws) deleted_server_refs
    unfolding delete_vault_server new_config_map new_service_account new_cluster_role_binding_sa
        new_service new_stateful_set
    delete_vault_server-Removes = RemovesCall-function env law is_requeued _ (
        search
          (
            Removes-pure env law is_requeued,
            Removes-delete env law is_requeued requeue_fails,
            Removes-constraints,
          )
          depth 12)

    delete_vault_agent_injector-Removes :
        RemovesCall env law is_requeued (delete_vault_agent_injector env ws) deleted_agent_refs
    unfolding delete_vault_agent_injector new_service_account new_cluster_role
        new_cluster_role_binding_sa new_service_with_target new_agent_injector_deployment
        new_mutating_webhook_configuration
    delete_vault_agent_injector-Removes = RemovesCall-function env law is_requeued _ (
        search
          (
            Removes-pure env law is_requeued,
            Removes-delete env law is_requeued requeue_fails,
            Removes-constraints,
          )
          depth 12)

    delete_vault_namespace-Removes :
        RemovesCall env law is_requeued
          (delete_vault_namespace env)
          (cluster_ref namespace "vault" ∷ [])
    unfolding delete_vault_namespace new_namespace
    delete_vault_namespace-Removes = RemovesCall-function env law is_requeued _ (
        Removes-delete env law is_requeued requeue_fails _ _
          (Removes-pure env law is_requeued success))

    vault-Removes : RemovesCall env law is_requeued (delete_vault env ws) deleted_vault_refs
    unfolding delete_vault
    vault-Removes = RemovesCall-function env law is_requeued _ (
        Removes-call env law is_requeued is_requeued _ _ (λ r e. e) delete_vault_server-Removes
          (Removes-call env law is_requeued is_requeued _ _ (λ r e. e)
            delete_vault_agent_injector-Removes
            (Removes-call env law is_requeued {k = []} is_requeued _ _ (λ r e. e)
              delete_vault_namespace-Removes (Removes-pure env law is_requeued success))))

  abbrev Cleared : World → World → Type 0
  Cleared w w' = law.present w' (constraints_ref "vault") ≡ false

  -- Code behind which the constraints are gone.
  abbrev Clears : {A : Type 0} → Code World A → Type 0
  Clears = Meets (AddsNothing env law) is_requeued Cleared

  Clears-then :
      {A B : Type 0} {l : List Ref} (m : Code World A) (n : Code World B)
      → Clears m
      → Removes env law is_requeued n l
      → Clears (m >> n)
  Clears-then m n c i =
      Meets-bind (AddsNothing-IsPreorder env law) m (λ _. n) c (λ _. i.meets)
        (λ u v w _ k p q. k (constraints_ref "vault") p)

  then-Clears :
      {A B : Type 0} {l : List Ref} (m : Code World A) (n : Code World B)
      → Removes env law is_requeued m l
      → Clears n
      → Clears (m >> n)
  then-Clears m n i c =
      Meets-bind (AddsNothing-IsPreorder env law) m (λ _. n) i.meets (λ _. c) (λ u v w _ _ _ q. q)

  -- A read of the constraints finds an object at their place, or answers that they are not found, and
  -- then they are not there.
  abbrev pub ReadsConstraints : Type 0
  ReadsConstraints =
      (w : World)
      → (((env.get (constraints_ref "vault") w).0 ≡ failed not_found)
          × (law.present w (constraints_ref "vault") ≡ false))
        ⊎ ((o : Object) × (((env.get (constraints_ref "vault") w).0 ≡ found o)
              × (ref o ≡ constraints_ref "vault")))

  module _ (reads : ReadsConstraints) where
    deleted :
        (o : Object) (w : World) (a : Unit {0})
        → ref o ≡ constraints_ref "vault"
        → (delete_or_return env o w).0 ≡ next a
        → Cleared w (delete_or_return env o w).1
    deleted o w a e h =
        ap (law.present (delete_or_return env o w).1) (sym e)
        ∙ ((delete-Removes env law is_requeued requeue_fails o).meets.done w a h).1
            (ap (λ (r : Ref). lingers r.kind) e)

    by_read :
        (w : World) (g : Got) (a : Unit {0})
        → (env.get (constraints_ref "vault") w).0 ≡ g
        → ((g ≡ failed not_found) × (law.present w (constraints_ref "vault") ≡ false))
          ⊎ ((o : Object) × ((g ≡ found o) × (ref o ≡ constraints_ref "vault")))
        → let u = (env.get (constraints_ref "vault") w).1 in
          (delete_if_found env g u).0 ≡ next a → Cleared w (delete_if_found env g u).1
    unfolding delete_if_found pure
    by_read w (failed e) a p (inl (q, gone)) h = law.get_keeps _ w _ ∙ gone
    by_read w (failed e) a p (inr (o, (q, k))) h = cc
    by_read w (found o) a p (inl (q, gone)) h = cc
    by_read w (found o) a p (inr (o', (q, k))) h =
        let at : ref o ≡ constraints_ref "vault" = cc in deleted o _ a at h

    delete_constraints-Clears : Clears (delete_constraints env)
    unfolding delete_constraints get_object ◌>>=◌
    delete_constraints-Clears =
        let kept =
          Removes-get env law is_requeued (constraints_ref "vault") _ delete_if_found-Removes in
        record {
          keeps = kept.meets.keeps;
          done = λ w a h. by_read w (env.get (constraints_ref "vault") w).0 a refl (reads w) h;
          early = kept.meets.early;
        }

    server-Clears :
        (ws : Workshop)
        → MeetsCall (AddsNothing env law) is_requeued Cleared (delete_vault_server env ws)
    unfolding delete_vault_server
    server-Clears ws =
        let delete = delete-Removes env law is_requeued requeue_fails in
        MeetsCall-function _ (
          then-Clears _ _ (delete (vault_stateful_set ws)) (
            then-Clears _ _ (delete (vault_service "vault")) (
              then-Clears _ _ (delete (vault_service "vault-internal")) (
                then-Clears _ _ (delete vault_cluster_role_binding) (
                  Clears-then _ _ delete_constraints-Clears (
                    Removes-delete env law is_requeued requeue_fails _ _ (
                      Removes-delete env law is_requeued requeue_fails _ _
                        (Removes-pure env law is_requeued success))))))))

    vault-Clears :
        (ws : Workshop) → MeetsCall (AddsNothing env law) is_requeued Cleared (delete_vault env ws)
    unfolding delete_vault
    vault-Clears ws = MeetsCall-function _ (
        Clears-then _ _ (Meets-propagate _ (server-Clears ws) (λ r h. h)) (
          Removes-call env law is_requeued is_requeued _ _ (λ r e. e)
            (delete_vault_agent_injector-Removes ws)
            (Removes-call env law is_requeued {k = []} is_requeued _ _ (λ r e. e)
              (delete_vault_namespace-Removes ws) (Removes-pure env law is_requeued success))))

    -- In a lawful cluster where a read of the constraints `vault` finds an object at their place, or
    -- answers that they are not found and they are not there, a run of `deleteVault` that is not
    -- requeued has found the namespace and each object of the server and of the agent but the
    -- constraints, and all but the namespace, which lingers, are gone; and the constraints are gone.
    pub delete_vault-Removed :
        (ws : Workshop) (w : World) (r : Return)
        → (delete_vault env ws w).0 ≡ next r
        → is_requeued r ≡ false
        → Removed env law deleted_vault_refs w (delete_vault env ws w).1
          × (law.present (delete_vault env ws w).1 (constraints_ref "vault") ≡ false)
    delete_vault-Removed ws w r e n =
        ((vault-Removes ws).meets.done w r e n, (vault-Clears ws).done w r e n)
