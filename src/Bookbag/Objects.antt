-- ===== src/Bookbag/Objects.antt =====
-- The objects of `reconcileBookbag`.
use workshop_operator.Prelude.{
  ◌≡◌, refl, ℕ, ◌≤◌, String, ◌<>◌, true, false, List, [], ◌∷◌, arith, itoa,
}
use workshop_operator.Kube.Object.{
  Ref, Kind, namespace, config_map, service_account, role_binding, deployment, service, route,
}
use workshop_operator.Kube.Env.{Env}
use workshop_operator.Kube.Flow.{Code, Return, next, success, is_requeued, ◌>>=◌, ◌>>◌}
use workshop_operator.Kube.Errors.{requeue_fails}
use workshop_operator.Kube.Lawful.{IsLawful}
use workshop_operator.Kube.Meets.{
  MeetsCall, Meets-pure, Meets-bind, MeetsCall-function, Meets-propagate,
}
use workshop_operator.Kube.Installs.{
  AllPresent, AllPresent-keep, KeepsPresent, KeepsPresent-IsPreorder, Installs, InstallsCall,
  InstallsCall-function, Installs-pure, Installs-create,
}
use workshop_operator.Kube.Stores.{Installs-store}
use workshop_operator.Kube.Deploy.{env_changed, store_deployment}
use workshop_operator.Kube.Idiom.{create_err}
use workshop_operator.Kube.Rounds.Objects.{Covers, rounds_from-Covers}
use workshop_operator.Build.Base.{Workshop}
use workshop_operator.Build.Cluster.{new_namespace, new_role_binding_sa}
use workshop_operator.Build.Workloads.{new_config_map, new_service_account, new_service, new_route}
use workshop_operator.Build.Bookbag.{new_bookbag_deployment}
use workshop_operator.Bookbag.{
  add_update_bookbag, per_user, reconcile_bookbag, has_bookbag, looked_up, bookbag_name,
  bookbag_namespace_name, bookbag_deployment,
}

abbrev pub guide_ref : Kind → (name : String) → Ref
guide_ref kind name = record { kind = kind; namespace_name = "workshop-guides"; name = name }

-- The objects of the user with a number, in the order in which they are created.
abbrev pub bookbag_refs : ℕ → List Ref
bookbag_refs id =
    record { kind = namespace; namespace_name = ""; name = "workshop-guides" }
    ∷ guide_ref config_map (bookbag_name (itoa id) <> "-env")
    ∷ guide_ref config_map (bookbag_name (itoa id) <> "-vars")
    ∷ guide_ref service_account (bookbag_name (itoa id))
    ∷ guide_ref role_binding (bookbag_name (itoa id))
    ∷ guide_ref deployment (bookbag_name (itoa id))
    ∷ guide_ref service (bookbag_name (itoa id))
    ∷ guide_ref route (bookbag_name (itoa id))
    ∷ []

module _ (env : Env) (law : IsLawful env) (ws : Workshop) where
  open env use {World}

  stored :
      (id : ℕ) (suffix console_url : String) {l : List Ref} (n : Code World Return)
      → Installs env law is_requeued n l
      → let dep = bookbag_deployment ws (bookbag_name (itoa id)) (itoa id) suffix console_url in
        Installs env law is_requeued
          (create_err env dep >>= λ e.
            store_deployment env bookbag_namespace_name env_changed dep e >> n)
          (guide_ref deployment (bookbag_name (itoa id)) ∷ l)
  unfolding new_bookbag_deployment
  stored id suffix console_url n i =
      Installs-store env law is_requeued requeue_fails bookbag_namespace_name env_changed _
        (λ h. cc) _ n refl i

  add_update_bookbag-Installs :
      (id : ℕ) (suffix console_url : String)
      → InstallsCall env law is_requeued
          (add_update_bookbag env ws (itoa id) suffix console_url)
          (bookbag_refs id)
  unfolding add_update_bookbag new_namespace new_config_map new_service_account new_role_binding_sa
      new_bookbag_deployment new_service new_route
  add_update_bookbag-Installs id suffix console_url = InstallsCall-function env law is_requeued _ (
      search
        (
          Installs-pure env law is_requeued,
          Installs-create env law is_requeued requeue_fails,
          stored id suffix console_url,
        )
        depth 12)

  module _ (users : ℕ) (on : ws.spec.infrastructure.guide.bookbag.enabled ≡ true)
      (suffix console_url : String) where
    per_user-Installs :
        (id : ℕ)
        → Installs env law is_requeued (per_user env ws suffix console_url id) (bookbag_refs id)
    per_user-Installs id = record {
      meets =
          Meets-propagate _ (add_update_bookbag-Installs id suffix console_url).meets (λ r h. h);
    }

    all_there :
        (fuel : ℕ)
        → MeetsCall
            (KeepsPresent env law)
            is_requeued
            (Covers env law bookbag_refs users 1)
            (reconcile_bookbag env ws fuel users suffix console_url)
    unfolding reconcile_bookbag
    all_there fuel = MeetsCall-function _ (
        Meets-bind (KeepsPresent-IsPreorder env law) _ _
          (rounds_from-Covers env law is_requeued (has_bookbag ws users) _ looked_up bookbag_refs
            users (λ i le. ground arith) per_user-Installs fuel 1)
          (λ _.
            Meets-pure (KeepsPresent-IsPreorder env law) {Q = λ _ _. Unit {0}} success (λ w. tt))
          λ u v w _ kept p _ i le le'.
            AllPresent-keep env law (bookbag_refs i) v w kept (p i le le'))

    -- In a lawful cluster, with bookbags enabled, a run that is not requeued leaves the namespace
    -- of the guides and, for every user from 1 to their number, the two config maps, the service
    -- account, the role binding, the deployment, the service and the route of a bookbag.
    pub reconcile_bookbag-AllPresent :
        (fuel : ℕ) (w : World) (r : Return)
        → (reconcile_bookbag env ws fuel users suffix console_url w).0 ≡ next r
        → is_requeued r ≡ false
        → (i : ℕ) → 1 ≤ i
        → i ≤ users
        → AllPresent env law
            (reconcile_bookbag env ws fuel users suffix console_url w).1
            (bookbag_refs i)
    reconcile_bookbag-AllPresent fuel w r e n = (all_there fuel).done w r e n
