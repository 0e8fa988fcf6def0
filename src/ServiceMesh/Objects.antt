-- ===== src/ServiceMesh/Objects.antt =====
-- The objects of `reconcileServiceMesh`.
use workshop_operator.Prelude.{
  ◌≡◌, refl, ℕ, String, Bool, true, false, List, [], ◌∷◌, ◌⊎◌, inl, inr,
}
use workshop_operator.Kube.Object.{
  Object, Ref, namespace, role, role_binding, service_mesh_control_plane, service_mesh_member_roll,
  ref,
}
use workshop_operator.Kube.Env.{Env}
use workshop_operator.Kube.Flow.{Code, Return, next, success, requeued, is_requeued, ◌>>◌}
use workshop_operator.Kube.Errors.{requeue_fails}
use workshop_operator.Kube.Lawful.{IsLawful}
use workshop_operator.Kube.Meets.{Meets-propagate}
use workshop_operator.Kube.Installs.{
  AllPresent, Installs, InstallsCall, InstallsCall-function, Installs-pure, Installs-bind,
  Installs-create, Installs-call, Installs-last, Installs-weaken,
}
use workshop_operator.Kube.Merge.Objects.{Installs-merge}
use workshop_operator.Kube.Same.{subjects_change, subjects-kind}
use workshop_operator.Kube.Watch.Answer.{Installs-wait}
use workshop_operator.Build.Base.{Workshop}
use workshop_operator.Build.Cluster.{new_namespace, new_role_binding_users}
use workshop_operator.Build.Roles.{new_role}
use workshop_operator.Build.Subscriptions.{new_red_hat_subscription}
use workshop_operator.Build.Mesh.{
  new_service_mesh_control_plane_cr, new_service_mesh_member_roll_cr,
  elasticsearch_subscription_name,
}
use workshop_operator.InstallPlan.{subscription_ref}
use workshop_operator.CertManager.Objects.{approve-Installs, requeue-Installs}
use workshop_operator.ServiceMesh.{
  istio_ref, istio_namespace_ref, members_change, subscribe, add_elastic_search_operator,
  add_jaeger_operator, add_kiali_operator, add_service_mesh, add_operators, add_if_enabled,
  reconcile_service_mesh,
}

abbrev pub red_hat_namespace_ref : Ref
red_hat_namespace_ref = record {
  kind = namespace;
  namespace_name = "";
  name = "openshift-operators-redhat";
}

-- The subscription of Elasticsearch is named after its channel.
abbrev pub service_mesh_refs : Workshop → List Ref
service_mesh_refs ws =
    red_hat_namespace_ref
    ∷ subscription_ref (elasticsearch_subscription_name ws) "openshift-operators-redhat"
    ∷ subscription_ref "jaeger-product" "openshift-operators"
    ∷ subscription_ref "kiali-ossm" "openshift-operators"
    ∷ subscription_ref "servicemeshoperator" "openshift-operators"
    ∷ istio_namespace_ref
    ∷ istio_ref role "jaeger-user"
    ∷ istio_ref role_binding "jaeger-users"
    ∷ istio_ref role_binding "mesh-users"
    ∷ istio_ref service_mesh_control_plane "basic"
    ∷ istio_ref service_mesh_member_roll "default"
    ∷ []

module _ (env : Env) (law : IsLawful env) where
  open env use {World}

  Installs-subscribe :
      {B : Type 0} {l : List Ref} (o : Object) (version name namespace_name : String)
      (n : Code World B)
      → Installs env law is_requeued n l
      → Installs env law is_requeued (subscribe env o version name namespace_name >> n) (ref o ∷ l)
  unfolding subscribe
  Installs-subscribe {l} o version name namespace_name n i =
      Installs-bind env law is_requeued {l = ref o ∷ []} {k = l} _ _
        (Installs-create env law is_requeued requeue_fails _ _ (
          Installs-bind env law is_requeued {l = []} _ _ (approve-Installs env law _ _ _)
            (requeue-Installs env law)))
        (λ _. i)

  module _ (ws : Workshop) where
    elastic_search-Installs :
        InstallsCall env law is_requeued (add_elastic_search_operator env ws) (
          red_hat_namespace_ref
          ∷ subscription_ref (elasticsearch_subscription_name ws) "openshift-operators-redhat"
          ∷ [])
    unfolding add_elastic_search_operator new_red_hat_subscription new_namespace
    elastic_search-Installs = InstallsCall-function env law is_requeued _ (
        Installs-create env law is_requeued requeue_fails _ _
          (Installs-subscribe _ _ _ _ _ (Installs-pure env law is_requeued success)))

    jaeger-Installs :
        InstallsCall env law is_requeued
          (add_jaeger_operator env ws)
          (subscription_ref "jaeger-product" "openshift-operators" ∷ [])
    unfolding add_jaeger_operator new_red_hat_subscription
    jaeger-Installs =
        InstallsCall-function env law is_requeued _
          (Installs-subscribe _ _ _ _ _ (Installs-pure env law is_requeued success))

    kiali-Installs :
        InstallsCall env law is_requeued
          (add_kiali_operator env ws)
          (subscription_ref "kiali-ossm" "openshift-operators" ∷ [])
    unfolding add_kiali_operator new_red_hat_subscription
    kiali-Installs =
        InstallsCall-function env law is_requeued _
          (Installs-subscribe _ _ _ _ _ (Installs-pure env law is_requeued success))

    mesh-Installs :
        (users : ℕ)
        → InstallsCall env law is_requeued (add_service_mesh env ws users) (
            subscription_ref "servicemeshoperator" "openshift-operators"
            ∷ istio_namespace_ref
            ∷ istio_ref role "jaeger-user"
            ∷ istio_ref role_binding "jaeger-users"
            ∷ istio_ref role_binding "mesh-users"
            ∷ istio_ref service_mesh_control_plane "basic"
            ∷ istio_ref service_mesh_member_roll "default"
            ∷ [])
    unfolding add_service_mesh new_red_hat_subscription new_namespace new_role
        new_role_binding_users new_service_mesh_control_plane_cr new_service_mesh_member_roll_cr
        members_change subjects_change is_requeued
    mesh-Installs users = InstallsCall-function env law is_requeued _ (
        Installs-subscribe _ _ _ _ _ (
          Installs-wait env _ _ law is_requeued requeued refl _ (
            Installs-create env law is_requeued requeue_fails _ _ (
              Installs-create env law is_requeued requeue_fails _ _ (
                Installs-merge env law is_requeued requeue_fails _ _ (subjects-kind _) _ _ (
                  Installs-create env law is_requeued requeue_fails _ _ (
                    Installs-create env law is_requeued requeue_fails _ _ (
                      Installs-merge env law is_requeued requeue_fails _ _ (λ s h. cc) _ _
                        (Installs-pure env law is_requeued success)))))))))

    operators-Installs :
        (users : ℕ)
        → Installs env law is_requeued (add_operators env ws users) (service_mesh_refs ws)
    unfolding add_operators
    operators-Installs users =
        Installs-call env law is_requeued is_requeued _ _ (λ r e. e) elastic_search-Installs
          (Installs-call env law is_requeued is_requeued _ _ (λ r e. e) jaeger-Installs
            (Installs-call env law is_requeued is_requeued _ _ (λ r e. e) kiali-Installs
              (record { meets = Meets-propagate _ (mesh-Installs users).meets (λ r h. h) })))

    enabled-Installs :
        (users : ℕ) (mesh serverless : Bool)
        → (mesh ≡ true) ⊎ (serverless ≡ true)
        → Installs env law is_requeued
            (add_if_enabled env ws users mesh serverless)
            (service_mesh_refs ws)
    unfolding add_if_enabled
    enabled-Installs users false false (inl h) = cc
    enabled-Installs users false false (inr h) = cc
    enabled-Installs users false true h = operators-Installs users
    enabled-Installs users true serverless h = operators-Installs users

    -- In a lawful cluster, with the service mesh or serverless enabled, a run of
    -- `reconcileServiceMesh` that is not requeued leaves the subscriptions of the four operators,
    -- the two namespaces, the role and the two role bindings of the mesh, its control plane and its
    -- member roll.
    pub reconcile_service_mesh-AllPresent :
        (users : ℕ) (w : World) (r : Return)
        → (ws.spec.infrastructure.service_mesh.enabled ≡ true)
          ⊎ (ws.spec.infrastructure.serverless.enabled ≡ true)
        → (reconcile_service_mesh env ws users w).0 ≡ next r
        → is_requeued r ≡ false
        → AllPresent env law (reconcile_service_mesh env ws users w).1 (service_mesh_refs ws)
    unfolding reconcile_service_mesh
    reconcile_service_mesh-AllPresent users w r on e n =
        (InstallsCall-function env law is_requeued _ (
            Installs-last env law is_requeued _ success (enabled-Installs users _ _ on))).meets.done
          w r e n

    any-Installs :
        (users : ℕ) (mesh serverless : Bool)
        → Installs env law is_requeued (add_if_enabled env ws users mesh serverless) []
    unfolding add_if_enabled
    any-Installs users false false = Installs-pure env law is_requeued tt
    any-Installs users false true = Installs-weaken env law is_requeued _ (operators-Installs users)
    any-Installs users true serverless =
        Installs-weaken env law is_requeued _ (operators-Installs users)

    -- In a lawful cluster, whatever is enabled and however the run ends, with success, a requeue, an
    -- error or a panic, `reconcileServiceMesh` takes away no object: one that is there before the
    -- run is there after it.
    pub reconcile_service_mesh-keeps :
        (users : ℕ) (w : World) (r : Ref)
        → law.present w r ≡ true
        → law.present (reconcile_service_mesh env ws users w).1 r ≡ true
    unfolding reconcile_service_mesh
    reconcile_service_mesh-keeps users w r h =
        (InstallsCall-function env law is_requeued _
            (Installs-last env law is_requeued _ success (any-Installs users _ _))).meets.keeps
          w r h
