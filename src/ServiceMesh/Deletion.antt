-- ===== src/ServiceMesh/Deletion.antt =====
-- The objects of `deleteServiceMeshService`.
use mathlib.Core.Path.{subst}
use workshop_operator.Prelude.{◌≡◌, ℕ, String, false, List, [], ◌∷◌, ◌∙◌, sym, ap}
use workshop_operator.Kube.Object.{
  Ref, Kind, role, role_binding, service_mesh_control_plane, service_mesh_member_roll,
  validating_webhook_configuration, mutating_webhook_configuration, cluster_service_version,
}
use workshop_operator.Kube.Env.{Env, Got, found, failed}
use workshop_operator.Kube.Flow.{Return, Step, next, proceed, success, is_requeued, ◌>>=◌, function}
use workshop_operator.Kube.Errors.{requeue_fails}
use workshop_operator.Kube.Lawful.{IsLawful}
use workshop_operator.Kube.Removes.{
  Removed, Removed-earlier, Removes, RemovesCall, RemovesCall-function, Removes-pure, Removes-bind,
  Removes-get, Removes-delete, Removes-call,
}
use workshop_operator.Kube.Release.Objects.{give_back-Removes, release_in_namespace-Removes}
use workshop_operator.Build.Base.{Workshop}
use workshop_operator.Build.Cluster.{new_namespace, new_role_binding_users}
use workshop_operator.Build.Roles.{new_role}
use workshop_operator.Build.Subscriptions.{new_red_hat_subscription}
use workshop_operator.Build.Resources.{new_red_hat_cluster_service_version}
use workshop_operator.Build.Mesh.{
  new_service_mesh_control_plane_cr, new_service_mesh_member_roll_cr,
  elasticsearch_subscription_name,
}
use workshop_operator.InstallPlan.{subscription_ref}
use workshop_operator.ServiceMesh.{
  istio_ref, istio_namespace_ref, delete_service_mesh, delete_kiali_subscription,
  delete_jaeger_subscription, delete_elastic_search_operator, delete_istio_system_namespace,
  InstalledVersions, after_kiali, after_jaeger, after_service_mesh, get_csv, delete_csv,
  release_istio, patch_istio_project, delete_with_versions, delete_service_mesh_service,
}
use workshop_operator.ServiceMesh.Objects.{red_hat_namespace_ref}

-- A configuration of webhooks, which belongs to the whole cluster.
abbrev webhook_ref : Kind → Ref
webhook_ref kind = record {
  kind = kind;
  namespace_name = "";
  name = "openshift-operators.servicemesh-resources.maistra.io";
}

abbrev version_ref : (name : String) → Ref
version_ref name = record {
  kind = cluster_service_version;
  namespace_name = "openshift-operators";
  name = name;
}

-- In the order in which they are deleted.
abbrev pub deleted_service_mesh_refs : Workshop → InstalledVersions → List Ref
deleted_service_mesh_refs ws versions =
    istio_ref service_mesh_member_roll "default"
    ∷ istio_ref service_mesh_control_plane "basic"
    ∷ istio_ref role_binding "mesh-users"
    ∷ istio_ref role_binding "jaeger-users"
    ∷ istio_ref role "jaeger-user"
    ∷ subscription_ref "servicemeshoperator" "openshift-operators"
    ∷ webhook_ref validating_webhook_configuration
    ∷ webhook_ref mutating_webhook_configuration
    ∷ subscription_ref "kiali-ossm" "openshift-operators"
    ∷ subscription_ref "jaeger-product" "openshift-operators"
    ∷ version_ref versions.service_mesh
    ∷ version_ref versions.kiali
    ∷ version_ref versions.jaeger
    ∷ istio_namespace_ref
    ∷ subscription_ref (elasticsearch_subscription_name ws) "openshift-operators-redhat"
    ∷ red_hat_namespace_ref
    ∷ []

module _ (env : Env) (law : IsLawful env) where
  open env use {World}

  after_kiali-Removes :
      (service_mesh jaeger : String) (g : Got)
      → Removes env law is_requeued (after_kiali env service_mesh jaeger g) []
  unfolding after_kiali
  after_kiali-Removes service_mesh jaeger (failed e) = Removes-pure env law is_requeued _
  after_kiali-Removes service_mesh jaeger (found o) = Removes-pure env law is_requeued _

  after_jaeger-Removes :
      (service_mesh : String) (g : Got)
      → Removes env law is_requeued (after_jaeger env service_mesh g) []
  unfolding after_jaeger
  after_jaeger-Removes service_mesh (failed e) = Removes-pure env law is_requeued _
  after_jaeger-Removes service_mesh (found o) =
      Removes-get env law is_requeued _ _ (after_kiali-Removes _ _)

  after_service_mesh-Removes : (g : Got) → Removes env law is_requeued (after_service_mesh env g) []
  unfolding after_service_mesh
  after_service_mesh-Removes (failed e) = Removes-pure env law is_requeued _
  after_service_mesh-Removes (found o) =
      Removes-get env law is_requeued _ _ (after_jaeger-Removes _)

  csv-Reads : Removes env law is_requeued (get_csv env) []
  unfolding get_csv
  csv-Reads = Removes-get env law is_requeued _ _ after_service_mesh-Removes

  module _ (ws : Workshop) where
    mesh-Removes :
        (users : ℕ)
        → RemovesCall env law is_requeued (delete_service_mesh env ws users) (
            istio_ref service_mesh_member_roll "default"
            ∷ istio_ref service_mesh_control_plane "basic"
            ∷ istio_ref role_binding "mesh-users"
            ∷ istio_ref role_binding "jaeger-users"
            ∷ istio_ref role "jaeger-user"
            ∷ subscription_ref "servicemeshoperator" "openshift-operators"
            ∷ webhook_ref validating_webhook_configuration
            ∷ webhook_ref mutating_webhook_configuration
            ∷ [])
    unfolding delete_service_mesh new_red_hat_subscription new_role new_role_binding_users
        new_service_mesh_control_plane_cr new_service_mesh_member_roll_cr
    mesh-Removes users = RemovesCall-function env law is_requeued _ (
        Removes-delete env law is_requeued requeue_fails _ _ (
          Removes-delete env law is_requeued requeue_fails _ _ (
            Removes-delete env law is_requeued requeue_fails _ _ (
              Removes-delete env law is_requeued requeue_fails _ _ (
                Removes-delete env law is_requeued requeue_fails _ _ (
                  Removes-delete env law is_requeued requeue_fails _ _ (
                    Removes-delete env law is_requeued requeue_fails _ _ (
                      Removes-delete env law is_requeued requeue_fails _ _
                        (Removes-pure env law is_requeued success)))))))))

    kiali-Removes :
        RemovesCall env law is_requeued
          (delete_kiali_subscription env ws)
          (subscription_ref "kiali-ossm" "openshift-operators" ∷ [])
    unfolding delete_kiali_subscription new_red_hat_subscription
    kiali-Removes = RemovesCall-function env law is_requeued _ (
        Removes-delete env law is_requeued requeue_fails _ _
          (Removes-pure env law is_requeued success))

    jaeger-Removes :
        RemovesCall env law is_requeued
          (delete_jaeger_subscription env ws)
          (subscription_ref "jaeger-product" "openshift-operators" ∷ [])
    unfolding delete_jaeger_subscription new_red_hat_subscription
    jaeger-Removes = RemovesCall-function env law is_requeued _ (
        Removes-delete env law is_requeued requeue_fails _ _
          (Removes-pure env law is_requeued success))

    elastic_search-Removes :
        RemovesCall env law is_requeued (delete_elastic_search_operator env ws) (
          subscription_ref (elasticsearch_subscription_name ws) "openshift-operators-redhat"
          ∷ red_hat_namespace_ref
          ∷ [])
    unfolding delete_elastic_search_operator new_red_hat_subscription new_namespace
    elastic_search-Removes = RemovesCall-function env law is_requeued _ (
        Removes-delete env law is_requeued requeue_fails _ _ (
          Removes-delete env law is_requeued requeue_fails _ _
            (Removes-pure env law is_requeued success)))

    namespace-Removes :
        RemovesCall env law is_requeued
          (delete_istio_system_namespace env)
          (istio_namespace_ref ∷ [])
    unfolding delete_istio_system_namespace new_namespace
    namespace-Removes = RemovesCall-function env law is_requeued _ (
        Removes-delete env law is_requeued requeue_fails _ _
          (Removes-pure env law is_requeued success))

    csv-Removes :
        (service_mesh kiali jaeger : String)
        → RemovesCall env law is_requeued
            (delete_csv env service_mesh kiali jaeger)
            (version_ref service_mesh ∷ version_ref kiali ∷ version_ref jaeger ∷ [])
    unfolding delete_csv new_red_hat_cluster_service_version
    csv-Removes service_mesh kiali jaeger = RemovesCall-function env law is_requeued _ (
        Removes-delete env law is_requeued requeue_fails _ _ (
          Removes-delete env law is_requeued requeue_fails _ _ (
            Removes-delete env law is_requeued requeue_fails _ _
              (Removes-pure env law is_requeued success))))

    release-Removes : (g : Got) → Removes env law is_requeued (release_istio env g) []
    unfolding release_istio
    release-Removes (failed e) = give_back-Removes env law e
    release-Removes (found o) =
        Removes-bind env law is_requeued {l = []} {k = []} _ _
          (release_in_namespace-Removes env law _ _)
          λ _.
            Removes-bind env law is_requeued {l = []} {k = []} _ _
              (release_in_namespace-Removes env law _ _)
              (λ _. release_in_namespace-Removes env law _ _)

    patch-Removes : RemovesCall env law is_requeued (patch_istio_project env) []
    unfolding patch_istio_project
    patch-Removes = RemovesCall-function env law is_requeued _ (
        Removes-get env law is_requeued _ _ λ g.
          Removes-bind env law is_requeued {l = []} _ _ (release-Removes g)
            (λ _. Removes-pure env law is_requeued success))

    versions-Removes :
        (users : ℕ) (versions : InstalledVersions)
        → Removes env law is_requeued
            (delete_with_versions env ws users versions)
            (deleted_service_mesh_refs ws versions)
    unfolding delete_with_versions
    versions-Removes users versions =
        Removes-call env law is_requeued is_requeued _ _ (λ r e. e) (mesh-Removes users)
          (Removes-call env law is_requeued is_requeued _ _ (λ r e. e) kiali-Removes
            (Removes-call env law is_requeued is_requeued _ _ (λ r e. e) jaeger-Removes
              (Removes-call env law is_requeued is_requeued _ _ (λ r e. e) (csv-Removes _ _ _)
                (Removes-call env law is_requeued is_requeued _ _ (λ r e. e) namespace-Removes
                  (Removes-call env law is_requeued is_requeued _ _ (λ r e. e)
                    elastic_search-Removes
                    (Removes-call env law is_requeued is_requeued _ _ (λ r e. e) patch-Removes
                      (Removes-pure env law is_requeued success)))))))

    after_csv :
        (users : ℕ) (versions : InstalledVersions) (w : World)
        → (get_csv env w).0 ≡ next versions
        → delete_service_mesh_service env ws users w
          ≡ function (delete_with_versions env ws users versions) (get_csv env w).1
    unfolding delete_service_mesh_service ◌>>=◌ function
    after_csv users versions w h =
        ap
          (λ (s : Step InstalledVersions).
            function (λ _. proceed s (delete_with_versions env ws users) (get_csv env w).1) w)
          h

    -- In a lawful cluster, a run of `deleteServiceMeshService` that is not requeued has found the
    -- objects of the mesh, the subscriptions of the four operators, the webhooks, the two namespaces,
    -- and the versions whose names `getCSV` answers at the start, empty ones too; and all but the
    -- namespaces and the custom resources, which linger, are gone.
    pub delete_service_mesh_service-Removed :
        (users : ℕ) (versions : InstalledVersions) (w : World) (r : Return)
        → (get_csv env w).0 ≡ next versions
        → (delete_service_mesh_service env ws users w).0 ≡ next r
        → is_requeued r ≡ false
        → Removed env law
            (deleted_service_mesh_refs ws versions)
            w
            (delete_service_mesh_service env ws users w).1
    delete_service_mesh_service-Removed users versions w r h e n =
        let same = after_csv users versions w h in
        subst
          (λ (p : Step Return × World).
            Removed env law (deleted_service_mesh_refs ws versions) w p.1)
          (sym same)
          (Removed-earlier env law (deleted_service_mesh_refs ws versions) w _
            (function (delete_with_versions env ws users versions) (get_csv env w).1).1
            (λ q. csv-Reads.meets.keeps w q)
            ((RemovesCall-function env law is_requeued _
                (versions-Removes users versions)).meets.done
              _ r (ap (λ p. p.0) (sym same) ∙ e) n))
