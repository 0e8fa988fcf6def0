-- ===== src/ServiceMesh.antt =====
-- controllers/servicemesh_reconciler.go: the service mesh and the operators that it needs.
pub mod Objects
pub mod Deletion
use workshop_operator.Prelude.{ℕ, String, Bool, true, false, Option, none, some, List, [], ◌∷◌}
use workshop_operator.Kube.Object.{
  Object, Ref, Kind, Spec, namespace, role_binding, subscription_spec, service_mesh_control_plane,
  service_mesh_member_roll, kiali, service_mesh_member_roll_spec,
}
use workshop_operator.Kube.Env.{Env, Error, Got, found, failed}
use workshop_operator.Kube.Flow.{
  Code, Return, success, requeued, failure, is_requeued, pure, give_back, ◌>>=◌, ◌>>◌, function,
  propagate,
}
use workshop_operator.Kube.Idiom.{create_or_exists, delete_or_return, create_err, get_object}
use workshop_operator.Kube.Watch.{wait_for_deployment}
use workshop_operator.Kube.Merge.{Change, merge}
use workshop_operator.Kube.Same.{same_texts, differs, subjects_change}
use workshop_operator.Kube.Release.{release_in_namespace, finalizers_of}
use workshop_operator.Build.Base.{Workshop}
use workshop_operator.Build.Cluster.{new_namespace}
use workshop_operator.Build.Resources.{new_red_hat_cluster_service_version}
use workshop_operator.Build.Mesh.{
  operator_redhat_namespace_name, mesh_subscription_namespace_name, jaeger_subscription_name,
  kiali_subscription_name, service_mesh_subscription_name, istio_operator_name,
  istio_namespace_name, jaeger_role_binding_name, elasticsearch_subscription_name,
  elasticsearch_subscription, jaeger_subscription, kiali_subscription, service_mesh_subscription,
  istio_members, istio_users, jaeger_role, jaeger_role_binding, mesh_user_role_binding,
  control_plane, member_roll, mesh_validating_webhook, mesh_mutating_webhook,
}
use workshop_operator.InstallPlan.{approve_install_plan, subscription_ref}
use workshop_operator.CertManager.{requeue_if_failed}

abbrev pub istio_ref : Kind → (name : String) → Ref
istio_ref kind name = record { kind = kind; namespace_name = istio_namespace_name; name = name }

abbrev pub istio_namespace_ref : Ref
istio_namespace_ref = record { kind = namespace; namespace_name = ""; name = istio_namespace_name }

members_change : List String → Change
members_change members = record {
  is_due = λ s. elim s [
    | service_mesh_member_roll_spec there ↦ differs same_texts members there
    | _ ↦ true
  ];
  apply = λ s. service_mesh_member_roll_spec members;
}

-- What `getCSV` returns.
pub record InstalledVersions : Type 0 where
  pub service_mesh : String
  pub jaeger : String
  pub kiali : String
  pub error : Option Error

-- `Status.InstalledCSV`
abbrev installed_csv_of : Object → String
installed_csv_of o = elim o.spec [ subscription_spec _ status ↦ status.installed_csv | _ ↦ "" ]

-- A subscription that could not be read is empty.
not_read : Error → InstalledVersions
not_read e = record { service_mesh = ""; jaeger = ""; kiali = ""; error = some e }

module _ (env : Env) where
  open env use {World}

  -- A subscription, and the approval of its plan: what the four operators have in common.
  unfoldable pub subscribe :
      Object → (cluster_service_version name namespace_name : String) → Code World (Unit {0})
  subscribe o cluster_service_version name namespace_name = do
    create_or_exists env o
    approval ← approve_install_plan env cluster_service_version name namespace_name
    requeue_if_failed env approval

  unfoldable pub add_elastic_search_operator : Workshop → Code World Return
  add_elastic_search_operator ws = function do
    create_or_exists env (new_namespace operator_redhat_namespace_name)
    subscribe (elasticsearch_subscription ws)
        ws.spec.infrastructure.service_mesh.elastic_search_operator_hub.cluster_service_version
        (elasticsearch_subscription_name ws) operator_redhat_namespace_name
    pure success

  unfoldable pub add_jaeger_operator : Workshop → Code World Return
  add_jaeger_operator ws = function do
    subscribe (jaeger_subscription ws)
        ws.spec.infrastructure.service_mesh.jaeger_operator_hub.cluster_service_version
        jaeger_subscription_name mesh_subscription_namespace_name
    pure success

  unfoldable pub add_kiali_operator : Workshop → Code World Return
  add_kiali_operator ws = function do
    subscribe (kiali_subscription ws)
        ws.spec.infrastructure.service_mesh.kiali_operator_hub.cluster_service_version
        kiali_subscription_name mesh_subscription_namespace_name
    pure success

  unfoldable pub add_service_mesh : Workshop → (users : ℕ) → Code World Return
  unfolding members_change
  add_service_mesh ws users = function do
    subscribe (service_mesh_subscription ws)
        ws.spec.infrastructure.service_mesh.service_mesh_operator_hub.cluster_service_version
        service_mesh_subscription_name mesh_subscription_namespace_name
    wait_for_deployment env istio_operator_name mesh_subscription_namespace_name requeued
    create_or_exists env (new_namespace istio_namespace_name)
    create_or_exists env jaeger_role
    e ← create_err env (jaeger_role_binding (istio_users ws users))
    merge env (istio_ref role_binding jaeger_role_binding_name)
        (subjects_change (istio_users ws users)) e
    create_or_exists env (mesh_user_role_binding (istio_users ws users))
    create_or_exists env control_plane
    e' ← create_err env (member_roll (istio_members ws 1 users))
    merge env (istio_ref service_mesh_member_roll "default")
        (members_change (istio_members ws 1 users)) e'
    pure success

  add_operators : Workshop → (users : ℕ) → Code World (Unit {0})
  add_operators ws users = do
    propagate is_requeued (add_elastic_search_operator ws)
    propagate is_requeued (add_jaeger_operator ws)
    propagate is_requeued (add_kiali_operator ws)
    propagate is_requeued (add_service_mesh ws users)

  -- `if enabledServiceMesh || enabledServerless`
  add_if_enabled : Workshop → (users : ℕ) → (mesh serverless : Bool) → Code World (Unit {0})
  add_if_enabled ws users false false = pure tt
  add_if_enabled ws users _ _ = add_operators ws users

  unfoldable pub reconcile_service_mesh : Workshop → (users : ℕ) → Code World Return
  unfolding add_if_enabled add_operators
  reconcile_service_mesh ws users = function do
    add_if_enabled ws users ws.spec.infrastructure.service_mesh.enabled
        ws.spec.infrastructure.serverless.enabled
    pure success

  unfoldable pub delete_service_mesh : Workshop → (users : ℕ) → Code World Return
  delete_service_mesh ws users = function do
    delete_or_return env (member_roll (istio_members ws 1 users))
    delete_or_return env control_plane
    delete_or_return env (mesh_user_role_binding (istio_users ws users))
    delete_or_return env (jaeger_role_binding (istio_users ws users))
    delete_or_return env jaeger_role
    delete_or_return env (service_mesh_subscription ws)
    delete_or_return env mesh_validating_webhook
    delete_or_return env mesh_mutating_webhook
    pure success

  unfoldable pub delete_kiali_subscription : Workshop → Code World Return
  delete_kiali_subscription ws =
      function do delete_or_return env (kiali_subscription ws); pure success

  unfoldable pub delete_jaeger_subscription : Workshop → Code World Return
  delete_jaeger_subscription ws =
      function do delete_or_return env (jaeger_subscription ws); pure success

  unfoldable pub delete_elastic_search_operator : Workshop → Code World Return
  delete_elastic_search_operator ws = function do
    delete_or_return env (elasticsearch_subscription ws)
    delete_or_return env (new_namespace operator_redhat_namespace_name)
    pure success

  unfoldable pub delete_istio_system_namespace : Code World Return
  delete_istio_system_namespace =
      function do delete_or_return env (new_namespace istio_namespace_name); pure success

  after_kiali : (service_mesh jaeger : String) → Got → Code World InstalledVersions
  after_kiali service_mesh jaeger (failed e) = pure (not_read e)
  after_kiali service_mesh jaeger (found o) = pure (record {
    service_mesh = service_mesh;
    jaeger = jaeger;
    kiali = installed_csv_of o;
    error = none;
  })

  after_jaeger : (service_mesh : String) → Got → Code World InstalledVersions
  after_jaeger service_mesh (failed e) = pure (not_read e)
  after_jaeger service_mesh (found o) = do
    answer ←
        get_object env (subscription_ref kiali_subscription_name mesh_subscription_namespace_name)
    after_kiali service_mesh (installed_csv_of o) answer

  after_service_mesh : Got → Code World InstalledVersions
  after_service_mesh (failed e) = pure (not_read e)
  after_service_mesh (found o) = do
    answer ←
        get_object env (subscription_ref jaeger_subscription_name mesh_subscription_namespace_name)
    after_jaeger (installed_csv_of o) answer

  unfoldable pub get_csv : Code World InstalledVersions
  unfolding not_read after_service_mesh after_jaeger after_kiali
  get_csv = do
    answer ←
        get_object env
          (subscription_ref service_mesh_subscription_name mesh_subscription_namespace_name)
    after_service_mesh answer

  unfoldable pub delete_csv : (service_mesh_csv kiali_csv jaeger_csv : String) → Code World Return
  delete_csv service_mesh_csv kiali_csv jaeger_csv = function do
    delete_or_return env
        (new_red_hat_cluster_service_version service_mesh_csv mesh_subscription_namespace_name)
    delete_or_return env
        (new_red_hat_cluster_service_version kiali_csv mesh_subscription_namespace_name)
    delete_or_return env
        (new_red_hat_cluster_service_version jaeger_csv mesh_subscription_namespace_name)
    pure success

  release_istio : Got → Code World (Unit {0})
  release_istio (failed e) = give_back (failure e)
  release_istio (found o) = do
    release_in_namespace env (istio_ref service_mesh_control_plane "basic") (finalizers_of o)
    release_in_namespace env (istio_ref kiali "kiali") (finalizers_of o)
    release_in_namespace env (istio_ref service_mesh_member_roll "default") (finalizers_of o)

  unfoldable pub patch_istio_project : Code World Return
  unfolding release_istio
  patch_istio_project =
      function do answer ← get_object env istio_namespace_ref; release_istio answer; pure success

  delete_with_versions : Workshop → (user_id : ℕ) → InstalledVersions → Code World Return
  delete_with_versions ws user_id versions = do
    propagate is_requeued (delete_service_mesh ws user_id)
    propagate is_requeued (delete_kiali_subscription ws)
    propagate is_requeued (delete_jaeger_subscription ws)
    propagate is_requeued (delete_csv versions.service_mesh versions.kiali versions.jaeger)
    propagate is_requeued delete_istio_system_namespace
    propagate is_requeued (delete_elastic_search_operator ws)
    propagate is_requeued patch_istio_project
    pure success

  -- The error of `getCSV` is only logged.
  unfoldable pub delete_service_mesh_service : Workshop → (user_id : ℕ) → Code World Return
  unfolding delete_with_versions
  delete_service_mesh_service ws user_id =
      function do versions ← get_csv; delete_with_versions ws user_id versions
