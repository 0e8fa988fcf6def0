-- ===== src/Build/Mesh.antt =====
-- common/maistra/customresource.go, and the objects of controllers/servicemesh_reconciler.go.
use workshop_operator.Prelude.{ℕ, zero, suc, String, ◌<>◌, Bool, true, false, List, [], ◌∷◌, ◌++◌}
use workshop_operator.Kube.Object.{
  Object, Subject, service_mesh_control_plane_spec, service_mesh_member_roll_spec,
  validating_webhook_configuration_spec, mutating_webhook_configuration_spec,
}
use workshop_operator.Build.Base.{Workshop, object_meta}
use workshop_operator.Build.Cluster.{new_role_binding_users}
use workshop_operator.Build.Roles.{new_role, jaeger_user_rules}
use workshop_operator.Build.Subscriptions.{new_red_hat_subscription}
use workshop_operator.Project.{staging_project_name, project_username}

unfoldable pub new_service_mesh_control_plane_cr : (name namespace_name : String) → Object
new_service_mesh_control_plane_cr name namespace_name = record {
  meta = object_meta name namespace_name [];
  spec = service_mesh_control_plane_spec (record {
    version = "v2.0";
    tracing_type = "Jaeger";
    sampling = 10000;
    policy_type = "Istiod";
    telemetry_type = "Istiod";
    jaeger_storage_type = "Memory";
  });
}

unfoldable pub new_service_mesh_member_roll_cr :
    (name namespace_name : String) → List String → Object
new_service_mesh_member_roll_cr name namespace_name members = record {
  meta = object_meta name namespace_name [];
  spec = service_mesh_member_roll_spec members;
}

abbrev pub operator_redhat_namespace_name : String
operator_redhat_namespace_name = "openshift-operators-redhat"

-- The namespace of the subscriptions of the service mesh, of Jaeger and of Kiali, each of which has a
-- constant of its own, and of the operator of Istio.
abbrev pub mesh_subscription_namespace_name : String
mesh_subscription_namespace_name = "openshift-operators"

abbrev pub jaeger_subscription_name : String
jaeger_subscription_name = "jaeger-product"

abbrev pub kiali_subscription_name : String
kiali_subscription_name = "kiali-ossm"

abbrev pub service_mesh_subscription_name : String
service_mesh_subscription_name = "servicemeshoperator"

abbrev pub istio_operator_name : String
istio_operator_name = "istio-operator"

abbrev pub istio_namespace_name : String
istio_namespace_name = "istio-system"

abbrev pub jaeger_role_name : String
jaeger_role_name = "jaeger-user"

abbrev pub jaeger_role_binding_name : String
jaeger_role_binding_name = "jaeger-users"

abbrev pub service_mesh_role_binding_name : String
service_mesh_role_binding_name = "mesh-users"

abbrev istio_labels : List (String × String)
istio_labels = ("app.kubernetes.io/part-of", "istio") ∷ []

abbrev pub elasticsearch_subscription_name : Workshop → String
elasticsearch_subscription_name ws =
    "elasticsearch-operator-"
    <> ws.spec.infrastructure.service_mesh.elastic_search_operator_hub.channel

abbrev pub elasticsearch_subscription : Workshop → Object
elasticsearch_subscription ws =
    let hub = ws.spec.infrastructure.service_mesh.elastic_search_operator_hub in
    new_red_hat_subscription (elasticsearch_subscription_name ws) operator_redhat_namespace_name
      "elasticsearch-operator" hub.channel hub.cluster_service_version

abbrev pub jaeger_subscription : Workshop → Object
jaeger_subscription ws =
    let hub = ws.spec.infrastructure.service_mesh.jaeger_operator_hub in
    new_red_hat_subscription jaeger_subscription_name mesh_subscription_namespace_name
      "jaeger-product" hub.channel hub.cluster_service_version

abbrev pub kiali_subscription : Workshop → Object
kiali_subscription ws =
    let hub = ws.spec.infrastructure.service_mesh.kiali_operator_hub in
    new_red_hat_subscription kiali_subscription_name mesh_subscription_namespace_name "kiali-ossm"
      hub.channel hub.cluster_service_version

abbrev pub service_mesh_subscription : Workshop → Object
service_mesh_subscription ws =
    let hub = ws.spec.infrastructure.service_mesh.service_mesh_operator_hub in
    new_red_hat_subscription service_mesh_subscription_name mesh_subscription_namespace_name
      "servicemeshoperator" hub.channel hub.cluster_service_version

abbrev user_kind_subject : (name : String) → Subject
user_kind_subject name = record {
  kind = "User";
  api_group = "rbac.authorization.k8s.io";
  name = name;
  namespace_name = "";
}

-- The loop over the users, from an id on: the projects and the users.
abbrev pub istio_members : Workshop → (id : ℕ) → ℕ → List String
istio_members ws id zero = []
istio_members ws id (suc n) = staging_project_name ws id ∷ istio_members ws (suc id) n

abbrev pub istio_user_subjects : (id : ℕ) → ℕ → List Subject
istio_user_subjects id zero = []
istio_user_subjects id (suc n) =
    user_kind_subject (project_username id) ∷ istio_user_subjects (suc id) n

abbrev controller_if_enabled : Bool → List Subject
controller_if_enabled true =
    user_kind_subject "system:serviceaccount:argocd:argocd-argocd-application-controller" ∷ []
controller_if_enabled false = []

abbrev pub istio_users : Workshop → (users : ℕ) → List Subject
istio_users ws users =
    controller_if_enabled ws.spec.infrastructure.git_ops.enabled ++ istio_user_subjects 1 users

abbrev pub jaeger_role : Object
jaeger_role = new_role jaeger_role_name istio_namespace_name istio_labels jaeger_user_rules

abbrev pub jaeger_role_binding : List Subject → Object
jaeger_role_binding subjects =
    new_role_binding_users jaeger_role_binding_name istio_namespace_name istio_labels subjects
      jaeger_role_name "Role"

abbrev pub mesh_user_role_binding : List Subject → Object
mesh_user_role_binding subjects =
    new_role_binding_users service_mesh_role_binding_name istio_namespace_name istio_labels subjects
      "mesh-user" "Role"

abbrev pub control_plane : Object
control_plane = new_service_mesh_control_plane_cr "basic" istio_namespace_name

abbrev pub member_roll : List String → Object
member_roll members = new_service_mesh_member_roll_cr "default" istio_namespace_name members

abbrev pub mesh_validating_webhook : Object
mesh_validating_webhook = record {
  meta =
      object_meta "openshift-operators.servicemesh-resources.maistra.io" "openshift-operators" [];
  spec = validating_webhook_configuration_spec;
}

abbrev pub mesh_mutating_webhook : Object
mesh_mutating_webhook = record {
  meta =
      object_meta "openshift-operators.servicemesh-resources.maistra.io" "openshift-operators" [];
  spec = mutating_webhook_configuration_spec [];
}
