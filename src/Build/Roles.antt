-- ===== src/Build/Roles.antt =====
-- common/kubernetes: role.go, clusterrole.go, clusterrolebinding.go and rolerule.go; and
-- common/nexus/rolerule.go
use workshop_operator.Prelude.{String, List, [], ◌∷◌, StringMap}
use workshop_operator.Kube.Object.{
  Object, PolicyRule, role_spec, cluster_role_spec, cluster_role_binding_spec,
}
use workshop_operator.Build.Base.{object_meta}

abbrev rule : (api_groups resources verbs : List String) → PolicyRule
rule api_groups resources verbs = record {
  api_groups = api_groups;
  resource_names = [];
  resources = resources;
  verbs = verbs;
}

-- The verbs of most rules, in their order.
abbrev all_verbs : List String
all_verbs = "create" ∷ "update" ∷ "delete" ∷ "get" ∷ "list" ∷ "watch" ∷ "patch" ∷ []

unfoldable pub new_role :
    (name namespace_name : String) (labels : StringMap String) → List PolicyRule → Object
new_role name namespace_name labels rules = record {
  meta = object_meta name namespace_name labels;
  spec = role_spec rules;
}

unfoldable pub new_cluster_role :
    (name namespace_name : String) (labels : StringMap String) → List PolicyRule → Object
new_cluster_role name namespace_name labels rules = record {
  meta = object_meta name namespace_name labels;
  spec = cluster_role_spec rules;
}

unfoldable pub new_cluster_role_binding_sa :
    (name namespace_name : String) (labels : StringMap String)
    (service_account_name role_name role_kind : String)
    → Object
new_cluster_role_binding_sa name namespace_name labels service_account_name role_name role_kind =
    record {
      meta = object_meta name namespace_name labels;
      spec =
          cluster_role_binding_spec
            (record {
              kind = "ServiceAccount";
              api_group = "";
              name = service_account_name;
              namespace_name = namespace_name;
            }
              ∷ [])
            (record {
              api_group = "rbac.authorization.k8s.io";
              kind = role_kind;
              name = role_name;
            });
    }

abbrev pub gitea_rules : List PolicyRule
gitea_rules =
    rule ("" ∷ [])
      ("pods" ∷ "services" ∷ "endpoints" ∷ "persistentvolumeclaims" ∷ "events" ∷ "configmaps"
        ∷ "secrets" ∷ "serviceaccounts" ∷ [])
      all_verbs
    ∷ rule ("apps" ∷ []) ("deployments" ∷ []) all_verbs
    ∷ rule ("apps" ∷ []) ("replicasets" ∷ []) ("get" ∷ [])
    ∷ rule ("route.openshift.io" ∷ []) ("routes" ∷ "routes/custom-host" ∷ []) all_verbs
    ∷ rule ("monitoring.coreos.com" ∷ []) ("servicemonitors" ∷ []) ("get" ∷ "create" ∷ [])
    ∷ rule ("gpte.opentlc.com" ∷ []) ("*" ∷ []) all_verbs
    ∷ record (rule ("apps" ∷ []) ("deployments/finalizers" ∷ []) ("update" ∷ [])) {
      resource_names = "gitea-operator" ∷ [];
    }
    ∷ []

abbrev pub vault_agent_injector_rules : List PolicyRule
vault_agent_injector_rules =
    rule ("admissionregistration.k8s.io" ∷ []) ("mutatingwebhookconfigurations" ∷ [])
      ("get" ∷ "list" ∷ "watch" ∷ "patch" ∷ [])
    ∷ []

abbrev pub jaeger_user_rules : List PolicyRule
jaeger_user_rules = rule ("" ∷ []) ("pods" ∷ []) ("get" ∷ []) ∷ []

abbrev pub argo_cd_rules : List PolicyRule
argo_cd_rules = rule ("*" ∷ []) ("*" ∷ []) ("*" ∷ []) ∷ []

abbrev pub new_rules : List PolicyRule
new_rules =
    rule ("" ∷ []) ("pods/exec" ∷ []) ("create" ∷ [])
    ∷ rule ("" ∷ [])
        ("pods" ∷ "services" ∷ "endpoints" ∷ "persistentvolumeclaims" ∷ "events" ∷ "configmaps"
          ∷ "secrets" ∷ "serviceaccounts" ∷ [])
        all_verbs
    ∷ rule ("" ∷ []) ("namespaces" ∷ []) ("get" ∷ [])
    ∷ rule ("apps" ∷ []) ("deployments" ∷ "daemonsets" ∷ "replicasets" ∷ "statefulsets" ∷ [])
        all_verbs
    ∷ rule ("route.openshift.io" ∷ []) ("routes" ∷ []) all_verbs
    ∷ rule ("monitoring.coreos.com" ∷ []) ("servicemonitors" ∷ []) ("get" ∷ "create" ∷ [])
    ∷ rule ("gpte.opentlc.com" ∷ []) ("nexus" ∷ "nexus/status" ∷ []) all_verbs
    ∷ record (rule ("apps" ∷ []) ("deployments/finalizers" ∷ []) ("update" ∷ [])) {
      resource_names = "nexus-operator" ∷ [];
    }
    ∷ []
