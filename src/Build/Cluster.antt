-- ===== src/Build/Cluster.antt =====
-- common/kubernetes: namespace.go and rolebinding.go
use workshop_operator.Prelude.{String, List, [], ◌∷◌, StringMap}
use workshop_operator.Kube.Object.{Object, namespace_spec, role_binding_spec, Subject}
use workshop_operator.Build.Base.{object_meta}

unfoldable pub new_namespace : String → Object
new_namespace name = record { meta = object_meta name "" []; spec = namespace_spec [] }

unfoldable pub new_role_binding_sa :
    (name namespace_name : String) (labels : StringMap String)
    (service_account_name role_name role_kind : String)
    → Object
new_role_binding_sa name namespace_name labels service_account_name role_name role_kind = record {
  meta = object_meta name namespace_name labels;
  spec =
      role_binding_spec
        (record {
          kind = "ServiceAccount";
          api_group = "";
          name = service_account_name;
          namespace_name = namespace_name;
        }
          ∷ [])
        (record { api_group = "rbac.authorization.k8s.io"; kind = role_kind; name = role_name });
}

unfoldable pub new_role_binding_users :
    (name namespace_name : String) (labels : StringMap String) (subjects : List Subject)
    (role_name role_kind : String)
    → Object
new_role_binding_users name namespace_name labels subjects role_name role_kind = record {
  meta = object_meta name namespace_name labels;
  spec = role_binding_spec subjects (record { api_group = ""; kind = role_kind; name = role_name });
}
