-- ===== src/Build/Users.antt =====
-- common/user/user.go
use workshop_operator.Prelude.{String, ◌<>◌, [], ◌∷◌, StringMap}
use workshop_operator.Kube.Object.{
  Object, user_spec, role_binding_spec, secret_spec, identity_spec, user_identity_mapping_spec,
}
use workshop_operator.Build.Base.{object_meta}

unfoldable pub new_user : (username : String) (labels : StringMap String) → Object
new_user username labels = record {
  meta = object_meta username "" labels;
  spec = user_spec username;
}

unfoldable pub new_user_role_binding :
    (username namespace_name role_name role_kind : String) → Object
new_user_role_binding username namespace_name role_name role_kind = record {
  meta = object_meta username namespace_name [];
  spec =
      role_binding_spec
        (record {
          kind = "User";
          api_group = "rbac.authorization.k8s.io";
          name = username;
          namespace_name = "";
        }
          ∷ [])
        (record { api_group = ""; kind = role_kind; name = role_name });
}

unfoldable pub new_htpasswd_secret : (name namespace_name htpasswds : String) → Object
new_htpasswd_secret name namespace_name htpasswds = record {
  meta = object_meta name namespace_name [];
  spec = secret_spec "Opaque" (("htpasswd", htpasswds) ∷ []) [];
}

-- `user_uid` is the UID of the user that was read, empty if none was.
unfoldable pub new_identity : (username identity_name user_uid : String) → Object
new_identity username identity_name user_uid = record {
  meta = object_meta (identity_name <> ":" <> username) "" [];
  spec = identity_spec identity_name username (record { name = username; uid = user_uid });
}

unfoldable pub new_user_identity_mapping : (user_identity_name username : String) → Object
new_user_identity_mapping user_identity_name username = record {
  meta = object_meta (user_identity_name <> ":" <> username) "" [];
  spec =
      user_identity_mapping_spec (record { name = user_identity_name <> ":" <> username; uid = "" })
        (record { name = username; uid = "" });
}
