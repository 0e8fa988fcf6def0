-- ===== src/User/Objects.antt =====
-- Which objects `addUser` and `deleteOpenshiftUser` put in place and take away.
use workshop_operator.Prelude.{◌≡◌, refl, String, ◌<>◌, true, List, [], ◌∷◌}
use workshop_operator.Kube.Object.{Ref, role_binding, identity, user_identity_mapping}
use workshop_operator.Kube.Env.{Env, Error}
use workshop_operator.Kube.Flow.{failure, is_requeued}
use workshop_operator.Kube.Lawful.{IsLawful}
use workshop_operator.Kube.Installs.{
  InstallsCall, InstallsCall-function, Installs-pure, Installs-create, Installs-get,
}
use workshop_operator.Kube.Removes.{
  RemovesCall, RemovesCall-function, Removes-pure, Removes-delete, Removes-get,
}
use workshop_operator.Build.Users.{
  new_user, new_user_role_binding, new_identity, new_user_identity_mapping,
}
use workshop_operator.User.{
  add_user, delete_openshift_user, user_ref, user_role_binding_namespace_name, identity_name,
  user_identity_mapping_name,
}

abbrev pub user_role_binding_ref : String → Ref
user_role_binding_ref k = record {
  kind = role_binding;
  namespace_name = user_role_binding_namespace_name;
  name = k;
}

abbrev pub identity_ref : String → Ref
identity_ref k = record { kind = identity; namespace_name = ""; name = identity_name <> ":" <> k }

abbrev pub user_identity_mapping_ref : String → Ref
user_identity_mapping_ref k = record {
  kind = user_identity_mapping;
  namespace_name = "";
  name = user_identity_mapping_name <> ":" <> k;
}

-- A user's objects, in the order in which they are created.
abbrev pub user_refs : String → List Ref
user_refs k =
    user_ref k ∷ user_role_binding_ref k ∷ identity_ref k ∷ user_identity_mapping_ref k ∷ []

-- In the order in which they are deleted.
abbrev pub deleted_refs : String → List Ref
deleted_refs k =
    user_identity_mapping_ref k ∷ identity_ref k ∷ user_role_binding_ref k ∷ user_ref k ∷ []

fails : (e : Error) → is_requeued (failure e) ≡ true
unfolding is_requeued
fails e = refl

module _ (env : Env) (law : IsLawful env) where
  pub add_user-Installs :
      (k : String) → InstallsCall env law is_requeued (add_user env k) (user_refs k)
  unfolding add_user new_user new_user_role_binding new_identity new_user_identity_mapping
  add_user-Installs k = InstallsCall-function env law is_requeued _ (
      search
        (
          Installs-pure env law is_requeued,
          Installs-get env law is_requeued,
          Installs-create env law is_requeued fails,
        )
        depth 8)

  pub delete_openshift_user-Removes :
      (k : String) → RemovesCall env law is_requeued (delete_openshift_user env k) (deleted_refs k)
  unfolding delete_openshift_user new_user new_user_role_binding new_identity
      new_user_identity_mapping
  delete_openshift_user-Removes k = RemovesCall-function env law is_requeued _ (
      search
        (
          Removes-pure env law is_requeued,
          Removes-get env law is_requeued,
          Removes-delete env law is_requeued fails,
        )
        depth 8)
