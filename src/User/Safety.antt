-- ===== src/User/Safety.antt =====
-- What `reconcileUser` does to the objects of a user whom the workshop wants.
use text.Mathlib.TextLemmas.{append_cancel_left}
use workshop_operator.Prelude.{
  ◌≡◌, ◌≢◌, refl, ap, ◌∙◌, String, Bool, true, none, some, Option, List, [], ◌∷◌, StringMap, All,
  arith, false,
}
use workshop_operator.Kube.Object.{Object, Ref, ref, kind_of}
use workshop_operator.Kube.Env.{Env, Error, already_exists, Got, found, failed}
use workshop_operator.Kube.Flow.{Code, failure, success, is_requeued}
use workshop_operator.Kube.Idiom.{delete_or_return}
use workshop_operator.Kube.Lawful.{takes_others, IsLawful}
use workshop_operator.Kube.Protects.{
  Protects, ProtectsCall, Protects-pure, Protects-bind, Protects-cases, Protects-step, Protects-get,
  Protects-create_err, ProtectsCall-function, Protects-failure, Protects-create, Protects-delete,
  Among, Among-apart,
}
use workshop_operator.Build.Base.{Workshop}
use workshop_operator.Build.Users.{
  new_user, new_user_role_binding, new_identity, new_user_identity_mapping, new_htpasswd_secret,
}
use workshop_operator.User.{
  delete_openshift_user, create_user_htpasswd, range_keys, hash_password, hash_passwords,
  replace_secret, update_secret, store_secret, htpasswd_secret_name, htpasswd_secret_namespace_name,
}
use workshop_operator.User.Objects.{user_refs, identity_ref, user_identity_mapping_ref}

-- The objects of two users are apart.
named_apart : (k n : String) → k ≢ n → identity_ref k ≢ identity_ref n
named_apart k n h p = h (append_cancel_left _ k n (append_cancel_left _ _ _ (ap (λ r. r.name) p)))

mapping_apart : (k n : String) → k ≢ n → user_identity_mapping_ref k ≢ user_identity_mapping_ref n
mapping_apart k n h p = h (append_cancel_left _ k n (append_cancel_left _ _ _ (ap (λ r. r.name) p)))

fails : (e : Error) → is_requeued (failure e) ≡ true
unfolding is_requeued
fails e = refl

module _ (env : Env) (law : IsLawful env) (k : String) where
  open env use {World}

  abbrev pub Mine : Ref → Type 0
  Mine = Among (user_refs k)

  abbrev pub Safe : {A : Type 0} → Code World A → Type 0
  Safe = Protects env law Mine is_requeued

  -- Deleting another user spares this one.
  pub delete_other :
      (n : String) → k ≢ n → ProtectsCall env law Mine is_requeued (delete_openshift_user env n)
  unfolding delete_openshift_user new_user new_user_role_binding new_identity
      new_user_identity_mapping
  delete_other n ne = ProtectsCall-function env law Mine is_requeued _ (
      Protects-bind env law Mine is_requeued _ _ (Protects-get env law Mine is_requeued _) λ g.
        Protects-bind env law Mine is_requeued _ _
          (delete _ refl (ground arith, (ground arith, (ground arith, (mapping_apart k n ne, tt)))))
          λ _.
            Protects-bind env law Mine is_requeued _ _
              (delete _ refl
                (ground arith, (ground arith, (named_apart k n ne, (ground arith, tt)))))
              λ _.
                Protects-bind env law Mine is_requeued _ _
                  (delete _ refl (ground arith, (ground arith, (ground arith, (ground arith, tt)))))
                  λ _.
                    Protects-bind env law Mine is_requeued _ _
                      (delete _ refl
                        (ground arith, (ground arith, (ground arith, (ground arith, tt)))))
                      λ _. Protects-pure env law Mine is_requeued success)
    where
      delete :
          (o : Object)
          → takes_others (kind_of o.spec) ≡ false
          → All (λ r. r ≢ ref o) (user_refs k)
          → Safe (delete_or_return env o)
      delete o h a =
          Protects-delete env law Mine is_requeued fails o h (Among-apart (user_refs k) (ref o) a)

  secret_apart :
      (h : String) (r : Ref)
      → Mine r
      → r ≢ ref (new_htpasswd_secret htpasswd_secret_name htpasswd_secret_namespace_name h)
  unfolding new_htpasswd_secret
  secret_apart h =
      Among-apart (user_refs k) _ (ground arith, (ground arith, (ground arith, (ground arith, tt))))

  Safe-range_keys : (ks : List String) → Safe (range_keys env ks)
  unfolding range_keys
  Safe-range_keys ks =
      Protects-step env law Mine is_requeued _ (λ w r e. cc) (λ w r m h. law.range_keeps ks w r ∙ h)

  Safe-hash_password : (password n : String) → Safe (hash_password env password n)
  unfolding hash_password
  Safe-hash_password password n =
      Protects-step env law Mine is_requeued _ (λ w r e. cc) (λ w r m h. law.bash_keeps _ w r ∙ h)

  Safe-hash_passwords :
      (password : String) (ns : List String) (text : String)
      → Safe (hash_passwords env password ns text)
  unfolding hash_passwords
  Safe-hash_passwords password [] text = Protects-pure env law Mine is_requeued text
  Safe-hash_passwords password (n ∷ ns) text =
      Protects-bind env law Mine is_requeued _ _ (Safe-hash_password password n)
        λ line. Safe-hash_passwords password ns _

  secret_kind :
      (h : String)
      → takes_others
          (kind_of (new_htpasswd_secret htpasswd_secret_name htpasswd_secret_namespace_name h).spec)
        ≡ false
  unfolding new_htpasswd_secret
  secret_kind h = refl

  Safe-replace_secret :
      (h : String)
      → Safe (
          replace_secret env
            (new_htpasswd_secret htpasswd_secret_name htpasswd_secret_namespace_name h))
  unfolding replace_secret
  Safe-replace_secret h =
      Protects-bind env law Mine is_requeued _ _
        (Protects-delete env law Mine is_requeued fails _ (secret_kind h) (secret_apart h))
        λ _.
          Protects-bind env law Mine is_requeued _ _
            (Protects-create env law Mine is_requeued fails _)
            λ _. Protects-pure env law Mine is_requeued success

  Safe-update_secret :
      (ws : Workshop) (h : String) (g : Got)
      → Safe (
          update_secret env ws
            (new_htpasswd_secret htpasswd_secret_name htpasswd_secret_namespace_name h)
            g)
  unfolding update_secret
  Safe-update_secret ws h (failed e) = Protects-pure env law Mine is_requeued success
  Safe-update_secret ws h (found o) =
      Protects-bind env law Mine is_requeued _ _ (Safe-range_keys _) λ order.
        Protects-cases env law Mine is_requeued _ _ _ (Safe-replace_secret h)
          (Protects-pure env law Mine is_requeued success)

  Safe-store_secret :
      (ws : Workshop) (h : String) (e : Option Error)
      → Safe (
          store_secret env ws
            (new_htpasswd_secret htpasswd_secret_name htpasswd_secret_namespace_name h)
            e)
  unfolding store_secret
  Safe-store_secret ws h none = Protects-pure env law Mine is_requeued success
  Safe-store_secret ws h (some already_exists) =
      Protects-bind env law Mine is_requeued _ _ (Protects-get env law Mine is_requeued _)
        λ g. Safe-update_secret ws h g
  Safe-store_secret ws h (some e) = Protects-failure env law Mine is_requeued fails e

  pub create_user_htpasswd-Safe :
      (ws : Workshop) (m : StringMap Bool)
      → ProtectsCall env law Mine is_requeued (create_user_htpasswd env ws m)
  unfolding create_user_htpasswd
  create_user_htpasswd-Safe ws m = ProtectsCall-function env law Mine is_requeued _ (
      Protects-bind env law Mine is_requeued _ _ (Safe-range_keys _) λ names.
        Protects-bind env law Mine is_requeued _ _ (Safe-hash_passwords _ names "") λ text.
          Protects-bind env law Mine is_requeued _ _
            (Protects-create_err env law Mine is_requeued _) λ e. Safe-store_secret ws text e)
