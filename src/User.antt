-- ===== src/User.antt =====
-- controllers/user_reconciler.go: the users of the workshop, their identities and passwords.
pub mod Sync
pub mod Objects
pub mod Safety
pub mod Outcome
use workshop_operator.Prelude.{
  ℕ, zero, suc, String, ◌<>◌, Bool, true, false, ◌||◌, Option, none, some, List, [], ◌∷◌, StringMap,
  lookup, insert, keys, itoa, replace_all, count_text, trim_space, ltb,
}
use workshop_operator.Prelude.Int.{ℤ, pos, negsuc, rounds}
use workshop_operator.Kube.Object.{Object, Ref, user, secret, secret_spec}
use workshop_operator.Kube.Env.{
  Env, Error, already_exists, Got, found, failed, Listed, items, list_failed,
}
use workshop_operator.Kube.Flow.{
  Code, Return, success, failure, has_error, is_requeued, next, pure, give_back, ◌>>=◌, ◌>>◌,
  function, propagate,
}
use workshop_operator.Kube.Idiom.{create_or_exists, delete_or_return, create_err, get_object}
use workshop_operator.Build.Base.{Workshop}
use workshop_operator.Build.Users.{
  new_user, new_user_role_binding, new_htpasswd_secret, new_identity, new_user_identity_mapping,
}

abbrev pub htpasswd_secret_name : String
htpasswd_secret_name = "htpass-workshop-users"

abbrev pub htpasswd_secret_namespace_name : String
htpasswd_secret_namespace_name = "openshift-config"

abbrev pub user_role_binding_namespace_name : String
user_role_binding_namespace_name = "workshop-infra"

abbrev pub identity_name : String
identity_name = "htpass-workshop-users"

abbrev pub user_identity_mapping_name : String
user_identity_mapping_name = "htpass-workshop-users"

abbrev pub user_label_selector : String
user_label_selector = "createdBy=WorkshopOperator"

abbrev pub user_labels : StringMap String
user_labels = ("createdBy", "WorkshopOperator") ∷ []

-- project_reconciler.go and vault_reconciler.go declare these two.
abbrev pub user_role_binding_name : String
user_role_binding_name = "edit"

abbrev pub kind_cluster_role : String
kind_cluster_role = "ClusterRole"

-- `for userSuffix := 1; userSuffix <= totalUsers; userSuffix++`, from a suffix on
mark_wanted : String → ℕ → ℕ → StringMap Bool → StringMap Bool
mark_wanted user_prefix suffix zero m = m
mark_wanted user_prefix suffix (suc n) m =
    mark_wanted user_prefix (suc suffix) n (insert (user_prefix <> itoa suffix) true m)

unfoldable pub wanted_users : Workshop → StringMap Bool
unfolding mark_wanted
wanted_users ws =
    mark_wanted ws.spec.user_details.user_name_prefix 1
      (rounds ws.spec.user_details.number_of_users) []

abbrev pub user_ref : String → Ref
user_ref username = record { kind = user; namespace_name = ""; name = username }

-- The UID of what was read into an empty `User`.
abbrev pub found_uid : Got → String
found_uid (found o) = o.meta.uid
found_uid (failed _) = ""

abbrev secret_content : Object → StringMap String
secret_content o = elim o.spec [ secret_spec _ content _ ↦ content | _ ↦ [] ]

abbrev pub differs : ℤ → ℕ → Bool
differs (pos n) c = ltb c n || ltb n c
differs (negsuc _) c = true

abbrev pub listed_items : Listed → List Object
listed_items (items os) = os
listed_items (list_failed _) = []

-- `_, ok := createUsers[username]`
abbrev pub is_key : String → StringMap Bool → Bool
is_key k m = elim (lookup k m) [ some _ ↦ true | none ↦ false ]

-- the value of `for username, value := range createUsers` at a key
abbrev pub value_at : String → StringMap Bool → Bool
value_at k m = elim (lookup k m) [ some v ↦ v | none ↦ false ]

module _ (env : Env) where
  open env use {World}

  -- The error that this function returns is that of `labels.Parse`, and is only logged; that of
  -- the list is logged here. Nothing is listed if it fails.
  unfoldable pub created_user_list : Code World (List Object)
  created_user_list w =
      let (l, w') = env.list_users (env.parse_selector user_label_selector) w in
      (next (listed_items l), w')

  unfoldable pub range_keys : List String → Code World (List String)
  range_keys ks w = let (order, w') = env.range_keys ks w in (next order, w')

  unfoldable pub add_user : String → Code World Return
  add_user username = function do
    create_or_exists env (new_user username user_labels)
    create_or_exists env (
        new_user_role_binding username user_role_binding_namespace_name user_role_binding_name
          kind_cluster_role)
    user_found ← get_object env (user_ref username)
    create_or_exists env (new_identity username identity_name (found_uid user_found))
    create_or_exists env (new_user_identity_mapping user_identity_mapping_name username)
    pure success

  pub delete_openshift_user : String → Code World Return
  delete_openshift_user username = function do
    user_found ← get_object env (user_ref username)
    delete_or_return env (new_user_identity_mapping user_identity_mapping_name username)
    delete_or_return env (new_identity username identity_name (found_uid user_found))
    delete_or_return env (
        new_user_role_binding username user_role_binding_namespace_name user_role_binding_name
          kind_cluster_role)
    delete_or_return env (new_user username user_labels)
    pure success

  -- The shell command's failure is only logged.
  hash_password : String → String → Code World String
  hash_password password username w =
      let command = "echo \"password\" | htpasswd -b -B -i -n " <> username in
      let (ran, w') = env.bash (replace_all command "password" password) w in
      (next (trim_space ran.output <> "\n"), w')

  hash_passwords : String → List String → String → Code World String
  hash_passwords password [] htpasswds = pure htpasswds
  hash_passwords password (username ∷ rest) htpasswds = do
    line ← hash_password password username
    hash_passwords password rest (htpasswds <> line)

  -- The last entry that the range visits decides. Encoding and decoding an entry give it back.
  count_users : String → StringMap String → List String → ℕ → ℕ
  count_users user_prefix content [] count = count
  count_users user_prefix content (k ∷ ks) count =
      count_users user_prefix content ks
        (elim (lookup k content) [ some text ↦ count_text text user_prefix | none ↦ count ])

  replace_secret : Object → Code World Return
  replace_secret htpasswd_secret = do
    delete_or_return env htpasswd_secret
    create_or_exists env htpasswd_secret
    pure success

  update_secret : Workshop → Object → Got → Code World Return
  update_secret ws htpasswd_secret (failed _) = pure success
  update_secret ws htpasswd_secret (found secret_found) = do
    let content = secret_content secret_found
    order ← range_keys (keys content)
    let count = count_users ws.spec.user_details.user_name_prefix content order 0
    elim (differs ws.spec.user_details.number_of_users count) [
      | true ↦ replace_secret htpasswd_secret
      | false ↦ pure success
    ]

  abbrev secret_ref : Ref
  secret_ref = record {
    kind = secret;
    namespace_name = htpasswd_secret_namespace_name;
    name = htpasswd_secret_name;
  }

  store_secret : Workshop → Object → Option Error → Code World Return
  store_secret ws htpasswd_secret none = pure success
  store_secret ws htpasswd_secret (some already_exists) = do
    secret_found ← get_object env secret_ref
    update_secret ws htpasswd_secret secret_found
  store_secret ws htpasswd_secret (some e) = give_back (failure e)

  unfoldable pub create_user_htpasswd : Workshop → StringMap Bool → Code World Return
  unfolding hash_password hash_passwords count_users replace_secret update_secret store_secret
      range_keys
  create_user_htpasswd ws users = function do
    names ← range_keys (keys users)
    htpasswds ← hash_passwords ws.spec.user_details.default_password names ""
    let htpasswd_secret =
        new_htpasswd_secret htpasswd_secret_name htpasswd_secret_namespace_name htpasswds
    e ← create_err env htpasswd_secret
    store_secret ws htpasswd_secret e

  -- `for _, user := range listUsers.Items`
  scan_listed : List Object → StringMap Bool → Code World (StringMap Bool)
  scan_listed [] m = pure m
  scan_listed (u ∷ us) m = elim (is_key u.meta.name m) [
    | true ↦ scan_listed us (insert u.meta.name false m)
    | false ↦ do propagate is_requeued (delete_openshift_user u.meta.name); scan_listed us m
  ]

  -- `for username, value := range createUsers`
  add_marked : StringMap Bool → List String → Code World (Unit {0})
  add_marked m [] = pure tt
  add_marked m (k ∷ ks) = elim (value_at k m) [
    | true ↦ do propagate is_requeued (add_user k); add_marked m ks
    | false ↦ add_marked m ks
  ]

  unfoldable pub reconcile_user : Workshop → Code World Return
  unfolding scan_listed add_marked range_keys wanted_users created_user_list
  reconcile_user ws = function do
    listed ← created_user_list
    users ← scan_listed listed (wanted_users ws)
    order ← range_keys (keys users)
    add_marked users order
    propagate is_requeued (create_user_htpasswd ws users)
    pure success

  unfoldable pub delete_user_htpasswd : Code World Return
  delete_user_htpasswd = function do
    delete_or_return env
        (new_htpasswd_secret htpasswd_secret_name htpasswd_secret_namespace_name "")
    pure success

  delete_listed : List Object → Code World (Unit {0})
  delete_listed [] = pure tt
  delete_listed (u ∷ us) = do
    propagate is_requeued (delete_openshift_user u.meta.name)
    delete_listed us

  unfoldable pub delete_users : Code World Return
  unfolding delete_listed created_user_list
  delete_users = function do
    listed ← created_user_list
    delete_listed listed
    propagate has_error delete_user_htpasswd
    pure success
