-- ===== src/Kube/Memory.antt =====
-- A cluster in memory that meets the assumptions of `IsLawful`, for examples.
use workshop_operator.Prelude.{
  ◌≡◌, refl, ℕ, ◌-◌, Bool, true, false, not, ◌&&◌, Option, none, some, List, [], ◌∷◌, if◌then◌else◌,
  eqb, arith, eq_iff, ◌=ₛ◌, keep, ◌≢◌, ◌⊎◌, inl, inr,
}
use workshop_operator.Kube.Object.{
  Object, Ref, ref, Kind, kind_of, namespace, user, identity, user_identity_mapping, secret,
  role_binding, subscription, install_plan, route, workshop, deployment, service,
  persistent_volume_claim, cert_manager, custom_resource_definition, service_account, cluster_role,
  cluster_role_binding, role, config_map, stateful_set, mutating_webhook_configuration,
  security_context_constraints, nexus, gitea, argo_cd, app_project, cluster_service_version,
  service_mesh_control_plane, service_mesh_member_roll, kiali, validating_webhook_configuration,
}
use workshop_operator.Kube.Env.{
  Env, Got, already_exists, not_found, found, failed, items, status_code,
}
use workshop_operator.Kube.Lawful.{IsLawful, AnswersReads, lingers}

unfoldable pub number : Kind → ℕ
number namespace = 0
number user = 1
number identity = 2
number user_identity_mapping = 3
number secret = 4
number role_binding = 5
number subscription = 6
number install_plan = 7
number route = 8
number workshop = 9
number deployment = 10
number service = 11
number persistent_volume_claim = 12
number cert_manager = 13
number custom_resource_definition = 14
number service_account = 15
number cluster_role = 16
number cluster_role_binding = 17
number role = 18
number config_map = 19
number stateful_set = 20
number mutating_webhook_configuration = 21
number security_context_constraints = 22
number nexus = 23
number gitea = 24
number argo_cd = 25
number app_project = 26
number cluster_service_version = 27
number service_mesh_control_plane = 28
number service_mesh_member_roll = 29
number kiali = 30
number validating_webhook_configuration = 31

kinds : List Kind
kinds =
    namespace ∷ user ∷ identity ∷ user_identity_mapping ∷ secret ∷ role_binding ∷ subscription
    ∷ install_plan ∷ route ∷ workshop ∷ deployment ∷ service ∷ persistent_volume_claim
    ∷ cert_manager ∷ custom_resource_definition ∷ service_account ∷ cluster_role
    ∷ cluster_role_binding ∷ role ∷ config_map ∷ stateful_set ∷ mutating_webhook_configuration
    ∷ security_context_constraints ∷ nexus ∷ gitea ∷ argo_cd ∷ app_project ∷ cluster_service_version
    ∷ service_mesh_control_plane ∷ service_mesh_member_roll ∷ kiali
    ∷ validating_webhook_configuration ∷ []

kind_at : List Kind → ℕ → Kind
kind_at [] n = namespace
kind_at (k ∷ ks) n = if eqb n 0 then k else kind_at ks (n - 1)

kind_at-number : (k : Kind) → kind_at kinds (number k) ≡ k
unfolding kind_at kinds number
kind_at-number namespace = refl
kind_at-number _ = refl

unfoldable pub same : Ref → Ref → Bool
unfolding number
same a b =
    eqb (number a.kind) (number b.kind)
    && (a.namespace_name =ₛ b.namespace_name)
    && (a.name =ₛ b.name)

same_number : (j k : Kind) → number j ≡ number k → j ≡ k
same_number j k h = ground (arith, kind_at-number j, kind_at-number k)

pub same-eq : (a b : Ref) → same a b ≡ true → a ≡ b
unfolding same
same-eq a b h = ground (
  arith,
  same_number a.kind b.kind,
  eq_iff a.namespace_name b.namespace_name,
  eq_iff a.name b.name,
)

pub same_self : (a : Ref) → same a a ≡ true
unfolding same
same_self a = ground (arith, eq_iff a.namespace_name a.namespace_name, eq_iff a.name a.name)

unfoldable pub find : Ref → List Object → Option Object
find r [] = none
find r (o ∷ os) = if same (ref o) r then some o else find r os

unfoldable pub is_there : List Object → Ref → Bool
is_there os r = elim (find r os) [ some _ ↦ true | none ↦ false ]

unfoldable pub without : Ref → List Object → List Object
without r = keep (λ o. not (same (ref o) r))

unfoldable pub is_user : Object → Bool
unfolding number
is_user o = eqb (number (kind_of o.spec)) (number user)

abbrev pub memory : Env
memory = record {
  World = List Object;
  create = λ o os. if is_there os (ref o) then (some already_exists, os) else (none, o ∷ os);
  update = λ o os.
      if is_there os (ref o) && not (o.meta.name =ₛ "")
      then (none, o ∷ without (ref o) os)
      else (some not_found, os);
  delete = λ o os.
      if is_there os (ref o)
      then (none, if lingers (kind_of o.spec) then os else without (ref o) os)
      else (some not_found, os);
  get = λ r os. (elim (find r os) [ some o ↦ found o | none ↦ failed not_found ], os);
  parse_selector = λ s. some s;
  list_users = λ s os. (items (keep is_user os), os);
  bash = λ c os. (record { output = c; error = none }, os);
  range_keys = λ ks os. (ks, os);
  set_controller_reference = λ owner o. o;
  watch_deployment = λ name namespace_name os. (some [], os);
  stop_watch = λ os. (0, os);
  ready_replicas = λ name namespace_name os. (
    if is_there os (record { kind = deployment; namespace_name = namespace_name; name = name })
        then some 1
        else none,
    os,
  );
  send = λ q os. (status_code 201, os);
  bcrypt = λ password os. (some password, os);
  patch = λ old o os.
      if is_there os (ref o) then (none, o ∷ without (ref o) os) else (some not_found, os);
}

is_there-without :
    (q r : Ref) (os : List Object)
    → is_there (without q os) r ≡ (if same q r then false else is_there os r)
unfolding is_there find without
is_there-without q r [] = ground arith
is_there-without q r (o ∷ os) =
    ground (
      arith,
      is_there-without q r os,
      same-eq (ref o) q,
      same-eq q r,
      same-eq (ref o) r,
      same_self r,
    )

is_there-cons :
    (r : Ref) (o : Object) (os : List Object)
    → is_there (o ∷ os) r ≡ (if same (ref o) r then true else is_there os r)
unfolding is_there find
is_there-cons r o os = ground arith

got-is_there :
    (r : Ref) (os : List Object) {o : Object} → (memory.get r os).0 ≡ found o → is_there os r ≡ true
unfolding is_there
got-is_there r os h = ground arith

absent-not_found :
    (r : Ref) (os : List Object) → is_there os r ≡ false → (memory.get r os).0 ≡ failed not_found
unfolding is_there
absent-not_found r os h = ground arith

pub memory-IsLawful : IsLawful memory
memory-IsLawful = record {
  present = is_there;
  create_stores = λ o os h. ground (arith, is_there-cons (ref o) o os, same_self (ref o));
  create_conflict = λ o os h. ground arith;
  create_keeps = λ o os r h. ground (arith, is_there-cons r o os);
  create_adds_only = λ o os r a h. ground (arith, is_there-cons r o os, same-eq (ref o) r);
  delete_needs = λ o os h. ground arith;
  delete_removes =
      λ o os n h. ground (arith, is_there-without (ref o) (ref o) os, same_self (ref o));
  delete_adds_nothing = λ o os r h. ground (arith, is_there-without (ref o) r os);
  delete_keeps = λ o os r n a h. ground (arith, is_there-without (ref o) r os, same-eq (ref o) r);
  update_keeps = λ o os r a. ground (
    arith,
    is_there-cons r o (without (ref o) os),
    is_there-without (ref o) r os,
    same-eq (ref o) r,
  );
  update_keeps_present = λ o os r k. ground (
    arith,
    is_there-cons r o (without (ref o) os),
    is_there-without (ref o) r os,
    same-eq (ref o) r,
    same_self r,
  );
  owner_keeps_ref = λ owner o. refl;
  get_keeps = λ q os r. refl;
  list_keeps = λ s os r. refl;
  bash_keeps = λ c os r. refl;
  watch_keeps = λ name namespace_name os r. refl;
  stop_keeps = λ os r. refl;
  ready_keeps = λ name namespace_name os r. refl;
  send_keeps = λ q os r. refl;
  bcrypt_keeps = λ password os r. refl;
  patch_adds_nothing = λ old o os r h. ground (
    arith,
    is_there-cons r o (without (ref o) os),
    is_there-without (ref o) r os,
    same-eq (ref o) r,
    same_self r,
  );
  range_keeps = λ ks os r. refl;
  range_elem = λ ks os k. refl;
}

pub memory-AnswersReads : AnswersReads memory memory-IsLawful
unfolding memory-IsLawful
memory-AnswersReads = absent-not_found

pub present_lem :
    (r : Ref) (os : List Object) → is_there os r ≡ true → memory-IsLawful.present os r ≡ true
unfolding memory-IsLawful
present_lem r os h = h

pub absent_lem :
    (r : Ref) (os : List Object) → is_there os r ≡ false → memory-IsLawful.present os r ≡ false
unfolding memory-IsLawful
absent_lem r os h = h

-- An object without a name cannot be updated.
pub memory-update_nameless :
    (o : Object) (os : List Object) → o.meta.name ≡ "" → (memory.update o os).0 ≢ none
memory-update_nameless o os h = ground (arith, eq_iff o.meta.name "")

found_at : (r : Ref) (os : List Object) (o : Object) → find r os ≡ some o → ref o ≡ r
unfolding find
found_at r [] o h = cc
found_at r (p ∷ os) o h = ground (arith, found_at r os o, same-eq (ref p) r)

-- A read finds an object at its place, or answers that there is none.
pub memory-get_at :
    (r : Ref) (os : List Object)
    → (((memory.get r os).0 ≡ failed not_found) × (memory-IsLawful.present os r ≡ false))
      ⊎ ((o : Object) × (((memory.get r os).0 ≡ found o) × (ref o ≡ r)))
unfolding memory-IsLawful is_there
memory-get_at r os = by_find (find r os) refl
  where
    by_find :
        (f : Option Object)
        → find r os ≡ f
        → let g : Got = elim f [ some o ↦ found o | none ↦ failed not_found ] in
          ((g ≡ failed not_found)
            × (elim f as (λ _. Bool) [ some _ ↦ true | none ↦ false ] ≡ false))
          ⊎ ((o : Object) × ((g ≡ found o) × (ref o ≡ r)))
    by_find none e = inl (refl, refl)
    by_find (some o) e = inr (o, (refl, found_at r os o e))

-- What a read finds is there.
pub memory-get_found :
    (r : Ref) (os : List Object) (o : Object)
    → (memory.get r os).0 ≡ found o
    → memory-IsLawful.present os r ≡ true
unfolding memory-IsLawful
memory-get_found r os o h = got-is_there r os h

pub without_lem : (r : Ref) (os : List Object) → is_there (without r os) r ≡ false
without_lem r os = ground (arith, is_there-without r r os, same_self r)
