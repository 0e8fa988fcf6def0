-- ===== src/User/Sync.antt =====
-- `reconcileUser` against its purpose: delete the listed users that are not wanted, then add the
-- wanted users that are not listed.
use workshop_operator.Prelude.{
  ◌≡◌, refl, sym, ap, ◌∙◌, fun_ext, ℕ, zero, suc, String, ◌<>◌, Bool, true, false, not, ◌&&◌, List,
  [], ◌∷◌, StringMap, lookup, lookup-insert, insert, keys, elem, keep, itoa, if◌then◌else◌, arith,
  eq_iff, ◌=ₛ◌, Bool-cases, inl, inr,
}
use workshop_operator.Prelude.Int.{rounds}
use workshop_operator.Kube.Object.{Object}
use workshop_operator.Kube.Env.{Env}
use workshop_operator.Kube.Flow.{
  Code, Return, success, is_requeued, pure, ◌>>=◌, ◌>>◌, function, propagate,
}
use workshop_operator.Kube.Monad.{pure-bind, bind_assoc}
use workshop_operator.Build.Base.{Workshop}
use workshop_operator.User.{
  mark_wanted, wanted_users, is_key, value_at, created_user_list, range_keys, add_user,
  delete_openshift_user, create_user_htpasswd, scan_listed, add_marked, reconcile_user,
}

-- The names of the workshop's users: the prefix with the suffixes 1, 2, … up to their number.
abbrev pub names_from : String → ℕ → ℕ → List String
names_from user_prefix suffix zero = []
names_from user_prefix suffix (suc n) =
    (user_prefix <> itoa suffix) ∷ names_from user_prefix (suc suffix) n

abbrev pub user_names : Workshop → List String
user_names ws =
    names_from ws.spec.user_details.user_name_prefix 1 (rounds ws.spec.user_details.number_of_users)

abbrev pub listed_names : List Object → List String
listed_names [] = []
listed_names (u ∷ us) = u.meta.name ∷ listed_names us

module _ {W : Type 0} where
  -- `f` on each in turn, until one is requeued.
  unfoldable pub for_each : (String → Code W Return) → List String → Code W (Unit {0})
  for_each f [] = pure tt
  for_each f (x ∷ xs) = do propagate is_requeued (f x); for_each f xs

-- Is this a user of the workshop that is not in the list?
abbrev pub is_missing : Workshop → List String → String → Bool
is_missing ws names k = elem k (user_names ws) && not (elem k names)

module _ (env : Env) where
  abbrev pub sync_listed : Workshop → List String → Code env.World Return
  sync_listed ws names = do
    for_each (delete_openshift_user env) (keep (λ k. not (elem k (user_names ws))) names)
    order ← range_keys env (keys (wanted_users ws))
    for_each (add_user env) (keep (is_missing ws names) order)
    propagate is_requeued (create_user_htpasswd env ws (wanted_users ws))
    pure success

  unfoldable pub sync_users : Workshop → Code env.World Return
  sync_users ws = function do listed ← created_user_list env; sync_listed ws (listed_names listed)

is_key-insert :
    (k n : String) (v : Bool) (m : StringMap Bool)
    → is_key k (insert n v m) ≡ (if n =ₛ k then true else is_key k m)
is_key-insert k n v m = ground (arith, lookup-insert n k v m)

is_key-mark_wanted :
    (k p : String) (i n : ℕ) (m : StringMap Bool)
    → is_key k (mark_wanted p i n m) ≡ (if is_key k m then true else elem k (names_from p i n))
unfolding mark_wanted
is_key-mark_wanted k p i zero m = ground arith
is_key-mark_wanted k p i (suc n) m =
    is_key-mark_wanted k p (suc i) n _ ∙ ground (arith, is_key-insert k (p <> itoa i) true m)

pub is_key-wanted_users :
    (k : String) (ws : Workshop) → is_key k (wanted_users ws) ≡ elem k (user_names ws)
unfolding wanted_users lookup
is_key-wanted_users k ws = is_key-mark_wanted k _ 1 _ []

pub elem-keys : (k : String) (m : StringMap Bool) → elem k (keys m) ≡ is_key k m
unfolding lookup
elem-keys k [] = refl
elem-keys k ((j, v) ∷ m) = ground (arith, elem-keys k m)

-- The map's values, as long as it has only been built: all true.
value_at-mark_wanted :
    (k p : String) (i n : ℕ) (m : StringMap Bool)
    → value_at k m ≡ is_key k m
    → value_at k (mark_wanted p i n m) ≡ is_key k (mark_wanted p i n m)
unfolding mark_wanted
value_at-mark_wanted k p i zero m h = h
value_at-mark_wanted k p i (suc n) m h =
    value_at-mark_wanted k p (suc i) n _ (ground (arith, lookup-insert (p <> itoa i) k true m))

-- What the scan of the listed names does to the map.
unmark : List String → StringMap Bool → StringMap Bool
unmark [] m = m
unmark (n ∷ ns) m = unmark ns (if is_key n m then insert n false m else m)

keys-insert_old :
    (k : String) (v : Bool) (m : StringMap Bool) → is_key k m ≡ true → keys (insert k v m) ≡ keys m
unfolding lookup insert
keys-insert_old k v [] h = cc
keys-insert_old k v ((j, w) ∷ m) h = ground (arith, eq_iff j k, keys-insert_old k v m)

keys-unmark : (ns : List String) (m : StringMap Bool) → keys (unmark ns m) ≡ keys m
unfolding unmark
keys-unmark [] m = refl
keys-unmark (n ∷ ns) m = keys-unmark ns _ ∙ ground (arith, keys-insert_old n false m)

value_at-unmark :
    (k : String) (ns : List String) (m : StringMap Bool)
    → value_at k (unmark ns m) ≡ (value_at k m && not (elem k ns))
unfolding unmark
value_at-unmark k [] m = ground arith
value_at-unmark k (n ∷ ns) m =
    value_at-unmark k ns _ ∙ ground (arith, lookup-insert n k false m, eq_iff n k)

unmark-cons :
    (n : String) (ns : List String) (m : StringMap Bool) (b : Bool)
    → is_key n m ≡ b
    → unmark (n ∷ ns) m ≡ unmark ns (if b then insert n false m else m)
unfolding unmark
unmark-cons n ns m b h = rw h

is_key-insert_old :
    (n : String) (m : StringMap Bool)
    → is_key n m ≡ true
    → (k : String) → is_key k (insert n false m) ≡ is_key k m
is_key-insert_old n m h k = ground (arith, is_key-insert k n false m, eq_iff n k)

module _ (env : Env) where
  -- The calls that the scan makes: the deletions of the names that are no keys.
  abbrev deletions : StringMap Bool → List Object → Code env.World (Unit {0})
  deletions m us =
      for_each (delete_openshift_user env) (keep (λ k. not (is_key k m)) (listed_names us))

  scan_listed_lem :
      (us : List Object) (m : StringMap Bool)
      → scan_listed env us m ≡ (deletions m us >>= λ _. pure (unmark (listed_names us) m))
  unfolding scan_listed for_each unmark
  scan_listed_lem [] m = sym (pure-bind tt _)
  scan_listed_lem (u ∷ us) m = elim (Bool-cases (is_key u.meta.name m)) [
    | inl t ↦
        rw (t, scan_listed)
          (scan_listed_lem us (insert u.meta.name false m)
            ∙ ap
                (λ (p : String → Bool).
                  for_each (delete_openshift_user env) (keep (λ k. not (p k)) (listed_names us))
                  >>= λ _. pure (unmark (listed_names us) (insert u.meta.name false m)))
                (fun_ext (is_key-insert_old u.meta.name m t))
            ∙ ap (λ (x : StringMap Bool). deletions m us >>= λ _. pure x)
                (sym (unmark-cons u.meta.name (listed_names us) m true t)))
    | inr f ↦
        rw (f, scan_listed)
          (ap
              (λ (c : Code env.World (StringMap Bool)).
                propagate is_requeued (delete_openshift_user env u.meta.name) >> c)
              (scan_listed_lem us m
                ∙ ap (λ (x : StringMap Bool). deletions m us >>= λ _. pure x)
                    (sym (unmark-cons u.meta.name (listed_names us) m false f)))
            ∙ sym (bind_assoc _ (λ _. deletions m us) _))
  ]

  add_marked_lem :
      (m : StringMap Bool) (ks : List String)
      → add_marked env m ks ≡ for_each (add_user env) (keep (λ k. value_at k m) ks)
  unfolding add_marked for_each
  add_marked_lem m [] = refl
  add_marked_lem m (k ∷ ks) = elim (Bool-cases (value_at k m)) [
    | inl t ↦ rw (t, add_marked) (rw (← add_marked_lem m ks) refl)
    | inr f ↦ rw (f, add_marked) (add_marked_lem m ks)
  ]

  passwords_of_keys :
      (ws : Workshop) (m m' : StringMap Bool)
      → keys m ≡ keys m'
      → create_user_htpasswd env ws m ≡ create_user_htpasswd env ws m'
  unfolding create_user_htpasswd
  passwords_of_keys ws m m' h = rw h

  module _ (ws : Workshop) where
    abbrev after_scan : StringMap Bool → Code env.World Return
    after_scan users = do
      order ← range_keys env (keys users)
      add_marked env users order
      propagate is_requeued (create_user_htpasswd env ws users)
      pure success

    abbrev after_deletions : List String → Code env.World Return
    after_deletions ns = do
      order ← range_keys env (keys (wanted_users ws))
      for_each (add_user env) (keep (is_missing ws ns) order)
      propagate is_requeued (create_user_htpasswd env ws (wanted_users ws))
      pure success

    value_at-wanted_users : (k : String) → value_at k (wanted_users ws) ≡ elem k (user_names ws)
    unfolding wanted_users lookup
    value_at-wanted_users k =
        let prefix = ws.spec.user_details.user_name_prefix in
        let n = rounds ws.spec.user_details.number_of_users in
        value_at-mark_wanted k prefix 1 n [] refl ∙ is_key-mark_wanted k prefix 1 n []

    missing_lem :
        (ns : List String) (k : String)
        → value_at k (unmark ns (wanted_users ws)) ≡ is_missing ws ns k
    missing_lem ns k =
        value_at-unmark k ns (wanted_users ws)
        ∙ ap (λ (b : Bool). b && not (elem k ns)) (value_at-wanted_users k)

    adds_lem :
        (ns order : List String)
        → add_marked env (unmark ns (wanted_users ws)) order
          ≡ for_each (add_user env) (keep (is_missing ws ns) order)
    adds_lem ns order =
        add_marked_lem _ order
        ∙ ap (λ (p : String → Bool). for_each (add_user env) (keep p order))
            (fun_ext (missing_lem ns))

    after_scan-unmark :
        (ns : List String) → after_scan (unmark ns (wanted_users ws)) ≡ after_deletions ns
    after_scan-unmark ns = λ i. do
      order ← range_keys env (keys-unmark ns (wanted_users ws) i)
      adds_lem ns order i
      propagate is_requeued (passwords_of_keys ws _ _ (keys-unmark ns (wanted_users ws)) i)
      pure success

    scan-after_scan :
        (us : List Object)
        → (scan_listed env us (wanted_users ws) >>= after_scan) ≡ (
            for_each
              (delete_openshift_user env)
              (keep (λ k. not (elem k (user_names ws))) (listed_names us))
            >> after_deletions (listed_names us))
    scan-after_scan us =
        ap (λ (c : Code env.World (StringMap Bool)). c >>= after_scan)
          (scan_listed_lem us (wanted_users ws))
        ∙ bind_assoc (deletions (wanted_users ws) us) _ after_scan
        ∙ ap (λ (c : Code env.World Return). deletions (wanted_users ws) us >> c)
            (pure-bind (unmark (listed_names us) (wanted_users ws)) after_scan
              ∙ after_scan-unmark (listed_names us))
        ∙ ap
            (λ (p : String → Bool).
              for_each (delete_openshift_user env) (keep (λ k. not (p k)) (listed_names us))
              >> after_deletions (listed_names us))
            (fun_ext λ k. is_key-wanted_users k ws)

  -- Whatever the cluster answers, the handler makes the calls of `sync_users`: it deletes the
  -- listed users that are not wanted, adds the wanted ones that are not listed, in the order of
  -- one range over the map, and stores the passwords of all wanted users.
  pub reconcile_user-sync_users : (ws : Workshop) → reconcile_user env ws ≡ sync_users env ws
  unfolding reconcile_user sync_users
  reconcile_user-sync_users ws =
      ap (λ (c : List Object → Code env.World Return). function (created_user_list env >>= c))
        (fun_ext (scan-after_scan ws))
