-- ===== src/User/Outcome.antt =====
-- What `reconcileUser` leaves in the cluster for a user whom the workshop wants.
use workshop_operator.Prelude.{
  ◌≡◌, ◌≢◌, refl, ap, ◌∙◌, String, Bool, true, false, not, List, [], ◌∷◌, All, arith, elem, keep,
  ◌=ₛ◌, Bool-cases, inl, inr, eq_iff, keys,
}
use workshop_operator.Kube.Env.{Env}
use workshop_operator.Kube.Flow.{
  Return, Code, success, next, is_requeued, pure, ◌>>=◌, ◌>>◌, function, propagate,
}
use workshop_operator.Kube.Lawful.{IsLawful}
use workshop_operator.Kube.Meets.{
  IsPreorder, Meets, MeetsCall, Meets-pure, Meets-bind, MeetsCall-function, Meets-propagate,
}
use workshop_operator.Kube.Installs.{AllPresent}
use workshop_operator.Kube.Protects.{
  Spares, Spares-IsPreorder, Protects-pure, Protects-bind, Protects-propagate,
}
use workshop_operator.Build.Base.{Workshop}
use workshop_operator.User.{
  listed_items, add_user, delete_openshift_user, create_user_htpasswd, created_user_list,
  range_keys, reconcile_user, wanted_users, user_label_selector,
}
use workshop_operator.User.Objects.{user_refs, add_user-Installs}
use workshop_operator.User.Safety.{Mine, Safe, delete_other, create_user_htpasswd-Safe}
use workshop_operator.User.Sync.{
  sync_users, sync_listed, for_each, user_names, listed_names, is_missing,
  reconcile_user-sync_users, is_key-wanted_users, elem-keys,
}

module _ (env : Env) (law : IsLawful env) (k : String) where
  open env use {World}

  abbrev Kept : World → World → Type 0
  Kept = Spares env law (Mine env law k)

  for_each-delete :
      (ns : List String)
      → All (λ n. k ≢ n) ns
      → Safe env law k (for_each (delete_openshift_user env) ns)
  unfolding for_each
  for_each-delete [] h = Protects-pure env law (Mine env law k) is_requeued tt
  for_each-delete (n ∷ ns) (h, t) =
      Protects-bind env law (Mine env law k) is_requeued _ _
        (Protects-propagate env law (Mine env law k) is_requeued is_requeued _ (λ r e. e)
          (delete_other env law k n h))
        λ _. for_each-delete ns t

  All-keep : (p : String → Bool) (ns : List String) → p k ≡ false → All (λ n. k ≢ n) (keep p ns)
  All-keep p [] h = tt
  All-keep p (n ∷ ns) h = elim (Bool-cases (p n)) [
    | inl t ↦ rw t ((λ e. absurd (ground (arith, ap p e))), All-keep p ns h)
    | inr f ↦ rw f (All-keep p ns h)
  ]

  elem-keep :
      (p : String → Bool) (ns : List String)
      → p k ≡ true
      → elem k ns ≡ true
      → elem k (keep p ns) ≡ true
  elem-keep p [] h e = e
  elem-keep p (n ∷ ns) h e = elim (Bool-cases (n =ₛ k)) [
    | inl t ↦ let same : p n ≡ true = ap p ((eq_iff n k).0 t) ∙ h in ground arith
    | inr f ↦ ground (arith, elem-keep p ns h)
  ]

  -- What is there is still there after a step that keeps it.
  AllPresent-Kept :
      (w w' : World)
      → Kept w w'
      → AllPresent env law w (user_refs k)
      → AllPresent env law w' (user_refs k)
  AllPresent-Kept w w' s (a, (b, (c, (d, _)))) = (
    s _ (inl refl) a,
    (
      s _ (inr (inl refl)) b,
      (s _ (inr (inr (inl refl))) c, (s _ (inr (inr (inr (inl refl)))) d, tt)),
    ),
  )

  add-Meets :
      (n : String)
      → MeetsCall Kept is_requeued
          (λ _ w. n ≡ k → AllPresent env law w (user_refs k))
          (add_user env n)
  add-Meets n =
      let i = (add_user-Installs env law n).meets in
      record {
        keeps = λ w r m h. i.keeps w r h;
        done = λ w r h q e. rw (← e) (i.done w r h q);
        returns = i.returns;
      }

  Kept-IsPreorder : IsPreorder Kept
  Kept-IsPreorder = Spares-IsPreorder env law (Mine env law k)

  for_each-add :
      (ns : List String)
      → Meets Kept is_requeued
          (λ _ w. elem k ns ≡ true → AllPresent env law w (user_refs k))
          (for_each (add_user env) ns)
  unfolding for_each
  for_each-add [] = Meets-pure Kept-IsPreorder tt (λ w h. cc)
  for_each-add (n ∷ ns) =
      Meets-bind Kept-IsPreorder _ _ (Meets-propagate (add_user env n) (add-Meets n) (λ r e. e))
        (λ _. for_each-add ns)
        λ u v w _ kept p q e. elim (Bool-cases (n =ₛ k)) [
          | inl t ↦ AllPresent-Kept v w kept (p ((eq_iff n k).0 t))
          | inr f ↦ q (ground arith)
        ]

  module _ (ws : Workshop) (wanted : elem k (user_names ws) ≡ true) where
    -- After the deletions and the range: the adds, then the passwords.
    adds :
        (names order : List String)
        → ((j : String) → elem j order ≡ elem j (keys (wanted_users ws)))
        → Meets Kept is_requeued
            (λ _ w. elem k names ≡ false → AllPresent env law w (user_refs k))
            (do
              for_each (add_user env) (keep (is_missing ws names) order)
              propagate is_requeued (create_user_htpasswd env ws (wanted_users ws))
              pure success)
    adds names order same =
        Meets-bind Kept-IsPreorder _ _ (for_each-add _)
          (λ _.
            (Protects-bind env law (Mine env law k) is_requeued _ _
              (Protects-propagate env law (Mine env law k) is_requeued is_requeued _ (λ r e. e)
                (create_user_htpasswd-Safe env law k ws (wanted_users ws)))
              (λ _. Protects-pure env law (Mine env law k) is_requeued success)).meets)
          λ u v w _ kept p _ e. AllPresent-Kept v w kept (
            p (
              elem-keep (is_missing ws names) order (ground arith)
                (same k ∙ elem-keys k (wanted_users ws) ∙ is_key-wanted_users k ws ∙ wanted)))

    abbrev Post : List String → World → World → Type 0
    Post names _ w = elem k names ≡ false → AllPresent env law w (user_refs k)

    range_adds :
        (names : List String)
        → Meets Kept is_requeued (Post names) (do
          order ← range_keys env (keys (wanted_users ws))
          for_each (add_user env) (keep (is_missing ws names) order)
          propagate is_requeued (create_user_htpasswd env ws (wanted_users ws))
          pure success)
    unfolding range_keys ◌>>=◌
    range_adds names =
        let ks = keys (wanted_users ws) in
        record {
          keeps = λ w r m h.
              (adds names _ (law.range_elem ks w)).keeps _ r m (law.range_keeps ks w r ∙ h);
          done = λ w a h. (adds names _ (law.range_elem ks w)).done _ a h;
          early = λ w r h. (adds names _ (law.range_elem ks w)).early _ r h;
        }

    unwanted :
        (names : List String) → All (λ n. k ≢ n) (keep (λ n. not (elem n (user_names ws))) names)
    unwanted names = All-keep (λ n. not (elem n (user_names ws))) names (ground arith)

    sync-Meets :
        (names : List String)
        → MeetsCall Kept is_requeued (Post names) (function (sync_listed env ws names))
    sync-Meets names = MeetsCall-function _ (
        Meets-bind Kept-IsPreorder _ _ (for_each-delete _ (unwanted names)).meets
          (λ _. range_adds names) λ u v w _ _ _ q. q)

    -- The users that the cluster lists when the handler starts.
    abbrev pub listed_at : World → List String
    listed_at w =
        listed_names (listed_items (env.list_users (env.parse_selector user_label_selector) w).0)

    abbrev after_list : World → World
    after_list w = (env.list_users (env.parse_selector user_label_selector) w).1

    reconcile_user-at :
        (w : World)
        → reconcile_user env ws w ≡ function (sync_listed env ws (listed_at w)) (after_list w)
    unfolding sync_users created_user_list ◌>>=◌ function
    reconcile_user-at w = ap (λ (c : Code World Return). c w) (reconcile_user-sync_users env ws)

    -- In a lawful cluster, which no one else writes to, the objects of a wanted user that are
    -- there when the handler starts are there when it ends, whichever way it ends.
    pub reconcile_user-Spares :
        (w : World) → Spares env law (Mine env law k) w (reconcile_user env ws w).1
    reconcile_user-Spares w x m h =
        rw (reconcile_user-at w)
          ((sync-Meets (listed_at w)).keeps (after_list w) x m (law.list_keeps _ w x ∙ h))

    -- In a lawful cluster, if the handler is not requeued, then a wanted user that was not listed
    -- has a user, a role binding, an identity and an identity mapping.
    pub reconcile_user-AllPresent :
        (w : World) (r : Return)
        → elem k (listed_at w) ≡ false
        → (reconcile_user env ws w).0 ≡ next r
        → is_requeued r ≡ false
        → AllPresent env law (reconcile_user env ws w).1 (user_refs k)
    reconcile_user-AllPresent w r unlisted e n = rw (reconcile_user-at w) (
        (sync-Meets (listed_at w)).done (after_list w) r (rw (reconcile_user-at w) at e) n unlisted)
