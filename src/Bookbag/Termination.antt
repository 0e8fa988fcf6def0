-- ===== src/Bookbag/Termination.antt =====
-- The rounds of the loop of `reconcileBookbag`.
use Prim.Native.Char.{code, Char}
use text.Mathlib.TextLemmas.{cons-append}
use workshop_operator.Prelude.{
  ◌≡◌, ◌≢◌, refl, sym, ap, ◌∙◌, ℕ, ◌<◌, String, ◌<>◌, Bool, true, false, Option, none, some, itoa,
  arith,
}
use workshop_operator.Kube.Object.{Object, Ref, ref, kind_of, Container, deployment}
use workshop_operator.Kube.Env.{Env, Error, already_exists, not_found, other, Got, found, failed}
use workshop_operator.Kube.Flow.{
  Code, Return, next, success, is_requeued, pure, give_back, ◌>>=◌, function,
}
use workshop_operator.Kube.Idiom.{
  create_or_exists, create_err, update_or_return, return_error, get_object,
}
use workshop_operator.Kube.Lawful.{IsLawful, AnswersReads}
use workshop_operator.Kube.Runs.{
  Runs, Ended, Runs-pure, Runs-bind, Runs-function, Runs-propagate, Runs-create, returned-Ended,
}
use workshop_operator.Kube.Valid.{Validates, is_valid}
use workshop_operator.Kube.Deploy.{
  env_changed, first_container, deployment_ref, update_if, update_changed, store_deployment,
}
use workshop_operator.Kube.Rounds.Bounds.{rounds_from-Runs}
use workshop_operator.Build.Base.{Workshop}
use workshop_operator.Build.Cluster.{new_namespace, new_role_binding_sa}
use workshop_operator.Build.Workloads.{new_config_map, new_service_account, new_service, new_route}
use workshop_operator.Build.Bookbag.{new_bookbag_deployment}
use workshop_operator.Bookbag.{
  add_update_bookbag, reconcile_bookbag, has_bookbag, looked_up, bookbag_name,
  bookbag_namespace_name,
}

first_code : String → ℕ
first_code String.[] = 0
first_code (String.◌∷◌ c s) = code c

first_code-append : (c : Char) (s t : String) → first_code (String.◌∷◌ c s <> t) ≡ code c
unfolding first_code
first_code-append c s t = rw cons-append refl

-- The deployment of a user is not what the loop looks for behind the users.
bookbag_name-ne : (user_id number : String) → bookbag_name user_id ≢ "bookbag-" <> number
unfolding first_code
bookbag_name-ne user_id number h =
    let u : first_code ("user" <> (user_id <> "-bookbag")) ≡ 117 =
      first_code-append "u" "ser" (user_id <> "-bookbag") in
    let b : first_code ("bookbag-" <> number) ≡ 98 = first_code-append "b" "ookbag-" number in
    absurd (omega (arith, u, b, ap first_code h))

module _ (env : Env) (law : IsLawful env) (answers : AnswersReads env law) (checks : Validates env)
    (ws : Workshop) (n : ℕ) where
  open env use {World}

  -- There is no deployment at the place that is looked up for `n`, and all deployments are valid.
  abbrev Absent : World → Type 0
  Absent w = (law.present w (looked_up n) ≡ false) × checks.valid w

  create-Absent :
      (o : Object)
      → looked_up n ≢ ref o
      → is_valid o ≡ true
      → (w : World) → Absent w
      → Absent (env.create o w).1
  create-Absent o ne a w (h, v) = (law.create_adds_only o w _ ne h, checks.create_valid o w a v)

  get-Absent : (r : Ref) (w : World) → Absent w → Absent (env.get r w).1
  get-Absent r w (h, v) = (law.get_keeps r w _ ∙ h, checks.get_valid r w v)

  kind-ne : (r : Ref) → deployment ≢ r.kind → looked_up n ≢ r
  kind-ne r ne h = ne (ap (λ q. q.kind) h)

  error-Ended :
      (e : Option Error) (w : World)
      → Absent w
      → Ended (return_error (e, w)).0 × Absent (return_error (e, w)).1
  error-Ended none w h = (tt, h)
  error-Ended (some e) w h = (tt, h)

  module _ (dep : Object) (k : kind_of dep.spec ≡ deployment) (a : is_valid dep ≡ true)
      (has_one : first_container dep ≢ none) (ne : looked_up n ≢ ref dep) where
    update-Runs : Runs Absent (update_or_return env dep)
    unfolding update_or_return
    update-Runs = record {
      at = λ w h.
          error-Ended _ _ (law.update_keeps dep w _ ne ∙ h.0, checks.update_valid dep w a h.1);
    }

    cases-Runs :
        (b : Bool)
        → Runs Absent (elim b as (λ _. Code World (Unit {0})) [
          | true ↦ update_or_return env dep
          | false ↦ pure tt
        ])
    cases-Runs true = update-Runs
    cases-Runs false = Runs-pure Absent tt

    update_if-Runs :
        (new old : Option Container)
        → new ≢ none
        → old ≢ none
        → Runs Absent (update_if env env_changed dep new old)
    unfolding update_if
    update_if-Runs none old p q = absurd (p refl)
    update_if-Runs (some c) none p q = absurd (q refl)
    update_if-Runs (some c) (some d) p q = cases-Runs (env_changed c d)

    -- A read of the deployment, and an update if it has changed.
    read-Runs :
        (r : Ref)
        → r.kind ≡ deployment
        → Runs Absent (get_object env r >>= update_changed env env_changed dep)
    unfolding get_object ◌>>=◌ update_changed give_back
    read-Runs r kr = record { at = λ w h. read_at w h (env.get r w).0 refl }
      where
        read_at :
            (w : World)
            → Absent w
            → (g : Got) → (env.get r w).0 ≡ g
            → Ended (update_changed env env_changed dep g (env.get r w).1).0
              × Absent (update_changed env env_changed dep g (env.get r w).1).1
        read_at w h (failed e) p = (tt, get-Absent r w h)
        read_at w h (found o) p =
            (update_if-Runs _ _ has_one (checks.get_has_container r w kr h.1 p)).at _
              (get-Absent r w h)

    store-Runs :
        (namespace_name : String) (e : Option Error)
        → Runs Absent (store_deployment env namespace_name env_changed dep e)
    unfolding store_deployment give_back
    store-Runs namespace_name none = Runs-pure Absent tt
    store-Runs namespace_name (some already_exists) = read-Runs _ refl
    store-Runs namespace_name (some not_found) = record { at = λ w h. (tt, h) }
    store-Runs namespace_name (some (other s)) = record { at = λ w h. (tt, h) }

    create-Runs : Runs Absent (create_err env dep)
    unfolding create_err
    create-Runs = record { at = λ w h. (tt, create-Absent dep ne a w h) }

  add_update_bookbag-Runs :
      (user_id suffix console_url : String)
      → Runs Absent (add_update_bookbag env ws user_id suffix console_url)
  unfolding add_update_bookbag new_namespace new_config_map new_service_account new_role_binding_sa
      new_bookbag_deployment new_service new_route
  add_update_bookbag-Runs user_id suffix console_url =
      let ne : looked_up n ≢ deployment_ref bookbag_namespace_name (bookbag_name user_id) =
        λ h. bookbag_name-ne user_id (itoa n) (sym (ap (λ r. r.name) h)) in
      let create : (o : Object)
          → deployment ≢ (ref o).kind
          → is_valid o ≡ true
          → Runs Absent (create_or_exists env o) =
        λ o k a. Runs-create env Absent o (create-Absent o (kind-ne (ref o) k) a) in
      Runs-function Absent _ (
        Runs-bind Absent _ _ (create _ (λ p. cc) refl) λ _.
          Runs-bind Absent _ _ (create _ (λ p. cc) refl) λ _.
            Runs-bind Absent _ _ (create _ (λ p. cc) refl) λ _.
              Runs-bind Absent _ _ (create _ (λ p. cc) refl) λ _.
                Runs-bind Absent _ _ (create _ (λ p. cc) refl) λ _.
                  Runs-bind Absent _ _ (create-Runs _ refl refl (λ p. cc) ne) λ e.
                    Runs-bind Absent _ _ (store-Runs _ refl refl (λ p. cc) ne _ e) λ _.
                      Runs-bind Absent _ _ (create _ (λ p. cc) refl) λ _.
                        Runs-bind Absent _ _ (create _ (λ p. cc) refl)
                          λ _. Runs-pure Absent success)

  -- Where a lawful cluster that answers reads and checks deployments has no deployment
  -- `bookbag-n` for a number `n` beyond the users, `reconcileBookbag` returns a result within `n`
  -- rounds.
  pub reconcile_bookbag-returns :
      (users : ℕ) (suffix console_url : String) (w : World)
      → users < n
      → law.present w (looked_up n) ≡ false
      → checks.valid w
      → (r : Return) × ((reconcile_bookbag env ws n users suffix console_url w).0 ≡ next r)
  unfolding reconcile_bookbag function
  reconcile_bookbag-returns users suffix console_url w beyond h v =
      returned-Ended _
        ((Runs-bind Absent _ _
            (rounds_from-Runs env Absent (has_bookbag ws users) _ looked_up n get-Absent
              (λ u p. answers (looked_up n) u p.0) (ground arith)
              (λ id t. Runs-propagate Absent is_requeued _ (add_update_bookbag-Runs _ _ _)) n 1
              (ground arith) (omega arith))
            (λ _. Runs-pure Absent success)).at
          w (h, v)).0
