-- ===== src/Project/Termination.antt =====
-- The rounds of the loop of `reconcileProject`.
use text.Mathlib.TextLemmas.{append_cancel_left}
use workshop_operator.Prelude.{
  ◌≡◌, ◌≢◌, refl, sym, ap, ◌∙◌, ℕ, ◌≤◌, ◌<◌, ◌+◌, String, Bool, true, false, arith, itoa-injective,
  itoa,
}
use workshop_operator.Kube.Object.{Object, ref, role_binding, namespace}
use workshop_operator.Kube.Env.{Env}
use workshop_operator.Kube.Flow.{Code, Return, next, success, function, has_error, is_requeued}
use workshop_operator.Kube.Lawful.{IsLawful, AnswersReads}
use workshop_operator.Kube.Runs.{
  Runs, Runs-pure, Runs-bind, Runs-function, Runs-propagate, Runs-create, returned-Ended,
}
use workshop_operator.Kube.Rounds.Bounds.{rounds_from-Runs}
use workshop_operator.Build.Base.{Workshop}
use workshop_operator.Build.Cluster.{new_namespace, new_role_binding_users, new_role_binding_sa}
use workshop_operator.Project.{
  add_project, manage_roles, reconcile_project, project_rounds, per_user, is_added, project_ref,
  user_role_binding, default_role_binding, argocd_edit_role_binding, staging_project_name,
  project_username,
}

module _ (env : Env) (law : IsLawful env) (answers : AnswersReads env law) (ws : Workshop)
    (n : ℕ) where
  open env use {World}

  -- There is no project for the number `n`.
  abbrev Absent : World → Type 0
  Absent w = law.present w (project_ref ws n) ≡ false

  create_role :
      (o : Object)
      → role_binding ≡ (ref o).kind
      → (w : World) → Absent w
      → Absent (env.create o w).1
  create_role o k w h = law.create_adds_only o w _ (λ p. namespace_ne (ap (λ r. r.kind) p ∙ k')) h
    where
      k' : (ref o).kind ≡ role_binding
      k' = ground arith

      namespace_ne : namespace ≢ role_binding
      namespace_ne p = cc

  create_project :
      (id : ℕ)
      → id ≢ n
      → (w : World) → Absent w
      → Absent (env.create (new_namespace (staging_project_name ws id)) w).1
  unfolding new_namespace
  create_project id ne w h =
      law.create_adds_only _ w _
        (λ p. ne (
          itoa-injective id n (append_cancel_left _ (itoa id) (itoa n) (sym (ap (λ r. r.name) p)))))
        h

  manage_roles-Runs :
      (project_name username : String) → Runs Absent (manage_roles env project_name username)
  unfolding manage_roles user_role_binding default_role_binding argocd_edit_role_binding
      new_role_binding_users new_role_binding_sa
  manage_roles-Runs project_name username = Runs-function Absent _ (
      Runs-bind Absent _ _ (Runs-create env Absent _ (create_role _ refl)) λ _.
        Runs-bind Absent _ _ (Runs-create env Absent _ (create_role _ refl)) λ _.
          Runs-bind Absent _ _ (Runs-create env Absent _ (create_role _ refl))
            λ _. Runs-pure Absent success)

  add_project-Runs :
      (id : ℕ)
      → id ≢ n
      → Runs Absent (add_project env (staging_project_name ws id) (project_username id))
  unfolding add_project
  add_project-Runs id ne = Runs-function Absent _ (
      Runs-bind Absent _ _ (Runs-create env Absent _ (create_project id ne)) λ _.
        Runs-bind Absent _ _ (Runs-propagate Absent has_error _ (manage_roles-Runs _ _))
          λ _. Runs-pure Absent success)

  module _ (users : ℕ) (beyond : users < n) where
    loop : ℕ → ℕ → Code World (Unit {0})
    loop = project_rounds env ws (add_project env) (is_added env ws users)

    per_user-Runs :
        (id : ℕ) (b : Bool) → id ≢ n → Runs Absent (per_user env ws (add_project env) id b)
    unfolding per_user
    per_user-Runs id true ne = Runs-pure Absent tt
    per_user-Runs id false ne = Runs-propagate Absent is_requeued _ (add_project-Runs id ne)

    loop-Runs : (fuel id : ℕ) → id ≤ n → n < fuel + id → Runs Absent (loop fuel id)
    unfolding loop
    loop-Runs =
        rounds_from-Runs env Absent (is_added env ws users) _ (project_ref ws) n
          (λ r w h. law.get_keeps r w _ ∙ h) (answers (project_ref ws n)) (ground arith)
          (λ id t. per_user-Runs id _ (ground arith))

    -- Where a lawful cluster has no project for a number beyond the users, and answers reads, the
    -- loop of `reconcileProject` ends: that number bounds its rounds, and the handler returns a
    -- result.
    pub reconcile_project-returns :
        (w : World)
        → law.present w (project_ref ws n) ≡ false
        → (r : Return) × ((reconcile_project env ws n users w).0 ≡ next r)
    unfolding reconcile_project function loop
    reconcile_project-returns w h =
        returned-Ended _
          ((Runs-bind Absent _ _ (loop-Runs n 1 (omega arith) (omega arith))
              (λ _. Runs-pure Absent success)).at
            w h).0
