-- ===== src/Project/Objects.antt =====
-- The objects of `reconcileProject`.
use workshop_operator.Prelude.{
  ◌≡◌, ◌≢◌, refl, ℕ, ◌≤◌, String, ◌<>◌, Bool, true, false, ◌=ₛ◌, arith, List, [], ◌∷◌, eq_iff,
}
use workshop_operator.Kube.Object.{Ref, role_binding}
use workshop_operator.Kube.Env.{Env}
use workshop_operator.Kube.Flow.{Return, next, success, has_error, is_requeued}
use workshop_operator.Kube.Errors.{fails, requeue_fails, error_requeued}
use workshop_operator.Kube.Lawful.{IsLawful}
use workshop_operator.Kube.Meets.{
  Meets, MeetsCall, Meets-pure, Meets-bind, MeetsCall-function, Meets-propagate,
}
use workshop_operator.Kube.Installs.{
  AllPresent, AllPresent-keep, KeepsPresent, KeepsPresent-IsPreorder, Installs, InstallsCall,
  InstallsCall-function, Installs-pure, Installs-create, Installs-call,
}
use workshop_operator.Kube.Rounds.Objects.{Covers, rounds_from-Covers}
use workshop_operator.Build.Base.{Workshop}
use workshop_operator.Build.Cluster.{new_namespace, new_role_binding_users, new_role_binding_sa}
use workshop_operator.Project.{
  add_project, manage_roles, reconcile_project, project_rounds, per_user, is_added, project_ref,
  user_role_binding, default_role_binding, argocd_edit_role_binding, staging_project_name,
  project_username,
}

abbrev pub project_role_ref : (project_name name : String) → Ref
project_role_ref project_name name = record {
  kind = role_binding;
  namespace_name = project_name;
  name = name;
}

abbrev pub role_refs : (project_name username : String) → List Ref
role_refs project_name username =
    project_role_ref project_name (username <> "-project")
    ∷ project_role_ref project_name (username <> "-default")
    ∷ project_role_ref project_name (username <> "-argocd")
    ∷ []

-- The namespace of a user's project and the role bindings in it.
abbrev pub project_refs : Workshop → ℕ → List Ref
project_refs ws id =
    project_ref ws id ∷ role_refs (staging_project_name ws id) (project_username id)

module _ (env : Env) (law : IsLawful env) where
  open env use {World}

  manage_roles-Installs :
      (project_name username : String)
      → InstallsCall env law has_error
          (manage_roles env project_name username)
          (role_refs project_name username)
  unfolding manage_roles user_role_binding default_role_binding argocd_edit_role_binding
      new_role_binding_users new_role_binding_sa
  manage_roles-Installs project_name username =
      InstallsCall-function env law has_error _
        (search (Installs-pure env law has_error, Installs-create env law has_error fails) depth 8)

  add_project-Installs :
      (ws : Workshop) (id : ℕ)
      → InstallsCall env law is_requeued
          (add_project env (staging_project_name ws id) (project_username id))
          (project_refs ws id)
  unfolding add_project new_namespace
  add_project-Installs ws id = InstallsCall-function env law is_requeued _ (
      Installs-create env law is_requeued requeue_fails _ _ (
        Installs-call env law is_requeued {k = []} has_error _ _ error_requeued
          (manage_roles-Installs (staging_project_name ws id) (project_username id))
          (Installs-pure env law is_requeued success)))

  module _ (ws : Workshop) (users : ℕ) (on : ws.spec.infrastructure.project.enabled ≡ true)
      (named : ws.spec.infrastructure.project.staging_name ≢ "") where
    -- This round's project.
    per_user-Installs :
        (id : ℕ) (b : Bool)
        → (ws.spec.infrastructure.project.staging_name =ₛ "") ≡ b
        → Installs env law is_requeued (per_user env ws (add_project env) id b) (project_refs ws id)
    unfolding per_user
    per_user-Installs id true e = absurd (named ((eq_iff _ _).0 e))
    per_user-Installs id false e = record {
      meets = Meets-propagate _ (add_project-Installs ws id).meets (λ r h. h);
    }

    abbrev Added : ℕ → World → World → Type 0
    Added = Covers env law (project_refs ws) users

    loop-Added :
        (fuel id : ℕ)
        → Meets
            (KeepsPresent env law)
            is_requeued
            (Added id)
            (project_rounds env ws (add_project env) (is_added env ws users) fuel id)
    loop-Added =
        rounds_from-Covers env law is_requeued (is_added env ws users) _ (project_ref ws)
          (project_refs ws) users (λ i le. ground arith) (λ id. per_user-Installs id _ refl)

    all_there :
        (fuel : ℕ)
        → MeetsCall
            (KeepsPresent env law)
            is_requeued
            (Added 1)
            (reconcile_project env ws fuel users)
    unfolding reconcile_project
    all_there fuel = MeetsCall-function _ (
        Meets-bind (KeepsPresent-IsPreorder env law) _ _ (loop-Added fuel 1)
          (λ _.
            Meets-pure (KeepsPresent-IsPreorder env law) {Q = λ _ _. Unit {0}} success (λ w. tt))
          λ u v w _ kept p _ i le le'.
            AllPresent-keep env law (project_refs ws i) v w kept (p i le le'))

    -- In a lawful cluster, with projects enabled and named, a run that is not requeued leaves the
    -- namespace and the three role bindings of every user from 1 to their number in the cluster.
    pub reconcile_project-AllPresent :
        (fuel : ℕ) (w : World) (r : Return)
        → (reconcile_project env ws fuel users w).0 ≡ next r
        → is_requeued r ≡ false
        → (i : ℕ) → 1 ≤ i
        → i ≤ users
        → AllPresent env law (reconcile_project env ws fuel users w).1 (project_refs ws i)
    reconcile_project-AllPresent fuel w r e n = (all_there fuel).done w r e n
