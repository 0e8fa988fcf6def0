-- ===== src/Project/Endless.antt =====
-- The loops of the project handlers where reads fail, and where no round makes a call.
use workshop_operator.Prelude.{
  ◌≡◌, ◌≢◌, refl, ap, ◌∙◌, ℕ, zero, suc, ◌≤◌, String, Bool, true, false, arith, eq_iff,
}
use workshop_operator.Kube.Object.{Ref}
use workshop_operator.Kube.Env.{Env, Error, already_exists, Got, found, failed, not_found, other}
use workshop_operator.Kube.Flow.{Code, Return, out_of_fuel, pure, ◌>>=◌, function}
use workshop_operator.Kube.Idiom.{get_object}
use workshop_operator.Kube.Rounds.{rounds_from, is_not_found}
use workshop_operator.Build.Base.{Workshop}
use workshop_operator.Project.{
  add_project, reconcile_project, delete_project, project_rounds, per_user, is_added, is_deleted,
  project_ref, delete_project_namespace,
}

module _ (env : Env) (ws : Workshop) where
  open env use {World}

  get_fails : (e : Error) → e ≢ not_found → is_not_found (failed e) ≡ false
  get_fails already_exists h = refl
  get_fails not_found h = absurd (h refl)
  get_fails (other s) h = refl

  failed_get : (e : Error) → e ≢ not_found → (g : Got) → g ≡ failed e → is_not_found g ≡ false
  failed_get e ne g h = rw h (get_fails e ne)

  goes_on :
      (g : Got) (w : World) (rest : Code World (Unit {0}))
      → is_not_found g ≡ false
      → (elim (is_not_found g) as (λ _. Code World (Unit {0})) [ true ↦ pure tt | false ↦ rest ]) w
        ≡ rest w
  goes_on (found o) w rest h = refl
  goes_on (failed already_exists) w rest h = refl
  goes_on (failed not_found) w rest h = cc
  goes_on (failed (other s)) w rest h = refl

  -- The read of a round that goes on.
  missed_read :
      (r : Ref) (w : World) (rest : Code World (Unit {0}))
      → is_not_found (env.get r w).0 ≡ false
      → let m : Code World (Unit {0}) = do
        g ← get_object env r
        elim (is_not_found g) [ true ↦ pure tt | false ↦ rest ]
        in m w ≡ rest (env.get r w).1
  unfolding get_object ◌>>=◌
  missed_read r w rest h = goes_on _ _ rest h

  down_loop :
      (e : Error)
      → e ≢ not_found
      → ((r : Ref) (w : World) → (env.get r w).0 ≡ failed e)
      → (work : String → String → Code World Return) (wanted : ℕ → Bool)
      → ((id : ℕ) → wanted id ≡ false)
      → (fuel id : ℕ) (w : World) → (project_rounds env ws work wanted fuel id w).0 ≡ out_of_fuel
  unfolding rounds_from
  down_loop e ne down work wanted off zero id w = refl
  down_loop e ne down work wanted off (suc fuel) id w =
      rw (off id, rounds_from)
        (ap (λ p. p.0)
            (missed_read (project_ref ws id) w _ (failed_get e ne _ (down (project_ref ws id) w)))
          ∙ down_loop e ne down work wanted off fuel (suc id) _)

  idle_loop :
      (work : String → String → Code World Return) (wanted : ℕ → Bool)
      → ws.spec.infrastructure.project.staging_name ≡ ""
      → (fuel id : ℕ) (w : World) → ((i : ℕ) → id ≤ i → wanted i ≡ true)
      → project_rounds env ws work wanted fuel id w ≡ (out_of_fuel, w)
  unfolding rounds_from per_user ◌>>=◌
  idle_loop work wanted unnamed zero id w on = refl
  idle_loop work wanted unnamed (suc fuel) id w on =
      rw (on id (omega arith), rounds_from)
        (rw ((eq_iff _ _).1 unnamed, per_user)
          (idle_loop work wanted unnamed fuel (suc id) w (λ i h. on i (omega arith))))

  -- Without projects to add, and in a cluster that answers the reads with another error than "not
  -- found", `reconcileProject` makes as many rounds as it is given: the loop does not end.
  pub reconcile_project-endless :
      (e : Error)
      → e ≢ not_found
      → ((r : Ref) (w : World) → (env.get r w).0 ≡ failed e)
      → ws.spec.infrastructure.project.enabled ≡ false
      → (fuel users : ℕ) (w : World) → (reconcile_project env ws fuel users w).0 ≡ out_of_fuel
  unfolding reconcile_project function ◌>>=◌
  reconcile_project-endless e ne down off fuel users w =
      rw (
        down_loop e ne down (add_project env) (is_added env ws users) (λ id. ground arith) fuel 1 w)

  -- With projects enabled and the staging name empty, `deleteProject` for at most one user makes
  -- as many rounds as it is given, with no call: the loop does not end.
  pub delete_project-endless :
      ws.spec.infrastructure.project.enabled ≡ true
      → ws.spec.infrastructure.project.staging_name ≡ ""
      → (fuel user_id : ℕ) (w : World) → user_id ≤ 1
      → delete_project env ws fuel user_id w ≡ (out_of_fuel, w)
  unfolding delete_project function ◌>>=◌
  delete_project-endless on unnamed fuel user_id w le = rw (
      idle_loop (delete_project_namespace env) (is_deleted env ws user_id) unnamed fuel 1 w
        (λ i h. ground arith))
