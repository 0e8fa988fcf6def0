-- ===== src/Project/Deletion.antt =====
-- The calls of `deleteProject`.
use workshop_operator.Prelude.{◌≡◌, refl, ℕ, zero, suc, ◌≤◌, String, Bool, true, false, arith}
use workshop_operator.Kube.Object.{Ref}
use workshop_operator.Kube.Env.{Env}
use workshop_operator.Kube.Flow.{Code, next, success, is_requeued}
use workshop_operator.Kube.Idiom.{get_object}
use workshop_operator.Kube.Meets.{
  IsPreorder, Meets, MeetsCall, Meets-pure, Meets-bind, MeetsCall-function, Meets-propagate,
  function-ne-ret,
}
use workshop_operator.Kube.Rounds.{rounds_from, is_not_found}
use workshop_operator.Build.Base.{Workshop}
use workshop_operator.Project.{
  delete_project, delete_project_namespace, project_rounds, per_user, is_deleted,
}

module _ (env : Env) where
  open env use {World}

  -- Reads lead from one state to the other.
  pub data Reads : World → World → Type 0 where
    here : {w : World} → Reads w w
    read : {w w' : World} (r : Ref) → Reads (env.get r w).1 w' → Reads w w'

  Reads-trans : {u v w : World} → Reads u v → Reads v w → Reads u w
  Reads-trans here q = q
  Reads-trans (read r p) q = read r (Reads-trans p q)

  abbrev Anywhere : World → World → Type 0
  Anywhere _ _ = Unit

  Anywhere-IsPreorder : IsPreorder Anywhere
  Anywhere-IsPreorder = record { reflexive = λ w. tt; transitive = λ u v w p q. tt }

  -- Code with a relation that holds where it goes on, and that returns early only what is
  -- requeued.
  abbrev Ends : {A : Type 0} → (World → World → Type 0) → Code World A → Type 0
  Ends = Meets Anywhere is_requeued

  Ends-read : (r : Ref) → Ends Reads (get_object env r)
  unfolding get_object
  Ends-read r = record { keeps = λ w. tt; done = λ w a e. read r here; early = λ w q e. cc }

  Ends-cases :
      {A : Type 0} {Q : World → World → Type 0} (b : Bool) (m n : Code World A)
      → (b ≡ true → Ends Q m)
      → (b ≡ false → Ends Q n)
      → Ends Q (elim b as (λ _. Code World A) [ true ↦ m | false ↦ n ])
  Ends-cases true m n h k = h refl
  Ends-cases false m n h k = k refl

  deletes_namespace :
      (project_name username : String)
      → MeetsCall Anywhere is_requeued Anywhere (delete_project_namespace env project_name username)
  unfolding delete_project_namespace
  deletes_namespace project_name username = record {
    keeps = λ w. tt;
    done = λ w r e n. tt;
    returns = λ w r. function-ne-ret _ w r;
  }

  module _ (ws : Workshop) (user_id : ℕ) where
    loop : ℕ → ℕ → Code World (Unit {0})
    loop = project_rounds env ws (delete_project_namespace env) (is_deleted env ws user_id)

    Ends-per_user :
        (id : ℕ) (b : Bool) → Ends Anywhere (per_user env ws (delete_project_namespace env) id b)
    unfolding per_user
    Ends-per_user id true = Meets-pure Anywhere-IsPreorder tt (λ w. tt)
    Ends-per_user id false = Meets-propagate _ (deletes_namespace _ _) (λ r e. e)

    -- From the last user on, with projects enabled, the loop has no way to go on.
    loop-never :
        (fuel id : ℕ)
        → ws.spec.infrastructure.project.enabled ≡ true
        → user_id ≤ id
        → Ends (λ _ _. ⊥) (loop fuel id)
    unfolding loop rounds_from
    loop-never zero id on le = record { keeps = λ w. tt; done = λ w a e. cc; early = λ w r e. cc }
    loop-never (suc fuel) id on le =
        Ends-cases (is_deleted env ws user_id id) _ _
          (λ t.
            Meets-bind Anywhere-IsPreorder _ _ (Ends-per_user id _)
              (λ _. loop-never fuel (suc id) on (omega arith)) (λ u v w _ _ _ q. q))
          (λ f. absurd (ground arith))

    loop-Reads : (fuel id : ℕ) → Ends Reads (loop fuel id)
    unfolding loop rounds_from
    loop-Reads zero id = record { keeps = λ w. tt; done = λ w a e. cc; early = λ w r e. cc }
    loop-Reads (suc fuel) id =
        Ends-cases (is_deleted env ws user_id id) _ _
          (λ t.
            Meets-bind Anywhere-IsPreorder _ _ (Ends-per_user id _)
              (λ _. loop-never fuel (suc id) (ground arith) (ground arith))
              (λ u v w _ _ _ q. absurd q))
          (λ f.
            Meets-bind Anywhere-IsPreorder _ _ (Ends-read _)
              (λ g.
                Ends-cases (is_not_found g) _ _ (λ _. Meets-pure Anywhere-IsPreorder tt (λ w. here))
                  (λ _. loop-Reads fuel (suc id)))
              (λ u v w _ _ p q. Reads-trans p q))

    delete_project-Meets :
        (fuel : ℕ) → MeetsCall Anywhere is_requeued Reads (delete_project env ws fuel user_id)
    unfolding delete_project loop
    delete_project-Meets fuel = MeetsCall-function _ (
        Meets-bind Anywhere-IsPreorder _ _ (loop-Reads fuel 1)
          (λ _. Meets-pure Anywhere-IsPreorder success (λ w. here))
          (λ u v w _ _ p q. Reads-trans p q))

    -- A run that returns success has made no call but reads: it has deleted no namespace and no
    -- role binding, whatever the number of users and whether projects are enabled or not.
    pub delete_project-Reads :
        (fuel : ℕ) (w : World)
        → (delete_project env ws fuel user_id w).0 ≡ next success
        → Reads w (delete_project env ws fuel user_id w).1
    unfolding is_requeued
    delete_project-Reads fuel w h = (delete_project-Meets fuel).done w success h refl
