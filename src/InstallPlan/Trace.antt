-- ===== src/InstallPlan/Trace.antt =====
-- The calls that an approval can make.
use workshop_operator.Prelude.{◌≡◌, refl, String, Bool, true, false, Option, none, some, arith}
use workshop_operator.Kube.Object.{Object, Ref, ObjectReference}
use workshop_operator.Kube.Env.{Env, Got, found, failed}
use workshop_operator.Kube.Flow.{Code, Return, success, pure, give_back, ◌>>=◌, ◌>>◌, function}
use workshop_operator.Kube.Idiom.{get_object, update_or_return}
use workshop_operator.InstallPlan.{
  approve_install_plan, approve_subscription, approve_by_reference, approve_plan, can_approve,
  set_approved, needs_approval, status_of,
}

module _ (env : Env) (version : String) where
  open env use {World}

  -- Reads, and at most one write, the last call: the approval of a plan that has just been read,
  -- that lists the version and was not approved.
  pub data Approves : World → World → Type 0 where
    here : {w : World} → Approves w w
    read : {w w' : World} (r : Ref) → Approves (env.get r w).1 w' → Approves w w'
    approve :
        {w w' : World} (r : Ref) (plan : Object)
        → (env.get r w).0 ≡ found plan
        → can_approve version plan ≡ true
        → (env.update (set_approved plan) (env.get r w).1).1 ≡ w'
        → Approves w w'

  Approves-cases :
      (b : Bool) (m n : Code World Return) {u : World} (w : World)
      → (b ≡ true → Approves u (m w).1)
      → (b ≡ false → Approves u (n w).1)
      → Approves u ((elim b as (λ _. Code World Return) [ true ↦ m | false ↦ n ]) w).1
  Approves-cases true m n w h k = h refl
  Approves-cases false m n w h k = k refl

  update-world :
      (o : Object) (w : World) → ((update_or_return env o >> pure success) w).1 ≡ (env.update o w).1
  unfolding update_or_return ◌>>=◌
  update-world o w = ground arith

  approve_plan-Approves :
      (r : Ref) (w : World) (g : Got)
      → (env.get r w).0 ≡ g
      → Approves w (approve_plan env version g (env.get r w).1).1
  unfolding approve_plan give_back pure
  approve_plan-Approves r w (failed e) h = read r here
  approve_plan-Approves r w (found plan) h =
      Approves-cases (can_approve version plan) _ _ _
        (λ t. rw update-world (approve r plan h t refl)) (λ f. read r here)

  approve_by_reference-Approves :
      (namespace_name : String) (reference : Option ObjectReference) (w : World)
      → Approves w (approve_by_reference env version namespace_name reference w).1
  unfolding approve_by_reference give_back get_object ◌>>=◌
  approve_by_reference-Approves namespace_name none w = here
  approve_by_reference-Approves namespace_name (some reference) w = approve_plan-Approves _ w _ refl

  approve_subscription-Approves :
      (namespace_name : String) (g : Got) (w : World)
      → Approves w (approve_subscription env version namespace_name g w).1
  unfolding approve_subscription give_back pure
  approve_subscription-Approves namespace_name (failed e) w = here
  approve_subscription-Approves namespace_name (found o) w =
      Approves-cases (needs_approval version (status_of o).installed_csv) _ _ _
        (λ t. approve_by_reference-Approves namespace_name _ w) (λ f. here)

  -- Whatever the cluster answers, an approval only reads, but for one update: that of a plan that
  -- it has just read, which lists the wanted version and is not approved yet.
  pub approve_install_plan-Approves :
      (subscription_name namespace_name : String) (w : World)
      → Approves w (approve_install_plan env version subscription_name namespace_name w).1
  unfolding approve_install_plan get_object ◌>>=◌ function
  approve_install_plan-Approves subscription_name namespace_name w =
      read _ (approve_subscription-Approves namespace_name _ _)
