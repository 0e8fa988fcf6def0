-- ===== src/Pipelines/Calls.antt =====
-- The calls of `addPipelines`.
use workshop_operator.Prelude.{◌≡◌, ◌≢◌, refl, ◌∙◌, true, false, Option, none, some, arith}
use workshop_operator.Kube.Object.{Ref}
use workshop_operator.Kube.Env.{Env, Error, Got, found, failed, already_exists}
use workshop_operator.Kube.Flow.{
  Code, Return, Step, next, ret, panic, out_of_fuel, success, requeued, failure, has_error,
  give_back, ◌>>=◌, function, proceed, returned,
}
use workshop_operator.Kube.Idiom.{create_or_exists, get_object, return_hard_error}
use workshop_operator.Kube.Meets.{function-ne-ret}
use workshop_operator.Build.Base.{Workshop}
use workshop_operator.InstallPlan.{approve_install_plan, subscription_ref}
use workshop_operator.Pipelines.{
  add_pipelines, after_read, pipeline_subscription, pipelines_subscription_name,
  pipelines_subscription_namespace_name,
}

module _ (env : Env) (ws : Workshop) where
  open env use {World}

  abbrev this_subscription : Ref
  this_subscription =
      subscription_ref pipelines_subscription_name pipelines_subscription_namespace_name

  decide_ne_success :
      (e : Error) (s : Step Return) (w : World)
      → ((r : Return) → s ≢ ret r)
      → returned
          (proceed s
            (λ approval. elim (has_error approval) [
              | true ↦ give_back requeued
              | false ↦ give_back (failure e)
            ])
            w).0
        ≢ next success
  unfolding give_back
  decide_ne_success e (next a) w n h = ground arith
  decide_ne_success e (ret r) w n h = n r refl
  decide_ne_success e panic w n h = cc
  decide_ne_success e out_of_fuel w n h = cc

  after_read-world :
      (g : Got) (w : World)
      → returned (after_read env ws g w).0 ≡ next success
      → (after_read env ws g w).1 ≡ w
  unfolding after_read ◌>>=◌ approve_install_plan
  after_read-world (found o) w h = refl
  after_read-world (failed e) w h = absurd (decide_ne_success e _ _ (λ r. function-ne-ret _ w r) h)

  create-world :
      (e : Option Error) (w : World) (f : Unit {0} → Code World Return)
      → returned (proceed (return_hard_error (e, w)).0 f (return_hard_error (e, w)).1).0
        ≡ next success
      → ((returned (f tt w).0 ≡ next success)
          × ((proceed (return_hard_error (e, w)).0 f (return_hard_error (e, w)).1).1 ≡ (f tt w).1))
  create-world none w f h = (h, refl)
  create-world (some already_exists) w f h = (h, refl)
  create-world (some e) w f h = absurd (ground arith)

  -- A run that succeeds has made two calls, the create and the read of the subscription: it has
  -- read no install plan and approved none.
  pub add_pipelines-calls :
      (w : World)
      → (add_pipelines env ws w).0 ≡ next success
      → (add_pipelines env ws w).1
        ≡ (env.get this_subscription (env.create (pipeline_subscription ws) w).1).1
  unfolding add_pipelines create_or_exists get_object ◌>>=◌ function
  add_pipelines-calls w h =
      let (o, same) = create-world (env.create (pipeline_subscription ws) w).0 _ _ h in
      same ∙ after_read-world _ _ o
