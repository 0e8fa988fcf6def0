-- ===== src/Kube/Release/Objects.antt =====
-- The blocks of `release_in_namespace` add nothing.
use workshop_operator.Prelude.{
  ◌≡◌, String, Bool, true, false, Option, none, some, List, [], ◌∷◌, arith,
}
use workshop_operator.Kube.Object.{Ref}
use workshop_operator.Kube.Env.{Env, Error, Got, found, failed}
use workshop_operator.Kube.Flow.{Code, Return, ret, failure, is_requeued, give_back}
use workshop_operator.Kube.Idiom.{return_error}
use workshop_operator.Kube.Errors.{requeue_fails}
use workshop_operator.Kube.Lawful.{IsLawful}
use workshop_operator.Kube.Removes.{Removes, Removes-pure, Removes-get}
use workshop_operator.Kube.Release.{release, release_in_namespace, without_finalizers}

module _ (env : Env) (law : IsLawful env) where
  open env use {World}

  return_error-early :
      (e : Option Error) (w : World) (r : Return)
      → (return_error (e, w)).0 ≡ ret r
      → is_requeued r ≡ true
  return_error-early none w r h = cc
  return_error-early (some e) w r h = ground (arith, requeue_fails e)

  pub give_back-Removes :
      (e : Error) → Removes env law {A = Unit {0}} is_requeued (give_back (failure e)) []
  unfolding give_back
  give_back-Removes e = record {
    meets = record {
      keeps = λ w r h. h;
      done = λ w a h. tt;
      early = λ w r h. ground (arith, requeue_fails e);
    };
  }

  release-Removes : (g : Got) → Removes env law is_requeued (release env g) []
  unfolding release
  release-Removes (failed e) = give_back-Removes e
  release-Removes (found o) = record {
    meets = record {
      keeps = λ w r h. ground (arith, law.patch_adds_nothing o (without_finalizers o) w r h);
      done = λ w a h. tt;
      early = λ w r h. return_error-early _ _ r h;
    };
  }

  cases-Removes :
      (b : Bool) (m n : Code World (Unit {0}))
      → Removes env law is_requeued m []
      → Removes env law is_requeued n []
      → Removes env law is_requeued
          (elim b as (λ _. Code World (Unit {0})) [ true ↦ m | false ↦ n ])
          []
  cases-Removes true m n h k = h
  cases-Removes false m n h k = k

  pub release_in_namespace-Removes :
      (r : Ref) (finalizers : List String)
      → Removes env law is_requeued (release_in_namespace env r finalizers) []
  unfolding release_in_namespace
  release_in_namespace-Removes r [] = record {
    meets = record { keeps = λ w r h. h; done = λ w a h. cc; early = λ w r h. cc };
  }
  release_in_namespace-Removes r (finalizer ∷ _) =
      cases-Removes _ _ _ (Removes-get env law is_requeued _ _ release-Removes)
        (Removes-pure env law is_requeued tt)
