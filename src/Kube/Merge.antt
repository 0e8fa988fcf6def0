-- ===== src/Kube/Merge.antt =====
-- An object that is created, or changed where it is there already: a block that
-- controllers/gitops_reconciler.go repeats.
pub mod Objects
use workshop_operator.Prelude.{Bool, true, false, Option, none, some}
use workshop_operator.Kube.Object.{Object, Ref, Spec}
use workshop_operator.Kube.Env.{Env, Error, already_exists, Got, found, failed}
use workshop_operator.Kube.Flow.{Code, failure, pure, give_back, ◌>>=◌}
use workshop_operator.Kube.Idiom.{update_or_return, get_object}

-- What is changed in an object that is there, or nothing where it is as wanted. An object of another
-- kind is read as an empty one.
pub record Change : Type 0 where
  pub is_due : Spec → Bool
  pub apply : Spec → Spec

module _ (env : Env) where
  open env use {World}

  pub change_if : Change → Object → Bool → Code World (Unit {0})
  change_if change o true = update_or_return env (record o { spec = change.apply o.spec })
  change_if change o false = pure tt

  pub change_found : Change → Got → Code World (Unit {0})
  change_found change (failed e) = give_back (failure e)
  change_found change (found o) = change_if change o (change.is_due o.spec)

  -- What follows the create of an object: where it is there already it is read, and changed if that
  -- is due.
  unfoldable pub merge : Ref → Change → Option Error → Code World (Unit {0})
  unfolding change_if change_found
  merge r change none = pure tt
  merge r change (some already_exists) = do answer ← get_object env r; change_found change answer
  merge r change (some e) = give_back (failure e)
