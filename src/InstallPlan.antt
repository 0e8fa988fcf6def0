-- ===== src/InstallPlan.antt =====
-- controllers/installplan.go: the approval of an install plan of the Operator Lifecycle Manager.
pub mod Trace
use workshop_operator.Prelude.{String, Bool, true, false, not, ◌&&◌, ◌||◌, Option, none, some, ◌=ₛ◌}
use workshop_operator.Kube.Object.{
  Object, Ref, subscription, install_plan, subscription_spec, install_plan_spec, SubscriptionStatus,
  ObjectReference, InstallPlanSpec,
}
use workshop_operator.Kube.Env.{Env, Got, found, failed, other}
use workshop_operator.Kube.Flow.{
  Code, Return, success, failure, pure, give_back, ◌>>=◌, ◌>>◌, function,
}
use workshop_operator.Kube.Idiom.{get_object, update_or_return}
use workshop_operator.Build.Subscriptions.{no_status}
use workshop_operator.Util.{string_in_slice}

abbrev pub subscription_ref : (name namespace_name : String) → Ref
subscription_ref name namespace_name = record {
  kind = subscription;
  namespace_name = namespace_name;
  name = name;
}

abbrev pub install_plan_ref_at : (name namespace_name : String) → Ref
install_plan_ref_at name namespace_name = record {
  kind = install_plan;
  namespace_name = namespace_name;
  name = name;
}

-- What is read into an empty `Subscription`, and into an empty `InstallPlan`.
abbrev pub status_of : Object → SubscriptionStatus
status_of o = elim o.spec [ subscription_spec _ status ↦ status | _ ↦ no_status ]

-- The test of the inner `if`: the version is one of the plan's, and the plan is not approved.
unfoldable pub can_approve : String → Object → Bool
can_approve version o = elim o.spec [
  | install_plan_spec plan ↦
      string_in_slice version plan.cluster_service_version_names && not plan.approved
  | _ ↦ false
]

-- `installPlan.Spec.Approved = true`
unfoldable pub set_approved : Object → Object
set_approved o = elim o.spec [
  | install_plan_spec plan ↦ record o { spec = install_plan_spec (record plan { approved = true }) }
  | _ ↦ o
]

-- The test of the outer `if`: the wanted version is not the installed one.
abbrev pub needs_approval : (version installed : String) → Bool
needs_approval version installed =
    (version =ₛ "" && installed =ₛ "") || (not (version =ₛ "") && not (installed =ₛ version))

module _ (env : Env) where
  open env use {World}

  approve_plan : String → Got → Code World Return
  approve_plan version (failed e) = give_back (failure e)
  approve_plan version (found plan) = elim (can_approve version plan) [
    | true ↦ do update_or_return env (set_approved plan); pure success
    | false ↦ pure success
  ]

  approve_by_reference :
      (version namespace_name : String) → Option ObjectReference → Code World Return
  approve_by_reference version namespace_name none =
      give_back (failure (other "InstallPlan Approval: Subscription is not ready yet"))
  approve_by_reference version namespace_name (some reference) = do
    plan ← get_object env (install_plan_ref_at reference.name namespace_name)
    approve_plan version plan

  approve_subscription : (version namespace_name : String) → Got → Code World Return
  approve_subscription version namespace_name (failed e) = give_back (failure e)
  approve_subscription version namespace_name (found o) =
      elim (needs_approval version (status_of o).installed_csv) [
        | true ↦ approve_by_reference version namespace_name (status_of o).install_plan_ref
        | false ↦ pure success
      ]

  -- The `error` that this function returns is the error of a `Return`.
  unfoldable pub approve_install_plan :
      (version subscription_name namespace_name : String) → Code World Return
  unfolding approve_plan approve_by_reference approve_subscription
  approve_install_plan version subscription_name namespace_name = function do
    o ← get_object env (subscription_ref subscription_name namespace_name)
    approve_subscription version namespace_name o
