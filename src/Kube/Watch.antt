-- ===== src/Kube/Watch.antt =====
-- common/kubernetes/k8s_helpers.go: GetDeploymentStatus, which waits for the replica of a
-- deployment. What it logs when the wait has failed is left out.
pub mod Answer
use workshop_operator.Prelude.{
  ◌≡◌, ◌∙◌, refl, ap, ℕ, ◌-◌, String, Bool, true, false, ◌||◌, Option, none, some, List, [], ◌∷◌,
  eqb, arith,
}
use workshop_operator.Prelude.Int.{pos}
use workshop_operator.Kube.Object.{Ref}
use workshop_operator.Kube.Env.{
  Env, WatchEvent, modified, watch_error, other_event, modified_unexpected,
}
use workshop_operator.Kube.Flow.{
  Code, Step, Return, next, ret, panic, out_of_fuel, is_requeued, pure, give_back, ◌>>=◌,
}
use workshop_operator.Kube.Lawful.{IsLawful}
use workshop_operator.Kube.Installs.{Installs, Installs-pure, Installs-bind}

-- `reconcile.Result{Requeue: true, RequeueAfter: time.Second * 1}`
abbrev pub requeued_after_second : Return
requeued_after_second = record { requeue = true; requeue_after = pos 1000000000; error = none }

-- A deployment that cannot be read has no ready replicas.
abbrev is_scaled : Option ℕ → Bool
is_scaled none = false
is_scaled (some n) = eqb n 1

-- `dc.Status.ReadyReplicas == 1` for a change, where `dc` is nil if the object is no deployment.
reports_scaled : WatchEvent → Step Bool
reports_scaled (modified n) = next (eqb n 1)
reports_scaled modified_unexpected = panic
reports_scaled watch_error = next false
reports_scaled other_event = next false

module _ (env : Env) (name namespace_name : String) where
  open env use {World}

  -- How many events are still to come, if the watch has been stopped; only the first stop counts.
  after_event : WatchEvent → Option ℕ → World → Option ℕ × World
  after_event watch_error none w = let (k, w') = env.stop_watch w in (some k, w')
  after_event _ (some k) w = (some (k - 1), w)
  after_event _ none w = (none, w)

  -- The channel is closed, or the watch is stopped and all that was on its way has come.
  is_over : List WatchEvent → Option ℕ → Bool
  is_over [] limit = true
  is_over (e ∷ es) none = false
  is_over (e ∷ es) (some k) = eqb k 0

  -- The events are looked at one by one, the deployment is read at each of them and at the end.
  scan_events : List WatchEvent → Option ℕ → Code World Bool
  scan_events [] limit w =
      let (n, w') = env.ready_replicas name namespace_name w in (next (is_scaled n), w')
  scan_events (e ∷ es) limit w =
      let (answer, w') = env.ready_replicas name namespace_name w in
      let (limit', w'') = after_event e limit w' in
      let rest = scan_events es limit' w'' in
      elim (is_over (e ∷ es) limit) as (λ _. Step Bool × World) [
        | true ↦ (next (is_scaled answer), w')
        | false ↦ elim answer as (λ _. Step Bool × World) [
          | none ↦ (next false, w')
          | some n ↦ elim (eqb n 1) as (λ _. Step Bool × World) [
            | true ↦ (next true, w')
            | false ↦ elim (reports_scaled e) as (λ _. Step Bool × World) [
              | next true ↦ (next true, (env.stop_watch w').1)
              | next false ↦ rest
              | ret r ↦ (ret r, w')
              | panic ↦ (panic, w')
              | out_of_fuel ↦ (out_of_fuel, w')
            ]
          ]
        ]
      ]

  -- Without a client or a watch, a nil pointer is read.
  follow : Option (List WatchEvent) → Code World Bool
  follow none w = (panic, w)
  follow (some es) w = scan_events es none w

  unfoldable pub get_deployment_status : Code World Bool
  unfolding follow scan_events is_over after_event reports_scaled
  get_deployment_status w =
      let (events, w') = env.watch_deployment name namespace_name w in follow events w'

  requeue_unless : Return → Bool → Code World (Unit {0})
  requeue_unless result true = pure tt
  requeue_unless result false = give_back result

  -- `if !GetK8Client().GetDeploymentStatus(name, namespace) { return result, nil }`
  unfoldable pub wait_for_deployment : Return → Code World (Unit {0})
  unfolding requeue_unless
  wait_for_deployment result = get_deployment_status >>= requeue_unless result
