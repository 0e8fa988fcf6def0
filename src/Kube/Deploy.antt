-- ===== src/Kube/Deploy.antt =====
-- A deployment that is created, or updated where it exists with another environment: the block that
-- controllers/portal_reconciler.go and controllers/bookbag_reconciler.go repeat.
use workshop_operator.Prelude.{
  String, Bool, true, false, not, ◌&&◌, Option, none, some, List, [], ◌∷◌, ◌=ₛ◌,
}
use workshop_operator.Kube.Object.{
  Object, Ref, EnvSource, literal, secret_key, field_ref, EnvVar, Container, deployment,
  deployment_spec,
}
use workshop_operator.Kube.Env.{Env, Error, already_exists, Got, found, failed}
use workshop_operator.Kube.Flow.{Code, failure, panic, pure, give_back, ◌>>=◌}
use workshop_operator.Kube.Idiom.{update_or_return, get_object}

-- `reflect.DeepEqual` on the environment of a container
same_source : EnvSource → EnvSource → Bool
same_source (literal s) (literal t) = s =ₛ t
same_source (secret_key k s) (secret_key l t) = k =ₛ l && s =ₛ t
same_source (field_ref s) (field_ref t) = s =ₛ t
same_source _ _ = false

same_env : List EnvVar → List EnvVar → Bool
same_env [] [] = true
same_env (x ∷ xs) (y ∷ ys) =
    let rest = same_env xs ys in x.name =ₛ y.name && same_source x.source y.source && rest
same_env _ _ = false

-- Whether a deployment with the first container has to replace one with the second.
unfoldable pub env_changed : Container → Container → Bool
unfolding same_env same_source
env_changed c d = not (same_env c.env d.env)

-- `Spec.Template.Spec.Containers[0]`
abbrev pub first_container : Object → Option Container
first_container o = elim o.spec [
  | deployment_spec d ↦ elim d.pod.containers [ c ∷ _ ↦ some c | [] ↦ none ]
  | _ ↦ none
]

abbrev pub deployment_ref : (namespace_name name : String) → Ref
deployment_ref namespace_name name = record {
  kind = deployment;
  namespace_name = namespace_name;
  name = name;
}

module _ (env : Env) where
  open env use {World}

  -- An index out of range panics.
  unfoldable pub update_if :
      (changed : Container → Container → Bool)
      → Object
      → (new old : Option Container) → Code World (Unit {0})
  update_if changed dep (some c) (some d) = elim (changed c d) [
    | true ↦ update_or_return env dep
    | false ↦ pure tt
  ]
  update_if changed dep _ _ = λ w. (panic, w)

  unfoldable pub update_changed :
      (changed : Container → Container → Bool) → Object → Got → Code World (Unit {0})
  update_changed changed dep (failed e) = give_back (failure e)
  update_changed changed dep (found o) =
      update_if changed dep (first_container dep) (first_container o)

  -- What follows the create of a deployment.
  unfoldable pub store_deployment :
      (namespace_name : String) (changed : Container → Container → Bool)
      → Object
      → Option Error
      → Code World (Unit {0})
  store_deployment namespace_name changed dep none = pure tt
  store_deployment namespace_name changed dep (some already_exists) = do
    answer ← get_object env (deployment_ref namespace_name dep.meta.name)
    update_changed changed dep answer
  store_deployment namespace_name changed dep (some e) = give_back (failure e)
