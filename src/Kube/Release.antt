-- ===== src/Kube/Release.antt =====
-- An object whose finalizers are taken away when its namespace is being deleted: a block of
-- controllers/gitops_reconciler.go that controllers/servicemesh_reconciler.go repeats.
pub mod Objects
use workshop_operator.Prelude.{String, true, false, List, [], ◌∷◌, ◌=ₛ◌}
use workshop_operator.Kube.Object.{Object, Ref, namespace_spec}
use workshop_operator.Kube.Env.{Env, Got, found, failed}
use workshop_operator.Kube.Flow.{Code, failure, panic, pure, give_back, ◌>>=◌}
use workshop_operator.Kube.Idiom.{get_object, return_error}

-- `argoCD.Finalizers = nil`
abbrev pub without_finalizers : Object → Object
without_finalizers o = record o { meta = record o.meta { finalizers = [] } }

-- `namespaceFound.Spec.Finalizers`
abbrev pub finalizers_of : Object → List String
finalizers_of o = elim o.spec [ namespace_spec finalizers ↦ finalizers | _ ↦ [] ]

module _ (env : Env) where
  open env use {World}

  unfoldable pub release : Got → Code World (Unit {0})
  release (failed e) = give_back (failure e)
  release (found o) = λ w. return_error (env.patch o (without_finalizers o) w)

  -- `if namespaceFound.Spec.Finalizers[0] == "kubernetes"`: an index out of range panics.
  unfoldable pub release_in_namespace : (r : Ref) → List String → Code World (Unit {0})
  release_in_namespace r [] = λ w. (panic, w)
  release_in_namespace r (finalizer ∷ _) = elim (finalizer =ₛ "kubernetes") [
    | true ↦ do answer ← get_object env r; release answer
    | false ↦ pure tt
  ]
