-- ===== src/Kube/Rounds.antt =====
-- The loop without a bound that the handlers of projects and of bookbags have: `for { … id++ }`.
pub mod Bounds
pub mod Objects
use workshop_operator.Prelude.{ℕ, zero, suc, Bool, true, false}
use workshop_operator.Kube.Object.{Ref}
use workshop_operator.Kube.Env.{Env, Got, found, failed, not_found}
use workshop_operator.Kube.Flow.{Code, out_of_fuel, pure, ◌>>=◌, ◌>>◌}
use workshop_operator.Kube.Idiom.{get_object}

-- `err != nil && errors.IsNotFound(err)`
abbrev pub is_not_found : Got → Bool
is_not_found (failed not_found) = true
is_not_found _ = false

module _ (env : Env) (wanted : ℕ → Bool) (work : ℕ → Code env.World (Unit {0}))
    (probe : ℕ → Ref) where
  -- A round does its work for a number or looks for an object, and the loop ends by a `return` or
  -- where an object is not found. `wanted` is the test of the round.
  unfoldable pub rounds_from : ℕ → ℕ → Code env.World (Unit {0})
  rounds_from zero id = λ w. (out_of_fuel, w)
  rounds_from (suc fuel) id = elim (wanted id) [
    | true ↦ do work id; rounds_from fuel (suc id)
    | false ↦ do
      answer ← get_object env (probe id)
      elim (is_not_found answer) [ true ↦ pure tt | false ↦ rounds_from fuel (suc id) ]
  ]
