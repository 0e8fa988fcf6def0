-- ===== src/Kube/Flow.antt =====
-- Go code as state passing with early returns, and common/util/reconcile.go.
use workshop_operator.Prelude.{Bool, true, false, Option, none, some, ◌||◌}
use workshop_operator.Prelude.Int.{ℤ, pos, is_positive}
use workshop_operator.Kube.Env.{Error}

-- The pair `(ctrl.Result, error)`; a delay is counted in nanoseconds.
pub record Return : Type 0 where
  pub requeue : Bool
  pub requeue_after : ℤ
  pub error : Option Error

abbrev pub success : Return
success = record { requeue = false; requeue_after = pos 0; error = none }

abbrev pub requeued : Return
requeued = record { requeue = true; requeue_after = pos 0; error = none }

abbrev pub failure : Error → Return
failure e = record { requeue = false; requeue_after = pos 0; error = some e }

abbrev pub has_error : Return → Bool
has_error r = elim r.error [ some _ ↦ true | none ↦ false ]

-- `util.IsRequeued`
unfoldable pub is_requeued : Return → Bool
is_requeued r = has_error r || r.requeue || is_positive r.requeue_after

-- `next` goes on to the following statement, `ret` returns from the function, `panic` ends the
-- call of the whole handler, and `out_of_fuel` is a loop that has made the rounds it was given.
pub data Step (A : Type 0) : Type 0 where
  next : A → Step A
  ret : Return → Step A
  panic : Step A
  out_of_fuel : Step A

-- A piece of code over the state `W` of all that the operator talks to.
abbrev pub Code : Type 0 → Type 0 → Type 0
Code W A = W → Step A × W

module _ {W A : Type 0} where
  unfoldable pub pure : A → Code W A
  pure a w = (next a, w)

  unfoldable pub give_back : Return → Code W A
  give_back r w = (ret r, w)

module _ {W A B : Type 0} where
  abbrev pub proceed : Step A → (A → Code W B) → Code W B
  proceed (next a) f w = f a w
  proceed (ret r) f w = (ret r, w)
  proceed panic f w = (panic, w)
  proceed out_of_fuel f w = (out_of_fuel, w)

  infixl 5 ◌>>=◌ ◌>>◌
  -- opening this opens `pure` and `give_back` too
  unfoldable pub ◌>>=◌ : Code W A → (A → Code W B) → Code W B
  unfolding pure give_back
  ◌>>=◌ m f w = let (s, w') = m w in proceed s f w'

  abbrev pub ◌>>◌ : Code W A → Code W B → Code W B
  m >> n = m >>= λ _. n

abbrev pub returned : Step Return → Step Return
returned (ret r) = next r
returned (next r) = next r
returned panic = panic
returned out_of_fuel = out_of_fuel

module _ {W : Type 0} where
  -- A body as a function that is called: its early return is the value of the call.
  unfoldable pub function : Code W Return → Code W Return
  function body w = let (s, w') = body w in (returned s, w')

  -- `if result, err := f(); util.IsRequeued(result, err) { return result, err }`, and the same
  -- with the test `err != nil`: the test is `stop`.
  unfoldable pub return_if : (Return → Bool) → Return → Code W (Unit {0})
  return_if stop r w = elim (stop r) [ true ↦ (ret r, w) | false ↦ (next tt, w) ]

  unfoldable pub propagate : (Return → Bool) → Code W Return → Code W (Unit {0})
  unfolding ◌>>=◌ return_if
  propagate stop call = call >>= return_if stop
