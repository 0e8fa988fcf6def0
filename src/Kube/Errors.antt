-- ===== src/Kube/Errors.antt =====
-- The tests that a handler makes on the result of a call, on a result with an error.
use workshop_operator.Prelude.{◌≡◌, refl, true, arith}
use workshop_operator.Kube.Env.{Error}
use workshop_operator.Kube.Flow.{Return, failure, has_error, is_requeued}

pub fails : (e : Error) → has_error (failure e) ≡ true
fails e = refl

pub requeue_fails : (e : Error) → is_requeued (failure e) ≡ true
unfolding is_requeued
requeue_fails e = refl

pub error_requeued : (r : Return) → has_error r ≡ true → is_requeued r ≡ true
unfolding is_requeued
error_requeued r h = ground arith
