-- ===== src/Kube/Idiom.antt =====
-- The statements that the handlers repeat: a create, update or delete whose error is returned.
use workshop_operator.Prelude.{Option, none, some}
use workshop_operator.Kube.Object.{Object, Ref}
use workshop_operator.Kube.Env.{Env, Error, already_exists, Got}
use workshop_operator.Kube.Flow.{Code, Step, next, ret, failure}

abbrev pub return_error : {W : Type 0} → Option Error × W → Step (Unit {0}) × W
return_error (none, w) = (next tt, w)
return_error (some e, w) = (ret (failure e), w)

-- `errors.IsAlreadyExists(err)` is no error here.
abbrev pub return_hard_error : {W : Type 0} → Option Error × W → Step (Unit {0}) × W
return_hard_error (none, w) = (next tt, w)
return_hard_error (some already_exists, w) = (next tt, w)
return_hard_error (some e, w) = (ret (failure e), w)

module _ (env : Env) where
  -- `if err := r.Create(ctx, o); err != nil && !errors.IsAlreadyExists(err) { return … err }`
  unfoldable pub create_or_exists : Object → Code env.World (Unit {0})
  create_or_exists o w = return_hard_error (env.create o w)

  -- `if err := r.Delete(ctx, o); err != nil { return … err }`
  unfoldable pub delete_or_return : Object → Code env.World (Unit {0})
  delete_or_return o w = return_error (env.delete o w)

  -- `if err := r.Update(ctx, o); err != nil { return … err }`
  unfoldable pub update_or_return : Object → Code env.World (Unit {0})
  update_or_return o w = return_error (env.update o w)

  -- `err := r.Create(ctx, o)`, for code that looks at the error
  unfoldable pub create_err : Object → Code env.World (Option Error)
  create_err o w = let (e, w') = env.create o w in (next e, w')

  unfoldable pub get_object : Ref → Code env.World Got
  get_object r w = let (g, w') = env.get r w in (next g, w')
