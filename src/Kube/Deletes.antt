-- ===== src/Kube/Deletes.antt =====
-- Code that deletes an object whose place is known: rules beside those of Removes.
use workshop_operator.Prelude.{◌≡◌, Bool, true, List, [], ◌∷◌}
use workshop_operator.Kube.Object.{Object, Ref, ref}
use workshop_operator.Kube.Env.{Env, Error}
use workshop_operator.Kube.Flow.{Code, Return, failure, ◌>>◌}
use workshop_operator.Kube.Idiom.{delete_or_return}
use workshop_operator.Kube.Lawful.{IsLawful}
use workshop_operator.Kube.Removes.{Removes, Removes-delete}

module _ (env : Env) (law : IsLawful env) (stop : Return → Bool) where
  open env use {World}

  pub some_removed :
      {A : Type 0} {m : Code World A} {l : List Ref}
      → Removes env law stop m l
      → Removes env law stop m []
  some_removed i = record {
    meets = record { keeps = i.meets.keeps; done = λ w a e. tt; early = i.meets.early };
  }

  module _ (stops : (e : Error) → stop (failure e) ≡ true) where
    pub delete_at-Removes :
        (o : Object) (r : Ref) (n : Code World Return) {l : List Ref}
        → ref o ≡ r
        → Removes env law stop n l
        → Removes env law stop (delete_or_return env o >> n) (r ∷ l)
    delete_at-Removes o r n same i = rw (← same) (Removes-delete env law stop stops o (λ _. n) i)
