-- ===== src/Kube/Stores.antt =====
-- Code that creates an object whose place is known, or updates it where it is there: rules for
-- reading off what is in place, beside those of Installs.
use workshop_operator.Prelude.{
  ◌≡◌, ◌≢◌, refl, sym, ap, ◌∙◌, String, Bool, true, false, Option, none, some, List, [], ◌∷◌, arith,
}
use workshop_operator.Kube.Object.{Object, Ref, ref, kind_of, Container, workshop}
use workshop_operator.Kube.Env.{Env, Error, already_exists, not_found, other, Got, found, failed}
use workshop_operator.Kube.Flow.{Code, Return, next, ret, failure, give_back, ◌>>=◌, ◌>>◌}
use workshop_operator.Kube.Idiom.{create_or_exists, update_or_return, create_err, return_error}
use workshop_operator.Kube.Monad.{bind_assoc}
use workshop_operator.Kube.Lawful.{IsLawful}
use workshop_operator.Kube.Installs.{
  Installs, Installs-pure, Installs-bind, Installs-get, Installs-create,
}
use workshop_operator.Kube.Deploy.{update_if, update_changed, store_deployment}

module _ (env : Env) (law : IsLawful env) (stop : Return → Bool)
    (stops : (e : Error) → stop (failure e) ≡ true) where
  open env use {World}

  return_error-stop :
      (e : Option Error) (w : World) (r : Return) → (return_error (e, w)).0 ≡ ret r → stop r ≡ true
  return_error-stop none w r h = cc
  return_error-stop (some e) w r h = ground (arith, stops e)

  return_error-world : (e : Option Error) (w : World) → (return_error (e, w)).1 ≡ w
  return_error-world none w = refl
  return_error-world (some e) w = refl

  pub update-Installs :
      (dep : Object)
      → kind_of dep.spec ≢ workshop
      → Installs env law stop (update_or_return env dep) []
  unfolding update_or_return
  update-Installs dep k = record {
    meets = record {
      keeps = λ w r h.
          rw (return_error-world (env.update dep w).0 (env.update dep w).1)
            (law.update_keeps_present dep w r k ∙ h);
      done = λ w a e. tt;
      early = λ w r h. return_error-stop (env.update dep w).0 _ r h;
    };
  }

  pub give_back-Installs :
      {A : Type 0} {l : List Ref} (e : Error)
      → Installs env law stop (give_back {A = A} (failure e)) l
  unfolding give_back
  give_back-Installs e = record {
    meets = record {
      keeps = λ w r h. h;
      done = λ w a h. cc;
      early = λ w r h. ground (arith, stops e);
    };
  }

  pub Installs-cases :
      {A : Type 0} {l : List Ref} (b : Bool) (m n : Code World A)
      → Installs env law stop m l
      → Installs env law stop n l
      → Installs env law stop (elim b as (λ _. Code World A) [ true ↦ m | false ↦ n ]) l
  Installs-cases true m n h k = h
  Installs-cases false m n h k = k

  -- What follows a create: nothing is lost by it, and it goes on only if the object has been created
  -- or was there.
  module _ (after : Option Error → Code World (Unit {0}))
      (afters : (e : Option Error) → Installs env law stop (after e) [])
      (hard : (e : Error) (w : World) (a : Unit {0})
        → (after (some e) w).0 ≡ next a
        → e ≡ already_exists)
      (o : Object) where
    created :
        (e : Option Error) (w : World) (a : Unit {0})
        → (env.create o w).0 ≡ e
        → (after e (env.create o w).1).0 ≡ next a
        → law.present (env.create o w).1 (ref o) ≡ true
    created none w a e h = law.create_stores o w e
    created (some x) w a e h = law.create_conflict o w (e ∙ ap some (hard x _ a h))

    pub create_or_update-Installs :
        (r : Ref) → ref o ≡ r → Installs env law stop (create_err env o >>= after) (r ∷ [])
    unfolding create_err ◌>>=◌
    create_or_update-Installs r same = record {
      meets = record {
        keeps = λ w q h. (afters (env.create o w).0).meets.keeps _ q (law.create_keeps o w q h);
        done = λ w a h. (
          (afters (env.create o w).0).meets.keeps _ r
              (ap (law.present (env.create o w).1) (sym same) ∙ created _ w a refl h),
          tt,
        );
        early = λ w q h. (afters (env.create o w).0).meets.early _ q h;
      };
    }

    -- A create, what follows it, then the rest of the block.
    pub Installs-created :
        {B : Type 0} {l : List Ref} (r : Ref) (n : Code World B)
        → ref o ≡ r
        → Installs env law stop n l
        → Installs env law stop (create_err env o >>= λ e. after e >> n) (r ∷ l)
    Installs-created r n same i =
        rw (← bind_assoc (create_err env o) after (λ _. n))
          (Installs-bind env law stop _ (λ _. n) (create_or_update-Installs r same) (λ _. i))

  module _ (namespace_name : String) (changed : Container → Container → Bool) (dep : Object)
      (is_other : kind_of dep.spec ≢ workshop) where
    update_if-Installs :
        (new old : Option Container) → Installs env law stop (update_if env changed dep new old) []
    unfolding update_if
    update_if-Installs (some c) (some d) =
        Installs-cases (changed c d) _ _ (update-Installs dep is_other)
          (Installs-pure env law stop tt)
    update_if-Installs (some c) none = record {
      meets = record { keeps = λ w r h. h; done = λ w a h. cc; early = λ w r h. cc };
    }
    update_if-Installs none old = record {
      meets = record { keeps = λ w r h. h; done = λ w a h. cc; early = λ w r h. cc };
    }

    update_changed-Installs :
        (g : Got) → Installs env law stop (update_changed env changed dep g) []
    unfolding update_changed
    update_changed-Installs (failed e) = give_back-Installs e
    update_changed-Installs (found o) = update_if-Installs _ _

    store-Installs :
        (e : Option Error)
        → Installs env law stop (store_deployment env namespace_name changed dep e) []
    unfolding store_deployment
    store-Installs none = Installs-pure env law stop tt
    store-Installs (some already_exists) = Installs-get env law stop _ _ update_changed-Installs
    store-Installs (some not_found) = give_back-Installs not_found
    store-Installs (some (other s)) = give_back-Installs (other s)

    hard_store :
        (e : Error) (w : World) (a : Unit {0})
        → (store_deployment env namespace_name changed dep (some e) w).0 ≡ next a
        → e ≡ already_exists
    unfolding store_deployment give_back
    hard_store already_exists w a h = refl
    hard_store not_found w a h = cc
    hard_store (other s) w a h = cc

    -- A create, an update where it is due, then the rest of the block.
    pub Installs-store :
        {l : List Ref} (r : Ref) (n : Code World Return)
        → ref dep ≡ r
        → Installs env law stop n l
        → Installs env law stop
            (create_err env dep >>= λ e. store_deployment env namespace_name changed dep e >> n)
            (r ∷ l)
    Installs-store r n same i = Installs-created _ store-Installs hard_store dep r n same i

  -- A create of an object whose place is known.
  pub Installs-create_at :
      {l : List Ref} (o : Object) (r : Ref) (n : Code World Return)
      → ref o ≡ r
      → Installs env law stop n l
      → Installs env law stop (create_or_exists env o >> n) (r ∷ l)
  Installs-create_at o r n same i = rw (← same) (Installs-create env law stop stops o (λ _. n) i)
