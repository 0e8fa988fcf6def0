-- ===== src/Controller/Finalizer.antt =====
-- The finalizer of a workshop that is being deleted.
use mathlib.Core.Path.{subst}
use workshop_operator.Kube.Object.{Object, Ref, ref}
use workshop_operator.Prelude.{
  ◌≡◌, refl, ap, ◌∙◌, ℕ, String, Bool, true, false, Option, none, some, List, [], ◌∷◌, sym,
}
use workshop_operator.Kube.Env.{Env, Error}
use workshop_operator.Kube.Flow.{
  Code, Return, Step, next, ret, panic, out_of_fuel, success, pure, proceed, ◌>>=◌, ◌>>◌,
}
use workshop_operator.Kube.Idiom.{update_or_return, return_error}
use workshop_operator.Build.Base.{Workshop, workshop_object}
use workshop_operator.Util.{contains}
use workshop_operator.Controller.{
  Libraries, Handlers, handle_delete, install_or_finalize, finalize, workshop_finalizer,
}

module _ (env : Env) (lib : Libraries) (h : Handlers env.World) where
  open env use {World}

  if_marked :
      (o : Option ℕ) (at : ℕ) (m k : Code World Return)
      → o ≡ some at
      → (elim o as (λ _. Code World Return) [ some _ ↦ m | none ↦ k ]) ≡ m
  if_marked (some a) at m k e = refl
  if_marked none at m k e = cc

  if_true :
      (b : Bool) (m k : Code World Return)
      → b ≡ true
      → (elim b as (λ _. Code World Return) [ true ↦ m | false ↦ k ]) ≡ m
  if_true true m k e = refl
  if_true false m k e = cc

  module _ (fuel : ℕ) (ws : Workshop) (users : ℕ) (suffix console_url : String) where
    after_delete :
        (s : Step Return) (w : World) (r : Return)
        → s ≡ next r
        → let m : Code World Return = do
          update_or_return env (workshop_object (lib.remove_finalizer ws workshop_finalizer))
          pure success
          in proceed s (λ _. m) w ≡ m w
    after_delete (next a) w r e = refl
    after_delete (ret a) w r e = cc
    after_delete panic w r e = cc
    after_delete out_of_fuel w r e = cc

    accepted :
        (p : Option Error × World)
        → p.0 ≡ none
        → proceed (return_error p).0 (λ _. pure success) (return_error p).1 ≡ (next success, p.1)
    unfolding pure
    accepted (none, w) h = refl
    accepted (some e, w) h = cc

    finalizer_lem :
        (w : World) (r : Return)
        → let o = workshop_object (lib.remove_finalizer ws workshop_finalizer) in
          let u = (handle_delete env lib h fuel ws users suffix console_url w).1 in
          (handle_delete env lib h fuel ws users suffix console_url w).0 ≡ next r
          → contains ws.meta.finalizers workshop_finalizer ≡ true
          → (env.update o u).0 ≡ none
          → finalize env lib h fuel ws users suffix console_url w
            ≡ (next success, (env.update o u).1)
    unfolding finalize ◌>>=◌ update_or_return
    finalizer_lem w r e c k =
        ap (λ (m : Code World Return). m w)
          (if_true (contains ws.meta.finalizers workshop_finalizer) _ _ c)
        ∙ after_delete (handle_delete env lib h fuel ws users suffix console_url w).0 _ r e
        ∙ accepted _ k

    marked :
        (finalizers : List String)
        → finalizers ≡ workshop_finalizer ∷ []
        → contains finalizers workshop_finalizer ≡ true
    unfolding contains
    marked finalizers e = rw e refl

    -- The operator's finalizer is the only one of a workshop that is marked to be deleted; the library
    -- takes it off the list and changes nothing else; and an accepted update of an object that is
    -- marked to be deleted and has no finalizer removes the object. Then, whatever result
    -- `handleDelete` returns, an error included, an update that is accepted ends the run with success
    -- and without the workshop.
    pub install_or_finalize-removes :
        (present : World → Ref → Bool) (w : World) (r : Return) (at : ℕ)
        → ((o : Object) (u : World)
            → o.meta.deletion_timestamp ≡ some at
            → o.meta.finalizers ≡ []
            → (env.update o u).0 ≡ none
            → present (env.update o u).1 (ref o) ≡ false)
        → lib.remove_finalizer ws workshop_finalizer
          ≡ record ws { meta = record ws.meta { finalizers = [] } }
        → ws.meta.deletion_timestamp ≡ some at
        → ws.meta.finalizers ≡ workshop_finalizer ∷ []
        → (handle_delete env lib h fuel ws users suffix console_url w).0 ≡ next r
        → (env.update
            (workshop_object (lib.remove_finalizer ws workshop_finalizer))
            (handle_delete env lib h fuel ws users suffix console_url w).1).0
          ≡ none
        → ((install_or_finalize env lib h fuel ws users suffix console_url w).0 ≡ next success)
          × (present
                (install_or_finalize env lib h fuel ws users suffix console_url w).1
                (ref (workshop_object ws))
              ≡ false)
    unfolding install_or_finalize
    install_or_finalize-removes present w r at finishes removed m only e k =
        let u = (handle_delete env lib h fuel ws users suffix console_url w).1 in
        let run : install_or_finalize env lib h fuel ws users suffix console_url w ≡ (
          next success,
          (env.update (workshop_object (lib.remove_finalizer ws workshop_finalizer)) u).1,
        ) =
          ap (λ (m : Code World Return). m w) (if_marked ws.meta.deletion_timestamp at _ _ m)
          ∙ finalizer_lem w r e (marked _ only) k in
        (
          ap (λ p. p.0) run,
          ap (λ (p : Step Return × World). present p.1 (ref (workshop_object ws))) run
              ∙ subst
                  (λ (v : Workshop).
                    (env.update (workshop_object v) u).0 ≡ none
                    → present (env.update (workshop_object v) u).1 (ref (workshop_object ws))
                      ≡ false)
                  (sym removed)
                  (finishes
                    (workshop_object (record ws { meta = record ws.meta { finalizers = [] } })) u m
                    refl)
                  k,
        )
