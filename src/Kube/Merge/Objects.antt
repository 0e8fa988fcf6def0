-- ===== src/Kube/Merge/Objects.antt =====
-- The objects that the block of `merge` leaves in place.
use workshop_operator.Prelude.{◌≡◌, ◌≢◌, refl, Bool, true, false, Option, none, some, List, [], ◌∷◌}
use workshop_operator.Kube.Object.{Object, Ref, ref, Spec, kind_of, workshop}
use workshop_operator.Kube.Env.{Env, Error, already_exists, not_found, other, Got, found, failed}
use workshop_operator.Kube.Flow.{Code, Return, next, failure, give_back, ◌>>=◌, ◌>>◌}
use workshop_operator.Kube.Idiom.{create_err}
use workshop_operator.Kube.Lawful.{IsLawful}
use workshop_operator.Kube.Installs.{Installs, Installs-pure, Installs-get}
use workshop_operator.Kube.Stores.{
  update-Installs, give_back-Installs, Installs-created, create_or_update-Installs,
}
use workshop_operator.Kube.Merge.{Change, change_if, change_found, merge}

module _ (env : Env) (law : IsLawful env) (stop : Return → Bool)
    (stops : (e : Error) → stop (failure e) ≡ true) (r : Ref) (change : Change)
    (no_workshop : (s : Spec) → kind_of (change.apply s) ≢ workshop) where
  open env use {World}

  change_if-Installs : (o : Object) (b : Bool) → Installs env law stop (change_if env change o b) []
  unfolding change_if
  change_if-Installs o true = update-Installs env law stop stops _ (no_workshop o.spec)
  change_if-Installs o false = Installs-pure env law stop tt

  change_found-Installs : (g : Got) → Installs env law stop (change_found env change g) []
  unfolding change_found
  change_found-Installs (failed e) = give_back-Installs env law stop stops e
  change_found-Installs (found o) = change_if-Installs o (change.is_due o.spec)

  merge-Installs : (e : Option Error) → Installs env law stop (merge env r change e) []
  unfolding merge
  merge-Installs none = Installs-pure env law stop tt
  merge-Installs (some already_exists) = Installs-get env law stop _ _ change_found-Installs
  merge-Installs (some not_found) = give_back-Installs env law stop stops not_found
  merge-Installs (some (other s)) = give_back-Installs env law stop stops (other s)

  hard_merge :
      (e : Error) (w : World) (a : Unit {0})
      → (merge env r change (some e) w).0 ≡ next a
      → e ≡ already_exists
  unfolding merge give_back
  hard_merge already_exists w a h = refl
  hard_merge not_found w a h = cc
  hard_merge (other s) w a h = cc

  -- A create, a change where it is due, then the rest of the block.
  pub Installs-merge :
      {B : Type 0} {l : List Ref} (o : Object) (n : Code World B)
      → Installs env law stop n l
      → Installs env law stop (create_err env o >>= λ e. merge env r change e >> n) (ref o ∷ l)
  Installs-merge o n i =
      Installs-created env law stop stops _ merge-Installs hard_merge o _ n refl i

  -- The same at the end of a block.
  pub Installs-merged :
      (o : Object) → Installs env law stop (create_err env o >>= merge env r change) (ref o ∷ [])
  Installs-merged o =
      create_or_update-Installs env law stop stops _ merge-Installs hard_merge o _ refl
