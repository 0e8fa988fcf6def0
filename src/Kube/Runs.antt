-- ===== src/Kube/Runs.antt =====
-- Code that comes to an end, by going on or by returning, and keeps a predicate on the way.
use workshop_operator.Prelude.{◌≡◌, refl, Bool, true, false, Option, none, some}
use workshop_operator.Kube.Object.{Object, Ref}
use workshop_operator.Kube.Env.{Env, Error, already_exists}
use workshop_operator.Kube.Flow.{
  Return, Step, next, ret, panic, out_of_fuel, Code, pure, ◌>>=◌, proceed, function, returned,
  propagate, return_if,
}
use workshop_operator.Kube.Idiom.{
  create_or_exists, get_object, delete_or_return, return_error, return_hard_error,
}

abbrev pub Ended : {A : Type 0} → Step A → Type 0
Ended (next a) = Unit
Ended (ret r) = Unit
Ended panic = ⊥
Ended out_of_fuel = ⊥

pub returned-Ended : (s : Step Return) → Ended s → (r : Return) × (returned s ≡ next r)
returned-Ended (next r) h = (r, refl)
returned-Ended (ret r) h = (r, refl)
returned-Ended panic h = absurd h
returned-Ended out_of_fuel h = absurd h

module _ {W : Type 0} (P : W → Type 0) where
  pub record Runs {A : Type 0} (m : Code W A) : Type 0 where
    pub at : (w : W) → P w → Ended (m w).0 × P (m w).1

  pub Runs-pure : {A : Type 0} (a : A) → Runs (pure a)
  unfolding pure
  Runs-pure a = record { at = λ w h. (tt, h) }

  pub proceed-Ended :
      {A B : Type 0} (s : Step A) (f : A → Code W B) (w : W)
      → Ended s
      → P w
      → ((a : A) → s ≡ next a → Ended (f a w).0 × P (f a w).1)
      → Ended (proceed s f w).0 × P (proceed s f w).1
  proceed-Ended (next a) f w e h k = k a refl
  proceed-Ended (ret r) f w e h k = (tt, h)
  proceed-Ended panic f w e h k = absurd e
  proceed-Ended out_of_fuel f w e h k = absurd e

  pub Runs-bind :
      {A B : Type 0} (m : Code W A) (f : A → Code W B)
      → Runs m
      → ((a : A) → Runs (f a))
      → Runs (m >>= f)
  unfolding ◌>>=◌
  Runs-bind m f im ik = record {
    at =
        λ w h. let (e, p) = im.at w h in proceed-Ended (m w).0 f (m w).1 e p (λ a _. (ik a).at _ p);
  }

  function-Ended : (s : Step Return) → Ended s → Ended (returned s)
  function-Ended (next r) h = tt
  function-Ended (ret r) h = tt
  function-Ended panic h = h
  function-Ended out_of_fuel h = h

  pub Runs-function : (m : Code W Return) → Runs m → Runs (function m)
  unfolding function
  Runs-function m im = record {
    at = λ w h. let (e, p) = im.at w h in (function-Ended (m w).0 e, p);
  }

  test-Ended :
      (b : Bool) (r : Return) (w : W)
      → P w
      → let s : Step (Unit {0}) × W = elim b [ true ↦ (ret r, w) | false ↦ (next tt, w) ] in
        Ended s.0 × P s.1
  test-Ended true r w h = (tt, h)
  test-Ended false r w h = (tt, h)

  return_if-Runs : (stop : Return → Bool) (r : Return) → Runs (return_if stop r)
  unfolding return_if
  return_if-Runs stop r = record { at = λ w h. test-Ended (stop r) r w h }

  pub Runs-propagate : (stop : Return → Bool) (m : Code W Return) → Runs m → Runs (propagate stop m)
  unfolding propagate
  Runs-propagate stop m im = Runs-bind m (return_if stop) im (return_if-Runs stop)

module _ (env : Env) (P : env.World → Type 0) where
  pub Runs-create :
      (o : Object)
      → ((w : env.World) → P w → P (env.create o w).1)
      → Runs P (create_or_exists env o)
  unfolding create_or_exists
  Runs-create o k = record { at = λ w h. ended (env.create o w).0 (env.create o w).1 (k w h) }
    where
      ended :
          (e : Option Error) (w : env.World)
          → P w
          → Ended (return_hard_error (e, w)).0 × P (return_hard_error (e, w)).1
      ended none w h = (tt, h)
      ended (some already_exists) w h = (tt, h)
      ended (some e) w h = (tt, h)

  pub Runs-get : (r : Ref) → ((w : env.World) → P w → P (env.get r w).1) → Runs P (get_object env r)
  unfolding get_object
  Runs-get r k = record { at = λ w h. (tt, k w h) }

  pub Runs-delete :
      (o : Object)
      → ((w : env.World) → P w → P (env.delete o w).1)
      → Runs P (delete_or_return env o)
  unfolding delete_or_return
  Runs-delete o k = record { at = λ w h. ended (env.delete o w).0 (env.delete o w).1 (k w h) }
    where
      ended :
          (e : Option Error) (w : env.World)
          → P w
          → Ended (return_error (e, w)).0 × P (return_error (e, w)).1
      ended none w h = (tt, h)
      ended (some e) w h = (tt, h)
