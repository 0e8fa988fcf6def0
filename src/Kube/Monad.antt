-- ===== src/Kube/Monad.antt =====
-- The laws of sequencing.
use workshop_operator.Prelude.{◌≡◌, refl, fun_ext}
use workshop_operator.Kube.Flow.{Code, Step, next, ret, panic, out_of_fuel, pure, ◌>>=◌, proceed}

module _ {W A B : Type 0} where
  pub pure-bind : (a : A) (f : A → Code W B) → (pure a >>= f) ≡ f a
  unfolding ◌>>=◌
  pure-bind a f = refl

module _ {W A B C : Type 0} where
  bind-proceed :
      (f : A → Code W B) (g : B → Code W C) (s : Step A) (w : W)
      → (proceed s f >>= g) w ≡ proceed s (λ a. f a >>= g) w
  unfolding ◌>>=◌
  bind-proceed f g (next a) w = refl
  bind-proceed f g (ret r) w = refl
  bind-proceed f g panic w = refl
  bind-proceed f g out_of_fuel w = refl

  pub bind_assoc :
      (m : Code W A) (f : A → Code W B) (g : B → Code W C)
      → (m >>= f >>= g) ≡ (m >>= λ a. f a >>= g)
  unfolding ◌>>=◌
  bind_assoc m f g = fun_ext λ w. bind-proceed f g (m w).0 (m w).1
