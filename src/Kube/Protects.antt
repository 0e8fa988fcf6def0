-- ===== src/Kube/Protects.antt =====
-- Code that spares some objects: whichever way it ends, those that were there are still there.
use workshop_operator.Prelude.{
  ◌≡◌, ◌≢◌, ◌∙◌, Bool, true, false, Option, none, some, List, [], ◌∷◌, All, arith, ◌⊎◌, inl, inr,
}
use workshop_operator.Kube.Object.{Object, Ref, ref, kind_of}
use workshop_operator.Kube.Env.{Env, Error, already_exists}
use workshop_operator.Kube.Flow.{
  Return, Code, ret, failure, pure, give_back, ◌>>=◌, function, propagate,
}
use workshop_operator.Kube.Idiom.{
  create_or_exists, delete_or_return, get_object, create_err, return_error, return_hard_error,
}
use workshop_operator.Kube.Lawful.{takes_others, IsLawful}
use workshop_operator.Kube.Meets.{
  IsPreorder, Meets, MeetsCall, Meets-pure, Meets-bind, MeetsCall-function, Meets-propagate,
}

module _ (env : Env) (law : IsLawful env) (Mine : Ref → Type 0) where
  open env use {World}
  open law use {present}

  abbrev pub Spares : World → World → Type 0
  Spares w w' = (r : Ref) → Mine r → present w r ≡ true → present w' r ≡ true

  pub Spares-IsPreorder : IsPreorder Spares
  Spares-IsPreorder = record {
    reflexive = λ w r m h. h;
    transitive = λ u v w k j r m h. j r m (k r m h);
  }

  -- `m` spares the objects, and returns early only what `stop` holds of.
  pub record Protects {A : Type 0} (stop : Return → Bool) (m : Code World A) : Type 0 where
    pub meets : Meets Spares stop (λ _ _. Unit {0}) m

  pub record ProtectsCall (stop : Return → Bool) (m : Code World Return) : Type 0 where
    pub meets : MeetsCall Spares stop (λ _ _. Unit {0}) m

  module _ (stop : Return → Bool) where
    pub Protects-pure : {A : Type 0} (a : A) → Protects stop (pure a)
    Protects-pure a = record { meets = Meets-pure Spares-IsPreorder a (λ w. tt) }

    pub Protects-bind :
        {A B : Type 0} (m : Code World A) (f : A → Code World B)
        → Protects stop m
        → ((a : A) → Protects stop (f a))
        → Protects stop (m >>= f)
    Protects-bind m f im ik = record {
      meets = Meets-bind Spares-IsPreorder m f im.meets (λ a. (ik a).meets) (λ u v w a b p q. tt);
    }

    pub Protects-cases :
        {A : Type 0} (b : Bool) (m n : Code World A)
        → Protects stop m
        → Protects stop n
        → Protects stop (elim b [ true ↦ m | false ↦ n ])
    Protects-cases true m n im ik = im
    Protects-cases false m n im ik = ik

    -- A step that always goes on.
    pub Protects-step :
        {A : Type 0} (m : Code World A)
        → ((w : World) (r : Return) → (m w).0 ≢ ret r)
        → ((w : World) → Spares w (m w).1)
        → Protects stop m
    Protects-step m n s = record {
      meets = record { keeps = s; done = λ w a e. tt; early = λ w r e. absurd (n w r e) };
    }

    pub Protects-get : (q : Ref) → Protects stop (get_object env q)
    unfolding get_object
    Protects-get q = Protects-step _ (λ w r e. cc) (λ w r m h. law.get_keeps q w r ∙ h)

    pub Protects-create_err : (o : Object) → Protects stop (create_err env o)
    unfolding create_err
    Protects-create_err o = Protects-step _ (λ w r e. cc) (λ w r m h. law.create_keeps o w r h)

    pub ProtectsCall-function :
        (m : Code World Return) → Protects stop m → ProtectsCall stop (function m)
    ProtectsCall-function m im = record { meets = MeetsCall-function m im.meets }

    pub Protects-propagate :
        (stop' : Return → Bool) (h : Code World Return)
        → ((r : Return) → stop' r ≡ true → stop r ≡ true)
        → ProtectsCall stop' h
        → Protects stop (propagate stop' h)
    Protects-propagate stop' h imp ih = record { meets = Meets-propagate h ih.meets imp }

    module _ (fails : (e : Error) → stop (failure e) ≡ true) where
      pub Protects-failure :
          {A : Type 0} (e : Error) → Protects stop (give_back {A = A} (failure e))
      unfolding give_back
      Protects-failure e = record {
        meets = record {
          keeps = λ w r m h. h;
          done = λ w a e. tt;
          early = λ w r h. ground (arith, fails e);
        };
      }

      error-early :
          (e : Option Error) (w : World) (r : Return)
          → (return_error (e, w)).0 ≡ ret r
          → stop r ≡ true
      error-early none w r h = cc
      error-early (some e) w r h = ground (arith, fails e)

      hard_error-early :
          (e : Option Error) (w : World) (r : Return)
          → (return_hard_error (e, w)).0 ≡ ret r
          → stop r ≡ true
      hard_error-early none w r h = cc
      hard_error-early (some already_exists) w r h = cc
      hard_error-early (some e) w r h = ground (arith, fails e)

      pub Protects-create : (o : Object) → Protects stop (create_or_exists env o)
      unfolding create_or_exists
      Protects-create o = record {
        meets = record {
          keeps = λ w r m h. ground (arith, law.create_keeps o w r h);
          done = λ w a e. tt;
          early = λ w r e. hard_error-early (env.create o w).0 (env.create o w).1 r e;
        };
      }

      pub Protects-delete :
          (o : Object)
          → takes_others (kind_of o.spec) ≡ false
          → ((r : Ref) → Mine r → r ≢ ref o)
          → Protects stop (delete_or_return env o)
      unfolding delete_or_return
      Protects-delete o n apart = record {
        meets = record {
          keeps = λ w r m h. ground (arith, law.delete_keeps o w r n (apart r m) h);
          done = λ w a e. tt;
          early = λ w r e. error-early (env.delete o w).0 (env.delete o w).1 r e;
        };
      }

-- The objects of a list.
abbrev pub Among : List Ref → Ref → Type 0
Among [] r = ⊥
Among (x ∷ xs) r = (r ≡ x) ⊎ Among xs r

pub Among-apart : (rs : List Ref) (s : Ref) → All (λ r. r ≢ s) rs → (r : Ref) → Among rs r → r ≢ s
Among-apart [] s h r m = absurd m
Among-apart (x ∷ xs) s (h, t) r (inl e) = λ p. h (ground arith)
Among-apart (x ∷ xs) s (h, t) r (inr m) = Among-apart xs s t r m
