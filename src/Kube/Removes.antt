-- ===== src/Kube/Removes.antt =====
-- Code that deletes objects: rules for reading off which, from the text of a handler.
use workshop_operator.Prelude.{
  ◌≡◌, ◌∙◌, Bool, true, false, Option, none, some, List, [], ◌∷◌, ◌++◌, arith, Bool-cases, inl, inr,
}
use workshop_operator.Kube.Object.{Object, Ref, ref}
use workshop_operator.Kube.Env.{Env, Error, Got}
use workshop_operator.Kube.Flow.{Return, failure, ret, Code, pure, ◌>>=◌, ◌>>◌, function, propagate}
use workshop_operator.Kube.Idiom.{delete_or_return, get_object, return_error}
use workshop_operator.Kube.Lawful.{IsLawful, lingers}
use workshop_operator.Kube.Meets.{
  IsPreorder, Meets, MeetsCall, Meets-pure, Meets-bind, MeetsCall-function, Meets-propagate,
}

-- What was created first is deleted last.
abbrev onto : List Ref → List Ref → List Ref
onto [] k = k
onto (r ∷ l) k = onto l (r ∷ k)

abbrev pub reverse_refs : List Ref → List Ref
reverse_refs l = onto l []

module _ (env : Env) (law : IsLawful env) where
  open env use {World}
  open law use {present}

  abbrev pub AddsNothing : World → World → Type 0
  AddsNothing w w' = (r : Ref) → present w r ≡ false → present w' r ≡ false

  -- Each object was there before, and is gone after unless its kind lingers.
  abbrev pub Removed : List Ref → World → World → Type 0
  Removed [] w w' = Unit
  Removed (r ∷ l) w w' =
      (present w r ≡ true) × (lingers r.kind ≡ false → present w' r ≡ false) × Removed l w w'

  pub AddsNothing-IsPreorder : IsPreorder AddsNothing
  AddsNothing-IsPreorder = record {
    reflexive = λ w r h. h;
    transitive = λ u v w k j r h. j r (k r h);
  }

  was_there : (v w : World) (r : Ref) → AddsNothing v w → present w r ≡ true → present v r ≡ true
  was_there v w r k h = elim (Bool-cases (present v r)) [
    | inl t ↦ t
    | inr f ↦ absurd (ground (arith, k r f))
  ]

  pub Removed-earlier :
      (l : List Ref) (u v w : World) → AddsNothing u v → Removed l v w → Removed l u w
  Removed-earlier [] u v w k h = tt
  Removed-earlier (r ∷ l) u v w k (h, g, t) = (was_there u v r k h, g, Removed-earlier l u v w k t)

  Removed-append :
      (l k : List Ref) (u v w : World)
      → AddsNothing u v
      → AddsNothing v w
      → Removed l u v
      → Removed k v w
      → Removed (l ++ k) u w
  Removed-append [] k u v w a b p q = Removed-earlier k u v w a q
  Removed-append (r ∷ l) k u v w a b (h, g, p) q =
      (h, λ n. b r (g n), Removed-append l k u v w a b p q)

  -- `m` adds nothing, and where it goes on, all of `l` has been removed.
  pub record Removes {A : Type 0} (stop : Return → Bool) (m : Code World A) (l : List Ref)
      : Type 0 where
    pub meets : Meets AddsNothing stop (Removed l) m

  pub record RemovesCall (stop : Return → Bool) (m : Code World Return) (l : List Ref)
      : Type 0 where
    pub meets : MeetsCall AddsNothing stop (Removed l) m

  module _ (stop : Return → Bool) where
    pub Removes-pure : {A : Type 0} (a : A) → Removes stop (pure a) []
    Removes-pure a = record { meets = Meets-pure AddsNothing-IsPreorder a (λ w. tt) }

    pub Removes-bind :
        {A B : Type 0} {l k : List Ref} (m : Code World A) (f : A → Code World B)
        → Removes stop m l
        → ((a : A) → Removes stop (f a) k)
        → Removes stop (m >>= f) (l ++ k)
    Removes-bind {l} {k} m f im ik = record {
      meets =
          Meets-bind AddsNothing-IsPreorder m f im.meets (λ a. (ik a).meets) (Removed-append l k);
    }

    get-Removes : (q : Ref) → Removes stop (get_object env q) []
    unfolding get_object
    get-Removes q = record {
      meets = record {
        keeps = λ w r h. law.get_keeps q w r ∙ h;
        done = λ w g e. tt;
        early = λ w r e. cc;
      };
    }

    pub Removes-get :
        {B : Type 0} {l : List Ref} (q : Ref) (f : Got → Code World B)
        → ((g : Got) → Removes stop (f g) l)
        → Removes stop (get_object env q >>= f) l
    Removes-get q f i = Removes-bind (get_object env q) f (get-Removes q) i

    pub RemovesCall-function :
        {l : List Ref} (m : Code World Return) → Removes stop m l → RemovesCall stop (function m) l
    RemovesCall-function m im = record { meets = MeetsCall-function m im.meets }

    pub Removes-call :
        {B : Type 0} {l k : List Ref} (stop' : Return → Bool) (h : Code World Return)
        (n : Code World B)
        → ((r : Return) → stop' r ≡ true → stop r ≡ true)
        → RemovesCall stop' h l
        → Removes stop n k
        → Removes stop (propagate stop' h >> n) (l ++ k)
    Removes-call stop' h n imp ih i =
        Removes-bind (propagate stop' h) (λ _. n)
          (record { meets = Meets-propagate h ih.meets imp }) (λ _. i)

    module _ (fails : (e : Error) → stop (failure e) ≡ true) where
      error-early :
          (e : Option Error) (w : World) (r : Return)
          → (return_error (e, w)).0 ≡ ret r
          → stop r ≡ true
      error-early none w r h = cc
      error-early (some e) w r h = ground (arith, fails e)

      pub delete-Removes : (o : Object) → Removes stop (delete_or_return env o) (ref o ∷ [])
      unfolding delete_or_return
      delete-Removes o = record {
        meets = record {
          keeps = λ w r h. ground (arith, law.delete_adds_nothing o w r h);
          done = λ w g e. (
            ground (arith, law.delete_needs o w),
            λ n. ground (arith, law.delete_removes o w n),
            tt,
          );
          early = λ w r e. error-early (env.delete o w).0 (env.delete o w).1 r e;
        };
      }

      -- A delete, then the rest of the block.
      pub Removes-delete :
          {B : Type 0} {k : List Ref} (o : Object) (f : Unit {0} → Code World B)
          → Removes stop (f tt) k
          → Removes stop (delete_or_return env o >>= f) (ref o ∷ k)
      Removes-delete o f i = Removes-bind (delete_or_return env o) f (delete-Removes o) (λ _. i)
