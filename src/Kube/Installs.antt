-- ===== src/Kube/Installs.antt =====
-- Code that puts objects in place: rules for reading off which, from the text of a handler.
use workshop_operator.Prelude.{
  ◌≡◌, ◌∙◌, Bool, true, Option, none, some, List, [], ◌∷◌, ◌++◌, All, arith,
}
use workshop_operator.Kube.Object.{Object, Ref, ref}
use workshop_operator.Kube.Env.{Env, Error, Got, already_exists, not_found, other}
use workshop_operator.Kube.Flow.{Return, failure, ret, Code, pure, ◌>>=◌, ◌>>◌, function, propagate}
use workshop_operator.Kube.Idiom.{create_or_exists, get_object, return_hard_error}
use workshop_operator.Kube.Lawful.{IsLawful}
use workshop_operator.Kube.Meets.{
  IsPreorder, Meets, MeetsCall, Meets-pure, Meets-bind, MeetsCall-function, Meets-propagate,
}

module _ (env : Env) (law : IsLawful env) where
  open env use {World}
  open law use {present}

  abbrev pub AllPresent : World → List Ref → Type 0
  AllPresent w = All (λ r. present w r ≡ true)

  abbrev pub KeepsPresent : World → World → Type 0
  KeepsPresent w w' = (r : Ref) → present w r ≡ true → present w' r ≡ true

  pub KeepsPresent-IsPreorder : IsPreorder KeepsPresent
  KeepsPresent-IsPreorder = record {
    reflexive = λ w r h. h;
    transitive = λ u v w k j r h. j r (k r h);
  }

  pub AllPresent-keep :
      (l : List Ref) (w w' : World) → KeepsPresent w w' → AllPresent w l → AllPresent w' l
  AllPresent-keep [] w w' k h = tt
  AllPresent-keep (r ∷ l) w w' k (h, t) = (k r h, AllPresent-keep l w w' k t)

  All-append :
      (w : World) (l k : List Ref) → AllPresent w l → AllPresent w k → AllPresent w (l ++ k)
  All-append w [] k h t = t
  All-append w (r ∷ l) k (h, hs) t = (h, All-append w l k hs t)

  -- `m` takes nothing away, and where it goes on, all of `l` is there.
  pub record Installs {A : Type 0} (stop : Return → Bool) (m : Code World A) (l : List Ref)
      : Type 0 where
    pub meets : Meets KeepsPresent stop (λ _ w. AllPresent w l) m

  pub record InstallsCall (stop : Return → Bool) (m : Code World Return) (l : List Ref)
      : Type 0 where
    pub meets : MeetsCall KeepsPresent stop (λ _ w. AllPresent w l) m

  module _ (stop : Return → Bool) where
    pub Installs-pure : {A : Type 0} (a : A) → Installs stop (pure a) []
    Installs-pure a = record { meets = Meets-pure KeepsPresent-IsPreorder a (λ w. tt) }

    pub Installs-bind :
        {A B : Type 0} {l k : List Ref} (m : Code World A) (f : A → Code World B)
        → Installs stop m l
        → ((a : A) → Installs stop (f a) k)
        → Installs stop (m >>= f) (l ++ k)
    Installs-bind {l} {k} m f im ik = record {
      meets =
          Meets-bind KeepsPresent-IsPreorder m f im.meets (λ a. (ik a).meets)
            λ u v w _ kept p q. All-append w l k (AllPresent-keep l v w kept p) q;
    }

    -- A piece of code, then the value of the block.
    pub Installs-last :
        {A B : Type 0} {l : List Ref} (m : Code World A) (b : B)
        → Installs stop m l
        → Installs stop (m >> pure b) l
    Installs-last {l} m b im = record {
      meets =
          Meets-bind KeepsPresent-IsPreorder m (λ _. pure b) im.meets
            (λ _. Meets-pure KeepsPresent-IsPreorder {Q = λ _ _. Unit {0}} b (λ w. tt))
            λ u v w _ kept p q. AllPresent-keep l v w kept p;
    }

    pub Installs-weaken :
        {A : Type 0} {l : List Ref} (m : Code World A) → Installs stop m l → Installs stop m []
    Installs-weaken m im = record {
      meets = record { keeps = im.meets.keeps; done = λ w a e. tt; early = im.meets.early };
    }

    get-Installs : (q : Ref) → Installs stop (get_object env q) []
    unfolding get_object
    get-Installs q = record {
      meets = record {
        keeps = λ w r h. law.get_keeps q w r ∙ h;
        done = λ w g e. tt;
        early = λ w r e. cc;
      };
    }

    -- A read, then the rest of the block.
    pub Installs-get :
        {B : Type 0} {l : List Ref} (q : Ref) (f : Got → Code World B)
        → ((g : Got) → Installs stop (f g) l)
        → Installs stop (get_object env q >>= f) l
    Installs-get q f i = Installs-bind (get_object env q) f (get-Installs q) i

    pub InstallsCall-function :
        {l : List Ref} (m : Code World Return)
        → Installs stop m l
        → InstallsCall stop (function m) l
    InstallsCall-function m im = record { meets = MeetsCall-function m im.meets }

    -- A call whose result is tested, then the rest of the block.
    pub Installs-call :
        {B : Type 0} {l k : List Ref} (stop' : Return → Bool) (h : Code World Return)
        (n : Code World B)
        → ((r : Return) → stop' r ≡ true → stop r ≡ true)
        → InstallsCall stop' h l
        → Installs stop n k
        → Installs stop (propagate stop' h >> n) (l ++ k)
    Installs-call {l} stop' h n imp ih i =
        Installs-bind (propagate stop' h) (λ _. n)
          (record { meets = Meets-propagate h ih.meets imp }) (λ _. i)

    module _ (fails : (e : Error) → stop (failure e) ≡ true) where
      hard_error-early :
          (e : Option Error) (w : World) (r : Return)
          → (return_hard_error (e, w)).0 ≡ ret r
          → stop r ≡ true
      hard_error-early none w r h = cc
      hard_error-early (some already_exists) w r h = cc
      hard_error-early (some not_found) w r h = ground (arith, fails not_found)
      hard_error-early (some (other s)) w r h = ground (arith, fails (other s))

      pub create-Installs : (o : Object) → Installs stop (create_or_exists env o) (ref o ∷ [])
      unfolding create_or_exists
      create-Installs o = record {
        meets = record {
          keeps = λ w r h. ground (arith, law.create_keeps o w r h);
          done = λ w g e. ground (arith, law.create_stores o w, law.create_conflict o w);
          early = λ w r e. hard_error-early (env.create o w).0 (env.create o w).1 r e;
        };
      }

      -- A create, then the rest of the block.
      pub Installs-create :
          {B : Type 0} {k : List Ref} (o : Object) (f : Unit {0} → Code World B)
          → Installs stop (f tt) k
          → Installs stop (create_or_exists env o >>= f) (ref o ∷ k)
      Installs-create o f i = Installs-bind (create_or_exists env o) f (create-Installs o) (λ _. i)
