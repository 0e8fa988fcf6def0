-- ===== src/Kube/Meets.antt =====
-- Code with a relation that it keeps on every way out, a relation that holds where it goes on, and
-- a test that holds of what it returns early: the rules for sequences, functions and calls.
use workshop_operator.Prelude.{◌≡◌, ◌≢◌, refl, inl, inr, Bool, true, false, arith, Bool-cases}
use workshop_operator.Kube.Flow.{
  Return, Step, next, ret, panic, out_of_fuel, Code, pure, ◌>>=◌, proceed, function, returned,
  propagate, return_if,
}

returned-ret : (s : Step Return) (r : Return) → returned s ≢ ret r
returned-ret (next a) r h = cc
returned-ret (ret q) r h = cc
returned-ret panic r h = cc
returned-ret out_of_fuel r h = cc

module _ {W : Type 0} where
  pub record IsPreorder (R : W → W → Type 0) : Type 0 where
    pub reflexive : (w : W) → R w w
    pub transitive : (u v w : W) → R u v → R v w → R u w

  pub record Meets {A : Type 0} (R : W → W → Type 0) (stop : Return → Bool) (Q : W → W → Type 0)
      (m : Code W A) : Type 0 where
    pub keeps : (w : W) → R w (m w).1
    pub done : (w : W) (a : A) → (m w).0 ≡ next a → Q w (m w).1
    pub early : (w : W) (r : Return) → (m w).0 ≡ ret r → stop r ≡ true

  -- The same of a function that is called: it has gone well unless `stop` holds of its result.
  pub record MeetsCall (R : W → W → Type 0) (stop : Return → Bool) (Q : W → W → Type 0)
      (m : Code W Return) : Type 0 where
    pub keeps : (w : W) → R w (m w).1
    pub done : (w : W) (r : Return) → (m w).0 ≡ next r → stop r ≡ false → Q w (m w).1
    pub returns : (w : W) (r : Return) → (m w).0 ≢ ret r

  module _ {R : W → W → Type 0} (pre : IsPreorder R) {stop : Return → Bool} where
    pub Meets-pure :
        {A : Type 0} {Q : W → W → Type 0} (a : A) → ((w : W) → Q w w) → Meets R stop Q (pure a)
    unfolding pure
    Meets-pure a q = record { keeps = pre.reflexive; done = λ w b e. q w; early = λ w r e. cc }

    module _ {A B : Type 0} (m : Code W A) (f : A → Code W B) {P Q S : W → W → Type 0}
        (im : Meets R stop P m) (ik : (a : A) → Meets R stop Q (f a))
        (join : (u v w : W) → R u v → R v w → P u v → Q v w → S u w) where
      proceed-keeps : (w : W) (s : Step A) → R w (proceed s f (m w).1).1
      proceed-keeps w (next a) = pre.transitive _ _ _ (im.keeps w) ((ik a).keeps (m w).1)
      proceed-keeps w (ret r) = im.keeps w
      proceed-keeps w panic = im.keeps w
      proceed-keeps w out_of_fuel = im.keeps w

      proceed-done :
          (w : W) (s : Step A) (b : B)
          → (m w).0 ≡ s
          → (proceed s f (m w).1).0 ≡ next b
          → S w (proceed s f (m w).1).1
      proceed-done w (next a) b e h =
          join w (m w).1 _ (im.keeps w) ((ik a).keeps _) (im.done w a e) ((ik a).done _ b h)
      proceed-done w (ret r) b e h = cc
      proceed-done w panic b e h = cc
      proceed-done w out_of_fuel b e h = cc

      proceed-early :
          (w : W) (s : Step A) (r : Return)
          → (m w).0 ≡ s
          → (proceed s f (m w).1).0 ≡ ret r
          → stop r ≡ true
      proceed-early w (next a) r e h = (ik a).early _ r h
      proceed-early w (ret q) r e h = ground (arith, im.early w q e)
      proceed-early w panic r e h = cc
      proceed-early w out_of_fuel r e h = cc

      pub Meets-bind : Meets R stop S (m >>= f)
      unfolding ◌>>=◌
      Meets-bind = record {
        keeps = λ w. proceed-keeps w (m w).0;
        done = λ w b h. proceed-done w (m w).0 b refl h;
        early = λ w r h. proceed-early w (m w).0 r refl h;
      }

  -- A function's early return is its value.
  pub function-ne-ret : (m : Code W Return) (w : W) (r : Return) → (function m w).0 ≢ ret r
  unfolding function
  function-ne-ret m w r h = returned-ret (m w).0 r h

  module _ {R : W → W → Type 0} {stop : Return → Bool} {Q : W → W → Type 0} where
    function-done :
        (m : Code W Return) (w : W) (s : Step Return) (r : Return)
        → Meets R stop Q m
        → (m w).0 ≡ s
        → returned s ≡ next r
        → stop r ≡ false
        → Q w (m w).1
    function-done m w (next a) r im e h n = im.done w a e
    function-done m w (ret q) r im e h n = absurd (ground (arith, im.early w q e))
    function-done m w panic r im e h n = cc
    function-done m w out_of_fuel r im e h n = cc

    pub MeetsCall-function :
        (m : Code W Return) → Meets R stop Q m → MeetsCall R stop Q (function m)
    unfolding function
    MeetsCall-function m im = record {
      keeps = im.keeps;
      done = λ w r h n. function-done m w (m w).0 r im refl h n;
      returns = λ w r h. returned-ret (m w).0 r h;
    }

    -- The caller's own test holds of what it hands on.
    module _ {stop' : Return → Bool} (h : Code W Return) (ih : MeetsCall R stop Q h)
        (imp : (r : Return) → stop r ≡ true → stop' r ≡ true) where
      hand_on-done :
          (w : W) (s : Step Return) (a : Unit {0})
          → (h w).0 ≡ s
          → (proceed s (return_if stop) (h w).1).0 ≡ next a
          → Q w (proceed s (return_if stop) (h w).1).1
      unfolding return_if
      hand_on-done w (next r) a e q = elim (Bool-cases (stop r)) [
        | inl t ↦ absurd (ground arith)
        | inr f ↦ rw (f, return_if) (ih.done w r e f)
      ]
      hand_on-done w (ret r) a e q = cc
      hand_on-done w panic a e q = cc
      hand_on-done w out_of_fuel a e q = cc

      hand_on-early :
          (w : W) (s : Step Return) (r : Return)
          → (h w).0 ≡ s
          → (proceed s (return_if stop) (h w).1).0 ≡ ret r
          → stop' r ≡ true
      unfolding return_if
      hand_on-early w (next q) r e g = ground (arith, imp q)
      hand_on-early w (ret q) r e g = absurd (ih.returns w q e)
      hand_on-early w panic r e g = cc
      hand_on-early w out_of_fuel r e g = cc

      return_if-world : (w : W) (s : Step Return) → (proceed s (return_if stop) w).1 ≡ w
      unfolding return_if
      return_if-world w (next q) = ground arith
      return_if-world w (ret q) = refl
      return_if-world w panic = refl
      return_if-world w out_of_fuel = refl

      pub Meets-propagate : Meets R stop' Q (propagate stop h)
      unfolding propagate
      Meets-propagate = record {
        keeps = λ w. rw return_if-world (ih.keeps w);
        done = λ w a q. hand_on-done w (h w).0 a refl q;
        early = λ w r q. hand_on-early w (h w).0 r refl q;
      }
