-- ===== src/Kube/Rounds/Objects.antt =====
-- The objects that the rounds of the loop put in place.
use workshop_operator.Prelude.{
  ◌≡◌, ◌⊎◌, refl, ℕ, zero, suc, ◌≤◌, Bool, true, false, arith, List, inl, inr,
}
use workshop_operator.Kube.Object.{Ref}
use workshop_operator.Kube.Env.{Env}
use workshop_operator.Kube.Flow.{Code, Return}
use workshop_operator.Kube.Idiom.{get_object}
use workshop_operator.Kube.Lawful.{IsLawful}
use workshop_operator.Kube.Meets.{Meets, Meets-pure, Meets-bind}
use workshop_operator.Kube.Installs.{
  AllPresent, AllPresent-keep, KeepsPresent, KeepsPresent-IsPreorder, Installs,
}
use workshop_operator.Kube.Rounds.{rounds_from, is_not_found}

module _ (env : Env) (law : IsLawful env) (refs : ℕ → List Ref) (users : ℕ) where
  open env use {World}

  -- The objects of the numbers from one on are there.
  abbrev pub Covers : ℕ → World → World → Type 0
  Covers id _ w = (i : ℕ) → id ≤ i → i ≤ users → AllPresent env law w (refs i)

module _ (env : Env) (law : IsLawful env) (stop : Return → Bool) (wanted : ℕ → Bool)
    (work : ℕ → Code env.World (Unit {0})) (probe : ℕ → Ref) (refs : ℕ → List Ref) (users : ℕ)
    (wants : (i : ℕ) → i ≤ users → wanted i ≡ true)
    (works : (i : ℕ) → Installs env law stop (work i) (refs i)) where
  open env use {World}

  abbrev pub loop : ℕ → ℕ → Code World (Unit {0})
  loop = rounds_from env wanted work probe

  Meets-cases :
      {A : Type 0} {Q : World → World → Type 0} (b : Bool) (m n : Code World A)
      → (b ≡ true → Meets (KeepsPresent env law) stop Q m)
      → (b ≡ false → Meets (KeepsPresent env law) stop Q n)
      → Meets (KeepsPresent env law) stop Q (elim b as (λ _. Code World A) [ true ↦ m | false ↦ n ])
  Meets-cases true m n h k = h refl
  Meets-cases false m n h k = k refl

  get-Meets : (r : Ref) → Meets (KeepsPresent env law) stop (λ _ _. Unit {0}) (get_object env r)
  unfolding get_object
  get-Meets r = record {
    keeps = λ w q h. ground (arith, law.get_keeps r w q);
    done = λ w a e. tt;
    early = λ w q e. cc;
  }

  here_or_later : (id i : ℕ) → id ≤ i → (id ≡ i) ⊎ (suc id ≤ i)
  here_or_later id i h = ground arith

  pub rounds_from-Covers :
      (fuel id : ℕ)
      → Meets (KeepsPresent env law) stop (Covers env law refs users id) (loop fuel id)
  unfolding rounds_from
  rounds_from-Covers zero id = record {
    keeps = λ w r h. h;
    done = λ w a e. cc;
    early = λ w r e. cc;
  }
  rounds_from-Covers (suc fuel) id =
      Meets-cases (wanted id) _ _
        (λ t.
          Meets-bind (KeepsPresent-IsPreorder env law) _ _ (works id).meets
            (λ _. rounds_from-Covers fuel (suc id))
            λ u v w _ kept p q i le le'. elim (here_or_later id i le) [
              | inl e ↦ rw (← e) (AllPresent-keep env law (refs id) v w kept p)
              | inr l ↦ q i l le'
            ])
        (λ f.
          let behind : (i : ℕ) → id ≤ i → i ≤ users → ⊥ = λ i le le'. ground (arith, wants id) in
          Meets-bind (KeepsPresent-IsPreorder env law) _ _ (get-Meets _)
            (λ g.
              Meets-cases (is_not_found g) _ _
                (λ _.
                  Meets-pure (KeepsPresent-IsPreorder env law) tt
                    (λ w i le le'. absurd (behind i le le')))
                (λ _. record {
                  keeps = (rounds_from-Covers fuel (suc id)).keeps;
                  done = λ w a e i le le'. absurd (behind i le le');
                  early = (rounds_from-Covers fuel (suc id)).early;
                }))
            (λ u v w _ _ _ q. q))
