-- ===== src/Kube/Rounds/Bounds.antt =====
-- How many rounds the loop makes at most.
use workshop_operator.Prelude.{
  ◌≡◌, ◌⊎◌, refl, ap, ◌∙◌, ℕ, zero, suc, ◌≤◌, ◌<◌, ◌+◌, Bool, true, false, arith, inl, inr,
}
use workshop_operator.Kube.Object.{Ref}
use workshop_operator.Kube.Env.{Env, failed, not_found}
use workshop_operator.Kube.Flow.{Code, pure, ◌>>=◌}
use workshop_operator.Kube.Idiom.{get_object}
use workshop_operator.Kube.Runs.{Runs, Ended, Runs-pure, Runs-bind, Runs-get}
use workshop_operator.Kube.Rounds.{rounds_from, is_not_found}

here_or_later : (id n : ℕ) → id ≤ n → (id ≡ n) ⊎ (suc id ≤ n)
here_or_later id n h = ground arith

-- `P` is kept by reads and by the work for each number but `n`, where nothing is to be done and
-- the object is not found.
module _ (env : Env) (P : env.World → Type 0) (wanted : ℕ → Bool)
    (work : ℕ → Code env.World (Unit {0})) (probe : ℕ → Ref) (n : ℕ)
    (reads : (r : Ref) (w : env.World) → P w → P (env.get r w).1)
    (absent : (w : env.World) → P w → (env.get (probe n) w).0 ≡ failed not_found)
    (beyond : wanted n ≡ false) (works : (id : ℕ) → wanted id ≡ true → Runs P (work id)) where
  open env use {World}

  abbrev pub loop : ℕ → ℕ → Code World (Unit {0})
  loop = rounds_from env wanted work probe

  Runs-cases :
      {A : Type 0} (b : Bool) (m k : Code World A)
      → (b ≡ true → Runs P m)
      → (b ≡ false → Runs P k)
      → Runs P (elim b as (λ _. Code World A) [ true ↦ m | false ↦ k ])
  Runs-cases true m k h l = h refl
  Runs-cases false m k h l = l refl

  not_beyond : {b : Bool} → b ≡ true → b ≡ false → ⊥
  not_beyond t f = cc

  -- The last read finds nothing.
  last_read :
      (id : ℕ) (w : World) (rest : Code World (Unit {0}))
      → id ≡ n
      → P w
      → let m : Code World (Unit {0}) = do
        g ← get_object env (probe id)
        elim (is_not_found g) [ true ↦ pure tt | false ↦ rest ]
        in Ended (m w).0 × P (m w).1
  unfolding get_object ◌>>=◌
  last_read id w rest e h = rw (e, absent w h) (tt, reads (probe n) w h)

  pub rounds_from-Runs : (fuel id : ℕ) → id ≤ n → n < fuel + id → Runs P (loop fuel id)
  unfolding rounds_from
  rounds_from-Runs zero id le enough = absurd (omega arith)
  rounds_from-Runs (suc fuel) id le enough =
      Runs-cases (wanted id) _ _
        (λ t. elim (here_or_later id n le) [
          | inl e ↦ absurd (not_beyond t (ap wanted e ∙ beyond))
          | inr l ↦
              Runs-bind P _ _ (works id t) (λ _. rounds_from-Runs fuel (suc id) l (omega arith))
        ])
        (λ f. elim (here_or_later id n le) [
          | inl e ↦ record { at = λ w h. last_read id w _ e h }
          | inr l ↦ Runs-bind P _ _ (Runs-get env P _ (reads _)) λ g.
              Runs-cases (is_not_found g) _ _ (λ _. Runs-pure P tt)
                (λ _. rounds_from-Runs fuel (suc id) l (omega arith))
        ])
