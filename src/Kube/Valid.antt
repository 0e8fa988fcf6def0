-- ===== src/Kube/Valid.antt =====
-- What the cluster checks of a deployment, so that its first container can be read.
use workshop_operator.Prelude.{
  ◌≡◌, ◌≢◌, Bool, true, false, Option, none, some, List, [], ◌∷◌, All, if◌then◌else◌, arith, not,
  Bool-cases, inl, inr, ap, sym, ◌∙◌, ◌&&◌, ◌=ₛ◌,
}
use workshop_operator.Kube.Object.{
  Object, Ref, ref, deployment, deployment_spec, kind_of, Container,
}
use workshop_operator.Kube.Env.{Env, found, Error, not_found}
use workshop_operator.Kube.Deploy.{first_container}
use workshop_operator.Kube.Memory.{memory, find, is_there, without, same, same-eq}

-- A deployment has a container.
abbrev pub is_valid : Object → Bool
is_valid o = elim o.spec [
  | deployment_spec d ↦ elim d.pod.containers [ _ ∷ _ ↦ true | [] ↦ false ]
  | _ ↦ true
]

module _ (env : Env) where
  open env use {World}

  -- The API server refuses what is not valid, so what it holds stays valid.
  pub record Validates : Type 1 where
    pub valid : World → Type 0
    pub get_has_container :
        (r : Ref) (w : World) {o : Object}
        → r.kind ≡ deployment
        → valid w
        → (env.get r w).0 ≡ found o
        → first_container o ≢ none
    pub get_valid : (r : Ref) (w : World) → valid w → valid (env.get r w).1
    pub create_valid :
        (o : Object) (w : World) → is_valid o ≡ true → valid w → valid (env.create o w).1
    pub update_valid :
        (o : Object) (w : World) → is_valid o ≡ true → valid w → valid (env.update o w).1

abbrev pub AllValid : List Object → Type 0
AllValid = All (λ o. is_valid o ≡ true)

valid_container :
    (o : Object) → kind_of o.spec ≡ deployment → is_valid o ≡ true → first_container o ≢ none
valid_container o k v h = ground arith

container_or_none : Option Object → Option Container
container_or_none none = none
container_or_none (some o) = first_container o

find-valid :
    (r : Ref) (os : List Object) (o : Object)
    → r.kind ≡ deployment
    → AllValid os
    → find r os ≡ some o
    → first_container o ≢ none
unfolding find container_or_none
find-valid r [] o k v e = absurd (ground arith)
find-valid r (x ∷ os) o k (vx, vs) e = elim (Bool-cases (same (ref x) r)) [
  | inl t ↦ λ n.
      let hit : find r (x ∷ os) ≡ some x = ground arith in
      valid_container x (ap (λ q. q.kind) (same-eq (ref x) r t) ∙ k) vx
        (ap container_or_none (sym hit ∙ e) ∙ n)
  | inr f ↦ find-valid r os o k vs (ground arith)
]

if-valid :
    (b : Bool) (xs ys : List Object) → AllValid xs → AllValid ys → AllValid (if b then xs else ys)
if-valid true xs ys v u = v
if-valid false xs ys v u = u

stored-valid :
    (b : Bool) (p q : Option Error × List Object)
    → AllValid p.1
    → AllValid q.1
    → AllValid (if b then p else q).1
stored-valid true p q v u = v
stored-valid false p q v u = u

without-valid : (r : Ref) (os : List Object) → AllValid os → AllValid (without r os)
unfolding without
without-valid r [] v = tt
without-valid r (o ∷ os) (v, vs) =
    if-valid (not (same (ref o) r)) _ _ (v, without-valid r os vs) (without-valid r os vs)

found-find :
    (r : Ref) (w : List Object) (o : Object) → (memory.get r w).0 ≡ found o → find r w ≡ some o
found-find r w o e = ground arith

pub memory-Validates : Validates memory
memory-Validates = record {
  valid = AllValid;
  get_has_container = λ r w k v e. find-valid r w _ k v (found-find r w _ e);
  get_valid = λ r w v. v;
  create_valid = λ o w a v. stored-valid (is_there w (ref o)) _ _ v (a, v);
  update_valid = λ o w a v.
      stored-valid (is_there w (ref o) && not (o.meta.name =ₛ "")) (none, o ∷ without (ref o) w)
        (some not_found, w) (a, without-valid (ref o) w v) v;
}

pub valid_lem : (os : List Object) → AllValid os → memory-Validates.valid os
unfolding memory-Validates
valid_lem os v = v
