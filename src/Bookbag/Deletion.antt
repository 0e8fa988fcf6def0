-- ===== src/Bookbag/Deletion.antt =====
-- The loop of `deleteBookbag`.
use workshop_operator.Prelude.{
  ◌≡◌, ℕ, zero, suc, String, ◌<>◌, Bool, true, false, List, [], ◌∷◌, ◌++◌, itoa, ◌≢◌, ◌≤◌, ◌<◌, ◌+◌,
  eqb, Bool-cases, arith, sym, ◌∙◌, inl, inr,
}
use workshop_operator.Kube.Object.{
  Ref, namespace, config_map, service_account, role_binding, deployment, service, route, Object,
}
use workshop_operator.Kube.Env.{Env}
use workshop_operator.Kube.Flow.{Code, Return, next, success, is_requeued, pure, ◌>>=◌, function}
use workshop_operator.Kube.Errors.{requeue_fails}
use workshop_operator.Kube.Lawful.{IsLawful}
use workshop_operator.Kube.Removes.{
  Removed, Removes, RemovesCall-function, Removes-pure, Removes-bind, Removes-get, Removes-delete,
  delete-Removes,
}
use workshop_operator.Kube.Runs.{
  Runs, Runs-pure, Runs-bind, Runs-delete, Runs-get, proceed-Ended, returned-Ended,
}
use workshop_operator.Kube.Idiom.{delete_or_return}
use workshop_operator.Kube.Deletes.{some_removed}
use workshop_operator.Kube.Rounds.{is_not_found}
use workshop_operator.Build.Base.{Workshop}
use workshop_operator.Build.Cluster.{new_namespace, new_role_binding_sa}
use workshop_operator.Build.Workloads.{new_config_map, new_service_account, new_service, new_route}
use workshop_operator.Build.Bookbag.{new_bookbag_deployment}
use workshop_operator.Bookbag.{delete_user, delete_from, delete_bookbag, bookbag_name}
use workshop_operator.Bookbag.Objects.{guide_ref}

-- The objects of the bookbag with a name, in the order in which they are deleted.
abbrev pub deleted_refs : (name : String) → List Ref
deleted_refs name =
    guide_ref route name
    ∷ guide_ref service name
    ∷ guide_ref deployment name
    ∷ guide_ref role_binding name
    ∷ guide_ref service_account name
    ∷ guide_ref config_map (name <> "-vars")
    ∷ guide_ref config_map (name <> "-env")
    ∷ []

module _ (env : Env) (law : IsLawful env) (ws : Workshop) where
  open env use {World}

  delete_user-Removes :
      (name user_id suffix console_url : String)
      → Removes env law is_requeued
          (delete_user env ws name user_id suffix console_url)
          (deleted_refs name)
  unfolding new_config_map new_service_account new_role_binding_sa new_bookbag_deployment
      new_service new_route
  delete_user-Removes name user_id suffix console_url =
      search
        (
          Removes-delete env law is_requeued requeue_fails,
          delete-Removes env law is_requeued requeue_fails,
        )
        depth 10

  cases-Removes :
      (b : Bool) (n : Code World (Unit {0}))
      → Removes env law is_requeued n []
      → Removes env law is_requeued
          (elim b as (λ _. Code World (Unit {0})) [ true ↦ pure tt | false ↦ n ])
          []
  cases-Removes true n i = Removes-pure env law is_requeued tt
  cases-Removes false n i = i

  delete_from-Removes :
      (fuel id : ℕ) (user_id suffix console_url : String)
      → Removes env law is_requeued
          (delete_from env ws fuel id user_id suffix console_url)
          (deleted_refs (bookbag_name (itoa id)))
  unfolding delete_from
  delete_from-Removes zero id user_id suffix console_url = record {
    meets = record { keeps = λ w r h. h; done = λ w a e. cc; early = λ w r e. cc };
  }
  delete_from-Removes (suc fuel) id user_id suffix console_url =
      Removes-bind env law is_requeued {l = deleted_refs (bookbag_name (itoa id))} {k = []} _ _
        (delete_user-Removes (bookbag_name (itoa id)) user_id suffix console_url)
        λ _. Removes-get env law is_requeued _ _ λ g. cases-Removes (is_not_found g) _ (
          some_removed env law is_requeued
            (delete_from-Removes fuel (suc id) user_id suffix console_url))

  -- In a lawful cluster, a run of `deleteBookbag` that is not requeued has found the objects of the
  -- bookbag of user 1 and the namespace of the guides, and all but the namespace, which lingers, are
  -- gone.
  pub delete_bookbag-Removed :
      (fuel user_id : ℕ) (suffix console_url : String) (w : World) (r : Return)
      → (delete_bookbag env ws fuel user_id suffix console_url w).0 ≡ next r
      → is_requeued r ≡ false
      → Removed env law
          (deleted_refs (bookbag_name "1")
            ++ record { kind = namespace; namespace_name = ""; name = "workshop-guides" } ∷ [])
          w
          (delete_bookbag env ws fuel user_id suffix console_url w).1
  unfolding delete_bookbag new_namespace itoa
  delete_bookbag-Removed fuel user_id suffix console_url w r e n =
      (RemovesCall-function env law is_requeued _ (
          Removes-bind env law is_requeued {l = deleted_refs (bookbag_name "1")} _ _
            (delete_from-Removes fuel 1 (itoa user_id) suffix console_url)
            λ _.
              Removes-delete env law is_requeued requeue_fails _ _
                (Removes-pure env law is_requeued success))).meets.done
        w r e n

  -- A bookbag without a route: its round ends with an error at the first delete.
  module _ (n : ℕ) (user_id suffix console_url : String) where
    abbrev Absent : World → Type 0
    Absent w = law.present w (guide_ref route (bookbag_name (itoa n))) ≡ false

    delete-Absent : (o : Object) (w : World) → Absent w → Absent (env.delete o w).1
    delete-Absent o w h = law.delete_adds_nothing o w _ h

    delete_user-Runs :
        (name : String) → Runs Absent (delete_user env ws name user_id suffix console_url)
    delete_user-Runs name =
        let delete : (o : Object) → Runs Absent (delete_or_return env o) =
          λ o. Runs-delete env Absent o (delete-Absent o) in
        Runs-bind Absent _ _ (delete _) λ _. Runs-bind Absent _ _ (delete _) λ _.
          Runs-bind Absent _ _ (delete _) λ _.
            Runs-bind Absent _ _ (delete _) λ _.
              Runs-bind Absent _ _ (delete _) λ _. Runs-bind Absent _ _ (delete _) λ _. delete _

    last-stops :
        (w : World) (a : Unit {0})
        → Absent w
        → (delete_user env ws (bookbag_name (itoa n)) user_id suffix console_url w).0 ≢ next a
    last-stops w a h e = true_ne_false (
        sym (
          ((delete_user-Removes (bookbag_name (itoa n)) user_id suffix console_url).meets.done w a
            e).0)
        ∙ h)
      where
        true_ne_false : true ≢ false
        true_ne_false p = cc

    cases-Runs :
        (b : Bool) (m : Code World (Unit {0}))
        → Runs Absent m
        → Runs Absent (elim b as (λ _. Code World (Unit {0})) [ true ↦ pure tt | false ↦ m ])
    cases-Runs true m h = Runs-pure Absent tt
    cases-Runs false m h = h

    loop-Runs :
        (fuel id : ℕ)
        → id ≤ n
        → n < fuel + id
        → Runs Absent (delete_from env ws fuel id user_id suffix console_url)
    unfolding delete_from ◌>>=◌
    loop-Runs zero id low high = absurd (omega (arith, low, high))
    loop-Runs (suc fuel) id low high = elim (Bool-cases (eqb id n)) [
      | inl e ↦ record {
        at = λ w h.
            let (ended, p) = (delete_user-Runs (bookbag_name (itoa id))).at w h in
            proceed-Ended Absent _ _ _ ended p λ a s. absurd (last-stops w a h (rw (← same e) s));
      }
      | inr e ↦ Runs-bind Absent _ _ (delete_user-Runs (bookbag_name (itoa id))) λ _.
          Runs-bind Absent _ _ (Runs-get env Absent _ (λ w h. law.get_keeps _ w _ ∙ h)) λ g.
            cases-Runs (is_not_found g) _ (loop-Runs fuel (suc id) (ground arith) (omega arith))
    ]
      where
        same : eqb id n ≡ true → id ≡ n
        same e = ground arith

  -- Where a lawful cluster has no route for the bookbag of a number `n` from 1 on, `deleteBookbag`
  -- returns a result within `n` rounds, whatever its reads answer: a round deletes the route first,
  -- and an error of a delete is returned.
  pub delete_bookbag-returns :
      (n user_id : ℕ) (suffix console_url : String) (w : World)
      → 1 ≤ n
      → law.present w (guide_ref route (bookbag_name (itoa n))) ≡ false
      → (r : Return) × ((delete_bookbag env ws n user_id suffix console_url w).0 ≡ next r)
  unfolding delete_bookbag function
  delete_bookbag-returns n user_id suffix console_url w low h =
      let P = Absent n (itoa user_id) suffix console_url in
      returned-Ended _
        ((Runs-bind P _ _ (loop-Runs n (itoa user_id) suffix console_url n 1 low (omega arith)) λ _.
            Runs-bind P _ _
              (Runs-delete env P _ (delete-Absent n (itoa user_id) suffix console_url _))
              (λ _. Runs-pure P success)).at
          w h).0
