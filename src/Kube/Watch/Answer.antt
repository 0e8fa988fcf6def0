-- ===== src/Kube/Watch/Answer.antt =====
-- What `GetDeploymentStatus` answers, and what waiting for it keeps.
use workshop_operator.Prelude.{
  ◌≡◌, ◌≢◌, ◌∙◌, refl, ℕ, String, Bool, true, false, Option, none, some, List, [], ◌∷◌, eqb, ◌-◌,
  if◌then◌else◌, arith,
}
use workshop_operator.Kube.Object.{Ref}
use workshop_operator.Kube.Env.{
  Env, WatchEvent, modified, watch_error, other_event, modified_unexpected,
}
use workshop_operator.Kube.Flow.{Code, Step, Return, next, ret, panic, give_back, ◌>>◌}
use workshop_operator.Kube.Lawful.{IsLawful}
use workshop_operator.Kube.Installs.{Installs, Installs-pure, Installs-bind}
use workshop_operator.Kube.Watch.{
  scan_events, follow, get_deployment_status, requeue_unless, wait_for_deployment, reports_scaled,
  is_over, after_event,
}

-- What the events say, in turn: the first change to one ready replica answers true, a change of
-- something else than a deployment is a nil pointer, and events that say nothing answer false.
abbrev pub first_report : List WatchEvent → Step Bool
first_report [] = next false
first_report (modified n ∷ es) = let rest = first_report es in if eqb n 1 then next true else rest
first_report (modified_unexpected ∷ es) = panic
first_report (_ ∷ es) = first_report es

abbrev pub first_events : ℕ → List WatchEvent → List WatchEvent
first_events n [] = []
first_events n (e ∷ es) = let rest = first_events (n - 1) es in if eqb n 0 then [] else e ∷ rest

-- The events up to the first error, and as many behind it as still come.
abbrev pub heard : ℕ → List WatchEvent → List WatchEvent
heard k [] = []
heard k (watch_error ∷ es) = watch_error ∷ first_events k es
heard k (e ∷ es) = e ∷ heard k es

module _ (env : Env) (name namespace_name : String) where
  open env use {World}

  module _ (n k : ℕ) (same : (u : World) → (env.ready_replicas name namespace_name u).0 ≡ some n)
      (stops : (u : World) → (env.stop_watch u).0 ≡ k) where
    -- The watch has been stopped, and a number of events is still to come.
    stopped-answer :
        (j : ℕ) (es : List WatchEvent) (w : World)
        → (scan_events env name namespace_name es (some j) w).0
          ≡ (if eqb n 1 then next true else first_report (first_events j es))
    unfolding scan_events is_over after_event reports_scaled
    stopped-answer j [] w = ground (arith, same w)
    stopped-answer j (modified m ∷ es) w =
        ground
          (arith, same w, stopped-answer (j - 1) es (env.ready_replicas name namespace_name w).1)
    stopped-answer j (modified_unexpected ∷ es) w = ground (arith, same w)
    stopped-answer j (watch_error ∷ es) w =
        ground
          (arith, same w, stopped-answer (j - 1) es (env.ready_replicas name namespace_name w).1)
    stopped-answer j (other_event ∷ es) w =
        ground
          (arith, same w, stopped-answer (j - 1) es (env.ready_replicas name namespace_name w).1)

    scan-answer :
        (es : List WatchEvent) (w : World)
        → (scan_events env name namespace_name es none w).0
          ≡ (if eqb n 1 then next true else first_report (heard k es))
    unfolding scan_events is_over after_event reports_scaled
    scan-answer [] w = ground (arith, same w)
    scan-answer (modified m ∷ es) w =
        ground (arith, same w, scan-answer es (env.ready_replicas name namespace_name w).1)
    scan-answer (modified_unexpected ∷ es) w = ground (arith, same w)
    scan-answer (watch_error ∷ es) w =
        let w' = (env.ready_replicas name namespace_name w).1 in
        ground
          (arith, same w, stops w', stopped-answer (env.stop_watch w').0 es (env.stop_watch w').1)
    scan-answer (other_event ∷ es) w =
        ground (arith, same w, scan-answer es (env.ready_replicas name namespace_name w).1)

    -- While every read of the deployment finds the same number of ready replicas, and a stopped watch
    -- hands out the same number of further events, `GetDeploymentStatus` answers true if that number of
    -- replicas is one, and otherwise what the events of its watch say in turn, up to the first error
    -- and so many behind it: true at the first change to one ready replica, a panic at the first change
    -- of something else than a deployment, and false if there is neither.
    pub get_deployment_status-answer :
        (es : List WatchEvent) (w : World)
        → (env.watch_deployment name namespace_name w).0 ≡ some es
        → (get_deployment_status env name namespace_name w).0
          ≡ (if eqb n 1 then next true else first_report (heard k es))
    unfolding get_deployment_status follow
    get_deployment_status-answer es w watched =
        rw (get_deployment_status, watched)
          (scan-answer es (env.watch_deployment name namespace_name w).1)

  module _ (law : IsLawful env) where
    after-keeps :
        (e : WatchEvent) (limit : Option ℕ) (w : World) (r : Ref)
        → law.present (after_event env name namespace_name e limit w).1 r ≡ law.present w r
    unfolding after_event
    after-keeps watch_error none w r = law.stop_keeps w r
    after-keeps watch_error (some k) w r = refl
    after-keeps _ (some k) w r = refl
    after-keeps _ none w r = refl

    scan-keeps :
        (es : List WatchEvent) (limit : Option ℕ) (w : World) (r : Ref)
        → law.present (scan_events env name namespace_name es limit w).1 r ≡ law.present w r
    unfolding scan_events is_over
    scan-keeps [] limit w r = law.ready_keeps name namespace_name w r
    scan-keeps (e ∷ es) limit w r =
        let w' = (env.ready_replicas name namespace_name w).1 in
        let after = after_event env name namespace_name e limit w' in
        ground (
          arith,
          scan-keeps es after.0 after.1 r,
          after-keeps e limit w' r,
          law.stop_keeps w' r,
          law.ready_keeps name namespace_name w r,
        )

    follow-keeps :
        (events : Option (List WatchEvent)) (w : World) (r : Ref)
        → law.present (follow env name namespace_name events w).1 r ≡ law.present w r
    unfolding follow
    follow-keeps none w r = refl
    follow-keeps (some es) w r = scan-keeps es none w r

    reports-goes_on : (e : WatchEvent) (r : Return) → reports_scaled e ≢ ret r
    unfolding reports_scaled
    reports-goes_on (modified n) r h = cc
    reports-goes_on modified_unexpected r h = cc
    reports-goes_on watch_error r h = cc
    reports-goes_on other_event r h = cc

    scan-goes_on :
        (es : List WatchEvent) (limit : Option ℕ) (w : World) (r : Return)
        → (scan_events env name namespace_name es limit w).0 ≢ ret r
    unfolding scan_events
    scan-goes_on [] limit w r h = cc
    scan-goes_on (e ∷ es) limit w r h =
        let after =
          after_event env name namespace_name e limit
            (env.ready_replicas name namespace_name w).1 in
        ground (arith, scan-goes_on es after.0 after.1 r, reports-goes_on e r)

    follow-goes_on :
        (events : Option (List WatchEvent)) (w : World) (r : Return)
        → (follow env name namespace_name events w).0 ≢ ret r
    unfolding follow
    follow-goes_on none w r h = cc
    follow-goes_on (some es) w r h = scan-goes_on es none w r h

    module _ (stop : Return → Bool) (result : Return) (stops : stop result ≡ true) where
      status-Installs : Installs env law stop (get_deployment_status env name namespace_name) []
      unfolding get_deployment_status
      status-Installs = record {
        meets = record {
          keeps = λ w r h. follow-keeps _ _ r ∙ law.watch_keeps name namespace_name w r ∙ h;
          done = λ w a e. tt;
          early = λ w r e. absurd (follow-goes_on _ _ r e);
        };
      }

      requeue-Installs :
          (b : Bool) → Installs env law stop (requeue_unless env name namespace_name result b) []
      unfolding requeue_unless give_back
      requeue-Installs true = Installs-pure env law stop tt
      requeue-Installs false = record {
        meets = record {
          keeps = λ w r h. h;
          done = λ w a e. tt;
          early = λ w r e. ground (arith, stops);
        };
      }

      -- The wait, then the rest of the block.
      pub Installs-wait :
          {B : Type 0} {l : List Ref} (n : Code World B)
          → Installs env law stop n l
          → Installs env law stop (wait_for_deployment env name namespace_name result >> n) l
      unfolding wait_for_deployment
      Installs-wait n i =
          Installs-bind env law stop {l = []} _ _
            (Installs-bind env law stop {l = []} _ _ status-Installs (requeue-Installs)) (λ _. i)
