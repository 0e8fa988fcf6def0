-- ===== src/CertManager/Objects.antt =====
-- The objects of the cert manager, behind the approval of its install plan.
use workshop_operator.Prelude.{
  ◌≡◌, ◌≢◌, refl, sym, ap, ◌∙◌, String, true, false, List, [], ◌∷◌, arith,
}
use workshop_operator.Kube.Object.{Object, Ref, kind_of, workshop, namespace, cert_manager}
use workshop_operator.Kube.Env.{Env}
use workshop_operator.Kube.Flow.{Return, next, requeued, is_requeued, success, pure, give_back}
use workshop_operator.Kube.Errors.{requeue_fails}
use workshop_operator.Kube.Lawful.{IsLawful}
use workshop_operator.Kube.Meets.{function-ne-ret}
use workshop_operator.Kube.Installs.{
  AllPresent, KeepsPresent, Installs, InstallsCall, InstallsCall-function, Installs-pure,
  Installs-bind, Installs-create, Installs-call,
}
use workshop_operator.Kube.Removes.{
  Removed, RemovesCall, RemovesCall-function, Removes-pure, Removes-delete,
}
use workshop_operator.Build.Base.{Workshop}
use workshop_operator.Build.Cluster.{new_namespace}
use workshop_operator.Build.Subscriptions.{new_certified_subscription}
use workshop_operator.InstallPlan.{
  approve_install_plan, can_approve, set_approved, subscription_ref,
}
use workshop_operator.InstallPlan.Trace.{
  Approves, here, read, approve, approve_install_plan-Approves,
}
use workshop_operator.CertManager.{
  add_cert_manager, reconcile_cert_manager, delete_cert_manager, requeue_if_failed, add_if_enabled,
  new_custom_resource,
}

abbrev pub cert_manager_refs : List Ref
cert_manager_refs =
    subscription_ref "cert-manager-operator" "openshift-operators"
    ∷ record { kind = namespace; namespace_name = ""; name = "cert-manager" }
    ∷ record { kind = cert_manager; namespace_name = "cert-manager"; name = "cert-manager" }
    ∷ []

abbrev pub deleted_cert_manager_refs : List Ref
deleted_cert_manager_refs =
    record { kind = cert_manager; namespace_name = "cert-manager"; name = "cert-manager" }
    ∷ record { kind = namespace; namespace_name = ""; name = "cert-manager" }
    ∷ subscription_ref "cert-manager-operator" "openshift-operators"
    ∷ []

requeued-is_requeued : is_requeued requeued ≡ true
unfolding is_requeued
requeued-is_requeued = refl

-- What is approved is an install plan.
set_approved-kind :
    (version : String) (plan : Object)
    → can_approve version plan ≡ true
    → kind_of (set_approved plan).spec ≢ workshop
unfolding can_approve set_approved
set_approved-kind version plan h k = ground arith

module _ (env : Env) (law : IsLawful env) where
  open env use {World}

  -- An approval takes nothing away.
  Approves-keep :
      (version : String) (w w' : World) → Approves env version w w' → KeepsPresent env law w w'
  Approves-keep version w w' here r h = h
  Approves-keep version w w' (read q a) r h =
      Approves-keep version _ w' a r (law.get_keeps q w r ∙ h)
  Approves-keep version w w' (approve q plan g c same) r h =
      ap (λ u. law.present u r) (sym same)
      ∙ law.update_keeps_present (set_approved plan) _ r (set_approved-kind version plan c)
      ∙ law.get_keeps q w r
      ∙ h

  pub approve-Installs :
      (version name namespace_name : String)
      → Installs env law is_requeued (approve_install_plan env version name namespace_name) []
  unfolding approve_install_plan
  approve-Installs version name namespace_name = record {
    meets = record {
      keeps = λ w r h.
          Approves-keep version w _
            (approve_install_plan-Approves env version name namespace_name w) r h;
      done = λ w a e. tt;
      early = λ w r e. absurd (function-ne-ret _ w r e);
    };
  }

  pub requeue-Installs :
      (approval : Return) → Installs env law is_requeued (requeue_if_failed env approval) []
  unfolding requeue_if_failed pure give_back
  requeue-Installs approval = record {
    meets = record {
      keeps = λ w r h. ground arith;
      done = λ w a e. tt;
      early = λ w r e. ground (arith, requeued-is_requeued);
    };
  }

  module _ (ws : Workshop) where
    add_cert_manager-Installs :
        InstallsCall env law is_requeued (add_cert_manager env ws) cert_manager_refs
    unfolding add_cert_manager new_certified_subscription new_namespace new_custom_resource
    add_cert_manager-Installs = InstallsCall-function env law is_requeued _ (
        Installs-create env law is_requeued requeue_fails _ _ (
          Installs-bind env law is_requeued {l = []} _ _ (approve-Installs _ _ _) λ approval.
            Installs-bind env law is_requeued {l = []} _ _ (requeue-Installs approval) λ _.
              Installs-create env law is_requeued requeue_fails _ _ (
                Installs-create env law is_requeued requeue_fails _ _
                  (Installs-pure env law is_requeued success))))

    enabled-Installs :
        ws.spec.infrastructure.cert_manager.enabled ≡ true
        → InstallsCall env law is_requeued (reconcile_cert_manager env ws) cert_manager_refs
    unfolding reconcile_cert_manager
    enabled-Installs on =
        rw (on, add_if_enabled)
          (InstallsCall-function env law is_requeued _ (
            Installs-call env law is_requeued {k = []} is_requeued _ _ (λ r e. e)
              add_cert_manager-Installs (Installs-pure env law is_requeued success)))

    delete-Removes :
        RemovesCall env law is_requeued (delete_cert_manager env ws) deleted_cert_manager_refs
    unfolding delete_cert_manager new_certified_subscription new_namespace new_custom_resource
    delete-Removes = RemovesCall-function env law is_requeued _ (
        search (Removes-pure env law is_requeued, Removes-delete env law is_requeued requeue_fails)
          depth 8)

    -- In a lawful cluster, with the component enabled, a run of `reconcileCertManager` that is
    -- not requeued leaves the subscription, the namespace and the custom resource in the cluster,
    -- whatever the approval of the install plan does.
    pub reconcile_cert_manager-AllPresent :
        (w : World) (r : Return)
        → ws.spec.infrastructure.cert_manager.enabled ≡ true
        → (reconcile_cert_manager env ws w).0 ≡ next r
        → is_requeued r ≡ false
        → AllPresent env law (reconcile_cert_manager env ws w).1 cert_manager_refs
    reconcile_cert_manager-AllPresent w r on e n = (enabled-Installs on).meets.done w r e n

    -- In a lawful cluster, a run of `deleteCertManager` that is not requeued has found each of
    -- the objects, and the custom resource and the subscription are gone.
    pub delete_cert_manager-Removed :
        (w : World) (r : Return)
        → (delete_cert_manager env ws w).0 ≡ next r
        → is_requeued r ≡ false
        → Removed env law deleted_cert_manager_refs w (delete_cert_manager env ws w).1
    delete_cert_manager-Removed w r e n = delete-Removes.meets.done w r e n
