-- ===== src/Tests/Operators.antt =====
-- Examples for the approval of install plans and the handlers of the operators.
use workshop_operator.Build.Users.{new_htpasswd_secret}
use workshop_operator.Prelude.{
  ◌≡◌, ◌↔◌, refl, String, true, false, some, List, [], ◌∷◌, All, StringMap, none,
}
use workshop_operator.Kube.Object.{Object, subscription_spec, install_plan_spec, ref}
use workshop_operator.Kube.Flow.{
  Code, Return, success, failure, next, is_requeued, ◌>>=◌, function, propagate,
}
use workshop_operator.Kube.Idiom.{create_or_exists, delete_or_return, get_object}
use workshop_operator.Kube.Memory.{
  memory, memory-IsLawful, find, is_there, same, without, without_lem, number, is_user,
}
use workshop_operator.Kube.Installs.{AllPresent}
use workshop_operator.Kube.Removes.{Removed}
use workshop_operator.Build.Base.{workshop_object, object_meta}
use workshop_operator.Build.Cluster.{new_namespace}
use workshop_operator.Build.Subscriptions.{new_red_hat_subscription}
use workshop_operator.InstallPlan.{approve_install_plan, subscription_ref}
use workshop_operator.InstallPlan.Trace.{Approves, approve_install_plan-Approves}
use workshop_operator.Pipelines.{add_pipelines, pipeline_subscription}
use workshop_operator.Pipelines.Calls.{add_pipelines-calls}
use workshop_operator.Serverless.{add_serverless, reconcile_serverless, delete_serverless}
use workshop_operator.Serverless.Objects.{
  serverless_refs, deleted_serverless_refs, reconcile_serverless-AllPresent,
  delete_serverless-Removed,
}
use workshop_operator.Controller.{Libraries, Handlers, handle_delete, install_or_finalize}
use workshop_operator.Controller.Finalizer.{install_or_finalize-removes}
use workshop_operator.Util.{is_intersect_map, contains}
use workshop_operator.User.{delete_users, delete_user_htpasswd}
use workshop_operator.Kube.Env.{not_found, Env}
use workshop_operator.Util.Maps.{Agrees, is_intersect_map-Agrees}
use workshop_operator.Tests.{web, two_users, deleted_workshop}

-- A subscription that waits for the approval of a plan.
abbrev waiting : List Object
waiting =
    record {
      meta = object_meta "pipelines" "operators" [];
      spec =
          subscription_spec
            (record {
              catalog_source = "redhat-operators";
              catalog_source_namespace = "openshift-marketplace";
              package_name = "pipelines";
              channel = "stable";
              starting_csv = "v1.2.0";
              install_plan_approval = "Manual";
            })
            (record {
              installed_csv = "";
              install_plan_ref = some (record { name = "plan"; uid = "" });
            });
    }
    ∷ record {
      meta = object_meta "plan" "operators" [];
      spec =
          install_plan_spec
            (record { cluster_service_version_names = "v1.2.0" ∷ []; approved = false });
    }
    ∷ []

approve_install_plan-Approves_example :
    Approves memory "v1.2.0" waiting
      (approve_install_plan memory "v1.2.0" "pipelines" "operators" waiting).1
approve_install_plan-Approves_example =
    approve_install_plan-Approves memory "v1.2.0" "pipelines" "operators" waiting

add_pipelines-calls_example :
    (add_pipelines memory two_users []).1
    ≡ (memory.get
        (subscription_ref "openshift-pipelines-operator-rh" "openshift-operators")
        (memory.create (pipeline_subscription two_users) []).1).1
unfolding add_pipelines function ◌>>=◌ create_or_exists get_object is_there find same
    new_red_hat_subscription
add_pipelines-calls_example = add_pipelines-calls memory two_users [] refl

reconcile_serverless-AllPresent_example :
    AllPresent memory memory-IsLawful (reconcile_serverless memory two_users []).1 serverless_refs
unfolding reconcile_serverless add_serverless function ◌>>=◌ propagate create_or_exists is_there
    find same new_namespace new_red_hat_subscription is_requeued
reconcile_serverless-AllPresent_example =
    reconcile_serverless-AllPresent memory memory-IsLawful two_users [] success refl refl refl

-- What `addServerless` leaves.
abbrev installed : List Object
installed = (add_serverless memory two_users []).1

delete_serverless-Removed_example :
    Removed memory memory-IsLawful deleted_serverless_refs installed
      (delete_serverless memory two_users installed).1
unfolding delete_serverless add_serverless function ◌>>=◌ create_or_exists delete_or_return is_there
    find same without new_namespace new_red_hat_subscription is_requeued
delete_serverless-Removed_example =
    delete_serverless-Removed memory memory-IsLawful two_users installed success refl refl

abbrev labels : StringMap String
labels = ("app", "gitea") ∷ ("tier", "") ∷ []

is_intersect_map-Agrees_example :
    (is_intersect_map labels (("app", "gitea") ∷ []) ≡ true)
    ↔ All (Agrees (("app", "gitea") ∷ [])) labels
is_intersect_map-Agrees_example = is_intersect_map-Agrees labels (("app", "gitea") ∷ [])

-- Third-party functions and handlers that do nothing of their own.
abbrev libraries : Libraries
libraries = record {
  find_string_submatch = λ pattern text. pattern ∷ text ∷ [];
  query_escape = λ text. text;
  web = web;
  add_finalizer =
      λ ws f. record ws { meta = record ws.meta { finalizers = f ∷ ws.meta.finalizers } };
  remove_finalizer = λ ws f. record ws { meta = record ws.meta { finalizers = [] } };
}

abbrev idle : Code (List Object) Return
idle = λ w. (next success, w)

abbrev handlers : Handlers (List Object)
handlers = record {
  reconcile_code_ready_workspace = λ _ _ _ _. idle;
  delete_code_ready_workspace = λ _ _ _. idle;
}

-- A cluster in which an object that is deleted goes with its last finalizer.
abbrev finishing : Env
finishing = record memory {
  update = λ o os.
      (none, elim o.meta.finalizers [ [] ↦ without (ref o) os | _ ↦ o ∷ without (ref o) os ]);
}

finishing-update :
    (o : Object) (os : List Object)
    → o.meta.finalizers ≡ []
    → is_there (finishing.update o os).1 (ref o) ≡ false
finishing-update o os e = rw (finishing, e) (without_lem (ref o) os)

-- Here `handleDelete` returns an error: there is no secret to delete.
install_or_finalize-removes_example :
    ((install_or_finalize finishing libraries handlers 2 deleted_workshop 2 ".example.com"
        "https://console"
        (workshop_object deleted_workshop ∷ [])).0
      ≡ next success)
    × (is_there
          (install_or_finalize finishing libraries handlers 2 deleted_workshop 2 ".example.com"
            "https://console"
            (workshop_object deleted_workshop ∷ [])).1
          (ref (workshop_object deleted_workshop))
        ≡ false)
unfolding handle_delete delete_users delete_user_htpasswd function ◌>>=◌ propagate find contains
    delete_or_return is_there is_requeued same number is_user new_htpasswd_secret
install_or_finalize-removes_example =
    install_or_finalize-removes finishing libraries handlers 2 deleted_workshop 2 ".example.com"
      "https://console" is_there (workshop_object deleted_workshop ∷ []) (failure not_found) 1
      (λ o u m e k. finishing-update o u e) refl refl refl refl refl
