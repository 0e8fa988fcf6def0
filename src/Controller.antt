-- ===== src/Controller.antt =====
-- controllers/workshop_controller.go and controllers/finalizer.go: the reconcile loop's body.
pub mod Finalizer
use workshop_operator.Prelude.{
  ℕ, String, ◌<>◌, Bool, true, false, Option, none, some, List, [], ◌∷◌,
}
use workshop_operator.Prelude.Int.{ℤ, pos, negsuc}
use workshop_operator.Api.{WorkshopSpec}
use workshop_operator.Kube.Object.{Object, Ref, route, workshop, workshop_spec, route_spec}
use workshop_operator.Kube.Env.{Env, Got, found, failed, not_found, other}
use workshop_operator.Kube.Flow.{
  Code, Return, success, failure, panic, is_requeued, pure, give_back, ◌>>=◌, ◌>>◌, function,
  propagate,
}
use workshop_operator.Kube.Idiom.{update_or_return, get_object}
use workshop_operator.Build.Base.{Workshop, workshop_object}
use workshop_operator.Util.{contains}
use workshop_operator.User.{reconcile_user, delete_users}
use workshop_operator.Project.{reconcile_project, delete_project}
use workshop_operator.Bookbag.{reconcile_bookbag, delete_bookbag}
use workshop_operator.Nexus.{reconcile_nexus, delete_nexus}
use workshop_operator.Gitea.{Web, reconcile_gitea, delete_gitea}
use workshop_operator.GitOps.{reconcile_git_ops, delete_git_ops}
use workshop_operator.ServiceMesh.{reconcile_service_mesh, delete_service_mesh_service}
use workshop_operator.Vault.{reconcile_vault, delete_vault}
use workshop_operator.Pipelines.{reconcile_pipelines, delete_pipelines}
use workshop_operator.Portal.{reconcile_portal, delete_portal}
use workshop_operator.CertManager.{reconcile_cert_manager, delete_cert_manager}
use workshop_operator.Serverless.{reconcile_serverless, delete_serverless}

abbrev pub workshop_finalizer : String
workshop_finalizer = "finalizer.workshop.stakater.com"

-- Third-party functions: `FindStringSubmatch` of `regexp.MustCompile(pattern)`, `url.QueryEscape`, and
-- `controllerutil.AddFinalizer` and `RemoveFinalizer`, which change the workshop they are given.
pub record Libraries : Type 0 where
  pub find_string_submatch : (pattern text : String) → List String
  pub query_escape : String → String
  pub web : Web
  pub add_finalizer : Workshop → String → Workshop
  pub remove_finalizer : Workshop → String → Workshop

-- The handlers of code ready workspaces, which the controller calls.
pub record Handlers (W : Type 0) : Type 0 where
  pub reconcile_code_ready_workspace : Workshop → ℕ → (suffix console_url : String) → Code W Return
  pub delete_code_ready_workspace : Workshop → ℕ → (suffix : String) → Code W Return

-- `users := NumberOfUsers; if users < 0 { users = 0 }`
abbrev pub clamp_users : ℤ → ℕ
clamp_users (pos n) = n
clamp_users (negsuc _) = 0

abbrev pub console_ref : Ref
console_ref = record { kind = route; namespace_name = "openshift-console"; name = "console" }

abbrev pub workshop_ref : (name namespace_name : String) → Ref
workshop_ref name namespace_name = record {
  kind = workshop;
  namespace_name = namespace_name;
  name = name;
}

-- `route.Spec.Host`
abbrev pub host_of : Object → String
host_of o = elim o.spec [ route_spec r ↦ r.host | _ ↦ "" ]

abbrev pub apps_hostname_pattern : String
apps_hostname_pattern = "^console-openshift-console.(.*?)$"

-- The error of `reconcileUser` is returned, but not its result.
abbrev pub only_error : Return → Return
only_error r = record { requeue = false; requeue_after = pos 0; error = r.error }

module _ (env : Env) (lib : Libraries) (h : Handlers env.World) where
  open env use {World}

  -- `match[1]`, which panics where the expression does not match.
  second : List String → Code World String
  second (_ ∷ s ∷ _) = pure s
  second _ = λ w. (panic, w)

  unfoldable pub handle_delete :
      (fuel : ℕ) → Workshop → ℕ → (suffix console_url : String) → Code World Return
  handle_delete fuel ws user_id suffix console_url = function do
    propagate is_requeued (delete_users env)
    propagate is_requeued (delete_portal env lib.query_escape ws user_id suffix console_url)
    propagate is_requeued (delete_project env ws fuel user_id)
    propagate is_requeued (delete_bookbag env ws fuel user_id suffix console_url)
    propagate is_requeued (delete_nexus env ws)
    propagate is_requeued (delete_gitea env ws)
    propagate is_requeued (delete_pipelines env ws)
    propagate is_requeued (delete_git_ops env ws user_id suffix console_url)
    propagate is_requeued (h.delete_code_ready_workspace ws user_id suffix)
    propagate is_requeued (delete_service_mesh_service env ws user_id)
    propagate is_requeued (delete_serverless env ws)
    propagate is_requeued (delete_vault env ws)
    propagate is_requeued (delete_cert_manager env ws)
    pure success

  -- The result of `handleDelete` is dropped.
  finalize : (fuel : ℕ) → Workshop → ℕ → (suffix console_url : String) → Code World Return
  finalize fuel ws users suffix console_url =
      elim (contains ws.meta.finalizers workshop_finalizer) [
        | true ↦ do
          handle_delete fuel ws users suffix console_url
          update_or_return env (workshop_object (lib.remove_finalizer ws workshop_finalizer))
          pure success
        | false ↦ pure success
      ]

  -- The workshop that the rest of the handler works with.
  with_finalizer : Workshop → Code World Workshop
  with_finalizer ws = elim (contains ws.meta.finalizers workshop_finalizer) [
    | true ↦ pure ws
    | false ↦ do
      update_or_return env (workshop_object (lib.add_finalizer ws workshop_finalizer))
      pure (lib.add_finalizer ws workshop_finalizer)
  ]

  return_user_error : Return → Code World (Unit {0})
  return_user_error r = elim (is_requeued r) [ true ↦ give_back (only_error r) | false ↦ pure tt ]

  install : (fuel : ℕ) → Workshop → ℕ → (suffix console_url : String) → Code World Return
  install fuel read users suffix console_url = do
    ws ← with_finalizer read
    result ← reconcile_user env ws
    return_user_error result
    propagate is_requeued (reconcile_portal env lib.query_escape ws users suffix console_url)
    propagate is_requeued (reconcile_project env ws fuel users)
    propagate is_requeued (reconcile_bookbag env ws fuel users suffix console_url)
    propagate is_requeued (reconcile_nexus env ws)
    propagate is_requeued (reconcile_gitea env lib.web ws users)
    propagate is_requeued (reconcile_pipelines env ws)
    propagate is_requeued (reconcile_git_ops env ws users suffix console_url)
    propagate is_requeued (h.reconcile_code_ready_workspace ws users suffix console_url)
    propagate is_requeued (reconcile_service_mesh env ws users)
    propagate is_requeued (reconcile_serverless env ws)
    propagate is_requeued (reconcile_vault env ws users)
    propagate is_requeued (reconcile_cert_manager env ws)
    pure success

  -- The deletion timestamp is set, or not.
  unfoldable pub install_or_finalize :
      (fuel : ℕ) → Workshop → ℕ → (suffix console_url : String) → Code World Return
  unfolding install finalize with_finalizer return_user_error
  install_or_finalize fuel ws users suffix console_url = elim ws.meta.deletion_timestamp [
    | some _ ↦ finalize fuel ws users suffix console_url
    | none ↦ install fuel ws users suffix console_url
  ]

  with_console : (fuel : ℕ) → Workshop → Got → Code World Return
  with_console fuel ws (failed e) = give_back (failure e)
  with_console fuel ws (found o) = do
    suffix ← second (lib.find_string_submatch apps_hostname_pattern (host_of o))
    install_or_finalize fuel ws (clamp_users ws.spec.user_details.number_of_users) suffix
        ("https://" <> host_of o)

  -- A workshop is what a read of that kind finds; any other object cannot be decoded.
  with_workshop : (fuel : ℕ) → Got → Code World Return
  with_workshop fuel (failed not_found) = pure success
  with_workshop fuel (failed e) = give_back (failure e)
  with_workshop fuel (found o) = elim o.spec [
    | workshop_spec spec ↦ do
      console ← get_object env console_ref
      with_console fuel (record { meta = o.meta; spec = spec }) console
    | _ ↦ give_back (failure (other "not a Workshop"))
  ]

  unfoldable pub reconcile : (fuel : ℕ) → (name namespace_name : String) → Code World Return
  unfolding with_workshop with_console second
  reconcile fuel name namespace_name =
      function
        do answer ← get_object env (workshop_ref name namespace_name); with_workshop fuel answer
