-- ===== src/Tests/Projects.antt =====
-- Examples for controllers/project_reconciler.go.
use workshop_operator.Kube.Rounds.{rounds_from}
use workshop_operator.Prelude.{◌≡◌, ◌≢◌, refl, itoa, String, [], arith}
use workshop_operator.Kube.Env.{Env, not_found, other, failed}
use workshop_operator.Kube.Flow.{
  Return, success, next, out_of_fuel, is_requeued, ◌>>=◌, function, propagate,
}
use workshop_operator.Kube.Idiom.{get_object, create_or_exists}
use workshop_operator.Kube.Memory.{
  memory, memory-IsLawful, memory-AnswersReads, absent_lem, find, is_there, same,
}
use workshop_operator.Kube.Installs.{AllPresent}
use workshop_operator.Project.{
  reconcile_project, delete_project, add_project, manage_roles, user_role_binding,
  default_role_binding, argocd_edit_role_binding,
}
use workshop_operator.Build.Cluster.{new_namespace, new_role_binding_users, new_role_binding_sa}
use workshop_operator.Project.Objects.{project_refs, reconcile_project-AllPresent}
use workshop_operator.Project.Termination.{reconcile_project-returns}
use workshop_operator.Project.Deletion.{Reads, delete_project-Reads}
use workshop_operator.Project.Endless.{reconcile_project-endless, delete_project-endless}
use workshop_operator.Tests.{two_users, unnamed_projects, no_projects}

named : ◌≢◌ {A = String} "project" ""
named p = cc

-- Three rounds: two users, and the read that finds nothing.
reconcile_project-AllPresent_example :
    AllPresent memory memory-IsLawful
      (reconcile_project memory two_users 3 2 []).1
      (project_refs two_users 2)
unfolding reconcile_project is_requeued function ◌>>=◌ propagate add_project create_or_exists
    is_there find manage_roles same new_namespace user_role_binding new_role_binding_users
    default_role_binding new_role_binding_sa itoa argocd_edit_role_binding get_object rounds_from
reconcile_project-AllPresent_example =
    reconcile_project-AllPresent memory memory-IsLawful two_users 2 refl named 3 [] success refl
      refl 2 (omega arith) (omega arith)

reconcile_project-returns_example :
    (r : Return) × ((reconcile_project memory two_users 3 2 []).0 ≡ next r)
unfolding is_there find
reconcile_project-returns_example =
    reconcile_project-returns memory memory-IsLawful memory-AnswersReads two_users 3 2 (omega arith)
      [] (absent_lem _ _ refl)

delete_project-Reads_example : Reads memory [] (delete_project memory two_users 2 2 []).1
unfolding delete_project function ◌>>=◌ get_object find rounds_from
delete_project-Reads_example = delete_project-Reads memory two_users 2 2 [] refl

-- A cluster whose reads fail.
abbrev unreachable : Env
unreachable = record memory { get = λ r os. (failed (other "unreachable"), os) }

other_ne : other "unreachable" ≢ not_found
other_ne p = cc

reconcile_project-endless_example :
    (reconcile_project unreachable no_projects 5 2 []).0 ≡ out_of_fuel
reconcile_project-endless_example =
    reconcile_project-endless unreachable no_projects (other "unreachable") other_ne (λ r w. refl)
      refl 5 2 []

delete_project-endless_example : delete_project memory unnamed_projects 5 1 [] ≡ (out_of_fuel, [])
delete_project-endless_example =
    delete_project-endless memory unnamed_projects refl refl 5 1 [] (omega arith)
