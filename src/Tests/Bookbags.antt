-- ===== src/Tests/Bookbags.antt =====
-- Examples for controllers/bookbag_reconciler.go.
use workshop_operator.Kube.Idiom.{
  delete_or_return, update_or_return, create_or_exists, get_object, create_err,
}
use workshop_operator.Build.Bookbag.{new_bookbag_deployment}
use workshop_operator.Kube.Deploy.{store_deployment, update_changed, env_changed, update_if}
use workshop_operator.Build.Cluster.{new_role_binding_sa, new_namespace}
use workshop_operator.Build.Workloads.{new_service_account, new_config_map, new_service, new_route}
use workshop_operator.Kube.Rounds.{rounds_from}
use workshop_operator.Prelude.{◌≡◌, refl, List, [], ◌∷◌, ◌++◌, arith, digits, digit, itoa}
use workshop_operator.Kube.Object.{Object, namespace, route}
use workshop_operator.Kube.Flow.{
  Return, success, next, is_requeued, return_if, give_back, propagate, function, ◌>>=◌, pure,
}
use workshop_operator.Kube.Memory.{
  memory, memory-IsLawful, memory-AnswersReads, absent_lem, is_there, without, number, same, find,
}
use workshop_operator.Kube.Valid.{memory-Validates, valid_lem}
use workshop_operator.Kube.Installs.{AllPresent}
use workshop_operator.Kube.Removes.{Removed}
use workshop_operator.Bookbag.{
  reconcile_bookbag, delete_bookbag, add_update_bookbag, bookbag_name, looked_up, bookbag_route,
}
use workshop_operator.Bookbag.Objects.{bookbag_refs, reconcile_bookbag-AllPresent, guide_ref}
use workshop_operator.Bookbag.Termination.{reconcile_bookbag-returns}
use workshop_operator.Bookbag.Deletion.{
  deleted_refs, delete_bookbag-returns, delete_bookbag-Removed,
}
use workshop_operator.Tests.{two_users}

-- Three rounds: two users, and the read that finds nothing.
reconcile_bookbag-AllPresent_example :
    AllPresent memory memory-IsLawful
      (reconcile_bookbag memory two_users 3 2 ".example.com" "https://console" []).1
      (bookbag_refs 2)
unfolding reconcile_bookbag function ◌>>=◌ rounds_from propagate add_update_bookbag create_or_exists
    is_there find same new_namespace new_config_map itoa new_service_account new_role_binding_sa
    create_err store_deployment new_bookbag_deployment new_route new_service env_changed
    update_changed update_if give_back is_requeued pure return_if get_object update_or_return number
    digit digits
reconcile_bookbag-AllPresent_example =
    reconcile_bookbag-AllPresent memory memory-IsLawful two_users 2 refl ".example.com"
      "https://console" 3 [] success refl refl 2 (omega arith) (omega arith)

reconcile_bookbag-returns_example :
    (r : Return) × ((reconcile_bookbag memory two_users 3 2 ".example.com" "https://console" []).0
      ≡ next r)
unfolding is_there find
reconcile_bookbag-returns_example =
    reconcile_bookbag-returns memory memory-IsLawful memory-AnswersReads memory-Validates two_users
      3 2 ".example.com" "https://console" [] (omega arith) (absent_lem (looked_up 3) [] refl)
      (valid_lem [] tt)

-- The route of the first bookbag.
abbrev one_route : List Object
one_route = bookbag_route (bookbag_name "1") ∷ []

delete_bookbag-returns_example :
    (r : Return) × ((delete_bookbag memory two_users 3 2 ".example.com" "https://console"
        one_route).0
      ≡ next r)
unfolding is_there find same number itoa new_route
delete_bookbag-returns_example =
    delete_bookbag-returns memory memory-IsLawful two_users 3 2 ".example.com" "https://console"
      one_route (omega arith) (absent_lem (guide_ref route (bookbag_name (itoa 3))) one_route refl)

abbrev a_bookbag : List Object
a_bookbag = (add_update_bookbag memory two_users "1" ".example.com" "https://console" []).1

delete_bookbag-Removed_example :
    Removed memory memory-IsLawful
      (deleted_refs (bookbag_name "1")
        ++ record { kind = namespace; namespace_name = ""; name = "workshop-guides" } ∷ [])
      a_bookbag
      (delete_bookbag memory two_users 1 2 ".example.com" "https://console" a_bookbag).1
unfolding delete_bookbag function ◌>>=◌ delete_or_return is_there find add_update_bookbag
    create_or_exists same new_namespace new_config_map new_service_account new_role_binding_sa
    create_err store_deployment new_bookbag_deployment new_service new_route env_changed
    update_changed update_if give_back pure get_object update_or_return number digit digits itoa
    without is_requeued
delete_bookbag-Removed_example =
    delete_bookbag-Removed memory memory-IsLawful two_users 1 2 ".example.com" "https://console"
      a_bookbag success refl refl
