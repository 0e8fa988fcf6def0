-- ===== src/Tests/Users.antt =====
-- Examples for controllers/user_reconciler.go.
use workshop_operator.Prelude.{◌≡◌, refl, itoa, insert, lookup, List, [], ◌∷◌}
use workshop_operator.Kube.Object.{Object}
use workshop_operator.Kube.Flow.{success, is_requeued, ◌>>=◌, function, propagate}
use workshop_operator.Kube.Memory.{memory, memory-IsLawful, is_there, find, same}
use workshop_operator.Kube.Installs.{AllPresent}
use workshop_operator.Kube.Protects.{Spares}
use workshop_operator.User.{reconcile_user, add_user, create_user_htpasswd}
use workshop_operator.Kube.Idiom.{get_object, create_or_exists, create_err}
use workshop_operator.User.Objects.{user_refs}
use workshop_operator.User.Safety.{Mine}
use workshop_operator.User.Sync.{sync_users, reconcile_user-sync_users}
use workshop_operator.User.Outcome.{reconcile_user-AllPresent, reconcile_user-Spares}
use workshop_operator.Build.Users.{
  new_user, new_user_role_binding, new_identity, new_user_identity_mapping, new_htpasswd_secret,
}
use workshop_operator.Tests.{two_users}

reconcile_user-sync_users_example : reconcile_user memory two_users ≡ sync_users memory two_users
reconcile_user-sync_users_example = reconcile_user-sync_users memory two_users

-- The cluster lists a user whom the workshop does not want.
abbrev other_user : List Object
other_user = new_user "student7" (("app", "openshift-workshop") ∷ []) ∷ []

reconcile_user-Spares_example :
    Spares memory memory-IsLawful
      (Mine memory memory-IsLawful "student1")
      other_user
      (reconcile_user memory two_users other_user).1
unfolding itoa
reconcile_user-Spares_example =
    reconcile_user-Spares memory memory-IsLawful "student1" two_users refl other_user

reconcile_user-AllPresent_example :
    AllPresent memory memory-IsLawful (reconcile_user memory two_users []).1 (user_refs "student1")
unfolding reconcile_user is_requeued itoa function ◌>>=◌ insert lookup propagate add_user
    create_or_exists is_there find same new_user new_user_role_binding get_object new_identity
    new_user_identity_mapping create_user_htpasswd create_err new_htpasswd_secret
reconcile_user-AllPresent_example =
    reconcile_user-AllPresent memory memory-IsLawful "student1" two_users refl [] success refl refl
      refl
