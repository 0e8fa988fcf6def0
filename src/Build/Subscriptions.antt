-- ===== src/Build/Subscriptions.antt =====
-- common/kubernetes/subscription.go
use workshop_operator.Prelude.{String, none, [], ◌∷◌}
use workshop_operator.Kube.Object.{Object, subscription_spec, SubscriptionStatus}
use workshop_operator.Kube.Env.{Env}
use workshop_operator.Build.Base.{Workshop, workshop_object, object_meta}

abbrev pub no_status : SubscriptionStatus
no_status = record { installed_csv = ""; install_plan_ref = none }

module _ (name namespace_name package_name channel starting_csv : String) where
  unfoldable pub new_certified_subscription : Object
  new_certified_subscription = record {
    meta = object_meta name namespace_name (
        ("csc-owner-name", "certified-operators")
        ∷ ("csc-owner-namespace", "openshift-marketplace")
        ∷ []);
    spec =
        subscription_spec
          (record {
            catalog_source = "certified-operators";
            catalog_source_namespace = "openshift-marketplace";
            package_name = package_name;
            channel = channel;
            starting_csv = starting_csv;
            install_plan_approval = "Manual";
          })
          no_status;
  }

  unfoldable pub new_red_hat_subscription : Object
  new_red_hat_subscription = record {
    meta = object_meta name namespace_name (
        ("csc-owner-name", "redhat-operators")
        ∷ ("csc-owner-namespace", "openshift-marketplace")
        ∷ []);
    spec =
        subscription_spec
          (record {
            catalog_source = "redhat-operators";
            catalog_source_namespace = "openshift-marketplace";
            package_name = package_name;
            channel = channel;
            starting_csv = starting_csv;
            install_plan_approval = "Manual";
          })
          no_status;
  }

  -- This one is owned by the workshop.
  unfoldable pub new_community_subscription : Env → Workshop → Object
  new_community_subscription env ws = env.set_controller_reference (workshop_object ws) (record {
    meta = object_meta name namespace_name (
        ("csc-owner-name", "community-operators")
        ∷ ("csc-owner-namespace", "openshift-marketplace")
        ∷ []);
    spec =
        subscription_spec
          (record {
            catalog_source = "community-operators";
            catalog_source_namespace = "openshift-marketplace";
            package_name = package_name;
            channel = channel;
            starting_csv = starting_csv;
            install_plan_approval = "Manual";
          })
          no_status;
  })
