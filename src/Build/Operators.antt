-- ===== src/Build/Operators.antt =====
-- common/kubernetes: customresourcedefinition.go and operator.go
use workshop_operator.Prelude.{String, true, none, List, [], ◌∷◌, StringMap}
use workshop_operator.Kube.Object.{
  Object, Container, VolumeMount, custom_resource_definition_spec, deployment_spec, no_source,
}
use workshop_operator.Build.Base.{object_meta, container_of, pod_of, literal_var, field_var, mount}

-- No caller gives printer columns.
unfoldable pub new_custom_resource_definition :
    (name group kind list_kind plural singular version : String) (short_names : List String)
    → Object
new_custom_resource_definition name group kind list_kind plural singular version short_names =
    record {
      meta = object_meta name "" [];
      spec = custom_resource_definition_spec (record {
        group = group;
        version = version;
        scope = "Namespaced";
        kind = kind;
        list_kind = list_kind;
        plural = plural;
        singular = singular;
        short_names = short_names;
      });
    }

abbrev runner : VolumeMount
runner = mount "runner" "/tmp/ansible-operator/runner"

abbrev ansible_container : (image : String) → Container
ansible_container image = record (container_of "ansible" image) {
  image_pull_policy = "Always";
  command = "/usr/local/bin/ao-logs" ∷ "/tmp/ansible-operator/runner" ∷ "stdout" ∷ [];
  volume_mounts = record runner { read_only = true } ∷ [];
}

abbrev operator_container : (name image : String) → Container
operator_container name image = record (container_of "operator" image) {
  image_pull_policy = "Always";
  volume_mounts = runner ∷ [];
  env =
      literal_var "WATCH_NAMESPACE" ""
      ∷ literal_var "OPERATOR_NAME" name
      ∷ field_var "POD_NAME" "metadata.name"
      ∷ literal_var "ANSIBLE_GATHERING" "explicit"
      ∷ [];
}

unfoldable pub new_ansible_operator_deployment :
    (name namespace_name : String) (labels : StringMap String) (image service_account_name : String)
    → Object
new_ansible_operator_deployment name namespace_name labels image service_account_name = record {
  meta = object_meta name namespace_name labels;
  spec = deployment_spec (record {
    replicas = none;
    match_labels = labels;
    strategy = "Recreate";
    template_labels = labels;
    pod = record (pod_of (ansible_container image ∷ operator_container name image ∷ [])) {
      service_account_name = service_account_name;
      volumes = record { name = "runner"; source = no_source } ∷ [];
    };
  });
}
