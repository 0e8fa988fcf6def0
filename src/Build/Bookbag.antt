-- ===== src/Build/Bookbag.antt =====
-- common/bookbag/bookbag.go
use workshop_operator.Prelude.{String, ◌<>◌, none, [], ◌∷◌, StringMap}
use workshop_operator.Kube.Object.{
  Object, Container, PodSpec, deployment_spec, config_map_source, empty_dir_source,
}
use workshop_operator.Build.Base.{Workshop, object_meta, container_of, pod_of, literal_var, mount}

-- The text of a JSON object: a line for each of its names.
abbrev json_line : (name value : String) → String
json_line name value = "\t\"" <> name <> "\": \"" <> value <> "\""

abbrev pub workshop_vars : Workshop → (user_id suffix console_url : String) → String
workshop_vars ws user_id suffix console_url =
    "{\n"
    <> json_line "OPENSHIFT_CONSOLE_URL" console_url
    <> ",\n"
    <> json_line "APPS_HOSTNAME_SUFFIX" suffix
    <> ",\n"
    <> json_line "USER_ID" user_id
    <> ",\n"
    <> json_line "OPENSHIFT_PASSWORD" ws.spec.user_details.default_password
    <> ",\n"
    <> json_line "CHE_URL" ("http://codeready-workspaces." <> suffix)
    <> ",\n"
    <> json_line "GIT_URL" ("https://gitea-server-gitea." <> suffix)
    <> ",\n"
    <> json_line "JAEGER_URL" ("https://jaeger-istio-system." <> suffix)
    <> ",\n"
    <> json_line "KIALI_URL" ("https://kiali-istio-system." <> suffix)
    <> ",\n"
    <> json_line "KIBANA_URL" ("https://kibana-openshift-logging." <> suffix)
    <> ",\n"
    <> json_line "GITOPS_URL" ("https://argocd-server-argocd." <> suffix)
    <> ",\n"
    <> json_line "WORKSHOP_GIT_REPO" ws.spec.source.git_url
    <> ",\n"
    <> json_line "WORKSHOP_GIT_REF" ws.spec.source.git_branch
    <> "\n}"

abbrev setup_container : (image : String) → Container
setup_container image = record (container_of "setup-console" image) {
  command = "/opt/workshop/bin/setup-console.sh" ∷ [];
  env =
      literal_var "CLUSTER_SUBDOMAIN" ""
      ∷ literal_var "OPENSHIFT_PROJECT" ""
      ∷ literal_var "OPENSHIFT_USERNAME" ""
      ∷ literal_var "OPENSHIFT_PASSWORD" ""
      ∷ literal_var "OPENSHIFT_TOKEN" ""
      ∷ literal_var "OC_VERSION" ""
      ∷ literal_var "ODO_VERSION" ""
      ∷ literal_var "KUBECTL_VERSION" ""
      ∷ [];
  volume_mounts =
      mount "shared" "/var/run/workshop" ∷ mount "workshopvars" "/var/run/workshop-vars" ∷ [];
}

abbrev terminal_container : (name image username default_password vars : String) → Container
terminal_container name image username default_password vars =
    record (container_of "terminal" image) {
      image_pull_policy = "Always";
      env =
          literal_var "APPLICATION_NAME" name
          ∷ literal_var "AUTH_USERNAME" username
          ∷ literal_var "AUTH_PASSWORD" default_password
          ∷ literal_var "OAUTH_SERVICE_ACCOUNT" "bookbag"
          ∷ literal_var "DOWNLOAD_URL" ""
          ∷ literal_var "WORKSHOP_FILE" ""
          ∷ literal_var "CONSOLE_URL" "http://0.0.0.0:10083"
          ∷ literal_var "OC_VERSION" ""
          ∷ literal_var "ODO_VERSION" ""
          ∷ literal_var "KUBECTL_VERSION" ""
          ∷ literal_var "WORKSHOP_VARS" vars
          ∷ [];
      ports = record { name = ""; container_port = 10080; protocol = "TCP" } ∷ [];
      volume_mounts =
          mount "shared" "/var/run/workshop" ∷ mount "workshopvars" "/var/run/workshop-vars" ∷ [];
    }

abbrev console_container : Container
console_container = record (container_of "console" "quay.io/openshift/origin-console:4.2") {
  command = "/var/run/workshop/start-console.sh" ∷ [];
  env =
      literal_var "BRIDGE_K8S_MODE" "in-cluster"
      ∷ literal_var "BRIDGE_LISTEN" "http://0.0.0.0:10083"
      ∷ literal_var "BRIDGE_BASE_PATH" "/console/"
      ∷ literal_var "BRIDGE_PUBLIC_DIR" "/opt/bridge/static"
      ∷ literal_var "BRIDGE_USER_AUTH" "disabled"
      ∷ literal_var "BRIDGE_BRANDING" "openshift"
      ∷ [];
  volume_mounts = mount "shared" "/var/run/workshop" ∷ [];
}

abbrev bookbag_image : Workshop → String
bookbag_image ws =
    ws.spec.infrastructure.guide.bookbag.image.name <> ":"
    <> ws.spec.infrastructure.guide.bookbag.image.tag

abbrev bookbag_pod : Workshop → (name user_id suffix console_url : String) → PodSpec
bookbag_pod ws name user_id suffix console_url =
    record (pod_of (
      terminal_container name (bookbag_image ws) ("user" <> user_id)
        ws.spec.user_details.default_password (workshop_vars ws user_id suffix console_url)
      ∷ console_container
      ∷ [])) {
        service_account_name = name;
        volumes =
            record { name = "envvars"; source = config_map_source (name <> "-env") }
            ∷ record { name = "workshopvars"; source = config_map_source (name <> "-vars") }
            ∷ record { name = "shared"; source = empty_dir_source }
            ∷ [];
        init_containers = setup_container (bookbag_image ws) ∷ [];
      }

unfoldable pub new_bookbag_deployment :
    Workshop
    → (name namespace_name : String) (labels : StringMap String)
      (user_id suffix console_url : String)
    → Object
new_bookbag_deployment ws name namespace_name labels user_id suffix console_url = record {
  meta = object_meta name namespace_name labels;
  spec = deployment_spec (record {
    replicas = none;
    match_labels = labels;
    strategy = "RollingUpdate";
    template_labels = labels;
    pod = bookbag_pod ws name user_id suffix console_url;
  });
}
