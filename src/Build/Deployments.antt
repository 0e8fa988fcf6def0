-- ===== src/Build/Deployments.antt =====
-- common/redis/deployment.go and common/usernamedistribution/deployment.go
use workshop_operator.Prelude.{
  ℕ, String, ◌<>◌, true, false, none, some, List, [], ◌∷◌, StringMap, lookup, itoa,
}
use workshop_operator.Kube.Object.{
  Object, secret_key, Container, deployment_spec, exec, tcp_socket, claim_source,
}
use workshop_operator.Kube.Env.{Env}
use workshop_operator.Build.Base.{
  Workshop, workshop_object, object_meta, container_of, pod_of, probe_of, literal_var, mount,
}
use workshop_operator.Util.{value_or_empty}

abbrev pub redis_container : String → Container
redis_container name =
    record (container_of name
      "image-registry.openshift-image-registry.svc:5000/openshift/redis:5") {
        env = record { name = "REDIS_PASSWORD"; source = secret_key "database-password" name } ∷ [];
        image_pull_policy = "IfNotPresent";
        memory_request = some "512Mi";
        memory_limit = some "512Mi";
        readiness_probe =
            some
              (record (probe_of (
                exec (
                  "/bin/sh" ∷ "-i" ∷ "-c"
                  ∷ "test \"$(redis-cli -h 127.0.0.1 -a $REDIS_PASSWORD ping)\" == \"PONG\""
                  ∷ []))) {
                    initial_delay_seconds = 5;
                    failure_threshold = 10;
                    timeout_seconds = 1;
                  });
        liveness_probe = some (record (probe_of (tcp_socket 6379)) {
          initial_delay_seconds = 30;
          failure_threshold = 3;
          timeout_seconds = 1;
        });
        ports = record { name = ""; container_port = 6379; protocol = "TCP" } ∷ [];
        volume_mounts = mount (name <> "-data") "/var/lib/redis/data" ∷ [];
      }

unfoldable pub new_redis_deployment :
    Env → Workshop → (name namespace_name : String) (labels : StringMap String) → Object
new_redis_deployment env ws name namespace_name labels =
    env.set_controller_reference (workshop_object ws) (record {
      meta = object_meta name namespace_name labels;
      spec = deployment_spec (record {
        replicas = none;
        match_labels = labels;
        strategy = "RollingUpdate";
        template_labels = labels;
        pod = record (pod_of (redis_container name ∷ [])) {
          volumes = record { name = name <> "-data"; source = claim_source name } ∷ [];
        };
      });
    })

-- The parameters of a guide's address, over the function of `net/url`.
abbrev pub guide_url_parameters :
    (query_escape : String → String) → Workshop → (suffix : String) → String
guide_url_parameters query_escape ws suffix =
    "APPS_HOSTNAME_SUFFIX="
    <> suffix
    <> "&USER_ID=%USER_ID%"
    <> "&OPENSHIFT_PASSWORD="
    <> ws.spec.user_details.default_password
    <> "&WORKSHOP_GIT_REPO="
    <> query_escape ws.spec.source.git_url
    <> "&WORKSHOP_GIT_REF="
    <> ws.spec.source.git_branch

-- `fmt.Sprintf("%s?%s;%s", guideURL, guideURLParameters, guideName)`
abbrev pub lab_module_url : (guide_url : StringMap String) (parameters name : String) → String
lab_module_url guide_url parameters name =
    value_or_empty (lookup name guide_url) <> "?" <> parameters <> ";" <> name

-- The guides after the first one, in the order of the range.
abbrev pub more_lab_module_urls :
    (guide_url : StringMap String) (parameters urls : String) → List String → String
more_lab_module_urls guide_url parameters urls [] = urls
more_lab_module_urls guide_url parameters urls (name ∷ names) =
    more_lab_module_urls guide_url parameters
      (urls <> "," <> lab_module_url guide_url parameters name) names

abbrev pub lab_module_urls :
    (guide_url : StringMap String) (parameters : String) → List String → String
lab_module_urls guide_url parameters [] =
    "https://docs.openshift.com/container-platform/latest/welcome/index.html;openshift_docs"
lab_module_urls guide_url parameters (name ∷ names) =
    more_lab_module_urls guide_url parameters (lab_module_url guide_url parameters name) names

abbrev pub portal_container :
    Workshop → (name redis_service_name : String) (users : ℕ) (urls : String) → Container
portal_container ws name redis_service_name users urls =
    record (container_of name "quay.io/mcouliba/username-distribution:latest") {
      env =
          literal_var "LAB_REDIS_HOST" redis_service_name
          ∷ literal_var "LAB_REDIS_PASS" redis_service_name
          ∷ literal_var "LAB_TITLE" "OpenShift Workshops"
          ∷ literal_var "LAB_DURATION_HOURS" "1week"
          ∷ literal_var "LAB_USER_COUNT" (itoa users)
          ∷ literal_var "LAB_USER_ACCESS_TOKEN" ws.spec.user_details.default_password
          ∷ literal_var "LAB_USER_PASS" ws.spec.user_details.default_password
          ∷ literal_var "LAB_USER_PREFIX" "user"
          ∷ literal_var "LAB_USER_PAD_ZERO" "false"
          ∷ literal_var "LAB_ADMIN_PASS" "r3dh4t1!"
          ∷ literal_var "LAB_MODULE_URLS" urls
          ∷ [];
      image_pull_policy = "IfNotPresent";
      ports = record { name = ""; container_port = 8080; protocol = "TCP" } ∷ [];
    }

-- `names` is the order of the range over the guides.
unfoldable pub new_portal_deployment :
    Env
    → (query_escape : String → String) → Workshop
    → (name : String) (labels : StringMap String) (redis_service_name : String) (users : ℕ)
      (suffix : String) (names : List String)
    → Object
new_portal_deployment env query_escape ws name labels redis_service_name users suffix names =
    let scholars = ws.spec.infrastructure.guide.scholars in
    let urls =
      lab_module_urls scholars.guide_url (guide_url_parameters query_escape ws suffix)
        (elim scholars.enabled [ true ↦ names | false ↦ [] ]) in
    env.set_controller_reference (workshop_object ws) (record {
      meta = object_meta name ws.meta.namespace_name labels;
      spec = deployment_spec (record {
        replicas = none;
        match_labels = labels;
        strategy = "RollingUpdate";
        template_labels = labels;
        pod = pod_of (portal_container ws name redis_service_name users urls ∷ []);
      });
    })
