-- ===== src/Build/Vault.antt =====
-- common/vault: statefulset.go, deployment.go and webhooks.go; and common/kubernetes,
-- mutatingwebhookconfiguration.go
use workshop_operator.Prelude.{String, ◌<>◌, true, none, some, List, [], ◌∷◌, StringMap}
use workshop_operator.Kube.Object.{
  Object, Container, PodSpec, PodSecurityContext, Probe, MutatingWebhook, deployment_spec,
  stateful_set_spec, mutating_webhook_configuration_spec, exec, http_get, config_map_source,
}
use workshop_operator.Build.Base.{
  Workshop, object_meta, container_of, pod_of, literal_var, field_var, mount,
}

abbrev vault_image : Workshop → String
vault_image ws =
    ws.spec.infrastructure.vault.image.name <> ":" <> ws.spec.infrastructure.vault.image.tag

abbrev agent_injector_image : Workshop → String
agent_injector_image ws =
    ws.spec.infrastructure.vault.agent_injector_image.name <> ":"
    <> ws.spec.infrastructure.vault.agent_injector_image.tag

abbrev server_script : String
server_script =
    "sed -E \"s/HOST_IP/${HOST_IP?}/g\" /vault/config/extraconfig-from-values.hcl > /tmp/storageconfig.hcl;\n"
    <> "sed -Ei \"s/POD_IP/${POD_IP?}/g\" /tmp/storageconfig.hcl;\n"
    <> "/usr/local/bin/docker-entrypoint.sh vault server -config=/tmp/storageconfig.hcl"

abbrev vault_container : (image : String) → Container
vault_container image = record (container_of "vault" image) {
  added_capabilities = "IPC_LOCK" ∷ [];
  image_pull_policy = "IfNotPresent";
  command = "/bin/sh" ∷ "-ec" ∷ [];
  args = server_script ∷ [];
  env =
      field_var "HOST_IP" "status.hostIP"
      ∷ field_var "POD_IP" "status.podIP"
      ∷ literal_var "VAULT_ADDR" "http://127.0.0.1:8200"
      ∷ literal_var "VAULT_API_ADDR" "http-internal://$(POD_IP):8200"
      ∷ literal_var "SKIP_CHOWN" "true"
      ∷ literal_var "SKIP_SETCAP" "true"
      ∷ field_var "HOSTNAME" "metadata.name"
      ∷ [];
  volume_mounts = mount "data" "/vault/data" ∷ mount "config" "/vault/config" ∷ [];
  ports =
      record { name = "http"; container_port = 8200; protocol = "" }
      ∷ record { name = "internal"; container_port = 8201; protocol = "" }
      ∷ record { name = "replication"; container_port = 8202; protocol = "" }
      ∷ [];
  readiness_probe = some (record {
    handler = exec ("/bin/sh" ∷ "-ec" ∷ "vault status -tls-skip-verify" ∷ []);
    initial_delay_seconds = 5;
    period_seconds = 3;
    success_threshold = 1;
    failure_threshold = 2;
    timeout_seconds = 5;
  });
  pre_stop = some (exec ("/bin/sh" ∷ "-c" ∷ "sleep 5 && kill -SIGTERM $(pidof vault)" ∷ []));
}

abbrev non_root : PodSecurityContext
non_root = record {
  run_as_non_root = true;
  run_as_group = 1000;
  run_as_user = 100;
  fs_group = none;
}

abbrev vault_pod : Workshop → (name : String) (labels : StringMap String) → PodSpec
vault_pod ws name labels = record (pod_of (vault_container (vault_image ws) ∷ [])) {
  anti_affinity = record { match_labels = labels; topology_key = "kubernetes.io/hostname" } ∷ [];
  termination_grace_period_seconds = some 10;
  service_account_name = name;
  security_context = some (record non_root { fs_group = some 1000 });
  volumes = record { name = "config"; source = config_map_source (name <> "-config") } ∷ [];
}

unfoldable pub new_stateful_set :
    Workshop → (name namespace_name : String) (labels : StringMap String) → Object
new_stateful_set ws name namespace_name labels = record {
  meta = object_meta name namespace_name labels;
  spec = stateful_set_spec (record {
    service_name = name <> "-internal";
    pod_management_policy = "Parallel";
    replicas = some 1;
    update_strategy = "OnDelete";
    match_labels = labels;
    template_labels = labels;
    pod = vault_pod ws name labels;
    claim_templates =
        record { name = "data"; access_modes = "ReadWriteOnce" ∷ []; storage = "10Gi" } ∷ [];
  });
}

-- The probe for liveness and for readiness.
abbrev health_probe : Probe
health_probe = record {
  handler = http_get "/health/ready" 8080 "HTTPS";
  initial_delay_seconds = 1;
  period_seconds = 2;
  success_threshold = 1;
  failure_threshold = 2;
  timeout_seconds = 5;
}

abbrev injector_container : Workshop → (name namespace_name : String) → Container
injector_container ws name namespace_name =
    record (container_of "sidecar-injector" (agent_injector_image ws)) {
      image_pull_policy = "IfNotPresent";
      env =
          literal_var "AGENT_INJECT_LISTEN" ":8080"
          ∷ literal_var "AGENT_INJECT_LOG_LEVEL" "info"
          ∷ literal_var "AGENT_INJECT_VAULT_ADDR" ("http://vault." <> namespace_name <> ".svc:8200")
          ∷ literal_var "AGENT_INJECT_VAULT_AUTH_PATH" "auth/kubernetes"
          ∷ literal_var "AGENT_INJECT_VAULT_IMAGE" (vault_image ws)
          ∷ literal_var "AGENT_INJECT_TLS_AUTO" (name <> "-cfg")
          ∷ literal_var "AGENT_INJECT_TLS_AUTO_HOSTS" (
              "vault-agent-injector,vault-agent-injector." <> namespace_name
              <> ",vault-agent-injector." <> namespace_name <> "svc")
          ∷ literal_var "AGENT_INJECT_LOG_FORMAT" "standard"
          ∷ literal_var "AGENT_INJECT_REVOKE_ON_SHUTDOWN" "false"
          ∷ [];
      args = "agent-inject" ∷ "2>&1" ∷ [];
      liveness_probe = some health_probe;
      readiness_probe = some health_probe;
    }

unfoldable pub new_agent_injector_deployment :
    Workshop → (name namespace_name : String) (labels : StringMap String) → Object
new_agent_injector_deployment ws name namespace_name labels = record {
  meta = object_meta name namespace_name labels;
  spec = deployment_spec (record {
    replicas = some 1;
    match_labels = labels;
    strategy = "";
    template_labels = labels;
    pod = record (pod_of (injector_container ws name namespace_name ∷ [])) {
      service_account_name = name;
      security_context = some non_root;
    };
  });
}

unfoldable pub new_agent_injector_web_hook : (namespace_name : String) → List MutatingWebhook
new_agent_injector_web_hook namespace_name =
    record {
      name = "vault.hashicorp.com";
      service_name = "vault-agent-injector";
      service_namespace = namespace_name;
      service_path = "/mutate";
      side_effects = "NoneOnDryRun";
      failure_policy = "Ignore";
      admission_review_versions = "v1" ∷ [];
      rules =
          record {
            operations = "CREATE" ∷ "UPDATE" ∷ [];
            api_groups = "" ∷ [];
            api_versions = "v1" ∷ [];
            resources = "pods" ∷ [];
          }
          ∷ [];
    }
    ∷ []

unfoldable pub new_mutating_webhook_configuration :
    (name : String) (labels : StringMap String) → List MutatingWebhook → Object
new_mutating_webhook_configuration name labels webhooks = record {
  meta = object_meta name "" labels;
  spec = mutating_webhook_configuration_spec webhooks;
}
