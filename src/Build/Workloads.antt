-- ===== src/Build/Workloads.antt =====
-- common/kubernetes: secret.go, persistentvolumeclaim.go, service.go, route.go, configmap.go and
-- serviceaccount.go
use workshop_operator.Prelude.{ℕ, String, none, some, List, [], ◌∷◌, StringMap}
use workshop_operator.Kube.Object.{
  Object, ServicePort, secret_spec, persistent_volume_claim_spec, service_spec, route_spec,
  config_map_spec, service_account_spec,
}
use workshop_operator.Kube.Env.{Env}
use workshop_operator.Build.Base.{Workshop, workshop_object, object_meta}

unfoldable pub new_string_data_secret :
    (name namespace_name : String) (labels string_data : StringMap String) → Object
new_string_data_secret name namespace_name labels string_data = record {
  meta = object_meta name namespace_name labels;
  spec = secret_spec "" [] string_data;
}

unfoldable pub new_persistent_volume_claim :
    Env
    → Workshop
    → (name namespace_name : String) (labels : StringMap String) (pvc_claim_size : String) → Object
new_persistent_volume_claim env ws name namespace_name labels pvc_claim_size =
    env.set_controller_reference (workshop_object ws) (record {
      meta = object_meta name namespace_name labels;
      spec = persistent_volume_claim_spec ("ReadWriteOnce" ∷ []) pvc_claim_size;
    })

-- The port with its name, for each of the two slices' indices: `portName[i]` and `portNumber[i]`.
abbrev pub service_ports : List (String × ℕ) → List ServicePort
service_ports [] = []
service_ports ((name, port) ∷ rest) =
    record { name = name; port = port; target_port = none; protocol = "TCP" } ∷ service_ports rest

unfoldable pub new_service :
    (name namespace_name : String) (labels : StringMap String) → List (String × ℕ) → Object
new_service name namespace_name labels ports = record {
  meta = object_meta name namespace_name labels;
  spec = service_spec (service_ports ports) labels;
}

-- The target port in the third place: `targetPortNumber[i]`.
abbrev pub target_ports : List (String × ℕ × ℕ) → List ServicePort
target_ports [] = []
target_ports ((name, port, target) ∷ rest) =
    record { name = name; port = port; target_port = some target; protocol = "TCP" }
    ∷ target_ports rest

unfoldable pub new_service_with_target :
    (name namespace_name : String) (labels : StringMap String) → List (String × ℕ × ℕ) → Object
new_service_with_target name namespace_name labels ports = record {
  meta = object_meta name namespace_name labels;
  spec = service_spec (target_ports ports) labels;
}

unfoldable pub new_config_map :
    (name namespace_name : String) (labels content : StringMap String) → Object
new_config_map name namespace_name labels content = record {
  meta = object_meta name namespace_name labels;
  spec = config_map_spec content;
}

unfoldable pub new_service_account :
    (name namespace_name : String) (labels : StringMap String) → Object
new_service_account name namespace_name labels = record {
  meta = object_meta name namespace_name labels;
  spec = service_account_spec;
}

unfoldable pub new_route :
    (name namespace_name : String) (labels : StringMap String) (service_name : String) → ℕ → Object
new_route name namespace_name labels service_name port = record {
  meta = object_meta name namespace_name labels;
  spec = route_spec (record {
    host = "";
    to_kind = "Service";
    to_name = service_name;
    target_port = port;
    tls_termination = none;
  });
}

unfoldable pub new_secured_route :
    Env
    → Workshop
    → (name namespace_name : String) (labels : StringMap String) (service_name : String) → ℕ
    → Object
new_secured_route env ws name namespace_name labels service_name port =
    env.set_controller_reference (workshop_object ws) (record {
      meta = object_meta name namespace_name labels;
      spec = route_spec (record {
        host = "";
        to_kind = "Service";
        to_name = service_name;
        target_port = port;
        tls_termination = some "edge";
      });
    })
