-- ===== src/Build/Base.antt =====
-- The workshop that every builder takes, and the parts of objects with the fields left out empty.
use workshop_operator.Prelude.{String, false, none, List, [], StringMap}
use workshop_operator.Api.{WorkshopSpec}
use workshop_operator.Kube.Object.{
  Meta, Object, workshop_spec, EnvVar, literal, field_ref, Probe, Handler, Container, PodSpec,
  VolumeMount,
}

pub record Workshop : Type 0 where
  pub meta : Meta
  pub spec : WorkshopSpec

abbrev pub workshop_object : Workshop → Object
workshop_object ws = record { meta = ws.meta; spec = workshop_spec ws.spec }

abbrev pub object_meta : (name namespace_name : String) → StringMap String → Meta
object_meta name namespace_name labels = record {
  name = name;
  namespace_name = namespace_name;
  labels = labels;
  uid = "";
  finalizers = [];
  deletion_timestamp = none;
  owner_references = [];
}

-- A container, a pod and a probe with all other fields left out.
abbrev pub container_of : (name image : String) → Container
container_of name image = record {
  name = name;
  command = [];
  args = [];
  env = [];
  image = image;
  image_pull_policy = "";
  memory_request = none;
  memory_limit = none;
  readiness_probe = none;
  liveness_probe = none;
  pre_stop = none;
  added_capabilities = [];
  ports = [];
  volume_mounts = [];
}

abbrev pub pod_of : List Container → PodSpec
pod_of containers = record {
  service_account_name = "";
  security_context = none;
  anti_affinity = [];
  termination_grace_period_seconds = none;
  volumes = [];
  init_containers = [];
  containers = containers;
}

abbrev pub probe_of : Handler → Probe
probe_of handler = record {
  handler = handler;
  initial_delay_seconds = 0;
  period_seconds = 0;
  success_threshold = 0;
  failure_threshold = 0;
  timeout_seconds = 0;
}

abbrev pub literal_var : (name value : String) → EnvVar
literal_var name value = record { name = name; source = literal value }

abbrev pub field_var : (name field_path : String) → EnvVar
field_var name field_path = record { name = name; source = field_ref field_path }

abbrev pub mount : (name mount_path : String) → VolumeMount
mount name mount_path = record { name = name; mount_path = mount_path; read_only = false }
