-- ===== src/Tests.antt =====
-- Examples: workshops on which the theorems are applied, in the cluster of Kube/Memory.
mod Users
mod Projects
mod Operators
mod Components
mod Services
mod Argo
mod Meshes
mod Bookbags
use workshop_operator.Prelude.{String, Bool, true, false, none, some, List, [], ◌∷◌}
use workshop_operator.Prelude.Int.{ℤ, pos}
use workshop_operator.Api.{OperatorHubSpec, ImageSpec, WorkshopSpec}
use workshop_operator.Kube.Object.{Object, user_spec, deployment_spec}
use workshop_operator.Gitea.{Web}
use workshop_operator.Build.Base.{Workshop, object_meta, pod_of, container_of}
use workshop_operator.Controller.{workshop_finalizer}

abbrev hub : OperatorHubSpec
hub = record { channel = "stable"; cluster_service_version = "v1.2.0" }

abbrev image : ImageSpec
image = record { name = "image"; tag = "1" }

abbrev pub spec_of : (users : ℤ) (projects : Bool) (staging_name : String) → WorkshopSpec
spec_of users projects staging_name = record {
  source = record { git_url = "https://git.example.com/workshop"; git_branch = "main" };
  user_details = record {
    user_name_prefix = "student";
    number_of_users = users;
    default_password = "secret";
  };
  infrastructure = record {
    cert_manager = record { enabled = true; operator_hub = hub };
    code_ready_workspace = record {
      enabled = false;
      operator_hub = hub;
      openshift_oauth = false;
      plugin_registry_image = image;
    };
    gitea = record { enabled = true; image = image };
    git_ops = record { enabled = true; operator_hub = hub };
    guide = record {
      bookbag = record { enabled = true; image = image };
      scholars = record { enabled = false; guide_url = [] };
    };
    nexus = record { enabled = true; image = image };
    pipeline = record { enabled = true; operator_hub = hub };
    project = record { enabled = projects; staging_name = staging_name };
    service_mesh = record {
      enabled = false;
      service_mesh_operator_hub = hub;
      elastic_search_operator_hub = hub;
      jaeger_operator_hub = hub;
      kiali_operator_hub = hub;
    };
    serverless = record { enabled = true; operator_hub = hub };
    vault = record { enabled = true; image = image; agent_injector_image = image };
  };
}

-- Functions of Go's libraries, in their simplest form.
abbrev pub web : Web
web = record { encode = λ form. "form"; byte_length = λ text. 4; is_url = λ text. true }

abbrev pub deployment_of : (name namespace_name : String) → Object
deployment_of name namespace_name = record {
  meta = object_meta name namespace_name [];
  spec = deployment_spec (record {
    replicas = some 1;
    match_labels = [];
    strategy = "";
    template_labels = [];
    pod = pod_of (container_of name name ∷ []);
  });
}

-- Two users, each with a project.
abbrev pub two_users : Workshop
two_users = record {
  meta = object_meta "workshop" "operator" [];
  spec = spec_of (pos 2) true "project";
}

abbrev pub unnamed_projects : Workshop
unnamed_projects = record two_users { spec = spec_of (pos 2) true "" }

abbrev pub no_projects : Workshop
no_projects = record two_users { spec = spec_of (pos 2) false "project" }

-- Marked to be deleted, with the finalizer.
abbrev pub deleted_workshop : Workshop
deleted_workshop = record {
  meta = record (object_meta "workshop" "operator" []) {
    finalizers = workshop_finalizer ∷ [];
    deletion_timestamp = some 1;
  };
  spec = spec_of (pos 2) true "project";
}
