-- ===== src/Lib.antt =====
-- workshop-operator: a Kubernetes operator that installs what a workshop on OpenShift needs.
--
-- The controller reads a Workshop object and calls a handler for each component, which creates
-- the component's objects in the cluster, or deletes them when the workshop is deleted. A handler
-- returns a result and an error; one that asks for another run ends the run of the controller.
--
-- Parts and files:
--   Prelude      shared names; Boolean tests, texts (strconv, strings), Go's maps, Go's int
--   Api          api/v1/workshop_types.go
--   Kube         the cluster. Object: the objects that the operator writes and reads. Env: what
--                the operator calls and does not implement, a record of operations on a state.
--                Flow: Go code as state passing with early returns, panics and fuel;
--                common/util/reconcile.go. Idiom: the statements that handlers repeat. Lawful: what
--                is relied on in a cluster, as a record: "lawful" below. Meets, Installs, Removes,
--                Protects, Runs, Stores, Deletes: rules for code over that record. Deploy and Rounds:
--                a deployment that is created or updated, and the loop over users, which two handlers
--                have each. Merge: an object that is created or changed; Same
--                compares lists. Release: finalizers that are taken away. Watch: common/kubernetes/k8s_helpers.go. Memory: a cluster in memory.
--                Valid: what the cluster checks of a deployment.
--   Build        the builders of objects in common/kubernetes, common/user, common/redis,
--                common/usernamedistribution, common/nexus, common/gitea, common/bookbag,
--                common/vault, common/argocd and common/maistra
--   Util         common/util
--   User         controllers/user_reconciler.go
--   Project      controllers/project_reconciler.go
--   InstallPlan  controllers/installplan.go
--   Pipelines    controllers/pipelines_reconciler.go
--   Serverless   controllers/serverless_reconciler.go
--   CertManager  controllers/certmanager_reconciler.go and common/certmanager
--   Portal       controllers/portal_reconciler.go; its deployments are in Build
--   Bookbag      controllers/bookbag_reconciler.go
--   Nexus        controllers/nexus_reconciler.go
--   Gitea        controllers/gitea_reconciler.go
--   Vault        controllers/vault_reconciler.go
--   GitOps       controllers/gitops_reconciler.go
--   ServiceMesh  controllers/servicemesh_reconciler.go
--   Controller   controllers/workshop_controller.go and controllers/finalizer.go
--   Tests        examples, to which the theorems are applied
--
-- How the code is read: a method of the reconciler is a function of the same name from an
-- environment and its arguments to `Code`; `r.Create(ctx, o)` is `env.create o`, and `if result, err
-- := f(); util.IsRequeued(result, err) { return … }` is `propagate is_requeued f`. Log lines are left
-- out. A range over a map visits its keys in an order that the environment chooses, each time anew.
-- A watch that is stopped hands out some more events, as many as the environment says. What a
-- read answers is left open in a lawful cluster: the client of the manager reads from a cache, which
-- can be behind what was written. A theorem that needs an answer says so: a cluster that answers
-- reads is one for which the cache is not behind.
-- What the cluster fills in (UIDs, status, timestamps) is empty in an object that is built.
--
-- Bounds: the loops without a bound in project_reconciler.go and bookbag_reconciler.go run on fuel, one unit for each round;
-- the result `out_of_fuel` is a loop that has made all of them and goes on. A run makes a
-- round for each user, and then looks for the projects, or the bookbags, behind them up to the first
-- number that has none: as many rounds as that number are enough. The loop that
-- deletes bookbags ends at the latest at the first number whose bookbag has no route. The loop over the events of a watch is a recursion on them. `int` values are integers without a bound: they count users.
--
-- Not modelled: the handlers of code ready workspaces, which are fields of `Controller.Handlers`, the
-- registration with the manager, the events and logs that are read to be logged, generated code, and
-- third-party libraries, whose calls are fields of `Kube.Env`, `Controller.Libraries` and `Gitea.Web`.
pub mod Prelude
pub mod Api
pub mod Kube
pub mod Build
pub mod Util
pub mod User
pub mod Project
pub mod InstallPlan
pub mod Pipelines
pub mod Serverless
pub mod Portal
pub mod Bookbag
pub mod Vault
pub mod GitOps
pub mod ServiceMesh
pub mod Nexus
pub mod Gitea
pub mod CertManager
pub mod Controller
mod Tests
