-- ===== src/Build.antt =====
-- The functions that build the objects (common/kubernetes, common/user, common/redis, common/usernamedistribution,
-- common/nexus, common/gitea, common/bookbag, common/vault, common/argocd, common/maistra): no calls, only data.
pub mod Base
pub mod Cluster
pub mod Subscriptions
pub mod Users
pub mod Workloads
pub mod Deployments
pub mod Roles
pub mod Operators
pub mod Resources
pub mod Bookbag
pub mod Vault
pub mod GitOps
pub mod Mesh
