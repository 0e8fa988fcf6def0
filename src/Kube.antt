-- ===== src/Kube.antt =====
-- The Kubernetes objects that the operator writes, the services that it calls, and its way to
-- return early.
pub mod Object
pub mod Env
pub mod Flow
pub mod Idiom
pub mod Monad
pub mod Lawful
pub mod Meets
pub mod Installs
pub mod Removes
pub mod Protects
pub mod Runs
pub mod Memory
pub mod Watch
pub mod Deploy
pub mod Errors
pub mod Stores
pub mod Deletes
pub mod Rounds
pub mod Valid
pub mod Merge
pub mod Same
pub mod Release
