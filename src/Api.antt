-- ===== src/Api.antt =====
-- The objects of the cluster: the custom resources of api/v1, and the built-in kinds that the
-- controllers create, with the fields that the code reads or writes.
pub mod Meta
pub mod Policy
pub mod Agent
pub mod Send
pub mod Session
pub mod Team
pub mod Exchange
pub mod Builtin
pub mod Workload
pub mod Kinds
