-- ===== src/Controller.antt =====
-- internal/controller: the reconcilers.
pub mod Names
pub mod Program
pub mod Client
pub mod Shrink
pub mod VmSet
pub mod VmPool
pub mod Storage
pub mod Machine
pub mod Rollback
pub mod VmSnapshot
