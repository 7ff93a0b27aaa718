-- ===== src/Tests.antt =====
-- Runs on concrete input, and each theorem at one.
mod Stack
mod Cache
mod Machines
mod Sets
mod Pools
mod Locks
mod Disks
mod Vms
mod Rollbacks
mod Snapshots
mod Cpus
mod Daemons
mod Taken
