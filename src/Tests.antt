-- ===== src/Tests.antt =====
-- Each theorem that has hypotheses, at a concrete input: an instance, a queue and a cluster in memory.
pub mod Samples
pub mod Memory
pub mod MemoryLaws
pub mod Draining
pub mod Vault
mod Batches
mod Passes
mod Starts
mod Keys
mod Claims
mod Pods
mod Retries
mod Builds
mod Streams
pub mod Deletions
mod Boxes
mod Flags
mod Machines
