-- ===== src/Batch.antt =====
-- internal/controller/pipelineinstance_controller_batch.go: an instance that runs as a Job over the
-- files of a bucket, with its work queue in Valkey. What the children share stands in `Common`.
pub mod Common
pub mod Pods
pub mod Completed
pub mod Reclaim
pub mod Status
pub mod Init
pub mod Flush
pub mod Job
pub mod Reconcile
pub mod Retries
pub mod Interleaving
