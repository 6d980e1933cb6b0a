-- ===== src/Streaming.antt =====
-- internal/controller/pipelineinstance_controller_streaming.go: an instance that runs as a Deployment
-- over a stream.
pub mod Idle
pub mod Url
pub mod Deployment
pub mod Services
pub mod Reconcile
