-- ===== src/Lib.antt =====
-- The OpenFilter pipelines controller: a Kubernetes controller that runs filters over the files of a
-- bucket. A `PipelineInstance` in batch mode becomes a Job; the files wait in a Valkey stream of the
-- instance, each pod claims one message in its init container (the claimer), and the controller settles
-- the messages of finished pods, takes over stale ones, keeps the status, and flushes the queue into a
-- dead letter queue when the Job fails.
--
-- Parts and files (paths from the root of the repository):
--   Api, Pipeline    api/v1alpha1: the custom resources and the names of the queue keys
--   Kube             the parts of the Kubernetes objects that are used, and the client as a record
--   Queue            the operations of the queue (`ValkeyClientInterface` in
--                    internal/controller/pipelineinstance_controller.go); Queue/Accounting states
--                    what the controller relies on; Queue/Client is internal/queue/valkey.go
--   Reconcile        internal/controller/pipelineinstance_controller.go: Reconcile, the entry point for
--                    an instance: its finalizers, what it refers to, and the branch by mode
--   Reconciler       the same file: the settings, setCondition, getCredentials and listBucketFiles
--                    (Storage), the credentials of a namespace (Credentials, Cleanup), and the answer
--                    of a pass (Outcome)
--   Batch            internal/controller/pipelineinstance_controller_batch.go: Init, Job, Completed
--                    with Pods, Reclaim, Status, Flush, and Reconcile, which composes them;
--                    Retries follows one file through its failures, and Interleaving has their steps
--                    between those of other clients as a relation
--   Build            buildJob of the same file: Labels, Gpu, Env and Job; Job/Agreement sets its
--                    environment beside the claimer's configuration
--   Streaming        internal/controller/pipelineinstance_controller_streaming.go: the RTSP URL (Url),
--                    the Deployment, the Services of the exposed ports, the status of the Deployment
--                    and the idle timeout (Idle), and Reconcile, which composes them
--   Claimer          cmd/claimer/main.go: Config, Claim, Backoff, and Run with the download
--   Tracing          internal/tracing: the vocabularies and attributes of the spans, the address of the
--                    exporter (Endpoint); and what the reconciler reads for its span
--   Main             cmd/main.go: the checks of two groups of flags, and the flags that the reconciler
--                    of instances gets (Settings)
--   Base, Go         shared helpers; Go errors, results, strconv, and texts cut at a separator
--   Tests            a queue and a cluster in memory, and the theorems at concrete inputs
--
-- An operation on the outside world is a function from a world to a result and a new world
-- (`Op W A`). The world is a parameter: the Kubernetes client, the queue client, valkey-go, MinIO,
-- the clock, and the file system and the timer of the claimer are records of operations on it, and a
-- failed request may still have changed it. A record of laws states what a theorem needs of them, as
-- bounds that hold for failed requests too. Go's `continue` and early returns are helper functions, one
-- for each nested test. Functions have the names of the source in snake case; a method that writes
-- through a pointer returns the new object.
--
-- Numbers: `int` and `int64` wrap at 2^63, `int32` at 2^31, where the source computes with them. The
-- loops of the flush and of the claimer run on fuel, one unit for each round; that of the flush is shown
-- to suffice when it exceeds the numbers of messages in the stream and of pending ones, and that of
-- each loop of the claimer when it exceeds the number of outages to come. The fuel of Reconcile is for
-- the flush. Go's order of map iteration is a parameter (`order`).
--
-- Not modelled: the servers, certificates and wiring of the manager and the registration of the
-- reconcilers, which only call controller-runtime; the exporter, the spans and the logs, on which no
-- request depends; the reconciler of pipelines, which does nothing; generated code, the linter and the
-- helpers of the tests.
pub mod Api
pub mod Base
pub mod Batch
pub mod Build
pub mod Claimer
pub mod Go
pub mod Kube
pub mod Main
pub mod Pipeline
pub mod Queue
pub mod Reconcile
pub mod Reconciler
pub mod Streaming
pub mod Tests
pub mod Tracing
