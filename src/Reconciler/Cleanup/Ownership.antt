-- ===== src/Reconciler/Cleanup/Ownership.antt =====
-- What `cleanupNamespaceValkeyCredentials` (internal/controller/pipelineinstance_controller.go) leaves
-- alone.
use openfilter_pipelines_con.Base.{
  true, ◌≡◌, ◌≢◌, refl, none, List, [], ◌∷◌, String, arith, eq_iff, Any, inl, inr,
}
use openfilter_pipelines_con.Go.{ok}
use openfilter_pipelines_con.Api.{PipelineInstance}
use openfilter_pipelines_con.Queue.{ValkeyClientInterface}
use openfilter_pipelines_con.Reconciler.{Reconciler}
use openfilter_pipelines_con.Reconciler.Cleanup.{has_active, cleanup_namespace_valkey_credentials}

-- Another instance than the one with the UID, which is not being deleted.
abbrev pub IsActiveBeside : String → PipelineInstance → Type 0
IsActiveBeside uid other = (other.uid ≢ uid) × (other.deletion_timestamp ≡ none)

has_active-Any :
    (uid : String) (others : List PipelineInstance)
    → Any (IsActiveBeside uid) others
    → has_active uid others ≡ true
unfolding has_active
has_active-Any uid [] h = elim h [ ]
has_active-Any uid (other ∷ others) (inl (apart, alive)) =
    rw (alive, has_active) ground (arith, eq_iff other.uid uid)
has_active-Any uid (other ∷ others) (inr later) = ground (arith, has_active-Any uid others later)

-- As long as the list shows another instance of the namespace that is not being deleted, the cleanup
-- only lists: whatever a list request keeps, it keeps, and it succeeds. So neither the user nor the
-- secret of a namespace in use is deleted.
pub cleanup-keeps :
    {W : Type 0} (r : Reconciler W) (q : ValkeyClientInterface W) (P : W → Type 0)
    (pi : PipelineInstance) (w : W) (others : List PipelineInstance)
    → ((u : W) → P u → P (r.kube.list_instances pi.namespace u).1)
    → (r.kube.list_instances pi.namespace w).0 ≡ ok others
    → Any (IsActiveBeside pi.uid) others
    → P w
    → ((cleanup_namespace_valkey_credentials r q pi w).0 ≡ ok tt)
      × P (cleanup_namespace_valkey_credentials r q pi w).1
unfolding cleanup_namespace_valkey_credentials
cleanup-keeps r q P pi w others keeps listed active p =
    rw (cleanup_namespace_valkey_credentials, listed, has_active-Any pi.uid others active)
      (refl, keeps w p)
