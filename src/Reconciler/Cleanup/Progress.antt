-- ===== src/Reconciler/Cleanup/Progress.antt =====
-- When the requests are answered, `cleanupNamespaceValkeyCredentials`
-- (internal/controller/pipelineinstance_controller.go) succeeds.
use openfilter_pipelines_con.Base.{
  ◌≡◌, refl, sym, subst, true, Bool-cases, inl, inr, String, [], ◌∷◌,
}
use openfilter_pipelines_con.Go.{
  ok, is_ok, is_not_found, Result-cases, IsAnswered, wrapping, concat, world-wrapping,
}
use openfilter_pipelines_con.Api.{PipelineInstance}
use openfilter_pipelines_con.Kube.{Secret}
use openfilter_pipelines_con.Queue.{ValkeyClientInterface}
use openfilter_pipelines_con.Queue.Client.{valkey_username_for_namespace}
use openfilter_pipelines_con.Reconciler.{Reconciler}
use openfilter_pipelines_con.Reconciler.Credentials.{secret_name}
use openfilter_pipelines_con.Reconciler.Cleanup.{
  has_active, is_ours, delete_secret, remove, clean, cleanup_namespace_valkey_credentials,
}

-- The requests of the cleanup are answered, and keep the property.
pub record IsServing {W : Type 0} (r : Reconciler W) (q : ValkeyClientInterface W) (P : W → Type 0)
    : Type 0 where
  pub lists : (ns : String) (w : W) → is_ok (r.kube.list_instances ns w).0 ≡ true
  pub list_keeps : (ns : String) (w : W) → P w → P (r.kube.list_instances ns w).1
  pub finds : (name ns : String) (w : W) → IsAnswered (r.kube.get_secret name ns w).0
  pub find_keeps : (name ns : String) (w : W) → P w → P (r.kube.get_secret name ns w).1
  pub deletes_user : (user : String) (w : W) → is_ok (q.delete_acl_user user w).0 ≡ true
  pub user_keeps : (user : String) (w : W) → P w → P (q.delete_acl_user user w).1
  pub deletes_secret : (s : Secret) (w : W) → IsAnswered (r.kube.delete_secret s w).0
  pub secret_keeps : (s : Secret) (w : W) → P w → P (r.kube.delete_secret s w).1

module _ {W : Type 0} (r : Reconciler W) (q : ValkeyClientInterface W) (P : W → Type 0)
    (h : IsServing r q P) where
  delete_secret-done :
      (s : Secret) (w : W) → P w → ((delete_secret r q s w).0 ≡ ok tt) × P (delete_secret r q s w).1
  unfolding delete_secret
  delete_secret-done s w p =
      let kept = h.secret_keeps s w p in
      let answered = h.deletes_secret s w in
      elim (Result-cases (r.kube.delete_secret s w).0) [
        | inl (u, e) ↦ rw (delete_secret, e) (refl, kept)
        | inr (x, e) ↦
            let absent : is_not_found x ≡ true = rw (e) at answered in
            rw (delete_secret, e, absent) (refl, kept)
      ]

  remove-done :
      (ns : String) (s : Secret) (w : W)
      → P w
      → ((remove r q ns s w).0 ≡ ok tt) × P (remove r q ns s w).1
  unfolding remove
  remove-done ns s w p =
      let user = valkey_username_for_namespace ns in
      let kept = h.user_keeps user w p in
      let answered = h.deletes_user user w in
      elim (Result-cases (q.delete_acl_user user w).0) [
        | inl (u, e) ↦
            let m =
              wrapping (concat ("failed to delete Valkey ACL user " ∷ user ∷ []))
                (q.delete_acl_user user) in
            let deleted : (m w).0 ≡ ok u = rw (wrapping, e) refl in
            rw (remove, deleted)
              (delete_secret-done s (m w).1
                (subst P (sym (world-wrapping _ (q.delete_acl_user user) w)) kept))
        | inr (x, e) ↦ let bad = rw (e) at answered in cc bad
      ]

  clean-done : (ns : String) (w : W) → P w → ((clean r q ns w).0 ≡ ok tt) × P (clean r q ns w).1
  unfolding clean
  clean-done ns w p =
      let name = secret_name r q in
      let kept = h.find_keeps name ns w p in
      let answered = h.finds name ns w in
      elim (Result-cases (r.kube.get_secret name ns w).0) [
        | inr (x, e) ↦
            let absent : is_not_found x ≡ true = rw (e) at answered in
            rw (clean, e, absent) (refl, kept)
        | inl (s, e) ↦ elim (Bool-cases (is_ours s)) [
          | inl ours ↦ rw (clean, e, ours) (remove-done ns s (r.kube.get_secret name ns w).1 kept)
          | inr other ↦ rw (clean, e, other) (refl, kept)
        ]
      ]

  -- Then the cleanup succeeds.
  pub cleanup-done :
      (pi : PipelineInstance) (w : W)
      → P w
      → ((cleanup_namespace_valkey_credentials r q pi w).0 ≡ ok tt)
        × P (cleanup_namespace_valkey_credentials r q pi w).1
  unfolding cleanup_namespace_valkey_credentials
  cleanup-done pi w p =
      let kept = h.list_keeps pi.namespace w p in
      let answered = h.lists pi.namespace w in
      elim (Result-cases (r.kube.list_instances pi.namespace w).0) [
        | inr (x, e) ↦ let bad = rw (e) at answered in cc bad
        | inl (others, e) ↦ elim (Bool-cases (has_active pi.uid others)) [
          | inl active ↦ rw (cleanup_namespace_valkey_credentials, e, active) (refl, kept)
          | inr last ↦
              rw (cleanup_namespace_valkey_credentials, e, last)
                (clean-done pi.namespace (r.kube.list_instances pi.namespace w).1 kept)
        ]
      ]
