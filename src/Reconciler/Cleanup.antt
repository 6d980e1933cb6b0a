-- ===== src/Reconciler/Cleanup.antt =====
-- `cleanupNamespaceValkeyCredentials` (internal/controller/pipelineinstance_controller.go): the user
-- and the secret of a namespace go with the last instance in it.
pub mod Ownership
pub mod Progress
use openfilter_pipelines_con.Base.{
  Bool, true, false, not, ◌&&◌, ◌||◌, Option, List, [], ◌∷◌, String, str_eq, lookup, or_else,
  if◌then◌else◌, is_some,
}
use openfilter_pipelines_con.Go.{Op, ok, err, wrapped, concat, is_not_found, wrapping}
use openfilter_pipelines_con.Api.{PipelineInstance}
use openfilter_pipelines_con.Kube.{Secret}
use openfilter_pipelines_con.Queue.{ValkeyClientInterface}
use openfilter_pipelines_con.Queue.Client.{valkey_username_for_namespace}
use openfilter_pipelines_con.Reconciler.{Reconciler}
use openfilter_pipelines_con.Reconciler.Credentials.{controller_name, secret_name}

-- Another instance in the list, and not being deleted.
pub has_active : String → List PipelineInstance → Bool
has_active uid [] = false
has_active uid (other ∷ others) =
    not (str_eq other.uid uid) && not (is_some other.deletion_timestamp) || has_active uid others

abbrev pub is_ours : Secret → Bool
is_ours secret =
    str_eq (or_else (lookup "app.kubernetes.io/managed-by" secret.labels) "") controller_name

module _ {W : Type 0} (r : Reconciler W) (q : ValkeyClientInterface W) where
  delete_secret : Secret → Op W (Unit {0})
  delete_secret secret w =
      let gone = r.kube.delete_secret secret w in
      elim gone.0 [
        | ok _ ↦ (ok tt, gone.1)
        | err e ↦ if is_not_found e then (ok tt, gone.1) else (
          err (
              wrapped (concat ("failed to delete namespace Valkey secret " ∷ secret_name r q ∷ []))
                e),
          gone.1,
        )
      ]

  remove : String → Secret → Op W (Unit {0})
  unfolding delete_secret
  remove namespace secret w =
      let username = valkey_username_for_namespace namespace in
      let gone =
        wrapping (concat ("failed to delete Valkey ACL user " ∷ username ∷ []))
          (q.delete_acl_user username) w in
      elim gone.0 [ err e ↦ (err e, gone.1) | ok _ ↦ delete_secret secret gone.1 ]

  clean : String → Op W (Unit {0})
  unfolding remove
  clean namespace w =
      let found = r.kube.get_secret (secret_name r q) namespace w in
      elim found.0 [
        | err e ↦ if is_not_found e then (ok tt, found.1) else (
          err (
              wrapped (concat ("failed to get namespace Valkey secret " ∷ secret_name r q ∷ [])) e),
          found.1,
        )
        | ok secret ↦ if is_ours secret then remove namespace secret found.1 else (ok tt, found.1)
      ]

  unfoldable pub cleanup_namespace_valkey_credentials : PipelineInstance → Op W (Unit {0})
  unfolding has_active clean
  cleanup_namespace_valkey_credentials pi w =
      let listed = r.kube.list_instances pi.namespace w in
      elim listed.0 [
        | err e ↦ (err (wrapped "failed to list PipelineInstances for ACL cleanup" e), listed.1)
        | ok others ↦
            if has_active pi.uid others then (ok tt, listed.1) else clean pi.namespace listed.1
      ]
