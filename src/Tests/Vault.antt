-- ===== src/Tests/Vault.antt =====
-- The secrets of a cluster and the users of a queue server, in memory.
use openfilter_pipelines_con.Base.{
  ◌≡◌, refl, true, Option, none, some, [], ◌∷◌, String, eq_iff, Dict, lookup, insert, lookup-insert,
  arith,
}
use openfilter_pipelines_con.Go.{Result, ok, err, api, not_found, already_exists, concat, is_ok}
use openfilter_pipelines_con.Kube.{Secret, Cluster}
use openfilter_pipelines_con.Queue.{ValkeyClientInterface}
use openfilter_pipelines_con.Reconciler.{Reconciler}
use openfilter_pipelines_con.Reconciler.Credentials.Grant.{View, IsFaithful}
use openfilter_pipelines_con.Tests.Samples.{quiet_queue, quiet_cluster, quiet_reconciler}

pub record Vault : Type 0 where
  pub secrets : Dict Secret
  pub users : Dict String

abbrev place : String → String → String
place name namespace = concat (namespace ∷ "/" ∷ name ∷ [])

abbrev found : Option Secret → Result Secret
found none = err (api not_found "no such secret")
found (some s) = ok s

abbrev created : Option Secret → Secret → Vault → Result (Unit {0}) × Vault
created (some old) s w = (err (api already_exists "the secret exists"), w)
created none s w =
    (ok tt, record { secrets = insert (place s.name s.namespace) s w.secrets; users = w.users })

abbrev pub vault_cluster : Cluster Vault
vault_cluster =
    let k = quiet_cluster Vault in
    record k {
      get_secret = λ name ns w. (found (lookup (place name ns) w.secrets), w);
      create_secret = λ s w. created (lookup (place s.name s.namespace) w.secrets) s w;
    }

abbrev pub vault_queue : ValkeyClientInterface Vault
vault_queue =
    let q = quiet_queue Vault in
    record q {
      ensure_acl_user =
          λ u p ns w. (ok tt, record { secrets = w.secrets; users = insert u p w.users });
    }

abbrev pub vault_reconciler : Reconciler Vault
vault_reconciler = let r = quiet_reconciler Vault in record r { kube = vault_cluster }

abbrev pub vault_view : View Vault
vault_view = record {
  stored = λ w name ns. lookup (place name ns) w.secrets;
  password_of = λ w user. lookup user w.users;
}

found-some : (o : Option Secret) (s : Secret) → found o ≡ ok s → o ≡ some s
found-some none s h = cc h
found-some (some t) s h = cc h

inserted : {V : Type 0} (key : String) (v : V) (m : Dict V) → lookup key (insert key v m) ≡ some v
inserted key v m = ground (arith, lookup-insert key key v m, eq_iff key key)

created-stored :
    (o : Option Secret) (s : Secret) (w : Vault)
    → is_ok (created o s w).0 ≡ true
    → lookup (place s.name s.namespace) (created o s w).1.secrets ≡ some s
created-stored none s w h = inserted (place s.name s.namespace) s w.secrets
created-stored (some old) s w h = cc h

pub vault-IsFaithful : IsFaithful vault_reconciler vault_queue vault_view
vault-IsFaithful = record {
  get_stored = λ name ns w s h. found-some _ s h;
  create_stored = λ s w h. created-stored (lookup (place s.name s.namespace) w.secrets) s w h;
  ensure_sets = λ u p ns w h. inserted u p w.users;
  ensure_keeps = λ u p ns name ns' w. refl;
}
