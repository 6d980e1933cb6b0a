-- ===== src/Reconciler/Credentials/Grant.antt =====
-- After `ensureNamespaceValkeyCredentials` (internal/controller/pipelineinstance_controller.go) the
-- queue server knows the password that the secret of the namespace holds.
use openfilter_pipelines_con.Base.{
  Bool, true, false, ◌≡◌, ◌≢◌, refl, sym, ◌∙◌, Option, none, some, String, str_eq, Dict, lookup,
  arith, eq_iff, Bool-cases, inl, inr, Option-cases, [], ◌∷◌,
}
use openfilter_pipelines_con.Go.{
  ok, err, is_ok, is_not_found, is_already_exists, Result-cases, Error, world-wrapping,
  is_ok-wrapping, concat,
}
use openfilter_pipelines_con.Kube.{Secret}
use openfilter_pipelines_con.Queue.{ValkeyClientInterface}
use openfilter_pipelines_con.Queue.Client.{valkey_username_for_namespace}
use openfilter_pipelines_con.Reconciler.{Reconciler}
use openfilter_pipelines_con.Reconciler.Credentials.{
  secret_name, checked_password, checked_username, checked, grant, new_secret, reread, create, make,
  ensure_namespace_valkey_credentials,
}

-- The secrets of the cluster and the passwords of the users of the queue server.
pub record View (W : Type 0) : Type 0 where
  pub stored : W → String → String → Option Secret
  pub password_of : W → String → Option String

-- The documented behaviour of the requests: a secret that is read or created is the one in the cluster,
-- and SETUSER sets the password and changes no secret.
pub record IsFaithful {W : Type 0} (r : Reconciler W) (q : ValkeyClientInterface W) (v : View W)
    : Type 0 where
  pub get_stored :
      (name namespace : String) (w : W) (secret : Secret)
      → (r.kube.get_secret name namespace w).0 ≡ ok secret
      → v.stored (r.kube.get_secret name namespace w).1 name namespace ≡ some secret
  pub create_stored :
      (secret : Secret) (w : W)
      → is_ok (r.kube.create_secret secret w).0 ≡ true
      → v.stored (r.kube.create_secret secret w).1 secret.name secret.namespace ≡ some secret
  pub ensure_sets :
      (username password namespace : String) (w : W)
      → is_ok (q.ensure_acl_user username password namespace w).0 ≡ true
      → v.password_of (q.ensure_acl_user username password namespace w).1 username ≡ some password
  pub ensure_keeps :
      (username password namespace name ns : String) (w : W)
      → v.stored (q.ensure_acl_user username password namespace w).1 name ns ≡ v.stored w name ns

-- The secret stands in the namespace, names its user, and holds the password that this user has.
pub record IsGranted {W : Type 0} (v : View W) (name namespace : String) (w : W) : Type 0 where
  pub secret : Secret
  pub values : Dict String
  pub password : String
  pub is_stored : v.stored w name namespace ≡ some secret
  pub has_values : secret.values ≡ some values
  pub names_user : lookup "valkey-username" values ≡ some (valkey_username_for_namespace namespace)
  pub holds_password : lookup "valkey-password" values ≡ some password
  pub is_password : v.password_of w (valkey_username_for_namespace namespace) ≡ some password

-- What a secret must hold for a password to be taken from it.
record Holds (values : Option (Dict String)) (username password : String) : Type 0 where
  fields : Dict String
  are_values : values ≡ some fields
  user : lookup "valkey-username" fields ≡ some username
  holds : lookup "valkey-password" fields ≡ some password

err-ne-ok : (e : Error) (p : String) → err e ≢ ok p
err-ne-ok e p h = cc

true-ne-false : true ≢ false
true-ne-false h = cc

module _ {W : Type 0} (r : Reconciler W) (q : ValkeyClientInterface W) where
  -- A password that passes the check stands in the secret.
  checked_password-Holds :
      (raced : Bool) (namespace password : String) (found : Option String)
      → checked_password r q raced namespace found ≡ ok password
      → found ≡ some password
  unfolding checked_password
  checked_password-Holds raced namespace password none h = cc
  checked_password-Holds raced namespace password (some p) h = ground (arith, eq_iff p "")

  checked-Holds :
      (raced : Bool) (namespace password : String) (values : Option (Dict String))
      → checked r q raced namespace values ≡ ok password
      → Holds values (valkey_username_for_namespace namespace) password
  unfolding checked checked_username
  checked-Holds raced namespace password none h = cc
  checked-Holds raced namespace password (some fields) h =
      elim (Option-cases (lookup "valkey-username" fields)) [
        | inl missing ↦ absurd (err-ne-ok _ password (rw (checked, missing, checked_username) at h))
        | inr (username, named) ↦
            elim (Bool-cases (str_eq username (valkey_username_for_namespace namespace))) [
              | inr other ↦
                  absurd (err-ne-ok _ password (rw (checked, named, checked_username, other) at h))
              | inl same ↦
                  let kept : lookup "valkey-password" fields ≡ some password =
                    checked_password-Holds raced namespace password _
                      (rw (checked, named, checked_username, same) at h) in
                  record {
                    fields = fields;
                    are_values = refl;
                    user =
                        rw (named) ground
                          (arith, eq_iff username (valkey_username_for_namespace namespace));
                    holds = kept;
                  }
            ]
      ]

  module _ (v : View W) (laws : IsFaithful r q v) where
    password-IsGranted :
        (verb namespace password : String) (secret : Secret) (w : W)
        → v.stored w (secret_name r q) namespace ≡ some secret
        → Holds secret.values (valkey_username_for_namespace namespace) password
        → is_ok (grant r q verb namespace (ok password) w).0 ≡ true
        → IsGranted v (secret_name r q) namespace (grant r q verb namespace (ok password) w).1
    unfolding grant
    password-IsGranted verb namespace password secret w stands held h =
        let username = valkey_username_for_namespace namespace in
        let text = concat ("failed to " ∷ verb ∷ " ACL user " ∷ username ∷ []) in
        let sent = q.ensure_acl_user username password namespace in
        rw (world-wrapping text sent w) record {
          secret = secret;
          values = held.fields;
          password = password;
          is_stored = laws.ensure_keeps username password namespace _ _ w ∙ stands;
          has_values = held.are_values;
          names_user = held.user;
          holds_password = held.holds;
          is_password =
              laws.ensure_sets username password namespace w (sym (is_ok-wrapping text sent w) ∙ h);
        }

    -- The user gets the password of the secret that is stored.
    grant-IsGranted :
        (verb namespace : String) (secret : Secret) (raced : Bool) (w : W)
        → v.stored w (secret_name r q) namespace ≡ some secret
        → is_ok (grant r q verb namespace (checked r q raced namespace secret.values) w).0 ≡ true
        → IsGranted v
            (secret_name r q)
            namespace
            (grant r q verb namespace (checked r q raced namespace secret.values) w).1
    unfolding grant
    grant-IsGranted verb namespace secret raced w stands h =
        elim (Result-cases (checked r q raced namespace secret.values)) [
          | inr (e, refused) ↦ absurd (true-ne-false (sym h ∙ (rw (refused, grant) refl)))
          | inl (password, passed) ↦ rw (passed) (
              password-IsGranted verb namespace password secret w stands
                (checked-Holds raced namespace password secret.values passed) (rw (passed) at h))
        ]

    reread-IsGranted :
        (namespace : String) (w : W)
        → is_ok (reread r q namespace w).0 ≡ true
        → IsGranted v (secret_name r q) namespace (reread r q namespace w).1
    unfolding reread
    reread-IsGranted namespace w h =
        elim (Result-cases (r.kube.get_secret (secret_name r q) namespace w).0) [
          | inr (e, lost) ↦ absurd (true-ne-false (sym h ∙ (rw (reread, lost) refl)))
          | inl (secret, read) ↦
              rw (reread, read)
                (grant-IsGranted "create" namespace secret true _
                  (laws.get_stored _ _ _ secret read) (rw (reread, read) at h))
        ]

    create-IsGranted :
        (namespace password : String) (w : W)
        → is_ok (create r q namespace password w).0 ≡ true
        → IsGranted v (secret_name r q) namespace (create r q namespace password w).1
    unfolding create new_secret lookup
    create-IsGranted namespace password w h =
        let secret = new_secret r q namespace password in
        let made = r.kube.create_secret secret w in
        elim (Result-cases made.0) [
          | inl (u, done) ↦
              rw (create, done)
                (password-IsGranted "create" namespace password secret made.1
                  (laws.create_stored secret w (rw (done) refl))
                  (record { fields = _; are_values = refl; user = refl; holds = refl })
                  (rw (create, done) at h))
          | inr (e, failed) ↦ elim (Bool-cases (is_already_exists e)) [
            | inr other ↦ absurd (true-ne-false (sym h ∙ (rw (create, failed, other) refl)))
            | inl raced ↦
                rw (create, failed, raced)
                  (reread-IsGranted namespace made.1 (rw (create, failed, raced) at h))
          ]
        ]

    make-IsGranted :
        (namespace : String) (w : W)
        → is_ok (make r q namespace w).0 ≡ true
        → IsGranted v (secret_name r q) namespace (make r q namespace w).1
    unfolding make
    make-IsGranted namespace w h = elim (Result-cases (r.random_text w).0) [
      | inr (e, lost) ↦ absurd (true-ne-false (sym h ∙ (rw (make, lost) refl)))
      | inl (password, drawn) ↦
          rw (make, drawn)
            (create-IsGranted namespace password (r.random_text w).1 (rw (make, drawn) at h))
    ]

    -- Where the requests for secrets and users do what they document: when the credentials of a namespace are ensured with success, the secret of that name is stored in
    -- the namespace, it names the user of the namespace, and the queue server has given this user the
    -- password that the secret holds, also when another reconcile made the secret meanwhile.
    pub ensure-IsGranted :
        (namespace : String) (w : W)
        → is_ok (ensure_namespace_valkey_credentials r q namespace w).0 ≡ true
        → IsGranted v
            (secret_name r q)
            namespace
            (ensure_namespace_valkey_credentials r q namespace w).1
    unfolding ensure_namespace_valkey_credentials
    ensure-IsGranted namespace w h =
        let found = r.kube.get_secret (secret_name r q) namespace w in
        elim (Result-cases found.0) [
          | inl (secret, read) ↦
              rw (ensure_namespace_valkey_credentials, read)
                (grant-IsGranted "ensure" namespace secret false found.1
                  (laws.get_stored _ _ _ secret read)
                  (rw (ensure_namespace_valkey_credentials, read) at h))
          | inr (e, failed) ↦ elim (Bool-cases (is_not_found e)) [
            | inr other ↦ absurd (
                true-ne-false
                  (sym h ∙ (rw (ensure_namespace_valkey_credentials, failed, other) refl)))
            | inl absent ↦
                rw (ensure_namespace_valkey_credentials, failed, absent)
                  (make-IsGranted namespace found.1
                    (rw (ensure_namespace_valkey_credentials, failed, absent) at h))
          ]
        ]
