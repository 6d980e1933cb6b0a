-- ===== src/Reconciler/Credentials.antt =====
-- `ensureNamespaceValkeyCredentials` and `cleanupNamespaceValkeyCredentials`
-- (internal/controller/pipelineinstance_controller.go): the user of the queue server that a namespace
-- has, and the secret with its password.
pub mod Grant
use openfilter_pipelines_con.Base.{
  Bool, true, false, not, ◌&&◌, Option, none, some, List, [], ◌∷◌, String, str_eq, Dict, lookup,
  or_else, if◌then◌else◌, is_some,
}
use openfilter_pipelines_con.Go.{
  Op, Result, ok, err, Error, message, wrapped, concat, is_not_found, is_already_exists, wrapping,
}
use openfilter_pipelines_con.Api.{PipelineInstance}
use openfilter_pipelines_con.Kube.{Secret}
use openfilter_pipelines_con.Queue.{ValkeyClientInterface}
use openfilter_pipelines_con.Queue.Client.{valkey_username_for_namespace}
use openfilter_pipelines_con.Reconciler.{Reconciler}

abbrev pub controller_name : String
controller_name = "openfilter-pipelines-controller"

-- An error about the secret of the namespace.
abbrev about : String → String → String → Error
about namespace name text =
    message (concat ("namespace Valkey secret " ∷ namespace ∷ "/" ∷ name ∷ text ∷ []))

-- What the messages about a secret add that another reconcile made.
abbrev after_race : Bool → String → String
after_race raced text = if raced then text else ""

module _ {W : Type 0} (r : Reconciler W) (q : ValkeyClientInterface W) where
  abbrev pub secret_name : String
  secret_name =
      if str_eq r.valkey_ns_secret_name "" then "valkey-ns-credentials" else r.valkey_ns_secret_name

  pub checked_password : Bool → String → Option String → Result String
  checked_password raced namespace password =
      if str_eq (or_else password "") ""
      then err (
          about namespace secret_name (
            concat
              (" has missing or empty password" ∷ after_race raced " after race re-read" ∷ [])))
      else ok (or_else password "")

  unexpected : Bool → String → String → Error
  unexpected raced namespace username = about namespace secret_name (
      concat (
        " has unexpected username "
        ∷ r.quote username
        ∷ after_race raced " after race re-read"
        ∷ ", expected "
        ∷ r.quote (valkey_username_for_namespace namespace)
        ∷ []))

  -- A missing user name has a text of its own in a secret that was there before.
  pub checked_username : Bool → String → Dict String → Option String → Result String
  unfolding checked_password unexpected
  checked_username raced namespace values none = err (
      if raced
      then unexpected raced namespace ""
      else about namespace secret_name
          (concat (" is missing key " ∷ r.quote "valkey-username" ∷ [])))
  checked_username raced namespace values (some username) =
      if str_eq username (valkey_username_for_namespace namespace)
      then checked_password raced namespace (lookup "valkey-password" values)
      else err (unexpected raced namespace username)

  -- The password of a secret that has the user of the namespace.
  pub checked : Bool → String → Option (Dict String) → Result String
  unfolding checked_username
  checked raced namespace none = err (
      about namespace secret_name
        (concat (" has no data" ∷ after_race raced " after race re-read" ∷ [])))
  checked raced namespace (some values) =
      checked_username raced namespace values (lookup "valkey-username" values)

  -- The user with this password, if the check gave one.
  pub grant : String → String → Result String → Op W (Unit {0})
  grant verb namespace (err e) w = (err e, w)
  grant verb namespace (ok password) w =
      let username = valkey_username_for_namespace namespace in
      wrapping (concat ("failed to " ∷ verb ∷ " ACL user " ∷ username ∷ []))
        (q.ensure_acl_user username password namespace) w

  pub new_secret : String → String → Secret
  new_secret namespace password = record {
    name = secret_name;
    namespace = namespace;
    labels =
        ("app.kubernetes.io/managed-by", controller_name)
        ∷ ("app.kubernetes.io/component", "valkey-credentials")
        ∷ [];
    values = some (
        ("valkey-username", valkey_username_for_namespace namespace)
        ∷ ("valkey-password", password)
        ∷ []);
  }

  -- Another reconcile made the secret: its password is the one that counts.
  pub reread : String → Op W (Unit {0})
  unfolding checked grant
  reread namespace w =
      let found = r.kube.get_secret secret_name namespace w in
      elim found.0 [
        | err e ↦ (
          err (
              wrapped
                (concat
                  ("failed to re-read namespace Valkey secret after race in " ∷ namespace ∷ []))
                e),
          found.1,
        )
        | ok secret ↦ grant "create" namespace (checked true namespace secret.values) found.1
      ]

  pub create : String → String → Op W (Unit {0})
  unfolding new_secret reread grant
  create namespace password w =
      let made = r.kube.create_secret (new_secret namespace password) w in
      elim made.0 [
        | ok _ ↦ grant "create" namespace (ok password) made.1
        | err e ↦ if is_already_exists e then reread namespace made.1 else (
          err (
              wrapped (concat ("failed to create namespace Valkey secret in " ∷ namespace ∷ [])) e),
          made.1,
        )
      ]

  pub make : String → Op W (Unit {0})
  unfolding create
  make namespace w =
      let random = r.random_text w in
      elim random.0 [
        | err e ↦ (err (wrapped "failed to generate random password" e), random.1)
        | ok password ↦ create namespace password random.1
      ]

  unfoldable pub ensure_namespace_valkey_credentials : String → Op W (Unit {0})
  unfolding checked grant make
  ensure_namespace_valkey_credentials namespace w =
      let found = r.kube.get_secret secret_name namespace w in
      elim found.0 [
        | ok secret ↦ grant "ensure" namespace (checked false namespace secret.values) found.1
        | err e ↦ if is_not_found e then make namespace found.1 else (
          err (wrapped (concat ("failed to check namespace Valkey secret in " ∷ namespace ∷ [])) e),
          found.1,
        )
      ]
