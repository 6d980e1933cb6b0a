-- ===== src/Reconciler/Storage.antt =====
-- `getCredentials` and `listBucketFiles` (internal/controller/pipelineinstance_controller.go): the
-- keys for the bucket of a source, and the files in it.
pub mod Kept
use Prim.Native.String
use openfilter_pipelines_con.Base.{
  Bool, true, false, ◌&&◌, ◌||◌, Option, none, some, List, [], ◌∷◌, String, str_eq, ltb, lookup,
  or_else, if◌then◌else◌,
}
use openfilter_pipelines_con.Go.{Op, Result, ok, err, message, wrapped, concat}
use openfilter_pipelines_con.Api.{PipelineInstance, PipelineSource, BucketSource, SecretReference}
use openfilter_pipelines_con.Kube.{Secret}
use openfilter_pipelines_con.Reconciler.{ListRequest, Reconciler}

-- The endpoint without its scheme, and whether the connection is encrypted.
unfoldable pub split_endpoint : String → String × Bool
split_endpoint endpoint =
    let size = String.len endpoint in
    if ltb 7 size && str_eq (String.slice endpoint 0 7) "http://"
    then (String.slice endpoint 7 size, false)
    else if ltb 8 size && str_eq (String.slice endpoint 0 8) "https://"
    then (String.slice endpoint 8 size, true)
    else (endpoint, true)

-- The keys of the objects, or the first error that the listing delivers.
pub collect : List (Result String) → Result (List String)
collect [] = ok []
collect (err e ∷ objects) = err (wrapped "error listing objects" e)
collect (ok key ∷ objects) = elim (collect objects) [ ok keys ↦ ok (key ∷ keys) | err e ↦ err e ]

-- The value under the key, as `string(secret.Data[key])`.
abbrev datum : Secret → String → String
datum s key = or_else (lookup key (or_else s.values [])) ""

module _ {W : Type 0} (r : Reconciler W) where
  read_credentials : PipelineInstance → SecretReference → Op W (String × String)
  read_credentials pi ref w =
      let namespace = if str_eq ref.namespace "" then pi.namespace else ref.namespace in
      let found = r.kube.get_secret ref.name namespace w in
      elim found.0 [
        | err e ↦ (
          err (wrapped (concat ("failed to get secret " ∷ namespace ∷ "/" ∷ ref.name ∷ [])) e),
          found.1,
        )
        | ok secret ↦
            let access_key = datum secret "accessKeyId" in
            let secret_key = datum secret "secretAccessKey" in
            if str_eq access_key "" || str_eq secret_key ""
            then (
              err (
                  message (
                    concat (
                      "secret " ∷ namespace ∷ "/" ∷ ref.name
                      ∷ " missing required keys 'accessKeyId' or 'secretAccessKey'" ∷ []))),
              found.1,
            )
            else (ok (access_key, secret_key), found.1)
      ]

  credentials_for : PipelineInstance → Option SecretReference → Op W (String × String)
  unfolding read_credentials
  credentials_for pi none w = (ok ("", ""), w)
  credentials_for pi (some ref) w = read_credentials pi ref w

  bucket_credentials : PipelineInstance → Option BucketSource → Op W (String × String)
  unfolding credentials_for
  bucket_credentials pi none w = (ok ("", ""), w)
  bucket_credentials pi (some b) w = credentials_for pi b.credentials_secret w

  -- No keys, and no error, where the source has no bucket or the bucket no secret.
  unfoldable pub get_credentials : PipelineInstance → PipelineSource → Op W (String × String)
  unfolding bucket_credentials
  get_credentials pi source w = bucket_credentials pi source.bucket w

  -- The keys are used only together.
  list_request : BucketSource → String → String → ListRequest
  list_request b access_key secret_key =
      let endpoint = split_endpoint b.endpoint in
      let anonymous = str_eq access_key "" || str_eq secret_key "" in
      record {
        endpoint = endpoint.0;
        secure = endpoint.1;
        access_key = if anonymous then "" else access_key;
        secret_key = if anonymous then "" else secret_key;
        region = b.region;
        insecure_skip_tls_verify = b.insecure_skip_tls_verify;
        bucket = b.name;
        prefix = b.prefix;
      }

  list_files : Option BucketSource → String → String → Op W (List String)
  unfolding list_request collect
  list_files none access_key secret_key w =
      (err (message "pipelineSource has no bucket source configured"), w)
  list_files (some b) access_key secret_key w =
      let listed = r.minio_list (list_request b access_key secret_key) w in
      elim listed.0 [
        | err e ↦ (err (wrapped "failed to create minio client" e), listed.1)
        | ok objects ↦ (collect objects, listed.1)
      ]

  unfoldable pub list_bucket_files : PipelineSource → String → String → Op W (List String)
  unfolding list_files
  list_bucket_files source access_key secret_key w =
      list_files source.bucket access_key secret_key w
