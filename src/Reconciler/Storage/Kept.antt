-- ===== src/Reconciler/Storage/Kept.antt =====
-- The requests behind `getCredentials` and `listBucketFiles`
-- (internal/controller/pipelineinstance_controller.go) keep a property of the world.
use openfilter_pipelines_con.Base.{
  inl, inr, Option, none, some, String, str_eq, ◌||◌, if_cases, if◌then◌else◌,
}
use openfilter_pipelines_con.Go.{Result, Result-cases}
use openfilter_pipelines_con.Api.{PipelineInstance, PipelineSource, BucketSource, SecretReference}
use openfilter_pipelines_con.Reconciler.{ListRequest, Reconciler}
use openfilter_pipelines_con.Reconciler.Storage.{
  datum, read_credentials, credentials_for, bucket_credentials, get_credentials, list_request,
  list_files, list_bucket_files,
}

module _ {W : Type 0} (r : Reconciler W) (P : W → Type 0)
    (by_secret : (name ns : String) (w : W) → P w → P (r.kube.get_secret name ns w).1)
    (by_list : (request : ListRequest) (w : W) → P w → P (r.minio_list request w).1) where
  read_credentials-kept :
      (pi : PipelineInstance) (ref : SecretReference) (w : W)
      → P w
      → P (read_credentials r pi ref w).1
  unfolding read_credentials
  read_credentials-kept pi ref w p =
      let namespace = if str_eq ref.namespace "" then pi.namespace else ref.namespace in
      let kept = by_secret ref.name namespace w p in
      elim (Result-cases (r.kube.get_secret ref.name namespace w).0) [
        | inr (e, f) ↦ rw (f, read_credentials) kept
        | inl (secret, e) ↦
            rw (e, read_credentials)
              (if_cases (λ (x : Result (String × String) × W). P x.1)
                (str_eq (datum secret "accessKeyId") ""
                  || str_eq (datum secret "secretAccessKey") "")
                kept kept)
      ]

  credentials_for-kept :
      (pi : PipelineInstance) (o : Option SecretReference) (w : W)
      → P w
      → P (credentials_for r pi o w).1
  unfolding credentials_for
  credentials_for-kept pi none w p = p
  credentials_for-kept pi (some ref) w p = read_credentials-kept pi ref w p

  bucket_credentials-kept :
      (pi : PipelineInstance) (o : Option BucketSource) (w : W)
      → P w
      → P (bucket_credentials r pi o w).1
  unfolding bucket_credentials
  bucket_credentials-kept pi none w p = p
  bucket_credentials-kept pi (some b) w p = credentials_for-kept pi b.credentials_secret w p

  pub get_credentials-kept :
      (pi : PipelineInstance) (source : PipelineSource) (w : W)
      → P w
      → P (get_credentials r pi source w).1
  unfolding get_credentials
  get_credentials-kept pi source w p = bucket_credentials-kept pi source.bucket w p

  list_files-kept :
      (o : Option BucketSource) (access_key secret_key : String) (w : W)
      → P w
      → P (list_files r o access_key secret_key w).1
  unfolding list_files
  list_files-kept none access_key secret_key w p = p
  list_files-kept (some b) access_key secret_key w p =
      let kept = by_list (list_request r b access_key secret_key) w p in
      elim (Result-cases (r.minio_list (list_request r b access_key secret_key) w).0) [
        | inr (e, f) ↦ rw (f, list_files) kept
        | inl (objects, e) ↦ rw (e, list_files) kept
      ]

  pub list_bucket_files-kept :
      (source : PipelineSource) (access_key secret_key : String) (w : W)
      → P w
      → P (list_bucket_files r source access_key secret_key w).1
  unfolding list_bucket_files
  list_bucket_files-kept source access_key secret_key w p =
      list_files-kept source.bucket access_key secret_key w p
