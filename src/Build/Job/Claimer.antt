-- ===== src/Build/Job/Claimer.antt =====
-- What the claimer of a Job is told.
use openfilter_pipelines_con.Base.{◌≡◌, refl, Option, none, some, List, ◌++◌, String, arith}
use openfilter_pipelines_con.Api.{
  PipelineInstance, PipelineSource, BucketSource, get_queue_stream, get_queue_group,
}
use openfilter_pipelines_con.Kube.{EnvVar, plain, field_ref}
use openfilter_pipelines_con.Pipeline.{Pipeline}
use openfilter_pipelines_con.Reconciler.{Reconciler}
use openfilter_pipelines_con.Build.Env.Effective.{effective, effective-append}
use openfilter_pipelines_con.Build.Job.{bucket_vars, secret_vars, s3_secret_name, claimer_env}

absent_in_three :
    (name : String) (xs ys zs : List EnvVar)
    → effective name xs ≡ none
    → effective name ys ≡ none
    → effective name zs ≡ none
    → effective name (xs ++ (ys ++ zs)) ≡ none
absent_in_three name xs ys zs hx hy hz =
    ground (arith, effective-append name xs (ys ++ zs), effective-append name ys zs)

-- Neither the bucket nor its secret sets a variable that says which message to claim.
bucket_vars-apart :
    (b : Option BucketSource)
    → (effective "STREAM" (bucket_vars b) ≡ none)
      × (effective "GROUP" (bucket_vars b) ≡ none)
      × (effective "CONSUMER_NAME" (bucket_vars b) ≡ none)
unfolding bucket_vars
bucket_vars-apart none = (refl, refl, refl)
bucket_vars-apart (some b) = (refl, refl, refl)

secret_vars-apart :
    (name : String)
    → (effective "STREAM" (secret_vars name) ≡ none)
      × (effective "GROUP" (secret_vars name) ≡ none)
      × (effective "CONSUMER_NAME" (secret_vars name) ≡ none)
unfolding secret_vars
secret_vars-apart name = ground arith

-- The claimer reads the instance's own stream and group, and claims its message under the name of its
-- pod, by which the controller finds the message again; whatever the source and the pipeline set.
pub claimer_env-claims :
    {W : Type 0} (r : Reconciler W) (pi : PipelineInstance) (p : Pipeline) (source : PipelineSource)
    → (effective "STREAM" (claimer_env r pi p source) ≡ some (plain (get_queue_stream pi)))
      × (effective "GROUP" (claimer_env r pi p source) ≡ some (plain (get_queue_group pi)))
      × (effective "CONSUMER_NAME" (claimer_env r pi p source) ≡ some (field_ref "metadata.name"))
unfolding claimer_env
claimer_env-claims r pi p source =
    let (b1, b2, b3) = bucket_vars-apart source.bucket in
    let (s1, s2, s3) = secret_vars-apart (s3_secret_name source.bucket) in
    (
      rw (absent_in_three "STREAM" _ _ _ b1 s1 refl) refl,
      rw (absent_in_three "GROUP" _ _ _ b2 s2 refl) refl,
      rw (absent_in_three "CONSUMER_NAME" _ _ _ b3 s3 refl) refl,
    )
