-- ===== src/Claimer/Run/Downloaded.antt =====
-- What it means that the claimer succeeds (`run` and `downloadFile` in cmd/claimer/main.go).
use openfilter_pipelines_con.Base.{
  ℕ, ◌≡◌, refl, sym, subst, ◌∙◌, inl, inr, true, Option, none, some, String, Dict, ◌*◌,
}
use openfilter_pipelines_con.Go.{
  Result, ok, err, is_ok, wrapped, wrapping, Result-cases, world-wrapping, is_ok-wrapping,
}
use openfilter_pipelines_con.Claimer.Backoff.{new_exponential_backoff, second}
use openfilter_pipelines_con.Claimer.Config.{Config, load_config, minio_options}
use openfilter_pipelines_con.Claimer.Claim.{Message, claim_message}
use openfilter_pipelines_con.Claimer.Run.{
  Machine, sleep_with_context, retry, create_valkey_client, wait_for_valkey, write_object,
  download_file, fetch_file, closed, Claimed, after_claim, after_ping, after_client, with_config,
  run,
}

module _ {W C M O F : Type 0} (m : Machine W C M O F)
    (Copied : String → String → String → W → Type 0) where
  -- What a copy that succeeds means, and that closing does not undo it.
  pub record IsCopying : Type 0 where
    pub copies :
        (client : M) (bucket key path : String) (u v w : W) (object : O) (file : F)
        → (m.get_object client bucket key u).0 ≡ ok object
        → (m.create_file path v).0 ≡ ok file
        → is_ok (m.copy file object w).0 ≡ true
        → Copied bucket key path (m.copy file object w).1
    pub file_keeps :
        (b k p : String) (file : F) (w : W) → Copied b k p w → Copied b k p (m.close_file file w)
    pub object_keeps :
        (b k p : String) (object : O) (w : W)
        → Copied b k p w
        → Copied b k p (m.close_object object w)
    pub client_keeps :
        (b k p : String) (client : C) (w : W)
        → Copied b k p w
        → Copied b k p (m.close_client client w)

  -- The message was claimed at some point of the run.
  abbrev pub IsClaimed : ℕ → Config → Message → Type 0
  IsClaimed fuel cfg msg =
      (client : C) × (id : String) × (v : W) × (u : W) × (claim_message (m.read_group client)
          m.cancelled (sleep_with_context m) fuel cfg v
        ≡ some (ok (msg, id), u))

  -- If the run ends with success, the file of a message that it claimed was copied.
  abbrev pub IsFetched : ℕ → Config → Option (Result (Unit {0}) × W) → Type 0
  IsFetched fuel cfg none = Unit {0}
  IsFetched fuel cfg (some (err e, w)) = Unit {0}
  IsFetched fuel cfg (some (ok u, w)) =
      (msg : Message) × IsClaimed fuel cfg msg
      × Copied cfg.s3_bucket msg.file cfg.video_input_path w

  module _ (h : IsCopying) where
    write_object-Copied :
        (client : M) (bucket key path : String) (u w : W) (object : O)
        → (m.get_object client bucket key u).0 ≡ ok object
        → is_ok (write_object m object path w).0 ≡ true
        → Copied bucket key path (write_object m object path w).1
    unfolding write_object
    write_object-Copied client bucket key path u w object got good =
        elim (Result-cases (m.create_file path w).0) [
          | inr (e, f) ↦
              let failed : (wrapping "failed to create file" (m.create_file path) w).0
                  ≡ err (wrapped "failed to create file" e) =
                rw (wrapping, f) refl in
              let bad = rw (write_object, failed) at good in cc bad
          | inl (file, f) ↦
              let create = m.create_file path in
              let opened : (wrapping "failed to create file" create w).0 ≡ ok file =
                rw (wrapping, f) refl in
              let v = (wrapping "failed to create file" create w).1 in
              let done = rw (write_object, opened) at good in
              let copy = m.copy file object in
              rw (write_object, opened)
                (h.object_keeps bucket key path object _ (
                  h.file_keeps bucket key path file _ (
                    subst (Copied bucket key path) (sym (world-wrapping _ copy v)) (
                      h.copies client bucket key path u w v object file got f
                        (sym (is_ok-wrapping _ copy v) ∙ done)))))
        ]

    download_file-Copied :
        (client : M) (bucket key path : String) (w : W)
        → is_ok (download_file m client bucket key path w).0 ≡ true
        → Copied bucket key path (download_file m client bucket key path w).1
    unfolding download_file
    download_file-Copied client bucket key path w good =
        let make = wrapping "failed to create directory" (m.make_parent path) in
        elim (Result-cases (make w).0) [
          | inr (e, f) ↦ let bad = rw (download_file, f) at good in cc bad
          | inl (x, e) ↦
              let get = m.get_object client bucket key in
              let u = (make w).1 in
              let fetched = wrapping "failed to get object from S3" get in
              elim (Result-cases (get u).0) [
                | inr (y, f) ↦
                    let failed : (fetched u).0 ≡ err (wrapped "failed to get object from S3" y) =
                      rw (wrapping, f) refl in
                    let bad = rw (download_file, e, failed) at good in cc bad
                | inl (object, f) ↦
                    let got : (fetched u).0 ≡ ok object = rw (wrapping, f) refl in
                    rw (download_file, e, got)
                      (write_object-Copied client bucket key path u (fetched u).1 object f
                        (rw (download_file, e, got) at good))
              ]
        ]

    fetch_file-Copied :
        (cfg : Config) (msg : Message) (w : W)
        → is_ok (fetch_file m cfg msg w).0 ≡ true
        → Copied cfg.s3_bucket msg.file cfg.video_input_path (fetch_file m cfg msg w).1
    unfolding fetch_file
    fetch_file-Copied cfg msg w good =
        let text : String = "failed to create MinIO client" in
        let open_minio = wrapping text (wrapping text (m.new_minio (minio_options cfg))) in
        elim (Result-cases (open_minio w).0) [
          | inr (e, f) ↦ let bad = rw (fetch_file, f) at good in cc bad
          | inl (client, e) ↦
              let download = download_file m client cfg.s3_bucket msg.file cfg.video_input_path in
              let u = (open_minio w).1 in
              let done = rw (fetch_file, e) at good in
              rw (fetch_file, e)
                (subst (Copied cfg.s3_bucket msg.file cfg.video_input_path)
                  (sym (world-wrapping _ download u))
                  (download_file-Copied client cfg.s3_bucket msg.file cfg.video_input_path u
                    (sym (is_ok-wrapping _ download u) ∙ done)))
        ]

    close_client-IsFetched :
        (fuel : ℕ) (cfg : Config) (msg : Message) (client : C) (o : Result (Unit {0})) (w : W)
        → IsClaimed fuel cfg msg
        → (is_ok o ≡ true → Copied cfg.s3_bucket msg.file cfg.video_input_path w)
        → IsFetched fuel cfg (some (o, m.close_client client w))
    close_client-IsFetched fuel cfg msg client (err e) w claimed h' = tt
    close_client-IsFetched fuel cfg msg client (ok u) w claimed h' = (
      msg,
      claimed,
      h.client_keeps cfg.s3_bucket msg.file cfg.video_input_path client w (h' refl),
    )

    after_claim-IsFetched :
        (fuel : ℕ) (cfg : Config) (client : C) (v : W) (o : Claimed m)
        → o ≡ claim_message (m.read_group client) m.cancelled (sleep_with_context m) fuel cfg v
        → IsFetched fuel cfg (after_claim m cfg client o)
    unfolding after_claim closed
    after_claim-IsFetched fuel cfg client v none e = tt
    after_claim-IsFetched fuel cfg client v (some (err x, w)) e = tt
    after_claim-IsFetched fuel cfg client v (some (ok (msg, id), w)) e =
        close_client-IsFetched fuel cfg msg client (fetch_file m cfg msg w).0
          (fetch_file m cfg msg w).1 (client, id, v, w, sym e) (fetch_file-Copied cfg msg w)

    after_ping-IsFetched :
        (fuel : ℕ) (cfg : Config) (client : C) (o : Option (Result (Unit {0}) × W))
        → IsFetched fuel cfg (after_ping m fuel cfg client o)
    unfolding after_ping closed
    after_ping-IsFetched fuel cfg client none = tt
    after_ping-IsFetched fuel cfg client (some (err x, w)) = tt
    after_ping-IsFetched fuel cfg client (some (ok u, w)) =
        after_claim-IsFetched fuel cfg client w _ refl

    after_client-IsFetched :
        (fuel : ℕ) (cfg : Config) (o : Option (Result C × W))
        → IsFetched fuel cfg (after_client m fuel cfg o)
    unfolding after_client
    after_client-IsFetched fuel cfg none = tt
    after_client-IsFetched fuel cfg (some (err x, w)) = tt
    after_client-IsFetched fuel cfg (some (ok client, w)) =
        after_ping-IsFetched fuel cfg client (wait_for_valkey m fuel client w)

    -- If the claimer succeeds, then it claimed a message and the object of the message's file in the
    -- configured bucket was copied to the configured path: `Copied` is any fact that a successful copy
    -- of the opened object to the created file establishes and that closing them and the client keeps.
    -- The settings were accepted.
    pub run-IsFetched :
        (fuel : ℕ) (env : Dict String) (cfg : Config) (w : W)
        → load_config env ≡ ok cfg
        → IsFetched fuel cfg (run m fuel env w)
    unfolding run with_config
    run-IsFetched fuel env cfg w e =
        let create = create_valkey_client m cfg in
        let final = wrapped "failed to create Valkey client" in
        rw (run, e)
          (after_client-IsFetched fuel cfg
            (retry m create final fuel (new_exponential_backoff (30 * second)) w))
