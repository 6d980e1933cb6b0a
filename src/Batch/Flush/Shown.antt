-- ===== src/Batch/Flush/Shown.antt =====
-- What the two loops of the flush put into their account of the messages (`flushOutstandingWork`,
-- internal/controller/pipelineinstance_controller_batch.go).
use openfilter_pipelines_con.Base.{
  ℕ, zero, suc, ◌≡◌, ◌↔◌, ◌⊎◌, refl, sym, ap, subst, ◌∙◌, inl, inr, true, Bool, Option, none, some,
  List, [], ◌∷◌, ◌++◌, String, ℤ, pos, Dict, Any,
}
use openfilter_pipelines_con.Go.{ok, is_ok, Result-cases}
use openfilter_pipelines_con.Api.{
  PipelineInstance, get_queue_stream, get_queue_group, get_queue_dlq, get_instance_id,
}
use openfilter_pipelines_con.Queue.{XMessage, ValkeyClientInterface}
use openfilter_pipelines_con.Batch.Common.{max_attempts}
use openfilter_pipelines_con.Batch.Flush.{
  note_messages, ids_of, drop_messages, drop_pending, drop_unread, drop_all,
}
use openfilter_pipelines_con.Batch.Flush.Noted.{
  HasFailedBefore, IsNoted, IsNoted-failed, failed-IsNoted,
}
use openfilter_pipelines_con.Batch.Flush.Merged.{IsPositive, note_messages-IsPositive}

-- The messages of the work stream that the replies have shown so far, the entries of the dead letter
-- queue that they have shown, the files that XADD was asked to add to it, and the number of messages
-- in the work stream.
pub record View (W : Type 0) : Type 0 where
  pub taken : W → List XMessage
  pub known : W → List XMessage
  pub buried : W → List String
  pub left : W → ℕ

abbrev pub shown : {W : Type 0} → View W → W → List XMessage × List XMessage × List String
shown v w = (v.taken w, v.known w, v.buried w)

-- A queue that answers the reads and deletions of the flush without an error; the view has what its
-- replies show and what it is asked to add.
pub record IsShowing {W : Type 0} (q : ValkeyClientInterface W) (pi : PipelineInstance) (v : View W)
    : Type 0 where
  pub claim_shows :
      (consumer : String) (idle n : ℤ) (w : W) (msgs : List XMessage)
      → let claimed = q.auto_claim (get_queue_stream pi) (get_queue_group pi) consumer idle n w in
        claimed.0 ≡ ok msgs → shown v claimed.1 ≡ (msgs ++ v.taken w, v.known w, v.buried w)
  pub claim_answers :
      (consumer : String) (idle n : ℤ) (w : W)
      → is_ok (q.auto_claim (get_queue_stream pi) (get_queue_group pi) consumer idle n w).0 ≡ true
  pub read_shows :
      (n : ℤ) (w : W) (msgs : List XMessage)
      → let read = q.read_range (get_queue_stream pi) "-" "+" n w in
        read.0 ≡ ok msgs → shown v read.1 ≡ (msgs ++ v.taken w, v.known w, v.buried w)
  pub read_answers :
      (n : ℤ) (w : W) → is_ok (q.read_range (get_queue_stream pi) "-" "+" n w).0 ≡ true
  pub dlq_shows :
      (n : ℤ) (w : W) (msgs : List XMessage)
      → let read = q.read_range (get_queue_dlq pi) "-" "+" n w in
        read.0 ≡ ok msgs → shown v read.1 ≡ (v.taken w, msgs ++ v.known w, v.buried w)
  pub dlq_answers : (n : ℤ) (w : W) → is_ok (q.read_range (get_queue_dlq pi) "-" "+" n w).0 ≡ true
  pub ack_keeps : (s g id : String) (w : W) → shown v (q.ack_message s g id w).1 ≡ shown v w
  pub delete_keeps :
      (s : String) (ids : List String) (w : W) → shown v (q.delete_messages s ids w).1 ≡ shown v w
  pub delete_answers :
      (s : String) (ids : List String) (w : W) → is_ok (q.delete_messages s ids w).0 ≡ true
  pub buries :
      (file : String) (n : ℤ) (reason : String) (w : W)
      → shown v (q.add_to_dlq (get_queue_dlq pi) (get_instance_id pi) file n reason w).1
        ≡ (v.taken w, v.known w, file ∷ v.buried w)
  -- The messages of the work stream: XRANGE shows none only if there is none, and requests for the dead
  -- letter queue leave them.
  pub read_empty :
      (n : ℤ) (w : W)
      → let read = q.read_range (get_queue_stream pi) "-" "+" n w in
        read.0 ≡ ok [] → v.left read.1 ≡ 0
  pub bury_leaves :
      (file : String) (n : ℤ) (reason : String) (w : W)
      → v.left (q.add_to_dlq (get_queue_dlq pi) (get_instance_id pi) file n reason w).1 ≡ v.left w
  pub delete_leaves :
      (ids : List String) (w : W) → v.left (q.delete_messages (get_queue_dlq pi) ids w).1 ≡ v.left w

pub Any-append :
    {A : Type 0} (P : A → Type 0) (xs ys : List A) → Any P (xs ++ ys) ↔ (Any P xs ⊎ Any P ys)
Any-append P [] ys = ((λ h. inr h), λ h. elim h [ inl bad ↦ absurd bad | inr later ↦ later ])
Any-append P (x ∷ xs) ys =
    let (to, from) = Any-append P xs ys in
    (
      λ h. elim h [
        | inl here ↦ inl (inl here)
        | inr later ↦ elim (to later) [ inl a ↦ inl (inr a) | inr b ↦ inr b ]
      ],
      λ h. elim h [
        | inl (inl here) ↦ inl here
        | inl (inr a) ↦ inr (from (inl a))
        | inr b ↦ inr (from (inr b))
      ],
    )

module _ {W : Type 0} (q : ValkeyClientInterface W) (pi : PipelineInstance) (v : View W)
    (laws : IsShowing q pi v) (known : List XMessage) where
  abbrev pub max : ℤ
  max = max_attempts pi

  -- The account has the files that the messages of the work stream call for; nothing is moved yet.
  pub record Sums (files : Dict ℤ) (w : W) : Type 0 where
    pub noted : (file : String) → IsNoted file files ↔ Any (HasFailedBefore max file) (v.taken w)
    pub positive : IsPositive files
    pub rest : (v.known w ≡ known) × (v.buried w ≡ [])

  Sums-kept : (files : Dict ℤ) (w u : W) → shown v u ≡ shown v w → Sums files w → Sums files u
  Sums-kept files w u same h = record {
    noted = λ file.
        subst (λ ms. IsNoted file files ↔ Any (HasFailedBefore max file) ms)
          (ap (λ t. t.0) (sym same)) (h.noted file);
    positive = h.positive;
    rest = (ap (λ t. t.1) same ∙ h.rest.0, ap (λ t. t.2) same ∙ h.rest.1);
  }

  Sums-noted :
      (msgs : List XMessage) (files : Dict ℤ) (w u : W)
      → shown v u ≡ (msgs ++ v.taken w, v.known w, v.buried w)
      → Sums files w
      → Sums (note_messages max msgs files) u
  Sums-noted msgs files w u grew h = record {
    noted = λ file.
        let (split, join) = Any-append (HasFailedBefore max file) msgs (v.taken w) in
        let (to, from) = h.noted file in
        subst
          (λ ms. IsNoted file (note_messages max msgs files) ↔ Any (HasFailedBefore max file) ms)
          (ap (λ t. t.0) (sym grew))
          (
            λ n. elim (IsNoted-failed max file msgs files n) [
              | inl old ↦ join (inr (to old))
              | inr new ↦ join (inl new)
            ],
            λ a.
                failed-IsNoted max file msgs files
                  (elim (split a) [ inl new ↦ inr new | inr old ↦ inl (from old) ]),
          );
    positive = note_messages-IsPositive max msgs files h.positive;
    rest = (ap (λ t. t.1) grew ∙ h.rest.0, ap (λ t. t.2) grew ∙ h.rest.1);
  }

  drop_messages-shown :
      (msgs : List XMessage) (w : W) → shown v (drop_messages q pi msgs w) ≡ shown v w
  unfolding drop_messages
  drop_messages-shown [] w = refl
  drop_messages-shown (msg ∷ msgs) w =
      drop_messages-shown msgs _ ∙ laws.delete_keeps _ _ _ ∙ laws.ack_keeps _ _ msg.id w

  abbrev pub After : Option (Dict ℤ × W) → Type 0
  After none = Unit {0}
  After (some (files, w)) = Sums files w

  pub drop_pending-After :
      (fuel : ℕ) (files : Dict ℤ) (w : W)
      → Sums files w
      → After (drop_pending q fuel pi max files w)
  unfolding drop_pending
  drop_pending-After zero files w h = tt
  drop_pending-After (suc fuel) files w h =
      let claimed =
        q.auto_claim (get_queue_stream pi) (get_queue_group pi) "controller-flush" (pos 0) (pos 100)
          w in
      elim (Result-cases claimed.0) [
        | inr (e, failed) ↦
            let answered = laws.claim_answers "controller-flush" (pos 0) (pos 100) w in
            let bad = rw (failed) at answered in absurd (cc bad)
        | inl ([], shows) ↦
            rw (shows, drop_pending)
              (Sums-kept files w claimed.1
                (laws.claim_shows "controller-flush" (pos 0) (pos 100) w [] shows) h)
        | inl (msg ∷ msgs, shows) ↦
            let noted = note_messages max (msg ∷ msgs) files in
            rw (shows, drop_pending)
              (drop_pending-After fuel noted (drop_messages q pi (msg ∷ msgs) claimed.1) (
                Sums-kept noted claimed.1 _ (drop_messages-shown (msg ∷ msgs) claimed.1) (
                  Sums-noted (msg ∷ msgs) files w claimed.1
                    (laws.claim_shows "controller-flush" (pos 0) (pos 100) w (msg ∷ msgs) shows)
                    h)))
      ]

  -- Behind the second loop: it was not given up, and the account is complete.
  abbrev pub AfterAll : Option (Bool × Dict ℤ × W) → Type 0
  AfterAll none = Unit {0}
  AfterAll (some (complete, files, w)) = (complete ≡ true) × Sums files w × (v.left w ≡ 0)

  drop_unread-AfterAll :
      (fuel : ℕ) (files : Dict ℤ) (w : W)
      → Sums files w
      → AfterAll (drop_unread q fuel pi max files w)
  unfolding drop_unread
  drop_unread-AfterAll zero files w h = tt
  drop_unread-AfterAll (suc fuel) files w h =
      let read = q.read_range (get_queue_stream pi) "-" "+" (pos 100) w in
      elim (Result-cases read.0) [
        | inr (e, failed) ↦
            let answered = laws.read_answers (pos 100) w in
            let bad = rw (failed) at answered in absurd (cc bad)
        | inl ([], shows) ↦
            rw (shows, drop_unread)
              (
                refl,
                Sums-kept files w read.1 (laws.read_shows (pos 100) w [] shows) h,
                laws.read_empty (pos 100) w shows,
              )
        | inl (msg ∷ msgs, shows) ↦
            let noted = note_messages max (msg ∷ msgs) files in
            let gone = q.delete_messages (get_queue_stream pi) (ids_of (msg ∷ msgs)) read.1 in
            let sums =
              Sums-kept noted read.1 gone.1
                (laws.delete_keeps (get_queue_stream pi) (ids_of (msg ∷ msgs)) read.1)
                (Sums-noted (msg ∷ msgs) files w read.1
                  (laws.read_shows (pos 100) w (msg ∷ msgs) shows) h) in
            elim (Result-cases gone.0) [
              | inl (a, done) ↦
                  rw (shows, drop_unread, done) (drop_unread-AfterAll fuel noted gone.1 sums)
              | inr (e, failed) ↦
                  let answered =
                    laws.delete_answers (get_queue_stream pi) (ids_of (msg ∷ msgs)) read.1 in
                  let bad = rw (failed) at answered in absurd (cc bad)
            ]
      ]

  pub drop_all-AfterAll :
      (fuel : ℕ) (r : Option (Dict ℤ × W)) → After r → AfterAll (drop_all q fuel pi r)
  unfolding drop_all
  drop_all-AfterAll fuel none h = tt
  drop_all-AfterAll fuel (some (files, w)) h = drop_unread-AfterAll fuel files w h
