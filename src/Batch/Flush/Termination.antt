-- ===== src/Batch/Flush/Termination.antt =====
-- The two loops of the flush end when the queue server takes the requests.
use openfilter_pipelines_con.Base.{
  ℕ, zero, suc, ◌≤◌, ◌<◌, ◌≡◌, refl, inl, inr, Bool, true, false, Option, some, List, [], ◌∷◌,
  String, ℤ, pos, Dict, arith, is_some, none,
}
use openfilter_pipelines_con.Go.{ok, is_ok, Result, Result-cases}
use openfilter_pipelines_con.Api.{
  PipelineInstance, get_queue_stream, get_queue_group, get_queue_dlq,
}
use openfilter_pipelines_con.Batch.Common.{max_attempts}
use openfilter_pipelines_con.Queue.{XMessage, ValkeyClientInterface}
use openfilter_pipelines_con.Batch.Flush.{
  Existing, drop_messages, note_messages, ids_of, drop_pending, drop_unread, drop_all,
  read_existing, finish, flush_outstanding_work,
}

-- The documented behaviour of the commands of the flush while no one else writes to the stream: `size`
-- counts its messages and `pending` those that are delivered and not acknowledged.
pub record IsDraining {W : Type 0} (q : ValkeyClientInterface W) (stream group : String)
    (size pending : W → ℕ) : Type 0 where
  pub claim_pending :
      (consumer : String) (idle n : ℤ) (w : W)
      → pending (q.auto_claim stream group consumer idle n w).1 ≤ pending w
  pub claim_size :
      (consumer : String) (idle n : ℤ) (w : W)
      → size (q.auto_claim stream group consumer idle n w).1 ≤ size w
  -- A message that XAUTOCLAIM hands over is pending, and XACK settles it.
  pub ack_claimed :
      (consumer : String) (idle n : ℤ) (w : W) (msg : XMessage) (msgs : List XMessage)
      → (q.auto_claim stream group consumer idle n w).0 ≡ ok (msg ∷ msgs)
      → let u = (q.auto_claim stream group consumer idle n w).1 in
        pending (q.ack_message stream group msg.id u).1 < pending u
  pub ack_pending : (id : String) (w : W) → pending (q.ack_message stream group id w).1 ≤ pending w
  pub ack_size : (id : String) (w : W) → size (q.ack_message stream group id w).1 ≤ size w
  pub delete_pending :
      (ids : List String) (w : W) → pending (q.delete_messages stream ids w).1 ≤ pending w
  pub delete_size : (ids : List String) (w : W) → size (q.delete_messages stream ids w).1 ≤ size w
  -- XRANGE only reads, whichever stream it is.
  pub range_size :
      (key from to : String) (n : ℤ) (w : W) → size (q.read_range key from to n w).1 ≤ size w
  pub range_pending :
      (key from to : String) (n : ℤ) (w : W) → pending (q.read_range key from to n w).1 ≤ pending w
  -- A message that XRANGE shows is in the stream, and a successful XDEL takes it away.
  pub delete_read :
      (from to : String) (n : ℤ) (w : W) (msg : XMessage) (msgs : List XMessage)
      → (q.read_range stream from to n w).0 ≡ ok (msg ∷ msgs)
      → let u = (q.read_range stream from to n w).1 in
        is_ok (q.delete_messages stream (ids_of (msg ∷ msgs)) u).0 ≡ true
        → size (q.delete_messages stream (ids_of (msg ∷ msgs)) u).1 < size u

module _ {W : Type 0} (q : ValkeyClientInterface W) (pi : PipelineInstance) (size pending : W → ℕ)
    (laws : IsDraining q (get_queue_stream pi) (get_queue_group pi) size pending) where
  drop_messages-le :
      (msgs : List XMessage) (w : W) → pending (drop_messages q pi msgs w) ≤ pending w
  unfolding drop_messages
  drop_messages-le [] w = omega arith
  drop_messages-le (msg ∷ msgs) w =
      let acked = (q.ack_message (get_queue_stream pi) (get_queue_group pi) msg.id w).1 in
      let gone = (q.delete_messages (get_queue_stream pi) (msg.id ∷ []) acked).1 in
      omega (
        arith,
        drop_messages-le msgs gone,
        laws.delete_pending (msg.id ∷ []) acked,
        laws.ack_pending msg.id w,
      )

  -- Both counts only go down when the messages are dropped.
  drop_messages-size : (msgs : List XMessage) (w : W) → size (drop_messages q pi msgs w) ≤ size w
  unfolding drop_messages
  drop_messages-size [] w = omega arith
  drop_messages-size (msg ∷ msgs) w =
      let acked = (q.ack_message (get_queue_stream pi) (get_queue_group pi) msg.id w).1 in
      let gone = (q.delete_messages (get_queue_stream pi) (msg.id ∷ []) acked).1 in
      omega (
        arith,
        drop_messages-size msgs gone,
        laws.delete_size (msg.id ∷ []) acked,
        laws.ack_size msg.id w,
      )

  -- What the first loop has when it ends: a result, and no more messages than before.
  abbrev Ends : ℕ → Option (Dict ℤ × W) → Type 0
  Ends n r = (files : Dict ℤ) × (w : W) × (r ≡ some (files, w)) × (size w ≤ n)

  abbrev claim : W → Result (List XMessage) × W
  claim w =
      q.auto_claim (get_queue_stream pi) (get_queue_group pi) "controller-flush" (pos 0) (pos 100) w

  -- A round of the first loop settles at least one message.
  drop_claimed-lt :
      (w : W) (msg : XMessage) (msgs : List XMessage)
      → (claim w).0 ≡ ok (msg ∷ msgs)
      → pending (drop_messages q pi (msg ∷ msgs) (claim w).1) < pending w
  unfolding drop_messages
  drop_claimed-lt w msg msgs found =
      let u = (claim w).1 in
      let acked = (q.ack_message (get_queue_stream pi) (get_queue_group pi) msg.id u).1 in
      let gone = (q.delete_messages (get_queue_stream pi) (msg.id ∷ []) acked).1 in
      omega (
        arith,
        drop_messages-le msgs gone,
        laws.delete_pending (msg.id ∷ []) acked,
        laws.ack_claimed "controller-flush" (pos 0) (pos 100) w msg msgs found,
        laws.claim_pending "controller-flush" (pos 0) (pos 100) w,
      )

  drop_pending-Ends :
      (fuel : ℕ) (max : ℤ) (files : Dict ℤ) (w : W)
      → pending w < fuel
      → Ends (size w) (drop_pending q fuel pi max files w)
  unfolding drop_pending
  drop_pending-Ends zero max files w h = elim h [ ]
  drop_pending-Ends (suc fuel) max files w h =
      let u = (claim w).1 in
      let fewer = laws.claim_size "controller-flush" (pos 0) (pos 100) w in
      elim (Result-cases (claim w).0) [
        | inr (e, failed) ↦ rw (failed, drop_pending) (files, u, refl, fewer)
        | inl ([], found) ↦ rw (found, drop_pending) (files, u, refl, fewer)
        | inl (msg ∷ msgs, found) ↦
            let rest =
              drop_pending-Ends fuel max (note_messages max (msg ∷ msgs) files)
                (drop_messages q pi (msg ∷ msgs) u)
                (omega (arith, h, drop_claimed-lt w msg msgs found)) in
            let still = drop_messages-size (msg ∷ msgs) u in
            rw (found, drop_pending) (rest.0, rest.1, rest.2, omega (arith, rest.3, still, fewer))
      ]

  pub drop_unread-some :
      (fuel : ℕ) (max : ℤ) (files : Dict ℤ) (w : W)
      → size w < fuel
      → is_some (drop_unread q fuel pi max files w) ≡ true
  unfolding drop_unread
  drop_unread-some zero max files w h = elim h [ ]
  drop_unread-some (suc fuel) max files w h =
      let read = q.read_range (get_queue_stream pi) "-" "+" (pos 100) w in
      let fewer = laws.range_size (get_queue_stream pi) "-" "+" (pos 100) w in
      elim (Result-cases read.0) [
        | inr (e, failed) ↦ rw (failed, drop_unread) refl
        | inl ([], found) ↦ rw (found, drop_unread) refl
        | inl (msg ∷ msgs, found) ↦
            let noted = note_messages max (msg ∷ msgs) files in
            let gone = q.delete_messages (get_queue_stream pi) (ids_of (msg ∷ msgs)) read.1 in
            elim (Result-cases gone.0) [
              | inr (e, failed) ↦ rw (found, drop_unread, failed) refl
              | inl (u, deleted) ↦
                  let less =
                    laws.delete_read "-" "+" (pos 100) w msg msgs found (rw (deleted) refl) in
                  rw (found, drop_unread, deleted)
                    (drop_unread-some fuel max noted gone.1 (omega (arith, h, fewer, less)))
            ]
      ]

  finish-some :
      (order : Dict ℤ → Dict ℤ) (message : String) (known : Existing)
      (r : Option (Bool × Dict ℤ × W))
      → is_some r ≡ true
      → is_some (finish q order pi message known r) ≡ true
  unfolding finish
  finish-some order message known none h = ground arith
  finish-some order message known (some (true, files, w)) h = refl
  finish-some order message known (some (false, files, w)) h = refl

  read_existing-le :
      (w : W)
      → (size (read_existing q pi w).1 ≤ size w) × (pending (read_existing q pi w).1 ≤ pending w)
  unfolding read_existing
  read_existing-le w =
      let read = q.read_range (get_queue_dlq pi) "-" "+" (pos 0) w in
      let few = laws.range_size (get_queue_dlq pi) "-" "+" (pos 0) w in
      let same = laws.range_pending (get_queue_dlq pi) "-" "+" (pos 0) w in
      elim (Result-cases read.0) [
        | inr (e, failed) ↦ rw (failed, read_existing) (few, same)
        | inl (msgs, found) ↦ rw (found, read_existing) (few, same)
      ]

  -- On a queue that no one else writes to, the flush ends with fuel for every pending message and
  -- every message of the stream, whatever requests fail, as long as XACK settles what it is given and
  -- a successful XDEL deletes.
  pub flush_outstanding_work-some :
      (fuel : ℕ) (order : Dict ℤ → Dict ℤ) (message : String) (w : W)
      → pending w < fuel
      → size w < fuel
      → is_some (flush_outstanding_work q fuel order pi message w) ≡ true
  unfolding flush_outstanding_work drop_all
  flush_outstanding_work-some fuel order message w h k =
      let existing = read_existing q pi w in
      let le = read_existing-le w in
      let ends = drop_pending-Ends fuel (max_attempts pi) [] existing.1 (omega (arith, h, le.1)) in
      rw (ends.2, drop_all)
        (finish-some order message existing.0
          (drop_unread q fuel pi (max_attempts pi) ends.0 ends.1)
          (drop_unread-some fuel (max_attempts pi) ends.0 ends.1 (omega (arith, ends.3, k, le.0))))
