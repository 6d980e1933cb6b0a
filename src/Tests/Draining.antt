-- ===== src/Tests/Draining.antt =====
-- A queue in memory for the flush: the messages that are delivered, those that no one has read, and
-- the entries of the dead letter queue.
use openfilter_pipelines_con.Base.{
  ◌≤◌, ◌<◌, ◌≡◌, refl, ap, true, false, Bool, List, [], ◌∷◌, ◌++◌, String, str_eq, eq_iff,
  if◌then◌else◌, length, arith,
}
use openfilter_pipelines_con.Go.{ok}
use openfilter_pipelines_con.Api.{get_queue_stream, get_queue_group, get_queue_dlq}
use openfilter_pipelines_con.Queue.{XMessage, ValkeyClientInterface}
use openfilter_pipelines_con.Batch.Flush.{ids_of}
use openfilter_pipelines_con.Batch.Flush.Termination.{IsDraining}
use openfilter_pipelines_con.Batch.Flush.Shown.{View, IsShowing}
use openfilter_pipelines_con.Tests.Samples.{quiet_queue, instance_a}

pub record Stream : Type 0 where
  pub delivered : List XMessage
  pub unread : List XMessage
  pub entries : List XMessage
  pub taken : List XMessage
  pub known : List XMessage
  pub buried : List String

abbrev is_dlq : String → Bool
is_dlq key = str_eq key (get_queue_dlq instance_a)

abbrev without : String → List XMessage → List XMessage
without id [] = []
without id (m ∷ ms) = if str_eq m.id id then ms else m ∷ without id ms

abbrev without_all : List String → List XMessage → List XMessage
without_all [] ms = ms
without_all (id ∷ ids) ms = without_all ids (without id ms)

abbrev message : String → String → String → XMessage
message id file attempts = record { id = id; values = ("file", file) ∷ ("attempts", attempts) ∷ [] }

abbrev pub draining_queue : ValkeyClientInterface Stream
draining_queue =
    let q = quiet_queue Stream in
    record q {
      auto_claim = λ s g c idle n w. (ok w.delivered, record w { taken = w.delivered ++ w.taken });
      read_range = λ s from to n w. (
        ok (if is_dlq s then w.entries else w.unread),
        record w {
          taken = if is_dlq s then w.taken else w.unread ++ w.taken;
          known = if is_dlq s then w.entries ++ w.known else w.known;
        },
      );
      ack_message = λ s g id w. (ok tt, record w { delivered = without id w.delivered });
      delete_messages = λ s ids w. (
        ok tt,
        record w {
          unread = if is_dlq s then w.unread else without_all ids w.unread;
          entries = if is_dlq s then without_all ids w.entries else w.entries;
        },
      );
      add_to_dlq = λ s run file n reason w. (
        ok tt,
        record w { entries = w.entries ++ (message "9-0" file "3" ∷ []); buried = file ∷ w.buried },
      );
    }

without-le : (id : String) (ms : List XMessage) → length (without id ms) ≤ length ms
without-le id [] = omega arith
without-le id (m ∷ ms) = ground (arith, without-le id ms)

without_all-le : (ids : List String) (ms : List XMessage) → length (without_all ids ms) ≤ length ms
without_all-le [] ms = omega arith
without_all-le (id ∷ ids) ms = omega (arith, without_all-le ids (without id ms), without-le id ms)

without_head :
    (m : XMessage) (ms all : List XMessage) → all ≡ m ∷ ms → length (without m.id all) < length all
without_head m ms all e = rw (e) ground (arith, eq_iff m.id m.id)

without_heads :
    (m : XMessage) (ms all : List XMessage)
    → all ≡ m ∷ ms
    → length (without_all (ids_of (m ∷ ms)) all) < length all
unfolding ids_of
without_heads m ms all e =
    omega (arith, without_all-le (ids_of ms) (without m.id all), without_head m ms all e)

ok-injective : {xs ys : List XMessage} → ok xs ≡ ok ys → xs ≡ ys
ok-injective h = cc h

stream-is_dlq : is_dlq (get_queue_stream instance_a) ≡ false
unfolding get_queue_stream get_queue_dlq
stream-is_dlq = refl

dlq-is_dlq : is_dlq (get_queue_dlq instance_a) ≡ true
unfolding get_queue_dlq
dlq-is_dlq = refl

pub draining_queue-laws :
    IsDraining draining_queue
      (get_queue_stream instance_a)
      (get_queue_group instance_a)
      (λ w. length w.unread)
      (λ w. length w.delivered)
draining_queue-laws = record {
  claim_pending = λ consumer idle n w. omega arith;
  claim_size = λ consumer idle n w. omega arith;
  ack_claimed = λ consumer idle n w msg msgs h. without_head msg msgs w.delivered (ok-injective h);
  ack_pending = λ id w. without-le id w.delivered;
  ack_size = λ id w. omega arith;
  delete_pending = λ ids w. omega arith;
  delete_size = λ ids w. rw (stream-is_dlq) (without_all-le ids w.unread);
  range_size = λ key from to n w. omega arith;
  range_pending = λ key from to n w. omega arith;
  delete_read = λ from to n w msg msgs h done.
      rw (stream-is_dlq) (without_heads msg msgs w.unread (ok-injective (rw (stream-is_dlq) at h)));
}

abbrev pub flush_view : View Stream
flush_view = record {
  taken = λ w. w.taken;
  known = λ w. w.known;
  buried = λ w. w.buried;
  left = λ w. length w.unread;
}

pub draining_queue-IsShowing : IsShowing draining_queue instance_a flush_view
draining_queue-IsShowing = record {
  claim_shows = λ consumer idle n w msgs h. rw (ok-injective h) refl;
  claim_answers = λ consumer idle n w. refl;
  read_shows = λ n w msgs h. rw (stream-is_dlq) (rw (ok-injective (rw (stream-is_dlq) at h)) refl);
  read_answers = λ n w. refl;
  dlq_shows = λ n w msgs h. rw (dlq-is_dlq) (rw (ok-injective (rw (dlq-is_dlq) at h)) refl);
  dlq_answers = λ n w. refl;
  ack_keeps = λ s g id w. refl;
  delete_keeps = λ s ids w. refl;
  delete_answers = λ s ids w. refl;
  buries = λ file n reason w. refl;
  read_empty = λ n w h. ap length (ok-injective (rw (stream-is_dlq) at h));
  bury_leaves = λ file n reason w. refl;
  delete_leaves = λ ids w. rw (dlq-is_dlq) refl;
}

abbrev pub three_left : Stream
three_left = record {
  delivered = message "1-0" "a.mp4" "1" ∷ [];
  unread = message "2-0" "b.mp4" "0" ∷ message "3-0" "c.mp4" "2" ∷ [];
  entries = message "7-0" "d.mp4" "2" ∷ [];
  taken = [];
  known = [];
  buried = [];
}
