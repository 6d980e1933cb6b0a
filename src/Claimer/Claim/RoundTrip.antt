-- ===== src/Claimer/Claim/RoundTrip.antt =====
-- The work item that `EnqueueFileWithAttempts` adds (internal/queue/valkey.go) is what
-- `claimMessageOnce` reads (cmd/claimer/main.go).
use openfilter_pipelines_con.Base.{
  ℕ, ◌<◌, ℤ, pos, ◌≡◌, ◌≢◌, refl, String, [], map, arith, eq_iff, two_63, insert, lookup,
}
use openfilter_pipelines_con.Go.{ok}
use openfilter_pipelines_con.Go.Strconv.{itoa}
use openfilter_pipelines_con.Go.Strconv.RoundTrip.{atoi-itoa}
use openfilter_pipelines_con.Queue.{value_of}
use openfilter_pipelines_con.Queue.Client.Item.{work_item, flatten}
use openfilter_pipelines_con.Queue.Client.Parse.{Replies, field_map}
use openfilter_pipelines_con.Claimer.Claim.{attempts_of, parse_message}

-- The fields come back from the words in which they were sent.
field_map-work_item :
    {R : Type 0} (replies : Replies R) (reply : String → R) (run file : String) (n : ℤ)
    → ((s : String) → replies.to_text (reply s) ≡ ok s)
    → field_map replies (map reply (flatten (work_item run file n))) [] ≡ work_item run file n
unfolding field_map flatten work_item insert
field_map-work_item replies reply run file n texts =
    rw (texts "run", texts run, texts "file", texts file, texts "attempts", texts (itoa n)) refl

parse_message_values :
    (id run file : String) (n : ℕ)
    → file ≢ ""
    → n < two_63
    → parse_message (record { id = id; values = work_item run file (pos n) })
      ≡ ok (record { run = run; file = file; attempts = pos n }, id)
unfolding parse_message attempts_of work_item lookup value_of
parse_message_values id run file n named h =
    rw (parse_message, attempts_of, atoi-itoa n h) ground (arith, eq_iff file "")

-- The fields of a work item come back from the words in which they were sent, and the claimer reads
-- the run, the file and the counter that were enqueued, for a file with a name and a counter from 0 to
-- 2^63 - 1. `reply` is the reply that carries a text.
pub parse_message-work_item :
    {R : Type 0} (replies : Replies R) (reply : String → R) (id run file : String) (n : ℕ)
    → ((s : String) → replies.to_text (reply s) ≡ ok s)
    → file ≢ ""
    → n < two_63
    → parse_message (record {
      id = id;
      values = field_map replies (map reply (flatten (work_item run file (pos n)))) [];
    })
      ≡ ok (record { run = run; file = file; attempts = pos n }, id)
parse_message-work_item replies reply id run file n texts named h =
    rw (field_map-work_item replies reply run file (pos n) texts)
      (parse_message_values id run file n named h)
