-- ===== src/Tests/Keys.antt =====
-- The names and texts: queue keys, key patterns, counters and messages.
use openfilter_pipelines_con.Base.{
  All, ◌<◌, two_63, pos, ◌≡◌, ◌≢◌, refl, [], ◌∷◌, String, ◌↔◌, arith, map, ◌*◌,
}
use openfilter_pipelines_con.Go.{ok, err, message}
use openfilter_pipelines_con.Go.Strconv.{itoa, parse_attempts}
use openfilter_pipelines_con.Go.Strconv.RoundTrip.{parse_attempts-itoa}
use openfilter_pipelines_con.Api.{get_queue_stream, get_queue_dlq}
use openfilter_pipelines_con.Api.Keys.{HasNoColon, queue_keys-disjoint}
use openfilter_pipelines_con.Queue.Client.{key_pattern}
use openfilter_pipelines_con.Queue.Client.Item.{work_item, flatten}
use openfilter_pipelines_con.Queue.Client.Parse.{Replies, field_map}
use openfilter_pipelines_con.Queue.Client.Scope.{scope, Begins, key_pattern-scope}
use openfilter_pipelines_con.Go.{concat}
use openfilter_pipelines_con.Claimer.Claim.{parse_message}
use openfilter_pipelines_con.Claimer.Claim.RoundTrip.{parse_message-work_item}
use openfilter_pipelines_con.Claimer.Backoff.{delays, new_exponential_backoff, second}
use openfilter_pipelines_con.Claimer.Backoff.Delays.{limit, powers, delays-new_exponential_backoff}
use openfilter_pipelines_con.Tests.Samples.{instance_a, instance_b}

team_a-HasNoColon : HasNoColon "team-a"
team_a-HasNoColon =
    ((λ e. cc e), ((λ e. cc e), ((λ e. cc e), ((λ e. cc e), ((λ e. cc e), ((λ e. cc e), tt))))))

team_b-HasNoColon : HasNoColon "team-b"
team_b-HasNoColon =
    ((λ e. cc e), ((λ e. cc e), ((λ e. cc e), ((λ e. cc e), ((λ e. cc e), ((λ e. cc e), tt))))))

uid_a-HasNoColon : HasNoColon "0a1b"
uid_a-HasNoColon = ((λ e. cc e), ((λ e. cc e), ((λ e. cc e), ((λ e. cc e), tt))))

uid_b-HasNoColon : HasNoColon "0c2d"
uid_b-HasNoColon = ((λ e. cc e), ((λ e. cc e), ((λ e. cc e), ((λ e. cc e), tt))))

queue_keys-disjoint_example :
    (get_queue_stream instance_a ≡ get_queue_stream instance_b
      → (instance_a.namespace ≡ instance_b.namespace) × (instance_a.uid ≡ instance_b.uid))
    × (get_queue_stream instance_a ≢ get_queue_dlq instance_b)
queue_keys-disjoint_example =
    queue_keys-disjoint instance_a instance_b team_a-HasNoColon team_b-HasNoColon uid_a-HasNoColon
      uid_b-HasNoColon

key_pattern-scope_example :
    (key_pattern "team-b" ≡ concat ("~" ∷ scope "team-b" ∷ "*" ∷ []))
    × (Begins (scope "team-b") (get_queue_stream instance_a) ↔ (instance_a.namespace ≡ "team-b"))
    × (Begins (scope "team-b") (get_queue_dlq instance_a) ↔ (instance_a.namespace ≡ "team-b"))
key_pattern-scope_example =
    key_pattern-scope "team-b" instance_a team_b-HasNoColon team_a-HasNoColon

parse_attempts-itoa_example : parse_attempts (itoa (pos 2)) (pos 3) ≡ pos 2
parse_attempts-itoa_example = parse_attempts-itoa 2 (pos 3) (omega arith)

-- A reply that is a text, as the server sends it.
abbrev text_replies : Replies String
text_replies = record {
  to_text = λ s. ok s;
  as_int64 = λ s. err (message "no number");
  to_array = λ s. err (message "no array");
  to_map = λ s. err (message "no map");
  as_xrange = λ s. err (message "no entries");
}

parse_message-work_item_example :
    parse_message (record {
      id = "1-0";
      values =
          field_map text_replies (map (λ s. s) (flatten (work_item "0a1b" "a.mp4" (pos 1)))) [];
    })
    ≡ ok (record { run = "0a1b"; file = "a.mp4"; attempts = pos 1 }, "1-0")
parse_message-work_item_example =
    parse_message-work_item text_replies (λ s. s) "1-0" "0a1b" "a.mp4" 1 (λ s. refl) (λ e. cc e)
      (omega arith)

delays-new_exponential_backoff_example :
    (delays 6 (new_exponential_backoff (30 * second)) ≡ powers (limit (30 * second)) 0 6)
    × All (λ d. d * 2 < two_63) (delays 6 (new_exponential_backoff (30 * second)))
delays-new_exponential_backoff_example =
    delays-new_exponential_backoff (30 * second) 6 (omega arith)
