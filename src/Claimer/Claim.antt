-- ===== src/Claimer/Claim.antt =====
-- The claim of one message (`claimMessageOnce`, `claimMessage`, `isRetryableValkeyError` in
-- cmd/claimer/main.go). XREADGROUP, the clock and the cancellation of the context are parameters;
-- the loop runs on fuel, one unit for each request.
pub mod RoundTrip
pub mod Recovery
use Prim.Native.String
use openfilter_pipelines_con.Base.{
  ℕ, zero, suc, ◌+◌, ◌*◌, ℤ, pos, Bool, true, false, ◌||◌, Option, none, some, List, [], ◌∷◌,
  String, str_eq, if◌then◌else◌, Dict, lookup, or_else,
}
use openfilter_pipelines_con.Go.{
  Op, Result, ok, err, Error, message, wrapped, api, foreign, net, eof, canceled, deadline_exceeded,
  error_text,
}
use openfilter_pipelines_con.Go.Strconv.{atoi}
use openfilter_pipelines_con.Queue.{XMessage, value_of}
use openfilter_pipelines_con.Claimer.Backoff.{
  ExponentialBackoff, new_exponential_backoff, next, second,
}
use openfilter_pipelines_con.Claimer.Config.{Config}

pub record Message : Type 0 where
  pub run : String
  pub file : String
  pub attempts : ℤ

-- The part stands in the text at one of the first `n` places.
stands_in : ℕ → String → String → Bool
stands_in zero s part = false
stands_in (suc n) s part =
    str_eq (String.slice s n (n + String.len part)) part || stands_in n s part

-- `strings.Contains`
unfoldable pub contains_text : String → String → Bool
unfolding stands_in
contains_text s part = stands_in (suc (String.len s)) s part

abbrev pub contains_any : String → List String → Bool
contains_any s [] = false
contains_any s (part ∷ parts) = contains_text s part || contains_any s parts

-- The innermost error of the chain.
abbrev pub root_of : Error → Error
root_of (wrapped s e) = root_of e
root_of e = e

abbrev transient_texts : List String
transient_texts =
    "connection refused" ∷ "connection reset" ∷ "broken pipe" ∷ "network is unreachable"
    ∷ "no route to host" ∷ "host is down" ∷ "i/o timeout" ∷ "temporary failure in name resolution"
    ∷ []

-- `errors.Is` and `errors.As` look at the chain, the texts at the whole message.
unfoldable pub is_retryable_valkey_error : Error → Bool
unfolding contains_text
is_retryable_valkey_error e = elim (root_of e) [
  | canceled ↦ false
  | deadline_exceeded ↦ false
  | net s ↦ true
  | eof ↦ true
  | message s ↦ contains_any (error_text e) transient_texts
  | wrapped s inner ↦ contains_any (error_text e) transient_texts
  | api r s ↦ contains_any (error_text e) transient_texts
  | foreign s ↦ contains_any (error_text e) transient_texts
]

-- A counter that is missing is 0; one that is no number is an error, whose text has the counter in it.
unfoldable pub attempts_of : Option String → Result ℤ
attempts_of none = ok (pos 0)
attempts_of (some s) = elim (atoi s) [
  | none ↦ err (wrapped "invalid attempts value" (foreign s))
  | some n ↦ ok n
]

unfoldable pub parse_message : XMessage → Result (Message × String)
unfolding attempts_of
parse_message entry = elim (attempts_of (lookup "attempts" entry.values)) [
  | err e ↦ err e
  | ok attempts ↦
      if str_eq (value_of entry "file") ""
      then err (message "missing 'file' field in message")
      else ok (
        record { run = value_of entry "run"; file = value_of entry "file"; attempts = attempts },
        entry.id,
      )
]

-- The first entry that the stream delivered.
unfoldable pub first_entry : Option (List XMessage) → Result (Message × String)
unfolding parse_message
first_entry none = err (message "no messages available in stream")
first_entry (some []) = err (message "no messages available in stream")
first_entry (some (entry ∷ entries)) = parse_message entry

-- `read` is XREADGROUP with COUNT 1 and BLOCK 0 for a group, a consumer and a stream: the entries
-- of each stream. `cancelled` is `ctx.Err()`, and `sleep` is `sleepWithContext`.
module _ {W : Type 0} (read : String → String → String → Op W (Dict (List XMessage)))
    (cancelled : W → Option Error) (sleep : ℕ → Op W (Unit {0})) where
  unfoldable pub claim_message_once : Config → Op W (Message × String)
  unfolding first_entry
  claim_message_once cfg w =
      let r = read cfg.group cfg.consumer_name cfg.stream w in
      elim r.0 [
        | err e ↦ (err (wrapped "XREADGROUP failed" e), r.1)
        | ok streams ↦ (first_entry (lookup cfg.stream streams), r.1)
      ]

  -- What follows a failed request: none if the loop goes on.
  pub give_up : Option Error → Error → Option Error
  give_up (some e) failure = some e
  give_up none failure = if is_retryable_valkey_error failure then none else some failure

  -- none if the fuel runs out.
  pub claim_loop : ℕ → ExponentialBackoff → Config → W → Option (Result (Message × String) × W)
  unfolding claim_message_once give_up
  claim_loop zero b cfg w = none
  claim_loop (suc fuel) b cfg w =
      let r = claim_message_once cfg w in
      elim r.0 [
        | ok claimed ↦ some (ok claimed, r.1)
        | err e ↦ elim (give_up (cancelled r.1) e) [
          | some failure ↦ some (err failure, r.1)
          | none ↦
              let slept = sleep (next b).0 r.1 in
              elim slept.0 [
                | err stopped ↦ some (err stopped, slept.1)
                | ok _ ↦ claim_loop fuel (next b).1 cfg slept.1
              ]
        ]
      ]

  unfoldable pub claim_message : ℕ → Config → W → Option (Result (Message × String) × W)
  unfolding claim_loop
  claim_message fuel cfg w = claim_loop fuel (new_exponential_backoff (30 * second)) cfg w
