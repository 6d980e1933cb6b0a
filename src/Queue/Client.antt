-- ===== src/Queue/Client.antt =====
-- `ValkeyClient` (internal/queue/valkey.go): each operation as one command to the server. The
-- library valkey-go is the parameter `Connection`: it sends a command, given as its words, and reads
-- the parts of a reply. A failed send is a failed `exec`.
pub mod Parse
pub mod Item
pub mod Scope
use openfilter_pipelines_con.Base.{
  ℤ, pos, leb_ℤ, Bool, true, false, Option, none, some, List, [], ◌∷◌, ◌++◌, String, str_eq,
  if◌then◌else◌, Dict, lookup, insert, is_empty, map,
}
use openfilter_pipelines_con.Go.{
  Op, Result, ok, err, Error, message, wrapped, error_text, concat, ◌>>=◌, return, wrapping,
}
use openfilter_pipelines_con.Go.Strconv.{itoa}
use openfilter_pipelines_con.Queue.{XMessage, PendingEntry, ValkeyClientInterface}
use openfilter_pipelines_con.Queue.Client.Parse.{
  Replies, read_text, auto_claimed, pending_ids, pending_entries, first_count, group_lag,
}
use openfilter_pipelines_con.Queue.Client.Item.{work_item, flatten, dead_item}

-- `ValkeyUsernameForNamespace`
unfoldable pub valkey_username_for_namespace : String → String
valkey_username_for_namespace namespace = concat ("ns-" ∷ namespace ∷ [])

-- The keys that the user of a namespace may touch.
unfoldable pub key_pattern : String → String
key_pattern namespace = concat ("~ns:" ∷ namespace ∷ ":*" ∷ [])

pub acl_rules : String → String → String → List String
unfolding key_pattern
acl_rules username password namespace =
    "ACL"
    ∷ "SETUSER"
    ∷ username
    ∷ "resetpass"
    ∷ "resetkeys"
    ∷ "resetchannels"
    ∷ "nocommands"
    ∷ "on"
    ∷ concat (">" ∷ password ∷ [])
    ∷ key_pattern namespace
    ∷ "+ping"
    ∷ "+xreadgroup"
    ∷ []

-- A count that is not positive is the default.
abbrev count_or : ℤ → ℤ → ℤ
count_or fallback count = if leb_ℤ count (pos 0) then fallback else count

-- `then_read text f` reads the reply of a command that succeeded.
abbrev then_read : {W A B : Type 0} → String → (A → Result B) → Op W A → Op W B
then_read text f m w =
    let r = m w in
    elim r.0 [
      | err e ↦ (err e, r.1)
      | ok a ↦ elim (f a) [ err e ↦ (err (wrapped text e), r.1) | ok b ↦ (ok b, r.1) ]
    ]

abbrev ignoring : {W A : Type 0} → Op W A → Op W (Unit {0})
ignoring m = m >>= λ a. return tt

module _ {W R : Type 0} (replies : Replies R) (exec : List String → Op W R) where
  unfoldable pub create_stream_and_group : String → String → Op W (Unit {0})
  create_stream_and_group key group w =
      let r = exec ("XGROUP" ∷ "CREATE" ∷ key ∷ group ∷ "0" ∷ "MKSTREAM" ∷ []) w in
      elim r.0 [
        | ok reply ↦ (ok tt, r.1)
        | err e ↦
            if str_eq (error_text e) "BUSYGROUP Consumer Group name already exists"
            then (ok tt, r.1)
            else (err (wrapped "failed to create stream and group" e), r.1)
      ]

  unfoldable pub enqueue_file_with_attempts : String → String → String → ℤ → Op W String
  unfolding work_item flatten
  enqueue_file_with_attempts key run file attempts =
      then_read "failed to get message ID" replies.to_text (
        wrapping (concat ("failed to enqueue file " ∷ file ∷ []))
          (exec ("XADD" ∷ key ∷ "*" ∷ flatten (work_item run file attempts))))

  get_stream_length : String → Op W ℤ
  get_stream_length key =
      then_read "failed to parse stream length" replies.as_int64
        (wrapping "failed to get stream length" (exec ("XLEN" ∷ key ∷ [])))

  -- The two ways in which the reply can be unreadable have texts of their own.
  get_pending_count : String → String → Op W ℤ
  unfolding first_count
  get_pending_count key group w =
      let r = wrapping "failed to get pending count" (exec ("XPENDING" ∷ key ∷ group ∷ [])) w in
      elim r.0 [ err e ↦ (err e, r.1) | ok reply ↦ (first_count replies reply, r.1) ]

  ack_message : String → String → String → Op W (Unit {0})
  ack_message key group id = ignoring (
      wrapping (concat ("failed to ack message " ∷ id ∷ []))
        (exec ("XACK" ∷ key ∷ group ∷ id ∷ [])))

  unfoldable pub auto_claim : String → String → String → ℤ → ℤ → Op W (List XMessage)
  unfolding auto_claimed
  auto_claim key group consumer idle count w =
      let r =
        wrapping "failed to auto-claim messages"
          (exec
            ("XAUTOCLAIM" ∷ key ∷ group ∷ consumer ∷ itoa idle ∷ "0-0" ∷ "COUNT" ∷ itoa count ∷ []))
          w in
      elim r.0 [ err e ↦ (err e, r.1) | ok reply ↦ (auto_claimed replies reply, r.1) ]

  -- Without a limit where the count is not positive.
  read_range : String → String → String → ℤ → Op W (List XMessage)
  read_range key from to count =
      let limit = if leb_ℤ count (pos 0) then [] else "COUNT" ∷ itoa count ∷ [] in
      then_read "failed to parse XRANGE result" replies.as_xrange
        (wrapping "failed to XRANGE messages" (exec (("XRANGE" ∷ key ∷ from ∷ to ∷ []) ++ limit)))

  get_pending_for_consumer : String → String → String → ℤ → Op W (List String)
  unfolding pending_ids
  get_pending_for_consumer key group consumer count w =
      let r =
        wrapping (concat ("failed to get pending for consumer " ∷ consumer ∷ []))
          (exec
            ("XPENDING" ∷ key ∷ group ∷ "-" ∷ "+" ∷ itoa (count_or (pos 10) count) ∷ consumer ∷ []))
          w in
      elim r.0 [
        | err e ↦ (err e, r.1)
        | ok reply ↦ elim (replies.to_array reply) [
          | err e ↦ (err (wrapped "failed to parse XPENDING entries" e), r.1)
          | ok entries ↦ (ok (pending_ids replies entries), r.1)
        ]
      ]

  get_pending_entry_details : String → String → ℤ → ℤ → Op W (List PendingEntry)
  unfolding pending_entries
  get_pending_entry_details key group idle count w =
      let r =
        wrapping "failed to get pending entry details"
          (exec (
            "XPENDING"
            ∷ key
            ∷ group
            ∷ "IDLE"
            ∷ itoa idle
            ∷ "-"
            ∷ "+"
            ∷ itoa (count_or (pos 100) count)
            ∷ []))
          w in
      elim r.0 [
        | err e ↦ (err e, r.1)
        | ok reply ↦ elim (replies.to_array reply) [
          | err e ↦ (err (wrapped "failed to parse XPENDING range entries" e), r.1)
          | ok entries ↦ (ok (pending_entries replies entries), r.1)
        ]
      ]

  -- No command where there is nothing to claim.
  claim_messages : String → String → String → ℤ → List String → Op W (List XMessage)
  claim_messages key group consumer idle [] w = (ok [], w)
  claim_messages key group consumer idle (id ∷ ids) w =
      then_read "failed to parse XCLAIM result" replies.as_xrange
        (wrapping "failed to claim messages"
          (exec (("XCLAIM" ∷ key ∷ group ∷ consumer ∷ itoa idle ∷ []) ++ id ∷ ids)))
        w

  delete_messages : String → List String → Op W (Unit {0})
  delete_messages key [] w = (ok tt, w)
  delete_messages key (id ∷ ids) w =
      ignoring
        (wrapping "failed to delete stream messages" (exec (("XDEL" ∷ key ∷ []) ++ id ∷ ids))) w

  add_to_dlq : String → String → String → ℤ → String → Op W (Unit {0})
  unfolding dead_item flatten
  add_to_dlq key run file attempts reason = ignoring (
      wrapping "failed to add to DLQ"
        (exec ("XADD" ∷ key ∷ "*" ∷ flatten (dead_item run file attempts reason))))

  unfoldable pub ensure_acl_user : String → String → String → Op W (Unit {0})
  unfolding acl_rules
  ensure_acl_user username password namespace = ignoring (
      wrapping (concat ("failed to set ACL user " ∷ username ∷ []))
        (exec (acl_rules username password namespace)))

  delete_acl_user : String → Op W (Unit {0})
  delete_acl_user username = ignoring (
      wrapping (concat ("failed to delete ACL user " ∷ username ∷ []))
        (exec ("ACL" ∷ "DELUSER" ∷ username ∷ [])))

  get_consumer_group_lag : String → String → Op W ℤ
  unfolding group_lag
  get_consumer_group_lag key group w =
      let r =
        wrapping "failed to get consumer group info" (exec ("XINFO" ∷ "GROUPS" ∷ key ∷ [])) w in
      elim r.0 [ err e ↦ (err e, r.1) | ok reply ↦ (group_lag replies group reply, r.1) ]

  unfoldable pub new_valkey_client : ValkeyClientInterface W
  unfolding create_stream_and_group enqueue_file_with_attempts get_stream_length get_pending_count
      ack_message auto_claim read_range get_pending_for_consumer get_pending_entry_details
      claim_messages delete_messages add_to_dlq ensure_acl_user delete_acl_user
      get_consumer_group_lag
  new_valkey_client = record {
    create_stream_and_group = create_stream_and_group;
    get_stream_length = get_stream_length;
    get_consumer_group_lag = get_consumer_group_lag;
    get_pending_count = get_pending_count;
    get_pending_for_consumer = get_pending_for_consumer;
    get_pending_entry_details = get_pending_entry_details;
    ack_message = ack_message;
    enqueue_file_with_attempts = enqueue_file_with_attempts;
    add_to_dlq = add_to_dlq;
    auto_claim = auto_claim;
    claim_messages = claim_messages;
    read_range = read_range;
    delete_messages = delete_messages;
    ensure_acl_user = ensure_acl_user;
    delete_acl_user = delete_acl_user;
  }
