-- ===== src/Queue.antt =====
-- The operations of the work queue that the controller calls: `ValkeyClientInterface`
-- (internal/controller/pipelineinstance_controller.go) with the message types of
-- internal/queue/valkey.go.
pub mod Accounting
pub mod Client
use openfilter_pipelines_con.Base.{ℤ, List, String, Dict, lookup, or_else}
use openfilter_pipelines_con.Go.{Op}

pub record XMessage : Type 0 where
  pub id : String
  pub values : Dict String

-- `msg.Values[key]`: the empty text for a missing field.
unfoldable pub value_of : XMessage → String → String
value_of m key = or_else (lookup key m.values) ""

pub record PendingEntry : Type 0 where
  pub id : String
  pub consumer : String
  pub idle_ms : ℤ

pub record ValkeyClientInterface (W : Type 0) : Type 0 where
  pub create_stream_and_group : String → String → Op W (Unit {0})
  pub get_stream_length : String → Op W ℤ
  pub get_consumer_group_lag : String → String → Op W ℤ
  pub get_pending_count : String → String → Op W ℤ
  pub get_pending_for_consumer : String → String → String → ℤ → Op W (List String)
  pub get_pending_entry_details : String → String → ℤ → ℤ → Op W (List PendingEntry)
  pub ack_message : String → String → String → Op W (Unit {0})
  pub enqueue_file_with_attempts : String → String → String → ℤ → Op W String
  pub add_to_dlq : String → String → String → ℤ → String → Op W (Unit {0})
  pub auto_claim : String → String → String → ℤ → ℤ → Op W (List XMessage)
  pub claim_messages : String → String → String → ℤ → List String → Op W (List XMessage)
  pub read_range : String → String → String → ℤ → Op W (List XMessage)
  pub delete_messages : String → List String → Op W (Unit {0})
  pub ensure_acl_user : String → String → String → Op W (Unit {0})
  pub delete_acl_user : String → Op W (Unit {0})
