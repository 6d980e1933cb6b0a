-- ===== src/Batch/Flush.antt =====
-- `flushOutstandingWork`: when the Job has failed, every message that is left goes to the dead letter
-- queue, one entry for each file. The two loops run on fuel; `order` is the order in which Go ranges
-- over a map.
pub mod Noted
pub mod Merged
pub mod Ordered
pub mod Shown
pub mod Replaced
pub mod Buried
pub mod Termination
use openfilter_pipelines_con.Base.{
  ℕ, zero, suc, ℤ, pos, ltb_ℤ, leb_ℤ, Bool, true, false, ◌||◌, Option, none, some, List, [], ◌∷◌,
  ◌++◌, String, str_eq, Dict, lookup, insert, or_else, if◌then◌else◌,
}
use openfilter_pipelines_con.Go.{Result, ok, err}
use openfilter_pipelines_con.Go.Strconv.{parse_attempts}
use openfilter_pipelines_con.Api.{
  PipelineInstance, get_queue_stream, get_queue_group, get_queue_dlq, get_instance_id,
}
use openfilter_pipelines_con.Queue.{XMessage, value_of, ValkeyClientInterface}
use openfilter_pipelines_con.Batch.Common.{max_attempts}

-- `if n > m[key] { m[key] = n }`, where a missing key counts as 0.
pub raise : String → ℤ → Dict ℤ → Dict ℤ
raise key n m = if ltb_ℤ (or_else (lookup key m) (pos 0)) n then insert key n m else m

-- What is known of the dead letter queue: the highest counter and the IDs for each file.
pub record Existing : Type 0 where
  pub attempts : Dict ℤ
  pub ids : Dict (List String)

abbrev nothing_known : Existing
nothing_known = record { attempts = []; ids = [] }

pub note_existing : ℤ → List XMessage → Existing → Existing
unfolding raise
note_existing max [] known = known
note_existing max (msg ∷ msgs) known =
    let file = value_of msg "file" in
    let seen = or_else (lookup file known.ids) [] in
    note_existing max msgs (record {
      attempts = raise file (parse_attempts (value_of msg "attempts") max) known.attempts;
      ids = insert file (seen ++ msg.id ∷ []) known.ids;
    })

-- The file of a message that names none is noted as unknown.
abbrev pub file_of : XMessage → String
file_of msg = if str_eq (value_of msg "file") "" then "<unknown>" else value_of msg "file"

pub note_message : ℤ → XMessage → Dict ℤ → Dict ℤ
unfolding raise
note_message max msg files =
    raise (file_of msg) (parse_attempts (value_of msg "attempts") max) files

pub note_messages : ℤ → List XMessage → Dict ℤ → Dict ℤ
unfolding note_message
note_messages max [] files = files
note_messages max (msg ∷ msgs) files = note_messages max msgs (note_message max msg files)

unfoldable pub ids_of : List XMessage → List String
ids_of [] = []
ids_of (msg ∷ msgs) = msg.id ∷ ids_of msgs

-- `for file, attempts := range from { if attempts > into[file] … }`
pub raise_all : Dict ℤ → Dict ℤ → Dict ℤ
unfolding raise
raise_all [] into = into
raise_all ((file, attempts) ∷ rest) into = raise_all rest (raise file attempts into)

-- `for file, attempts := range from { into[file] = attempts }`
pub copy_all : Dict ℤ → Dict ℤ → Dict ℤ
copy_all [] into = into
copy_all ((file, attempts) ∷ rest) into = copy_all rest (insert file attempts into)

-- A counter below the limit is lifted to it.
abbrev final_attempts : ℤ → ℤ → ℤ
final_attempts max attempts = if leb_ℤ attempts (pos 0) || ltb_ℤ attempts max then max else attempts

module _ {W : Type 0} (q : ValkeyClientInterface W) where
  -- Acknowledges and deletes each message that was taken over; errors are only logged.
  drop_messages : PipelineInstance → List XMessage → W → W
  drop_messages pi [] w = w
  drop_messages pi (msg ∷ msgs) w =
      let acked = q.ack_message (get_queue_stream pi) (get_queue_group pi) msg.id w in
      drop_messages pi msgs (q.delete_messages (get_queue_stream pi) (msg.id ∷ []) acked.1).1

  -- The loop over XAUTOCLAIM; none if the fuel runs out.
  pub drop_pending : ℕ → PipelineInstance → ℤ → Dict ℤ → W → Option (Dict ℤ × W)
  unfolding drop_messages note_messages
  drop_pending zero pi max files w = none
  drop_pending (suc fuel) pi max files w =
      let claimed =
        q.auto_claim (get_queue_stream pi) (get_queue_group pi) "controller-flush" (pos 0) (pos 100)
          w in
      elim claimed.0 [
        | err e ↦ some (files, claimed.1)
        | ok [] ↦ some (files, claimed.1)
        | ok (msg ∷ msgs) ↦
            drop_pending fuel pi max (note_messages max (msg ∷ msgs) files)
              (drop_messages pi (msg ∷ msgs) claimed.1)
      ]

  -- The loop over the messages that no consumer has read; false if the flush is given up.
  pub drop_unread : ℕ → PipelineInstance → ℤ → Dict ℤ → W → Option (Bool × Dict ℤ × W)
  unfolding note_messages ids_of
  drop_unread zero pi max files w = none
  drop_unread (suc fuel) pi max files w =
      let read = q.read_range (get_queue_stream pi) "-" "+" (pos 100) w in
      elim read.0 [
        | err e ↦ some (false, files, read.1)
        | ok [] ↦ some (true, files, read.1)
        | ok (msg ∷ msgs) ↦
            let noted = note_messages max (msg ∷ msgs) files in
            let gone = q.delete_messages (get_queue_stream pi) (ids_of (msg ∷ msgs)) read.1 in
            elim gone.0 [
              | err e ↦ some (true, noted, gone.1)
              | ok _ ↦ drop_unread fuel pi max noted gone.1
            ]
      ]

  -- Replaces the entries of the file in the dead letter queue by one with the last message.
  bury : PipelineInstance → String → ℤ → String → W → W
  bury pi file attempts message w =
      (q.add_to_dlq (get_queue_dlq pi) (get_instance_id pi) file attempts message w).1

  replace_entries : PipelineInstance → String → ℤ → String → List String → W → W
  unfolding bury
  replace_entries pi file attempts message [] w = bury pi file attempts message w
  replace_entries pi file attempts message (id ∷ ids) w =
      let gone = q.delete_messages (get_queue_dlq pi) (id ∷ ids) w in
      elim gone.0 [ err e ↦ gone.1 | ok _ ↦ bury pi file attempts message gone.1 ]

  pub bury_all : PipelineInstance → ℤ → String → Dict (List String) → Dict ℤ → W → W
  unfolding replace_entries
  bury_all pi max message ids [] w = w
  bury_all pi max message ids ((file, attempts) ∷ rest) w = bury_all pi max message ids rest (
      replace_entries pi file (final_attempts max attempts) message (or_else (lookup file ids) [])
        w)

  pub read_existing : PipelineInstance → W → Existing × W
  unfolding note_existing
  read_existing pi w =
      let read = q.read_range (get_queue_dlq pi) "-" "+" (pos 0) w in
      elim read.0 [
        | err e ↦ (nothing_known, read.1)
        | ok msgs ↦ (note_existing (max_attempts pi) msgs nothing_known, read.1)
      ]

  -- Behind the two loops: the counters of the messages over those that the queue had.
  finish :
      (Dict ℤ → Dict ℤ)
      → PipelineInstance
      → String
      → Existing
      → Option (Bool × Dict ℤ × W)
      → Option W
  unfolding raise_all copy_all bury_all
  finish order pi message known none = none
  finish order pi message known (some (false, files, w)) = some w
  finish order pi message known (some (true, files, w)) =
      let final = raise_all (order files) (copy_all (order known.attempts) []) in
      some (bury_all pi (max_attempts pi) message known.ids (order final) w)

  pub drop_all : ℕ → PipelineInstance → Option (Dict ℤ × W) → Option (Bool × Dict ℤ × W)
  unfolding drop_unread
  drop_all fuel pi none = none
  drop_all fuel pi (some (files, w)) = drop_unread fuel pi (max_attempts pi) files w

  unfoldable pub flush_outstanding_work :
      ℕ → (Dict ℤ → Dict ℤ) → PipelineInstance → String → W → Option W
  unfolding read_existing drop_pending drop_all finish
  flush_outstanding_work fuel order pi message w =
      let existing = read_existing pi w in
      finish order pi message existing.0
        (drop_all fuel pi (drop_pending fuel pi (max_attempts pi) [] existing.1))
