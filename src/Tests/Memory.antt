-- ===== src/Tests/Memory.antt =====
-- A queue in memory: the messages that were added, those that are gone, and the files that are owed,
-- one for each copy in the stream or the dead letter queue.
use openfilter_pipelines_con.Base.{
  ℕ, ◌+◌, pos, Bool, true, false, ◌||◌, not, Option, none, some, List, [], ◌∷◌, ◌++◌, String,
  str_eq, if◌then◌else◌, Dict, lookup, is_some,
}
use openfilter_pipelines_con.Go.{ok}
use openfilter_pipelines_con.Queue.{XMessage, PendingEntry, ValkeyClientInterface}
use openfilter_pipelines_con.Queue.Accounting.{View}
use openfilter_pipelines_con.Kube.{Cluster}
use openfilter_pipelines_con.Tests.Samples.{quiet_queue, quiet_cluster}

pub record Memory : Type 0 where
  pub log : Dict String
  pub gone : List String
  pub owed : List String

abbrev pub is_in : String → List String → Bool
is_in s [] = false
is_in s (x ∷ xs) = str_eq x s || is_in s xs

abbrev pub is_absent : Memory → String → Bool
is_absent w id = is_in id w.gone || not (is_some (lookup id w.log))

abbrev pub count : String → List String → ℕ
count f [] = 0
count f (x ∷ xs) = (if str_eq x f then 1 else 0) + count f xs

abbrev pub remove : String → List String → List String
remove f [] = []
remove f (x ∷ xs) = if str_eq x f then xs else x ∷ remove f xs

abbrev pub paid : Option String → List String → List String
paid none owed = owed
paid (some f) owed = remove f owed

-- XACK and XDEL: the message is gone, and its file no longer owed.
abbrev pub settle : String → Memory → Memory
settle id w =
    if is_absent w id
    then w
    else record { log = w.log; gone = id ∷ w.gone; owed = paid (lookup id w.log) w.owed }

abbrev pub settle_all : List String → Memory → Memory
settle_all [] w = w
settle_all (id ∷ ids) w = settle_all ids (settle id w)

abbrev pub add : String → String → Memory → Memory
add id f w = record { log = w.log ++ (id, f) ∷ []; gone = w.gone; owed = f ∷ w.owed }

abbrev pub note : String → Memory → Memory
note f w = record { log = w.log; gone = w.gone; owed = f ∷ w.owed }

abbrev pub message_of : String → String → XMessage
message_of id f = record { id = id; values = ("file", f) ∷ ("attempts", "1") ∷ [] }

abbrev pub cons_found : String → Option String → List XMessage → List XMessage
cons_found id none msgs = msgs
cons_found id (some f) msgs = message_of id f ∷ msgs

abbrev pub messages : List String → Memory → List XMessage
messages [] w = []
messages (id ∷ ids) w = cons_found id (lookup id w.log) (messages ids w)

abbrev pub shown : Bool → String → Option String → List XMessage
shown true id found = []
shown false id none = []
shown false id (some f) = message_of id f ∷ []

abbrev pub open_ids : Dict String → Memory → List String
open_ids [] w = []
open_ids ((id, f) ∷ log) w = if is_absent w id then open_ids log w else id ∷ open_ids log w

-- Each open message is held by a pod that is gone.
abbrev entries : List String → List PendingEntry
entries [] = []
entries (id ∷ ids) = record { id = id; consumer = "pod-0"; idle_ms = pos 999999 } ∷ entries ids

abbrev pub memory_queue : ValkeyClientInterface Memory
memory_queue =
    let q = quiet_queue Memory in
    record q {
      enqueue_file_with_attempts = λ s run f n w. (ok "9-0", add "9-0" f w);
      add_to_dlq = λ d run f n reason w. (ok tt, note f w);
      ack_message = λ s g id w. (ok tt, settle id w);
      delete_messages = λ s ids w. (ok tt, settle_all ids w);
      get_pending_for_consumer = λ s g c n w. (ok (open_ids w.log w), w);
      get_pending_entry_details = λ s g idle n w. (ok (entries (open_ids w.log w)), w);
      claim_messages = λ s g c idle ids w. (ok (messages ids w), w);
      read_range = λ s from to n w. (ok (shown (is_absent w from) from (lookup from w.log)), w);
    }

abbrev pub memory_cluster : Cluster Memory
memory_cluster = quiet_cluster Memory

abbrev pub memory_view : View Memory
memory_view = record {
  copies = λ w f. count f w.owed;
  file_of = λ w id. lookup id w.log;
  is_gone = is_absent;
}

abbrev pub two_files : Memory
two_files = record {
  log = ("1-0", "a.mp4") ∷ ("2-0", "b.mp4") ∷ [];
  gone = [];
  owed = "a.mp4" ∷ "b.mp4" ∷ [];
}
