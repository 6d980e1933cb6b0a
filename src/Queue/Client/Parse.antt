-- ===== src/Queue/Client/Parse.antt =====
-- How the replies of the server are read (internal/queue/valkey.go).
use openfilter_pipelines_con.Base.{
  ℤ, pos, Bool, Option, none, some, false, List, [], ◌∷◌, String, str_eq, if◌then◌else◌, Dict,
  lookup, insert,
}
use openfilter_pipelines_con.Go.{Result, ok, err, message, wrapped, concat}
use openfilter_pipelines_con.Queue.{XMessage, PendingEntry}

-- The readers of valkey-go for a reply or a part of one.
pub record Replies (R : Type 0) : Type 0 where
  pub to_text : R → Result String
  pub as_int64 : R → Result ℤ
  pub to_array : R → Result (List R)
  pub to_map : R → Result (Dict R)
  pub as_xrange : R → Result (List XMessage)

-- A text whose error is dropped is empty.
abbrev ok_text : Result String → String
ok_text (ok s) = s
ok_text (err e) = ""

module _ {R : Type 0} (replies : Replies R) where
  abbrev pub read_text : R → String
  read_text r = ok_text (replies.to_text r)

  -- The fields in pairs; a last one without a value is left out.
  unfoldable pub field_map : List R → Dict String → Dict String
  field_map [] values = values
  field_map (key ∷ []) values = values
  field_map (key ∷ value ∷ fields) values =
      field_map fields (insert (read_text key) (read_text value) values)

  -- An entry that has no ID and no fields is none.
  entry_message : Result (List R) → Option XMessage
  unfolding field_map
  entry_message (err e) = none
  entry_message (ok []) = none
  entry_message (ok (id ∷ [])) = none
  entry_message (ok (id ∷ fields ∷ rest)) = elim (replies.to_array fields) [
    | err e ↦ none
    | ok parts ↦ some (record { id = read_text id; values = field_map parts [] })
  ]

  abbrev cons_some : {A : Type 0} → Option A → List A → List A
  cons_some none l = l
  cons_some (some a) l = a ∷ l

  -- Entries that cannot be read are skipped.
  entry_messages : List R → List XMessage
  unfolding entry_message
  entry_messages [] = []
  entry_messages (r ∷ rs) = cons_some (entry_message (replies.to_array r)) (entry_messages rs)

  -- The second part of the reply of XAUTOCLAIM.
  claimed_part : List R → Result (List XMessage)
  unfolding entry_messages
  claimed_part [] = ok []
  claimed_part (start ∷ []) = ok []
  claimed_part (start ∷ messages ∷ rest) = elim (replies.to_array messages) [
    | err e ↦ err (wrapped "failed to parse messages array" e)
    | ok rs ↦ ok (entry_messages rs)
  ]

  unfoldable pub auto_claimed : R → Result (List XMessage)
  unfolding claimed_part
  auto_claimed reply = elim (replies.to_array reply) [
    | err e ↦ err (wrapped "failed to parse autoclaim result" e)
    | ok parts ↦ claimed_part parts
  ]

  abbrev id_of : Result (List R) → Option String
  id_of (err e) = none
  id_of (ok []) = none
  id_of (ok (id ∷ rest)) = elim (replies.to_text id) [ err e ↦ none | ok s ↦ some s ]

  unfoldable pub pending_ids : List R → List String
  pending_ids [] = []
  pending_ids (r ∷ rs) = cons_some (id_of (replies.to_array r)) (pending_ids rs)

  read_entry : R → R → R → Option PendingEntry
  read_entry id consumer idle = elim (replies.to_text id) [
    | err e ↦ none
    | ok i ↦ elim (replies.to_text consumer) [
      | err e ↦ none
      | ok c ↦ elim (replies.as_int64 idle) [
        | err e ↦ none
        | ok ms ↦ some (record { id = i; consumer = c; idle_ms = ms })
      ]
    ]
  ]

  entry_of : Result (List R) → Option PendingEntry
  unfolding read_entry
  entry_of (ok (id ∷ consumer ∷ idle ∷ rest)) = read_entry id consumer idle
  entry_of _ = none

  unfoldable pub pending_entries : List R → List PendingEntry
  unfolding entry_of
  pending_entries [] = []
  pending_entries (r ∷ rs) = cons_some (entry_of (replies.to_array r)) (pending_entries rs)

  -- The first part of the summary of XPENDING.
  head_count : List R → Result ℤ
  head_count [] = ok (pos 0)
  head_count (count ∷ rest) = elim (replies.as_int64 count) [
    | err e ↦ err (wrapped "failed to parse pending count" e)
    | ok n ↦ ok n
  ]

  unfoldable pub first_count : R → Result ℤ
  unfolding head_count
  first_count reply = elim (replies.to_array reply) [
    | err e ↦ err (wrapped "failed to parse pending result" e)
    | ok parts ↦ head_count parts
  ]

  -- A group without a lag has none.
  lag_of : Option R → Result ℤ
  lag_of none = ok (pos 0)
  lag_of (some r) = elim (replies.as_int64 r) [
    | err e ↦ err (wrapped "failed to parse lag" e)
    | ok n ↦ ok n
  ]

  abbrev named : String → Option R → Bool
  named group none = false
  named group (some r) = elim (replies.to_text r) [ err e ↦ false | ok s ↦ str_eq s group ]

  -- The first group of the name.
  lag_among : String → List R → Result ℤ
  unfolding lag_of
  lag_among group [] = err (message (concat ("consumer group " ∷ group ∷ " not found" ∷ [])))
  lag_among group (r ∷ rs) = elim (replies.to_map r) [
    | err e ↦ lag_among group rs
    | ok info ↦
        if named group (lookup "name" info) then lag_of (lookup "lag" info) else lag_among group rs
  ]

  unfoldable pub group_lag : String → R → Result ℤ
  unfolding lag_among
  group_lag group reply = elim (replies.to_array reply) [
    | err e ↦ err (wrapped "failed to parse group info" e)
    | ok groups ↦ lag_among group groups
  ]
