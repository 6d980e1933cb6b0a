-- ===== src/Batch/Flush/Noted.antt =====
-- Which files the flush carries over to the dead letter queue.
use openfilter_pipelines_con.Base.{
  ◌≡◌, ◌⊎◌, inl, inr, true, List, [], ◌∷◌, String, eq_iff, ℤ, pos, ltb_ℤ, Dict, lookup,
  lookup-insert, is_some, Any, arith,
}
use openfilter_pipelines_con.Go.Strconv.{parse_attempts}
use openfilter_pipelines_con.Queue.{XMessage, value_of}
use openfilter_pipelines_con.Batch.Flush.{raise, file_of, note_message, note_messages}

-- The message is of the file, and its counter is above 0.
abbrev pub HasFailedBefore : ℤ → String → XMessage → Type 0
HasFailedBefore max file msg =
    (file_of msg ≡ file) × (ltb_ℤ (pos 0) (parse_attempts (value_of msg "attempts") max) ≡ true)

-- A file that is not noted has no positive counter.
abbrev pub IsNoted : String → Dict ℤ → Type 0
IsNoted file files = is_some (lookup file files) ≡ true

pub raise-IsNoted :
    (key file : String) (n : ℤ) (files : Dict ℤ)
    → IsNoted file (raise key n files)
    → IsNoted file files ⊎ ((key ≡ file) × (ltb_ℤ (pos 0) n ≡ true))
unfolding raise
raise-IsNoted key file n files h = ground (arith, lookup-insert key file n files, eq_iff key file)

pub IsNoted-raise :
    (key file : String) (n : ℤ) (files : Dict ℤ)
    → IsNoted file files ⊎ ((key ≡ file) × (ltb_ℤ (pos 0) n ≡ true))
    → IsNoted file (raise key n files)
unfolding raise
IsNoted-raise key file n files h = ground (arith, lookup-insert key file n files, eq_iff key file)

pub none-IsNoted : (file : String) → ¬ IsNoted file []
unfolding lookup
none-IsNoted file h = cc

pub IsNoted-failed :
    (max : ℤ) (file : String) (msgs : List XMessage) (files : Dict ℤ)
    → IsNoted file (note_messages max msgs files)
    → IsNoted file files ⊎ Any (HasFailedBefore max file) msgs
unfolding note_messages note_message
IsNoted-failed max file [] files h = inl h
IsNoted-failed max file (msg ∷ msgs) files h =
    elim (IsNoted-failed max file msgs (note_message max msg files) h) [
      | inr later ↦ inr (inr later)
      | inl before ↦ elim (raise-IsNoted (file_of msg) file _ files before) [
        | inl old ↦ inl old
        | inr new ↦ inr (inl new)
      ]
    ]

pub failed-IsNoted :
    (max : ℤ) (file : String) (msgs : List XMessage) (files : Dict ℤ)
    → IsNoted file files ⊎ Any (HasFailedBefore max file) msgs
    → IsNoted file (note_messages max msgs files)
unfolding note_messages note_message
failed-IsNoted max file [] files (inl h) = h
failed-IsNoted max file [] files (inr h) = absurd h
failed-IsNoted max file (msg ∷ msgs) files (inl h) =
    failed-IsNoted max file msgs _ (inl (IsNoted-raise (file_of msg) file _ files (inl h)))
failed-IsNoted max file (msg ∷ msgs) files (inr (inl h)) =
    failed-IsNoted max file msgs _ (inl (IsNoted-raise (file_of msg) file _ files (inr h)))
failed-IsNoted max file (msg ∷ msgs) files (inr (inr h)) = failed-IsNoted max file msgs _ (inr h)
