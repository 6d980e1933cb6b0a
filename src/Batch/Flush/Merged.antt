-- ===== src/Batch/Flush/Merged.antt =====
-- Which files the flush knows of when it has put its accounts together (`flushOutstandingWork`,
-- internal/controller/pipelineinstance_controller_batch.go).
use openfilter_pipelines_con.Base.{
  ◌≡◌, ◌↔◌, ◌⊎◌, refl, inl, inr, true, Option, none, some, List, [], ◌∷◌, ◌++◌, String, str_eq,
  eq_iff, ℤ, pos, ltb_ℤ, Dict, lookup, insert, lookup-insert, or_else, is_some, Any, arith,
  Bool-cases,
}
use openfilter_pipelines_con.Go.Strconv.{parse_attempts}
use openfilter_pipelines_con.Queue.{XMessage, value_of}
use openfilter_pipelines_con.Batch.Flush.{
  raise, file_of, note_message, note_messages, Existing, note_existing, raise_all, copy_all,
}
use openfilter_pipelines_con.Batch.Flush.Noted.{IsNoted, none-IsNoted, raise-IsNoted, IsNoted-raise}

-- A noted file has a counter above 0.
abbrev pub IsPositive : Dict ℤ → Type 0
IsPositive files =
    (file : String)
    → IsNoted file files
    → ltb_ℤ (pos 0) (or_else (lookup file files) (pos 0)) ≡ true

ltb_ℤ_trans : (m n : ℤ) → ltb_ℤ (pos 0) m ≡ true → ltb_ℤ m n ≡ true → ltb_ℤ (pos 0) n ≡ true
ltb_ℤ_trans m n a b = ground arith

above_former :
    (o : Option ℤ) (n : ℤ)
    → (is_some o ≡ true → ltb_ℤ (pos 0) (or_else o (pos 0)) ≡ true)
    → ltb_ℤ (or_else o (pos 0)) n ≡ true
    → ltb_ℤ (pos 0) n ≡ true
above_former none n h above = above
above_former (some m) n h above = ltb_ℤ_trans m n (h refl) above

raise-IsPositive :
    (key : String) (n : ℤ) (files : Dict ℤ) → IsPositive files → IsPositive (raise key n files)
unfolding raise
raise-IsPositive key n files h file =
    elim (Bool-cases (ltb_ℤ (or_else (lookup key files) (pos 0)) n)) [
      | inr below ↦ rw (below, raise) (h file)
      | inl above ↦
          let fresh = above_former (lookup key files) n (h key) above in
          rw (above, raise, lookup-insert key file n files)
            (elim (Bool-cases (str_eq key file)) [
              | inl same ↦ rw (same) (λ noted. fresh)
              | inr other ↦ rw (other) (h file)
            ])
    ]

pub note_messages-IsPositive :
    (max : ℤ) (msgs : List XMessage) (files : Dict ℤ)
    → IsPositive files
    → IsPositive (note_messages max msgs files)
unfolding note_messages note_message
note_messages-IsPositive max [] files h = h
note_messages-IsPositive max (msg ∷ msgs) files h =
    note_messages-IsPositive max msgs _ (raise-IsPositive (file_of msg) _ files h)

-- An entry for the file, with any counter or with one above 0.
abbrev pub HasKey : String → Dict ℤ → Type 0
HasKey file = Any (λ e. e.0 ≡ file)

abbrev HasCount : String → Dict ℤ → Type 0
HasCount file = Any (λ e. (e.0 ≡ file) × (ltb_ℤ (pos 0) e.1 ≡ true))

pub lookup-HasKey : (file : String) (d : Dict ℤ) → IsNoted file d ↔ HasKey file d
unfolding lookup
lookup-HasKey file [] = ((λ h. cc h), λ h. absurd h)
lookup-HasKey file ((key, n) ∷ d) =
    let (to, from) = lookup-HasKey file d in
    elim (Bool-cases (str_eq key file)) [
      | inl same ↦ rw (same, lookup) ((λ h. inl ((eq_iff key file).0 same)), λ h. refl)
      | inr other ↦
          rw (other, lookup)
            (
              (λ h. inr (to h)),
              λ h. elim h [
                | inl e ↦ let bad = (eq_iff key file).1 e in absurd (cc (other, bad))
                | inr later ↦ from later
              ],
            )
    ]

HasCount-HasKey : (file : String) (d : Dict ℤ) → HasCount file d → HasKey file d
HasCount-HasKey file [] h = absurd h
HasCount-HasKey file (e ∷ d) (inl (same, above)) = inl same
HasCount-HasKey file (e ∷ d) (inr later) = inr (HasCount-HasKey file d later)

lookup-HasCount :
    (file : String) (d : Dict ℤ)
    → ltb_ℤ (pos 0) (or_else (lookup file d) (pos 0)) ≡ true
    → HasCount file d
unfolding lookup
lookup-HasCount file [] h = let bad : ⊥ = ground arith in absurd bad
lookup-HasCount file ((key, n) ∷ d) h = elim (Bool-cases (str_eq key file)) [
  | inl same ↦ inl ((eq_iff key file).0 same, (rw (same) at h))
  | inr other ↦ inr (lookup-HasCount file d (rw (other) at h))
]

raise_all-IsNoted :
    (file : String) (d into : Dict ℤ)
    → IsNoted file (raise_all d into) ↔ (IsNoted file into ⊎ HasCount file d)
unfolding raise_all
raise_all-IsNoted file [] into =
    ((λ h. inl h), λ h. elim h [ inl old ↦ old | inr bad ↦ absurd bad ])
raise_all-IsNoted file ((key, n) ∷ d) into =
    let (to, from) = raise_all-IsNoted file d (raise key n into) in
    (
      λ h. elim (to h) [
        | inr later ↦ inr (inr later)
        | inl before ↦ elim (raise-IsNoted key file n into before) [
          | inl old ↦ inl old
          | inr new ↦ inr (inl new)
        ]
      ],
      λ h. elim h [
        | inl old ↦ from (inl (IsNoted-raise key file n into (inl old)))
        | inr (inl new) ↦ from (inl (IsNoted-raise key file n into (inr new)))
        | inr (inr later) ↦ from (inr later)
      ],
    )

insert-IsNoted :
    (key file : String) (n : ℤ) (d : Dict ℤ)
    → IsNoted file (insert key n d) ↔ (IsNoted file d ⊎ (key ≡ file))
insert-IsNoted key file n d = ground (arith, lookup-insert key file n d, eq_iff key file)

copy_all-IsNoted :
    (file : String) (d into : Dict ℤ)
    → IsNoted file (copy_all d into) ↔ (IsNoted file into ⊎ HasKey file d)
unfolding copy_all
copy_all-IsNoted file [] into = ((λ h. inl h), λ h. elim h [ inl old ↦ old | inr bad ↦ absurd bad ])
copy_all-IsNoted file ((key, n) ∷ d) into =
    let (to, from) = copy_all-IsNoted file d (insert key n into) in
    let (split, join) = insert-IsNoted key file n into in
    (
      λ h. elim (to h) [
        | inr later ↦ inr (inr later)
        | inl before ↦ elim (split before) [ inl old ↦ inl old | inr new ↦ inr (inl new) ]
      ],
      λ h. elim h [
        | inl old ↦ from (inl (join (inl old)))
        | inr (inl new) ↦ from (inl (join (inr new)))
        | inr (inr later) ↦ from (inr later)
      ],
    )

-- The merged account has the files of both.
pub merged-IsNoted :
    (file : String) (files known : Dict ℤ)
    → IsPositive files
    → IsNoted file (raise_all files (copy_all known [])) ↔ (IsNoted file files ⊎ IsNoted file known)
merged-IsNoted file files known positive =
    let (to, from) = raise_all-IsNoted file files (copy_all known []) in
    let (split, join) = copy_all-IsNoted file known [] in
    let (key_of, of_key) = lookup-HasKey file known in
    (
      λ h. elim (to h) [
        | inr counted ↦ inl ((lookup-HasKey file files).1 (HasCount-HasKey file files counted))
        | inl copied ↦ elim (split copied) [
          | inl nothing ↦ absurd (none-IsNoted file nothing)
          | inr key ↦ inr (of_key key)
        ]
      ],
      λ h. elim h [
        | inl noted ↦ from (inr (lookup-HasCount file files (positive file noted)))
        | inr noted ↦ from (inl (join (inr (key_of noted))))
      ],
    )

-- An entry of the dead letter queue is for the file, and its counter is above 0.
abbrev pub IsCounted : ℤ → String → XMessage → Type 0
IsCounted max file msg =
    (value_of msg "file" ≡ file)
    × (ltb_ℤ (pos 0) (parse_attempts (value_of msg "attempts") max) ≡ true)

pub note_existing-IsNoted :
    (max : ℤ) (file : String) (msgs : List XMessage) (known : Existing)
    → IsNoted file (note_existing max msgs known).attempts
      ↔ (IsNoted file known.attempts ⊎ Any (IsCounted max file) msgs)
unfolding note_existing
note_existing-IsNoted max file [] known =
    ((λ h. inl h), λ h. elim h [ inl old ↦ old | inr bad ↦ absurd bad ])
note_existing-IsNoted max file (msg ∷ msgs) known =
    let key = value_of msg "file" in
    let n = parse_attempts (value_of msg "attempts") max in
    let (to, from) = note_existing-IsNoted max file msgs (record {
      attempts = raise key n known.attempts;
      ids = insert key (or_else (lookup key known.ids) [] ++ msg.id ∷ []) known.ids;
    }) in
    (
      λ h. elim (to h) [
        | inr later ↦ inr (inr later)
        | inl before ↦ elim (raise-IsNoted key file n known.attempts before) [
          | inl old ↦ inl old
          | inr new ↦ inr (inl new)
        ]
      ],
      λ h. elim h [
        | inl old ↦ from (inl (IsNoted-raise key file n known.attempts (inl old)))
        | inr (inl new) ↦ from (inl (IsNoted-raise key file n known.attempts (inr new)))
        | inr (inr later) ↦ from (inr later)
      ],
    )
