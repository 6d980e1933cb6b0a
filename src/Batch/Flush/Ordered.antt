-- ===== src/Batch/Flush/Ordered.antt =====
-- The account of the flush in the order in which Go ranges over it (`flushOutstandingWork`,
-- internal/controller/pipelineinstance_controller_batch.go).
use openfilter_pipelines_con.Base.{◌≡◌, ◌↔◌, ◌⊎◌, inl, inr, [], String, ℤ, Dict, lookup}
use openfilter_pipelines_con.Batch.Flush.{raise_all, copy_all}
use openfilter_pipelines_con.Batch.Flush.Noted.{IsNoted}
use openfilter_pipelines_con.Batch.Flush.Merged.{IsPositive, HasKey, lookup-HasKey, merged-IsNoted}

-- Ranging over a map shows each of its keys with its value.
abbrev pub IsOrder : (Dict ℤ → Dict ℤ) → Type 0
IsOrder order = (d : Dict ℤ) (file : String) → lookup file (order d) ≡ lookup file d

module _ (order : Dict ℤ → Dict ℤ) (ranges : IsOrder order) (file : String) where
  order-IsNoted : (d : Dict ℤ) → IsNoted file (order d) ↔ IsNoted file d
  order-IsNoted d = rw (ranges d file) ((λ h. h), λ h. h)

  order-IsPositive : (d : Dict ℤ) → IsPositive d → IsPositive (order d)
  order-IsPositive d h key = rw (ranges d key) (h key)

  -- The keys of the account in its last order are those of the two accounts that it is put together of.
  pub final-HasKey :
      (files known : Dict ℤ)
      → IsPositive files
      → HasKey file (order (raise_all (order files) (copy_all (order known) [])))
        ↔ (IsNoted file files ⊎ IsNoted file known)
  final-HasKey files known positive =
      let final = raise_all (order files) (copy_all (order known) []) in
      let (key, of_key) = lookup-HasKey file (order final) in
      let (sorted, unsorted) = order-IsNoted final in
      let (to, from) =
        merged-IsNoted file (order files) (order known) (order-IsPositive files positive) in
      let (files_to, files_from) = order-IsNoted files in
      let (known_to, known_from) = order-IsNoted known in
      (
        λ h. elim (to (sorted (of_key h))) [ inl a ↦ inl (files_to a) | inr b ↦ inr (known_to b) ],
        λ h.
            key (
              unsorted (from (elim h [ inl a ↦ inl (files_from a) | inr b ↦ inr (known_from b) ]))),
      )
