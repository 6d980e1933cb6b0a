-- ===== src/Batch/Flush/Buried.antt =====
-- Which files the flush moves to the dead letter queue (`flushOutstandingWork`,
-- internal/controller/pipelineinstance_controller_batch.go).
use openfilter_pipelines_con.Base.{
  ℕ, ◌<◌, ◌≡◌, ◌↔◌, ◌⊎◌, refl, sym, ap, subst, ◌∙◌, inl, inr, true, false, Bool, Option, none, some,
  List, [], String, ℤ, Dict, is_some, Any,
}
use openfilter_pipelines_con.Api.{PipelineInstance, get_queue_stream, get_queue_group}
use openfilter_pipelines_con.Queue.{XMessage, ValkeyClientInterface}
use openfilter_pipelines_con.Batch.Common.{max_attempts}
use openfilter_pipelines_con.Batch.Flush.{
  Existing, raise_all, copy_all, bury_all, read_existing, finish, flush_outstanding_work,
}
use openfilter_pipelines_con.Batch.Flush.Noted.{HasFailedBefore, IsNoted, none-IsNoted}
use openfilter_pipelines_con.Batch.Flush.Merged.{IsCounted}
use openfilter_pipelines_con.Batch.Flush.Ordered.{IsOrder, final-HasKey}
use openfilter_pipelines_con.Batch.Flush.Shown.{
  View, IsShowing, Sums, AfterAll, drop_pending-After, drop_all-AfterAll,
}
use openfilter_pipelines_con.Batch.Flush.Termination.{IsDraining, flush_outstanding_work-some}
use openfilter_pipelines_con.Batch.Flush.Replaced.{
  bury_all-left, bury_all-Buries, read_existing-known,
}

-- Nothing is left in the work stream, and a file is buried exactly if a message or an entry counts.
abbrev Moved : {W : Type 0} → PipelineInstance → View W → W → Type 0
Moved pi v u =
    (v.left u ≡ 0)
    × ((file : String)
        → Any (λ f. f ≡ file) (v.buried u) ↔ (
            Any (HasFailedBefore (max_attempts pi) file) (v.taken u)
            ⊎ Any (IsCounted (max_attempts pi) file) (v.known u)))

finish-buries :
    {W : Type 0} (q : ValkeyClientInterface W) (pi : PipelineInstance) (v : View W)
    (laws : IsShowing q pi v) (order : Dict ℤ → Dict ℤ) (ranges : IsOrder order) (reason : String)
    (existing : Existing) (entries : List XMessage) (u : W)
    → ((file : String)
        → IsNoted file existing.attempts ↔ Any (IsCounted (max_attempts pi) file) entries)
    → (r : Option (Bool × Dict ℤ × W)) → AfterAll q pi v laws entries r
    → finish q order pi reason existing r ≡ some u
    → Moved pi v u
unfolding finish
finish-buries q pi v laws order ranges reason existing entries u counted none h done =
    absurd (cc done)
finish-buries q pi v laws order ranges reason existing entries u counted (some (false, files, w)) h
      done =
    let bad = h.0 in absurd (cc bad)
finish-buries q pi v laws order ranges reason existing entries u counted (some (true, files, w))
      (complete, sums, empty) done =
    let final = raise_all (order files) (copy_all (order existing.attempts) []) in
    let (same_taken, same_known, all) =
      bury_all-Buries q pi v laws reason existing.ids (order final) w in
    let last : bury_all q pi (max_attempts pi) reason existing.ids (order final) w ≡ u = cc done in
    let taken = ap v.taken (sym last) ∙ same_taken in
    let known = ap v.known (sym last) ∙ same_known ∙ sums.rest.0 in
    let nothing =
      ap v.left (sym last)
      ∙ bury_all-left q pi v laws reason existing.ids (order final) w
      ∙ empty in
    (
      nothing,
      λ file.
          let (to, from) = all file in
          let (split, join) =
            final-HasKey order ranges file files existing.attempts sums.positive in
          let (noted_to, noted_from) = sums.noted file in
          let (counted_to, counted_from) = counted file in
          (
            λ h. elim (to (subst (λ x. Any (λ f. f ≡ file) (v.buried x)) (sym last) h)) [
              | inl before ↦ absurd (subst (λ fs. Any (λ f. f ≡ file) fs) sums.rest.1 before)
              | inr key ↦ elim (split key) [
                | inl noted ↦ inl (
                    subst (Any (HasFailedBefore (max_attempts pi) file)) (sym taken)
                      (noted_to noted))
                | inr noted ↦
                    inr (
                      subst (Any (IsCounted (max_attempts pi) file)) (sym known) (counted_to noted))
              ]
            ],
            λ h.
                subst (λ x. Any (λ f. f ≡ file) (v.buried x)) last
                  (from (
                    inr (
                      join (elim h [
                        | inl a ↦ inl (
                            noted_from
                              (subst (Any (HasFailedBefore (max_attempts pi) file)) taken a))
                        | inr b ↦
                            inr (
                              counted_from (subst (Any (IsCounted (max_attempts pi) file)) known b))
                      ])))),
          ),
    )

result-buries :
    {W : Type 0} (q : ValkeyClientInterface W) (pi : PipelineInstance) (v : View W)
    (laws : IsShowing q pi v) (order : Dict ℤ → Dict ℤ) (ranges : IsOrder order) (fuel : ℕ)
    (reason : String) (w u : W)
    → v.taken w ≡ []
    → v.known w ≡ []
    → v.buried w ≡ []
    → flush_outstanding_work q fuel order pi reason w ≡ some u
    → Moved pi v u
unfolding flush_outstanding_work
result-buries q pi v laws order ranges fuel reason w u taken known buried done =
    let start = (read_existing q pi w).1 in
    let existing = (read_existing q pi w).0 in
    let (same_taken, same_buried, counted) = read_existing-known q pi v laws w known in
    let sums : Sums q pi v laws (v.known start) [] start = record {
      noted = λ f. (
        λ h. absurd (none-IsNoted f h),
        λ h. absurd (subst (Any (HasFailedBefore (max_attempts pi) f)) (same_taken ∙ taken) h),
      );
      positive = λ f h. absurd (none-IsNoted f h);
      rest = (refl, same_buried ∙ buried);
    } in
    finish-buries q pi v laws order ranges reason existing (v.known start) u counted _
      (drop_all-AfterAll q pi v laws (v.known start) fuel _
        (drop_pending-After q pi v laws (v.known start) fuel [] start sums))
      done

Option-cases : {A : Type 0} (o : Option A) → is_some o ≡ true → (a : A) × (o ≡ some a)
Option-cases none h = absurd (cc h)
Option-cases (some a) h = (a, refl)

-- Where the queue answers the reads and deletions of the flush, XACK and XDEL take effect, no one else
-- writes to the streams, and `order` ranges over a map with its keys and values: the flush ends with
-- fuel for every pending message and every message of the stream, and leaves the work stream empty.
-- From tallies that are empty, it has asked to add a file to the dead letter queue exactly if one of
-- the messages that it took from the work stream names the file with a counter above 0, or one of the
-- entries that the dead letter queue had does: a file whose messages were never retried is dropped with
-- them. A message without a file counts as one of the file <unknown>, and a counter that is missing or
-- cannot be read as the limit.
pub flush_outstanding_work-buries :
    {W : Type 0} (q : ValkeyClientInterface W) (pi : PipelineInstance) (size pending : W → ℕ)
    (drains : IsDraining q (get_queue_stream pi) (get_queue_group pi) size pending) (v : View W)
    (laws : IsShowing q pi v) (order : Dict ℤ → Dict ℤ) (ranges : IsOrder order) (fuel : ℕ)
    (reason : String) (w : W)
    → pending w < fuel
    → size w < fuel
    → v.taken w ≡ []
    → v.known w ≡ []
    → v.buried w ≡ []
    → (u : W) × (flush_outstanding_work q fuel order pi reason w ≡ some u)
      × (v.left u ≡ 0)
      × ((file : String)
          → Any (λ f. f ≡ file) (v.buried u) ↔ (
              Any (HasFailedBefore (max_attempts pi) file) (v.taken u)
              ⊎ Any (IsCounted (max_attempts pi) file) (v.known u)))
flush_outstanding_work-buries q pi size pending drains v laws order ranges fuel reason w few less
      taken known buried =
    let ends = flush_outstanding_work-some q pi size pending drains fuel order reason w few less in
    let (u, done) = Option-cases (flush_outstanding_work q fuel order pi reason w) ends in
    let (nothing, all) =
      result-buries q pi v laws order ranges fuel reason w u taken known buried done in
    (u, done, nothing, all)
