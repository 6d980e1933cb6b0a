-- ===== src/Batch/Status/Counts.antt =====
-- The counters of an instance add up.
use openfilter_pipelines_con.Base.{
  ℕ, ◌+◌, ◌-◌, ◌<◌, ◌≡◌, pos, sub64, sub64-sub, sub64_pos, sub_ℕ, arith, ap, ◌∙◌,
}
use openfilter_pipelines_con.Batch.Status.{succeeded_of}

-- The largest count for which no difference of four counts leaves the range of an `int64`.
abbrev pub count_limit : ℕ
count_limit = 1152921504606846976

difference_lem :
    (t q r f : ℕ)
    → t < count_limit
    → q < count_limit
    → r < count_limit
    → f < count_limit
    → sub64 (sub64 (sub64 (pos t) (pos q)) (pos r)) (pos f) ≡ sub_ℕ t (q + r + f)
difference_lem t q r f ht hq hr hf =
    ap (λ z. sub64 (sub64 z (pos r)) (pos f)) (sub64_pos t q (omega arith) (omega arith))
    ∙ ap (λ z. sub64 z (pos f)) (sub64-sub t q r (omega arith) (omega arith))
    ∙ sub64-sub t (q + r) f (omega arith) (omega arith)

-- The number of succeeded files is what is left of the total, and 0 where more messages are in the
-- queues than files were counted. The counts stay below 2^60.
pub succeeded_of_lem :
    (t q r f : ℕ)
    → t < count_limit
    → q < count_limit
    → r < count_limit
    → f < count_limit
    → succeeded_of (pos t) (pos q) (pos r) (pos f) ≡ pos (t - (q + r + f))
unfolding succeeded_of
succeeded_of_lem t q r f ht hq hr hf = rw (difference_lem t q r f ht hq hr hf) (ground arith)
