-- ===== src/Reconciler/Outcome.antt =====
-- What a pass of the reconciler answers: `ctrl.Result`, the instance in memory, and the write of its
-- status before an answer (internal/controller/pipelineinstance_controller_batch.go and
-- internal/controller/pipelineinstance_controller_streaming.go).
use openfilter_pipelines_con.Base.{ℕ, Bool, true, false, String}
use openfilter_pipelines_con.Go.{Result, ok, err}
use openfilter_pipelines_con.Api.{PipelineInstance, ConditionStatus}
use openfilter_pipelines_con.Reconciler.{Reconciler, set_condition}

-- `ctrl.Result`: whether to requeue at once, and after how many nanoseconds (0 for not).
pub record CtrlResult : Type 0 where
  pub requeue : Bool
  pub requeue_after : ℕ

abbrev pub done : CtrlResult
done = record { requeue = false; requeue_after = 0 }

-- `StatusUpdateInterval`, 30 seconds.
abbrev pub poll : CtrlResult
poll = record { requeue = false; requeue_after = 30000000000 }

-- `ctrl.Result{Requeue: true}`
abbrev pub again : CtrlResult
again = record { requeue = true; requeue_after = 0 }

-- The answer, the instance in memory, and the world.
abbrev pub Outcome : Type 0 → Type 0
Outcome W = Result CtrlResult × PipelineInstance × W

module _ {W : Type 0} (r : Reconciler W) where
  -- `Status().Update` before an answer; its own error comes first.
  unfoldable pub stored : CtrlResult → PipelineInstance → W → Outcome W
  stored result pi w =
      let updated = r.kube.update_status pi w in
      elim updated.0 [ err e ↦ (err e, pi, updated.1) | ok _ ↦ (ok result, pi, updated.1) ]

  unfoldable pub set_condition_of :
      String → ConditionStatus → String → String → PipelineInstance × W → PipelineInstance × W
  set_condition_of type status reason message (pi, w) =
      set_condition r pi type status reason message w

  unfoldable pub stored_pair : CtrlResult → PipelineInstance × W → Outcome W
  unfolding stored
  stored_pair result (pi, w) = stored result pi w

  -- `Update` before an answer, after a change of the finalizers.
  unfoldable pub updated : CtrlResult → PipelineInstance → W → Outcome W
  updated result pi w =
      let sent = r.kube.update pi w in
      elim sent.0 [ err e ↦ (err e, pi, sent.1) | ok _ ↦ (ok result, pi, sent.1) ]
