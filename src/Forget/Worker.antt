-- ===== src/Forget/Worker.antt =====
-- The worker: `run_cascade_worker_once` and `cascade_worker_tick` of bot/services/forget_cascade.py.
use vibeshkoder.Base.{ℕ, ◌+◌, Bool, none, List, [], ◌∷◌, if◌then◌else◌}
use vibeshkoder.Base.Exec.{Result, ok, err}
use vibeshkoder.Forget.Model.{ForgetEvent, EventStatus, CascadeError, Store, Outside}
use vibeshkoder.Forget.Events.{list_pending, mark_status}
use vibeshkoder.Forget.Cascade.{process_one_event}

-- the dict of counts that the worker returns
pub record Stats : Type 0 where
  pub claimed : ℕ
  pub processed : ℕ
  pub failed : ℕ

abbrev pub no_stats : Stats
no_stats = record { claimed = 0; processed = 0; failed = 0 }

abbrev pub count_result : Result CascadeError (Unit {0}) → Stats → Stats
count_result (ok x) s = record s { claimed = s.claimed + 1; processed = s.processed + 1 }
count_result (err x) s = record s { claimed = s.claimed + 1; failed = s.failed + 1 }

module _ (out : Outside) where
  abbrev pub counted : Stats → Result CascadeError (Unit {0}) × Store → Stats × Store
  counted s (r, w) = (count_result r s, w)

  -- one event of the batch: a claim that is refused is passed over
  unfoldable pub handle : Stats → Result CascadeError ForgetEvent × Store → Stats × Store
  handle s (ok claimed, w) = counted s (process_one_event out claimed w)
  handle s (err x, w) = (s, w)

  unfoldable pub work : List ForgetEvent → Stats → Store → Stats × Store
  work [] s w = (s, w)
  work (e ∷ es) s w =
      let (s', w') = handle s (mark_status e.id EventStatus.processing none w) in work es s' w'

  unfoldable pub run_cascade_worker_once : ℕ → Store → Stats × Store
  run_cascade_worker_once batch_size w = work (list_pending batch_size w) no_stats w

  -- the feature flag of the scheduler's tick
  unfoldable pub cascade_worker_tick : Bool → ℕ → Store → Stats × Store
  cascade_worker_tick enabled batch_size w =
      if enabled then run_cascade_worker_once batch_size w else (no_stats, w)
