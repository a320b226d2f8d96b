-- ===== src/Forget/Counts.antt =====
-- The counts that the worker returns.
use vibeshkoder.Base.{
  ℕ, ◌+◌, ◌≤◌, ◌≡◌, refl, none, List, [], ◌∷◌, arith, length, length-take, filter, sort_by,
}
use vibeshkoder.Base.Exec.{Result, ok, err}
use vibeshkoder.Forget.Model.{ForgetEvent, EventStatus, CascadeError, Store, Outside}
use vibeshkoder.Forget.Events.{mark_status, list_pending, created_before}
use vibeshkoder.Forget.Cascade.{process_one_event}
use vibeshkoder.Forget.Worker.{Stats, no_stats, count_result, handle, work, run_cascade_worker_once}
use vibeshkoder.Forget.Batch.{is_pending}

module _ (out : Outside) where
  abbrev pub HasBalance : Stats → Type 0
  HasBalance s = s.claimed ≡ s.processed + s.failed

  counted-balance :
      (r : Result CascadeError (Unit {0})) (s : Stats)
      → HasBalance s
      → HasBalance (count_result r s) × ((count_result r s).claimed ≡ s.claimed + 1)
  counted-balance (ok x) s h = (omega arith, omega arith)
  counted-balance (err x) s h = (omega arith, omega arith)

  handle-balance :
      (s : Stats) (r : Result CascadeError ForgetEvent) (w : Store)
      → HasBalance s
      → HasBalance (handle out s (r, w)).0 × ((handle out s (r, w)).0.claimed ≤ s.claimed + 1)
  unfolding handle
  handle-balance s (ok e) w h =
      let (b, c) = counted-balance (process_one_event out e w).0 s h in (b, omega arith)
  handle-balance s (err x) w h = (h, omega arith)

  work-balance :
      (es : List ForgetEvent) (s : Stats) (w : Store)
      → HasBalance s
      → HasBalance (work out es s w).0 × ((work out es s w).0.claimed ≤ s.claimed + length es)
  unfolding work
  work-balance [] s w h = (h, omega arith)
  work-balance (e ∷ es) s w h =
      let (r, v) = mark_status e.id EventStatus.processing none w in
      let (b, c) = handle-balance s r v h in
      let (s', w') = handle out s (r, v) in
      let (b', c') = work-balance es s' w' b in (b', omega arith)

  -- Each event that the worker claims is counted once more, as processed or as failed, and it claims at
  -- most `batch_size`.
  pub worker_counts :
      (batch_size : ℕ) (w : Store)
      → HasBalance (run_cascade_worker_once out batch_size w).0
        × ((run_cascade_worker_once out batch_size w).0.claimed ≤ batch_size)
  unfolding run_cascade_worker_once list_pending
  worker_counts n w =
      let l = sort_by created_before (filter is_pending w.events) in
      let (b, c) = work-balance (list_pending n w) no_stats w refl in
      let t = length-take n l in (b, omega arith)
