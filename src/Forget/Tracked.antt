-- ===== src/Forget/Tracked.antt =====
-- What a cascade and the worker do to the rows of forget_events.
use vibeshkoder.Base.{ℕ, ◌≡◌, refl, ◌∙◌, Option, none, some, List, [], ◌∷◌}
use vibeshkoder.Base.Exec.{Result, ok, err, pure, raise, bind_keeps, if_keeps}
use vibeshkoder.Forget.Model.{
  ForgetEvent, EventStatus, Layer, CascadeStatus, CascadeError, Store, Outside,
}
use vibeshkoder.Forget.Events.{mark_status, list_pending}
use vibeshkoder.Forget.Order.{is_completed, mark_of, cascade_layer_order}
use vibeshkoder.Forget.Cascade.{
  Progressing, on_store, run_layer, round, checkpoint, set_entry, run_layers, lock_event, finish,
  record_failure, conclude, cascade, process_one_event,
}
use vibeshkoder.Forget.Worker.{Stats, no_stats, handle, work, run_cascade_worker_once}
use vibeshkoder.Forget.Passage.{KeepsLog, run_layer-KeepsLog}
use vibeshkoder.Forget.Outcome.{lock_event-KeepsLog, begin}
use vibeshkoder.Forget.Rows.{mark_status-IsLocal, update_cascade_status-IsLocal}
use vibeshkoder.Forget.Lifecycle.{
  AreTracked, tracked_rows_refl, tracked_rows_trans, mark_status-AreTracked,
  update_cascade_status-AreTracked,
}

-- The rows are those of `l` on their way, and the sequence is at `n`.
abbrev pub Tracks : List ForgetEvent → ℕ → Store → Type 0
Tracks l n w = AreTracked l w.events × (w.next_event ≡ n)

same_rows :
    {l : List ForgetEvent} {n : ℕ} (w w' : Store) → KeepsLog w w' → Tracks l n w → Tracks l n w'
same_rows w w' (e, q) (h, k) = (rw e h, q ∙ k)

module _ (out : Outside) (l : List ForgetEvent) (n : ℕ) where
  abbrev pub Holds : Store → Type 0
  Holds w = Tracks l n w

  marked_tracks :
      (id : ℕ) (status : EventStatus) (state : Option CascadeStatus) (w : Store)
      → Holds w
      → Holds (mark_status id status state w).1
  marked_tracks id status state w (h, q) = (
    tracked_rows_trans h (mark_status-AreTracked id status state w),
    (mark_status-IsLocal id status state w).same_next ∙ q,
  )

  module _ (e : ForgetEvent) where
    round_tracks : (k : Layer) (p : Progressing) → Holds p.store → Holds (round out e k p).1.store
    unfolding round
    round_tracks k p h =
        bind_keeps (λ q. Holds q.store) (checkpoint e k) (on_store (run_layer out e k)) p
          (same_rows p.store (run_layer out e k p.store).1
            (run_layer-KeepsLog out e p.store k p.store) h)
          (λ m q r i. (
            tracked_rows_trans i.0
                (update_cascade_status-AreTracked e.id (set_entry k m q).state q.store),
            (update_cascade_status-IsLocal e.id (set_entry k m q).state q.store).same_next ∙ i.1,
          ))

    run_layers_track :
        (ks : List Layer) (p : Progressing) → Holds p.store → Holds (run_layers out e ks p).1.store
    unfolding run_layers
    run_layers_track [] p h = h
    run_layers_track (k ∷ ks) p h =
        if_keeps (λ q. Holds q.store) (is_completed (mark_of k p.state.layers))
          (run_layers out e ks) _ p (λ t. run_layers_track ks p h)
          (λ t.
            bind_keeps (λ q. Holds q.store) (λ x. run_layers out e ks) (round out e k) p
              (round_tracks k p h) (λ a q r i. run_layers_track ks q i))

    finish_tracks : (p : Progressing) → Holds p.store → Holds (finish e p).1.store
    unfolding finish
    finish_tracks p h =
        bind_keeps (λ q. Holds q.store) (λ d. pure tt)
          (on_store (mark_status e.id EventStatus.completed (some p.state))) p
          (marked_tracks e.id EventStatus.completed (some p.state) p.store h) (λ a q r i. i)

    conclude_tracks :
        (r : Result CascadeError (Unit {0})) (p : Progressing)
        → Holds p.store
        → Holds (conclude e (r, p)).1
    unfolding conclude record_failure
    conclude_tracks (ok x) p h = h
    conclude_tracks (err x) p h =
        bind_keeps Holds (λ d. raise x)
          (mark_status e.id EventStatus.failed (some (record p.state { error = some x }))) p.store
          (marked_tracks e.id EventStatus.failed (some (record p.state { error = some x })) p.store
            h)
          (λ a q r i. i)

    process_tracks : (w : Store) → Holds w → Holds (process_one_event out e w).1
    unfolding process_one_event cascade
    process_tracks w h =
        let (r, p) = cascade out e (record { store = w; state = (begin out e w).state }) in
        conclude_tracks r p (
          bind_keeps (λ q. Holds q.store) (λ x. finish e) (run_layers out e cascade_layer_order)
            (begin out e w)
            (run_layers_track cascade_layer_order (begin out e w)
              (same_rows w (lock_event out e w) (lock_event-KeepsLog out e w) h))
            (λ a q s i. finish_tracks q i))

  handle_tracks :
      (s : Stats) (r : Result CascadeError ForgetEvent) (w : Store)
      → Holds w
      → Holds (handle out s (r, w)).1
  unfolding handle
  handle_tracks s (ok e) w h = process_tracks e w h
  handle_tracks s (err x) w h = h

  work_tracks :
      (es : List ForgetEvent) (s : Stats) (w : Store) → Holds w → Holds (work out es s w).1
  unfolding work
  work_tracks [] s w h = h
  work_tracks (e ∷ es) s w h =
      let (r, v) = mark_status e.id EventStatus.processing none w in
      let (s', w') = handle out s (r, v) in
      work_tracks es s' w'
        (handle_tracks s r v (marked_tracks e.id EventStatus.processing none w h))

-- The worker moves each row along its life, and the sequence stays.
pub worker-Tracks :
    (out : Outside) (n : ℕ) (w : Store)
    → Tracks w.events w.next_event (run_cascade_worker_once out n w).1
unfolding run_cascade_worker_once
worker-Tracks out n w =
    work_tracks out w.events w.next_event (list_pending n w) no_stats w
      (tracked_rows_refl w.events, refl)
