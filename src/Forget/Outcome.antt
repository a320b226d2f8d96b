-- ===== src/Forget/Outcome.antt =====
-- How a cascade ends: `_process_one_event` as a whole.
use vibeshkoder.Base.{
  ℕ, ◌≡◌, ◌≢◌, refl, ◌∙◌, ap, true, Option, some, List, [], ◌∷◌, Bool-cases, inl, inr, In, or_else,
}
use vibeshkoder.Base.Exec.{Result, ok, err, continue}
use vibeshkoder.Forget.Model.{
  ForgetEvent, EventStatus, Layer, CascadeStatus, CascadeError, Store, Outside, LockKey,
}
use vibeshkoder.Forget.Events.{moved, allowed_old}
use vibeshkoder.Forget.Order.{cascade_layer_order, is_export}
use vibeshkoder.Forget.Cascade.{
  Progressing, run_layers, take_locks, lock_event, lock_keys, finish, cascade, no_progress,
  record_failure, conclude, process_one_event,
}
use vibeshkoder.Forget.Rows.{
  row, wrote, IsLocal, mark_status-moves, moved-row, wrote-IsLocal, is_among,
}
use vibeshkoder.Forget.Passage.{IsUnderWay, KeepsLog, same_events, run_layers_keep}
use vibeshkoder.Forget.Marks.{IsMarked, run_layers_mark}

-- What the row of an event says when its cascade has returned or raised.
pub data Ended : Result CascadeError (Unit {0}) → ForgetEvent → Type 0 where
  succeeded :
      {e : ForgetEvent} {state : CascadeStatus}
      → e.status ≡ EventStatus.completed
      → e.cascade_status ≡ some state
      → ((l : Layer) → In l cascade_layer_order → IsMarked l state.layers)
      → Ended (ok tt) e
  broke_off :
      {e : ForgetEvent} {state : CascadeStatus} {x : CascadeError}
      → e.status ≡ EventStatus.failed
      → e.cascade_status ≡ some state
      → state.error ≡ some x
      → Ended (err x) e

-- The cascade of the event ended with `r`, which its row says, and left the other events alone.
pub record HasEnded (id : ℕ) (start : Store) (r : Result CascadeError (Unit {0})) (w : Store)
    : Type 0 where
  pub event : ForgetEvent
  pub stored : row id w ≡ some event
  pub ended : Ended r event
  pub others : (j : ℕ) → j ≢ id → row j w ≡ row j start

abbrev pub EndsWell : ℕ → Store → Result CascadeError (Unit {0}) × Store → Type 0
EndsWell id start (r, w) = HasEnded id start r w

closing :
    (id : ℕ) (status : EventStatus) (state : Option CascadeStatus) (w : Store)
    → IsLocal id w (wrote id (allowed_old status) (moved status state) w)
closing id status state w = wrote-IsLocal id (allowed_old status) (moved status state) (λ x. refl) w

conclude_ends :
    (e : ForgetEvent) (start : Store) (r : Result CascadeError (Unit {0})) (q : Progressing)
    → IsUnderWay e.id start q.store
    → (r ≡ ok tt → (l : Layer) → In l cascade_layer_order → IsMarked l q.state.layers)
    → EndsWell e.id start (conclude e (continue r (λ x. finish e) q))
unfolding conclude finish record_failure
conclude_ends e start (ok x) q h marks =
    let a : is_among (allowed_old EventStatus.completed) h.event ≡ true = rw h.in_progress refl in
    let m = mark_status-moves e.id EventStatus.completed (some q.state) q.store refl h.stored a in
    rw m (record {
      event = moved EventStatus.completed (some q.state) h.event;
      stored = moved-row e.id EventStatus.completed (some q.state) q.store h.stored a;
      ended = succeeded refl refl (marks refl);
      others = λ j n.
          (closing e.id EventStatus.completed (some q.state) q.store).others j n ∙ h.others j n;
    })
conclude_ends e start (err x) q h marks =
    let a : is_among (allowed_old EventStatus.failed) h.event ≡ true = rw h.in_progress refl in
    let state : CascadeStatus = record q.state { error = some x } in
    let m = mark_status-moves e.id EventStatus.failed (some state) q.store refl h.stored a in
    rw m (record {
      event = moved EventStatus.failed (some state) h.event;
      stored = moved-row e.id EventStatus.failed (some state) q.store h.stored a;
      ended = broke_off refl refl refl;
      others =
          λ j n. (closing e.id EventStatus.failed (some state) q.store).others j n ∙ h.others j n;
    })

take_locks-KeepsLog : (ks : List LockKey) (w : Store) → KeepsLog w (take_locks ks w)
take_locks-KeepsLog [] w = (refl, refl)
take_locks-KeepsLog (k ∷ ks) w = take_locks-KeepsLog ks (record w { held = k ∷ w.held })

pub lock_event-KeepsLog :
    (out : Outside) (e : ForgetEvent) (w : Store) → KeepsLog w (lock_event out e w)
lock_event-KeepsLog out e w = elim (Bool-cases (is_export e.target_type)) [
  | inl t ↦ rw t (refl, refl)
  | inr t ↦ rw t (take_locks-KeepsLog (lock_keys out e w.tables) w)
]

module _ (out : Outside) where
  -- The variables with which the loop begins.
  abbrev pub begin : ForgetEvent → Store → Progressing
  begin e w = record { store = lock_event out e w; state = or_else e.cascade_status no_progress }

  -- A claimed event whose cascade returns is completed, with an entry for every layer of the order; one
  -- whose cascade raises is failed, with the exception under 'error'; no other event changes.
  pub process_one_event-ends :
      (e c : ForgetEvent) (w : Store)
      → row e.id w ≡ some c
      → c.status ≡ EventStatus.processing
      → EndsWell e.id w (process_one_event out e w)
  unfolding process_one_event cascade
  process_one_event-ends e c w s p =
      let (r, q) = run_layers out e cascade_layer_order (begin e w) in
      conclude_ends e w r q
        (run_layers_keep out e w cascade_layer_order (begin e w) (
          same_events e.id w {w = w} (lock_event-KeepsLog out e w).0
            (record { event = c; stored = s; in_progress = p; others = λ j n. refl })))
        (λ t l i. run_layers_mark out e cascade_layer_order (begin e w) q (ap (λ z. (z, q)) t) i)
