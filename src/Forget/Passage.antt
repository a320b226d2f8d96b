-- ===== src/Forget/Passage.antt =====
-- The passage of an event through the layers: its row stays in progress, and the other events stay.
use vibeshkoder.Base.{ℕ, ◌≡◌, ◌≢◌, refl, ◌∙◌, not, some, List, [], ◌∷◌}
use vibeshkoder.Base.Exec.{pure, bind_keeps, if_keeps}
use vibeshkoder.Forget.Model.{
  ForgetEvent, EventStatus, Layer, Mark, CascadeStatus, Store, Sweep, Outside,
}
use vibeshkoder.Forget.Events.{update_cascade_status, checkpointed}
use vibeshkoder.Forget.Order.{is_export, has_func, applies, is_completed, mark_of}
use vibeshkoder.Forget.Cascade.{
  Progressing, on_store, nested, run_layer, layer_func, round, set_entry, run_layers,
}
use vibeshkoder.Forget.Rows.{row, update_cascade_status-stores, update_cascade_status-IsLocal}

-- The cascade of the event is under way: its row is in progress, and the others are as in `start`.
pub record IsUnderWay (id : ℕ) (start : Store) (w : Store) : Type 0 where
  pub event : ForgetEvent
  pub stored : row id w ≡ some event
  pub in_progress : event.status ≡ EventStatus.processing
  pub others : (j : ℕ) → j ≢ id → row j w ≡ row j start

pub same_events :
    (id : ℕ) (start : Store) {w w' : Store}
    → w'.events ≡ w.events
    → IsUnderWay id start w
    → IsUnderWay id start w'
same_events id start e h = record {
  event = h.event;
  stored = rw e h.stored;
  in_progress = h.in_progress;
  others = λ j n. rw e (h.others j n);
}

checkpoint_keeps :
    (id : ℕ) (start : Store) (state : CascadeStatus) (w : Store)
    → IsUnderWay id start w
    → IsUnderWay id start (update_cascade_status id state w).1
checkpoint_keeps id start state w h =
    let (e, r) = update_cascade_status-stores id state w h.stored h.in_progress in
    record {
      event = checkpointed state h.event;
      stored = rw e r;
      in_progress = h.in_progress;
      others = λ j n. (update_cascade_status-IsLocal id state w).others j n ∙ h.others j n;
    }

-- Neither the events nor their sequence are written.
abbrev pub KeepsLog : Store → Store → Type 0
KeepsLog w s = (s.events ≡ w.events) × (s.next_event ≡ w.next_event)

nested-KeepsLog : {A : Type 0} (m : Sweep A) (w : Store) → KeepsLog w (nested m w).1
unfolding nested
nested-KeepsLog m w = (refl, refl)

module _ (out : Outside) (e : ForgetEvent) (start : Store) where
  pub run_layer-KeepsLog : (l : Layer) (w : Store) → KeepsLog w (run_layer out e l w).1
  unfolding run_layer
  run_layer-KeepsLog l w =
      if_keeps (KeepsLog w) (is_export e.target_type) _ _ w (λ t. (refl, refl))
        λ t.
          if_keeps (KeepsLog w) (not (has_func l)) _ _ w (λ t. (refl, refl))
            λ t.
              if_keeps (KeepsLog w) (not (applies l e.target_type)) _ _ w (λ t. (refl, refl))
                λ t.
                  bind_keeps (KeepsLog w) (λ rows. pure (Mark.completed rows))
                    (nested (layer_func out l e)) w (nested-KeepsLog (layer_func out l e) w)
                    (λ a s q k. k)

  abbrev pub Under : Progressing → Type 0
  Under p = IsUnderWay e.id start p.store

  round_keeps : (l : Layer) (p : Progressing) → Under p → Under (round out e l p).1
  unfolding round
  round_keeps l p h =
      bind_keeps Under _ (on_store (run_layer out e l)) p
        (same_events e.id start (run_layer-KeepsLog l p.store).0 h)
        (λ m q r k. checkpoint_keeps e.id start (set_entry l m q).state q.store k)

  pub run_layers_keep :
      (ls : List Layer) (p : Progressing) → Under p → Under (run_layers out e ls p).1
  unfolding run_layers
  run_layers_keep [] p h = h
  run_layers_keep (l ∷ ls) p h =
      if_keeps Under (is_completed (mark_of l p.state.layers)) (run_layers out e ls) _ p
        (λ t. run_layers_keep ls p h)
        (λ t.
          bind_keeps Under (λ x. run_layers out e ls) (round out e l) p (round_keeps l p h)
            (λ a q r k. run_layers_keep ls q k))
