-- ===== src/Forget/Export.antt =====
-- An event of the type `export`.
use vibeshkoder.Base.{◌≡◌, refl, ◌∙◌, ap, true, List, [], ◌∷◌}
use vibeshkoder.Base.Exec.{bind_keeps, if_keeps}
use vibeshkoder.Forget.Model.{ForgetEvent, TargetType, Layer, Tables, Store, Outside}
use vibeshkoder.Forget.Order.{cascade_layer_order, is_export, is_completed, mark_of}
use vibeshkoder.Forget.Cascade.{
  Progressing, on_store, run_layer, round, checkpoint, set_entry, run_layers, cascade, finish,
  process_one_event,
}
use vibeshkoder.Forget.Rows.{update_cascade_status-IsLocal}
use vibeshkoder.Forget.Outcome.{begin}
use vibeshkoder.Forget.Erasure.Complete.{conclude_tables, finish_tables}

module _ (out : Outside) (e : ForgetEvent) (t : Tables) (x : is_export e.target_type ≡ true) where
  abbrev pub Stays : Progressing → Type 0
  Stays p = p.store.tables ≡ t

  skipped : (l : Layer) (w : Store) → (run_layer out e l w).1 ≡ w
  unfolding run_layer
  skipped l w = rw x refl

  round-Stays : (l : Layer) (p : Progressing) → Stays p → Stays (round out e l p).1
  unfolding round
  round-Stays l p h =
      bind_keeps Stays (checkpoint e l) (on_store (run_layer out e l)) p
        (ap (λ w. w.tables) (skipped l p.store) ∙ h)
        (λ m q r k.
          (update_cascade_status-IsLocal e.id (set_entry l m q).state q.store).same_tables ∙ k)

  run_layers_stay : (ls : List Layer) (p : Progressing) → Stays p → Stays (run_layers out e ls p).1
  unfolding run_layers
  run_layers_stay [] p h = h
  run_layers_stay (l ∷ ls) p h =
      if_keeps Stays (is_completed (mark_of l p.state.layers)) (run_layers out e ls) _ p
        (λ c. run_layers_stay ls p h)
        (λ c.
          bind_keeps Stays (λ y. run_layers out e ls) (round out e l) p (round-Stays l p h)
            (λ a q r k. run_layers_stay ls q k))

-- The cascade of an `export` event changes no table but that of the events.
pub export_changes_nothing :
    (out : Outside) (e : ForgetEvent) (w : Store)
    → e.target_type ≡ TargetType.export
    → (process_one_event out e w).1.tables ≡ w.tables
unfolding process_one_event cascade
export_changes_nothing out e w y =
    let x : is_export e.target_type ≡ true = ap is_export y in
    let l : (begin out e w).store.tables ≡ w.tables = rw x refl in
    let (r, p) = cascade out e (record { store = w; state = (begin out e w).state }) in
    conclude_tables e r p
    ∙ bind_keeps (λ q. q.store.tables ≡ w.tables) (λ z. finish e)
        (run_layers out e cascade_layer_order) (begin out e w)
        (run_layers_stay out e w.tables x cascade_layer_order (begin out e w) l)
        (λ a q s k. finish_tables e q ∙ k)
