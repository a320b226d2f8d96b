-- ===== src/Forget/Cascade.antt =====
-- The cascade of one event: `_process_one_event` of bot/services/forget_cascade.py. The database is
-- PostgreSQL.
use vibeshkoder.Base.{ℕ, not, leb, none, some, List, [], ◌∷◌, map, sort_by, if◌then◌else◌, or_else}
use vibeshkoder.Base.Exec.{Exec, Result, ok, err, pure, raise, gets, modify, ◌>>=◌, ◌>>◌}
use vibeshkoder.Forget.Model.{
  ForgetEvent, EventStatus, Layer, Mark, CascadeStatus, CascadeError, Tables, Store, Method, Sweep,
  Outside, LockKey,
}
use vibeshkoder.Forget.Events.{mark_status, update_cascade_status}
use vibeshkoder.Forget.Targets.{resolve_affected_mvids}
use vibeshkoder.Forget.Layers.Messages.{cascade_chat_messages, cascade_message_versions}
use vibeshkoder.Forget.Layers.Questions.{
  cascade_qa_traces, cascade_llm_synthesis_cache, cascade_qa_traces_llm, cascade_llm_usage_ledger,
}
use vibeshkoder.Forget.Layers.Semantic.{cascade_semantic_retrieval}
use vibeshkoder.Forget.Layers.Butler.{
  cascade_butler_action_confirmations, cascade_butler_tool_invocations,
  cascade_butler_undo_invocations, cascade_butler_actions,
}
use vibeshkoder.Forget.Order.{
  cascade_layer_order, applies, has_func, is_export, mark_of, put, is_completed,
}

-- What the local variables of `_process_one_event` are beside the database: its `cascade_state`.
pub record Progressing : Type 0 where
  pub store : Store
  pub state : CascadeStatus

abbrev pub Step : Type 0 → Type 0
Step A = Exec CascadeError Progressing A

module _ {A : Type 0} where
  abbrev pub within_store :
      Progressing → Result CascadeError A × Store → Result CascadeError A × Progressing
  within_store p (r, w) = (r, record p { store = w })

  -- a method of the repository
  abbrev pub on_store : Method A → Step A
  on_store m p = within_store p (m p.store)

  -- `async with session.begin_nested()`: an exception takes back what the layer wrote
  abbrev pub savepoint : Tables → Result CascadeError A × Tables → Result CascadeError A × Tables
  savepoint before (ok a, w) = (ok a, w)
  savepoint before (err x, w) = (err x, before)

  abbrev pub within_tables : Store → Result CascadeError A × Tables → Result CascadeError A × Store
  within_tables w (r, t) = (r, record w { tables = t })

  unfoldable pub nested : Sweep A → Method A
  nested m w = within_tables w (savepoint w.tables (m w.tables))

-- cascade_state[layer] = mark
abbrev pub set_entry : Layer → Mark → Progressing → Progressing
set_entry l m p = record p { state = record p.state { layers = put l m p.state.layers } }

-- the entry of a layer, written to the variable and to the row
abbrev pub checkpoint : ForgetEvent → Layer → Mark → Step ForgetEvent
checkpoint e l m = do
  modify (set_entry l m)
  state ← gets (λ p. p.state)
  on_store (update_cascade_status e.id state)

-- the end of the `try`
unfoldable pub finish : ForgetEvent → Step (Unit {0})
finish e = do
  state ← gets (λ p. p.state)
  done ← on_store (mark_status e.id EventStatus.completed (some state))
  pure tt

abbrev pub no_progress : CascadeStatus
no_progress = record { layers = []; error = none }

-- the handler of the `except`: the failure is recorded and the exception goes on
unfoldable pub record_failure : ForgetEvent → CascadeStatus → CascadeError → Method (Unit {0})
record_failure e state x = do
  failed ← mark_status e.id EventStatus.failed (some (record state { error = some x }))
  raise x

unfoldable pub conclude :
    ForgetEvent
    → Result CascadeError (Unit {0}) × Progressing
    → Result CascadeError (Unit {0}) × Store
conclude e (ok x, p) = (ok x, p.store)
conclude e (err x, p) = record_failure e p.state x p.store

-- pg_advisory_xact_lock
abbrev pub take_locks : List LockKey → Store → Store
take_locks [] w = w
take_locks (k ∷ ks) w = take_locks ks (record w { held = k ∷ w.held })

module _ (out : Outside) where
  -- a layer without a model, whose tables are `Derived`
  abbrev pub other : Layer → ForgetEvent → Sweep ℕ
  other l e w = (out.other_layer l e w, record w { derived = out.other_tables l e w })

  -- _LAYER_FUNCS[layer]
  unfoldable pub layer_func : Layer → ForgetEvent → Sweep ℕ
  layer_func Layer.chat_messages = cascade_chat_messages out
  layer_func Layer.semantic_retrieval = cascade_semantic_retrieval out
  layer_func Layer.message_versions = cascade_message_versions out
  layer_func Layer.qa_traces = cascade_qa_traces out
  layer_func Layer.llm_synthesis_cache = cascade_llm_synthesis_cache out
  layer_func Layer.qa_traces_llm = cascade_qa_traces_llm out
  layer_func Layer.llm_usage_ledger = cascade_llm_usage_ledger out
  layer_func Layer.butler_action_confirmations = cascade_butler_action_confirmations out
  layer_func Layer.butler_tool_invocations = cascade_butler_tool_invocations out
  layer_func Layer.butler_undo_invocations = cascade_butler_undo_invocations out
  layer_func Layer.butler_actions = cascade_butler_actions out
  layer_func l = other l

  -- the branches of the loop, to the entry that they write
  unfoldable pub run_layer : ForgetEvent → Layer → Method Mark
  run_layer e l =
      if is_export e.target_type
      then pure (Mark.unsupported (has_func l))
      else if not (has_func l)
      then pure Mark.table_not_exists
      else if not (applies l e.target_type)
      then pure Mark.not_applicable
      else (do rows ← nested (layer_func l e); pure (Mark.completed rows))

  -- one round of the loop, with its checkpoint
  unfoldable pub round : ForgetEvent → Layer → Step ForgetEvent
  round e l = do m ← on_store (run_layer e l); checkpoint e l m

  unfoldable pub run_layers : ForgetEvent → List Layer → Step (Unit {0})
  run_layers e [] p = (ok tt, p)
  run_layers e (l ∷ ls) p =
      let rest = run_layers e ls in
      (if is_completed (mark_of l p.state.layers) then rest else round e l >>= λ _. rest) p

  -- the locks of an event, in the order in which they are taken
  unfoldable pub lock_keys : ForgetEvent → Tables → List LockKey
  lock_keys e w =
      LockKey.event_lock e.id
      ∷ map LockKey.mvid_lock (sort_by leb (map out.mvid_lock_id (resolve_affected_mvids out e w)))

  abbrev pub lock_event : ForgetEvent → Store → Store
  lock_event e w = if is_export e.target_type then w else take_locks (lock_keys e w.tables) w

  -- the body of the `try`
  unfoldable pub cascade : ForgetEvent → Step (Unit {0})
  cascade e = do
    modify (λ p. record p { store = lock_event e p.store })
    run_layers e cascade_layer_order
    finish e

  unfoldable pub process_one_event : ForgetEvent → Method (Unit {0})
  process_one_event e w =
      conclude e (cascade e (record { store = w; state = or_else e.cascade_status no_progress }))
