-- ===== src/Forget/Tests.antt =====
-- The theorems on a small database.
mod Setup
use vibeshkoder.Base.{
  find, ap, sym, ◌∙◌, ◌⊎◌, In-single, ℕ, ◌≡◌, ◌≢◌, ◌≤◌, refl, true, false, none, some, List, [],
  ◌∷◌, In, here, there, AreUnique, none_yet, one_more, arith,
}
use vibeshkoder.Base.Exec.{ok, err}
use vibeshkoder.Forget.Model.{ForgetEvent, EventStatus, TargetType, Store}
use vibeshkoder.Forget.Tests.Setup.{outside, action, message, version, event, store}
use vibeshkoder.Forget.Events.{returning, mark_status, update_cascade_status, list_pending}
use vibeshkoder.Forget.Targets.{
  resolve_affected_mvids, semantic_affected_mvids, affected_action_ids, targets,
}
use vibeshkoder.Forget.Layers.Messages.{
  redact_messages, redact_versions, cascade_chat_messages, cascade_message_versions,
}
use vibeshkoder.Forget.Layers.Questions.{
  update_traces, update_ledger, invalidate_by_citation, for_each, cascade_qa_traces,
  cascade_llm_synthesis_cache, cascade_qa_traces_llm, cascade_llm_usage_ledger,
}
use vibeshkoder.Forget.Layers.Semantic.{
  source_keys, delete_retrieval_traces, delete_units, sweep_answers, sweep_ledger, sweep_semantic,
  cascade_semantic_retrieval,
}
use vibeshkoder.Forget.Layers.Butler.{
  update_confirmations, lock_parents, sweep_confirmations, sweep_invocations, sweep_undo_rows,
  update_actions, sweep_actions, cascade_butler_action_confirmations,
  cascade_butler_tool_invocations, cascade_butler_undo_invocations, cascade_butler_actions,
}
use vibeshkoder.Forget.Cascade.{
  nested, layer_func, run_layer, round, run_layers, lock_keys, cascade, finish, record_failure,
  conclude, process_one_event,
}
use vibeshkoder.Forget.Worker.{handle, work, run_cascade_worker_once}
use vibeshkoder.Butler.Model.{Action, Error}
use vibeshkoder.Butler.Repos.Actions.{has_id}
use vibeshkoder.Butler.Execute.{execute_action}
use vibeshkoder.Butler.Tests.Setup.{sv}
use vibeshkoder.Forget.Layers.Butler.{expire_source}
use vibeshkoder.Forget.Execution.{forgotten_not_executed}
use vibeshkoder.Forget.Outcome.{EndsWell, process_one_event-ends}
use vibeshkoder.Forget.Export.{export_changes_nothing}
use vibeshkoder.Forget.Rows.{row, key}
use vibeshkoder.Forget.Batch.{HasSettled, worker_settles, worker_keeps_others}
use vibeshkoder.Forget.Counts.{HasBalance, worker_counts}
use vibeshkoder.Forget.Events.{NewEvent, create}
use vibeshkoder.Forget.Keys.{IsKeyed}
use vibeshkoder.Forget.Lifecycle.{IsSettled}
use vibeshkoder.Forget.Runs.{Call, create_event, worker, rehydrate, run, run-IsKeyed, run-IsSettled}
use vibeshkoder.Forget.Targets.{forget_excludes}
use vibeshkoder.Forget.Hidden.{stays_hidden}
use vibeshkoder.Forget.Erasure.Complete.{IsForgotten, forget_user, locked_breaks}

-- the event is claimed, and nobody holds a lock
abbrev pub claimed : Store
claimed = store [] (event TargetType.user EventStatus.processing)

abbrev pub erased : Store
erased = (process_one_event outside (event TargetType.user EventStatus.processing) claimed).1

completes :
    process_one_event outside (event TargetType.user EventStatus.processing) claimed
    ≡ (ok tt, erased)
unfolding process_one_event cascade conclude finish record_failure lock_keys run_layers round
    run_layer layer_func nested returning mark_status update_cascade_status resolve_affected_mvids
    semantic_affected_mvids affected_action_ids redact_messages redact_versions
    cascade_chat_messages cascade_message_versions update_traces update_ledger
    invalidate_by_citation for_each cascade_qa_traces cascade_llm_synthesis_cache
    cascade_qa_traces_llm cascade_llm_usage_ledger source_keys delete_retrieval_traces delete_units
    sweep_answers sweep_ledger sweep_semantic cascade_semantic_retrieval update_confirmations
    lock_parents sweep_confirmations sweep_invocations sweep_undo_rows update_actions sweep_actions
    cascade_butler_action_confirmations cascade_butler_tool_invocations
    cascade_butler_undo_invocations cascade_butler_actions
completes = refl

forget_user_example : IsForgotten 2 erased.tables
forget_user_example =
    forget_user outside (event TargetType.user EventStatus.processing) claimed erased 2 "2" refl
      refl refl refl completes

abbrev pub stopped : Action
stopped = expire_source 1 action

found_stopped : find (has_id 1) erased.tables.butler.actions ≡ some stopped
unfolding process_one_event cascade conclude finish record_failure lock_keys run_layers round
    run_layer layer_func nested returning mark_status update_cascade_status resolve_affected_mvids
    semantic_affected_mvids affected_action_ids redact_messages redact_versions
    cascade_chat_messages cascade_message_versions update_traces update_ledger
    invalidate_by_citation for_each cascade_qa_traces cascade_llm_synthesis_cache
    cascade_qa_traces_llm cascade_llm_usage_ledger source_keys delete_retrieval_traces delete_units
    sweep_answers sweep_ledger sweep_semantic cascade_semantic_retrieval update_confirmations
    lock_parents sweep_confirmations sweep_invocations sweep_undo_rows update_actions sweep_actions
    cascade_butler_action_confirmations cascade_butler_tool_invocations
    cascade_butler_undo_invocations cascade_butler_actions
found_stopped = refl

forgotten_not_executed_example :
    (x : Error) × (execute_action sv 1 erased.tables.butler ≡ (err x, erased.tables.butler))
forgotten_not_executed_example =
    forgotten_not_executed outside (event TargetType.user EventStatus.processing) claimed erased 2
      "2" sv 1 stopped refl refl refl refl completes found_stopped refl

abbrev pub locked_store : Store
locked_store = store (1 ∷ []) (event TargetType.user EventStatus.processing)

locked_breaks_example :
    process_one_event outside (event TargetType.user EventStatus.processing) locked_store
    ≢ (ok tt, erased)
locked_breaks_example =
    locked_breaks outside (event TargetType.user EventStatus.processing) locked_store erased 2 "2"
      action refl refl refl refl here refl here

process_one_event-ends_example :
    EndsWell 1 locked_store
      (process_one_event outside (event TargetType.user EventStatus.processing) locked_store)
process_one_event-ends_example =
    process_one_event-ends outside (event TargetType.user EventStatus.processing)
      (event TargetType.user EventStatus.processing) locked_store refl refl

export_changes_nothing_example :
    (process_one_event outside (event TargetType.export EventStatus.processing) claimed).1.tables
    ≡ claimed.tables
export_changes_nothing_example =
    export_changes_nothing outside (event TargetType.export EventStatus.processing) claimed refl

-- the event waits, and a second one with it
abbrev pub waiting : ForgetEvent
waiting = event TargetType.user EventStatus.pending

abbrev pub later : ForgetEvent
later = record waiting { id = 2; tombstone_key = "user:3"; target_id = some "3"; created_at = 1 }

abbrev pub two_waiting : Store
two_waiting = record (store [] waiting) { events = waiting ∷ later ∷ []; next_event = 3 }

later_is_another : (y : ForgetEvent) → In y (later ∷ []) → key y ≢ key waiting
later_is_another y i q =
    let t : y.id ≡ 2 = ap (λ z. z.id) (In-single i) in let u : y.id ≡ 1 = q in omega arith

two_unique : AreUnique key two_waiting.events
two_unique = one_more later_is_another (one_more (λ y i. elim i [ ]) none_yet)

first_taken : In waiting (list_pending 1 two_waiting)
unfolding list_pending
first_taken = here

only_first : (e : ForgetEvent) → In e (list_pending 1 two_waiting) → 2 ≢ e.id
unfolding list_pending
only_first e i q = let t : e.id ≡ 1 = ap (λ z. z.id) (In-single i) in omega arith

worker_settles_example : HasSettled 1 (run_cascade_worker_once outside 1 two_waiting).1
worker_settles_example = worker_settles outside 1 two_waiting two_unique waiting first_taken

worker_keeps_others_example :
    row 2 (run_cascade_worker_once outside 1 two_waiting).1 ≡ row 2 two_waiting
worker_keeps_others_example = worker_keeps_others outside 1 two_waiting two_unique 2 only_first

worker_counts_example :
    HasBalance outside (run_cascade_worker_once outside 1 two_waiting).0
    × ((run_cascade_worker_once outside 1 two_waiting).0.claimed ≤ 1)
worker_counts_example = worker_counts outside 1 two_waiting

abbrev pub again : NewEvent
again = record {
  target_type = TargetType.user;
  target_id = some "2";
  actor_user_id = some 2;
  authorized_by = "self";
  tombstone_key = "user:2";
  reason = none;
  policy = "forgotten";
}

abbrev pub given_up : ForgetEvent
given_up = event TargetType.user EventStatus.failed

IsKeyed-store : IsKeyed (store [] given_up)
IsKeyed-store = record {
  below = λ e i. (let t : e.id ≡ 1 = ap (λ z. z.id) (In-single i) in omega arith);
  unique = one_more (λ y i. elim i [ ]) none_yet;
  one_tombstone = λ d e i j q. ap (λ z. z.id) (In-single i) ∙ sym (ap (λ z. z.id) (In-single j));
}

run-IsKeyed_example : IsKeyed (run outside (store [] given_up) (create_event again ∷ worker 5 ∷ []))
run-IsKeyed_example =
    run-IsKeyed outside (store [] given_up) (create_event again ∷ worker 5 ∷ []) IsKeyed-store

abbrev pub given_up_run : Store
given_up_run = run outside (store [] given_up) (worker 5 ∷ rehydrate "-100" "7" [] (some "2") ∷ [])

run-IsSettled_example :
    (f : ForgetEvent) × ((create again given_up_run).0 ≡ ok f)
    × ((create again given_up_run).1.events ≡ given_up_run.events)
    × IsSettled given_up f
run-IsSettled_example =
    run-IsSettled outside (store [] given_up) (worker 5 ∷ rehydrate "-100" "7" [] (some "2") ∷ [])
      given_up again IsKeyed-store here refl refl

is_target : targets waiting message (version 11) ≡ true
unfolding targets
is_target = refl

stays_hidden_example :
    (f : ForgetEvent) × In f (run outside two_waiting (worker 5 ∷ [])).events
    × (f.id ≡ 1)
    × ((forget_excludes (run outside two_waiting (worker 5 ∷ [])).events message (version 11)
          ≡ false)
        ⊎ (f.status ≡ EventStatus.failed)
        ⊎ (f.status ≡ EventStatus.superseded))
stays_hidden_example =
    stays_hidden outside two_waiting (worker 5 ∷ []) waiting message (version 11) here refl
      is_target
