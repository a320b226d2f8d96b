-- ===== src/Forget/Erasure/Statements.antt =====
-- Each statement of the layers as a step of the tables.
use vibeshkoder.Base.{In-filter-In, not, ℕ, refl, Bool, List, pointwise_update}
use vibeshkoder.Butler.Model.{Action, Confirmation}
use vibeshkoder.Forget.Model.{
  ChatMessage, MessageVersion, QaTrace, LedgerRow, RetrievalTrace, Tables, Sweep,
}
use vibeshkoder.Forget.Layers.Messages.{
  redact_messages, redact_versions, redact_message, redact_version,
}
use vibeshkoder.Forget.Layers.Questions.{
  redact_query, redact_summary, redact_hashes, update_traces, update_ledger, invalidate_by_citation,
}
use vibeshkoder.Forget.Layers.Semantic.{redact_trace, delete_retrieval_traces, delete_units}
use vibeshkoder.Forget.Layers.Butler.{
  update_confirmations, update_actions, sweep_invocations, sweep_undo_rows,
}
use vibeshkoder.Forget.Erasure.Swept.{
  same_messages, same_versions, same_traces, same_ledger, same_actions, same_confirmations, IsSwept,
  TraceStep, MessageStep, VersionStep, LedgerStep, ActionStep, ConfirmationStep, message_refl,
  version_refl, trace_refl, ledger_refl, action_refl, confirmation_refl,
}

-- the layer, or a part of it, erases and brings nothing back
abbrev pub Sweeps : {A : Type 0} → Sweep A → Type 0
Sweeps m = (t : Tables) → IsSwept t (m t).1

pub redact_messages-Sweeps : (p : ChatMessage → Bool) → Sweeps (redact_messages p)
unfolding redact_messages
redact_messages-Sweeps p t = record {
  messages =
      pointwise_update MessageStep p redact_message message_refl
        (λ m. record {
          id = refl;
          user_id = refl;
          erased = λ h. record {
            text = refl;
            caption = refl;
            raw_json = refl;
            is_redacted = refl;
            memory_policy = refl;
          };
        })
        t.messages;
  versions = same_versions t;
  traces = same_traces t;
  ledger = same_ledger t;
  actions = same_actions t;
  confirmations = same_confirmations t;
  locked = refl;
  retrieval = λ r i. i;
  attempts = refl;
}

pub redact_versions-Sweeps : (p : MessageVersion → Bool) → Sweeps (redact_versions p)
unfolding redact_versions
redact_versions-Sweeps p t = record {
  messages = same_messages t;
  versions =
      pointwise_update VersionStep p redact_version version_refl
        (λ v. record {
          chat_message_id = refl;
          erased = λ h. record {
            text = refl;
            caption = refl;
            normalized_text = refl;
            entities_json = refl;
            is_redacted = refl;
          };
        })
        t.versions;
  traces = same_traces t;
  ledger = same_ledger t;
  actions = same_actions t;
  confirmations = same_confirmations t;
  locked = refl;
  retrieval = λ r i. i;
  attempts = refl;
}

pub update_traces-Sweeps :
    (p : QaTrace → Bool) (f : QaTrace → QaTrace)
    → ((q : QaTrace) → TraceStep q (f q))
    → Sweeps (update_traces p f)
unfolding update_traces
update_traces-Sweeps p f s t = record {
  messages = same_messages t;
  versions = same_versions t;
  traces = pointwise_update TraceStep p f trace_refl s t.traces;
  ledger = same_ledger t;
  actions = same_actions t;
  confirmations = same_confirmations t;
  locked = refl;
  retrieval = λ r i. i;
  attempts = refl;
}

pub redact_query-step : (q : QaTrace) → TraceStep q (redact_query q)
redact_query-step q = record {
  id = refl;
  user_tg_id = refl;
  summary = λ h. h;
  flagged = λ h. refl;
  query = λ h. refl;
}

pub redact_summary-step : (q : QaTrace) → TraceStep q (redact_summary q)
redact_summary-step q = record {
  id = refl;
  user_tg_id = refl;
  summary = λ h. refl;
  flagged = λ h. h;
  query = λ h. h;
}

pub redact_trace-step : (q : QaTrace) → TraceStep q (redact_trace q)
redact_trace-step q = record {
  id = refl;
  user_tg_id = refl;
  summary = λ h. refl;
  flagged = λ h. refl;
  query = λ h. refl;
}

pub update_ledger-Sweeps : (p : LedgerRow → Bool) → Sweeps (update_ledger p)
unfolding update_ledger
update_ledger-Sweeps p t = record {
  messages = same_messages t;
  versions = same_versions t;
  traces = same_traces t;
  ledger =
      pointwise_update LedgerStep p redact_hashes ledger_refl
        (λ l. record { qa_trace_id = refl; erased = λ h. (refl, refl) }) t.ledger;
  actions = same_actions t;
  confirmations = same_confirmations t;
  locked = refl;
  retrieval = λ r i. i;
  attempts = refl;
}

pub delete_retrieval_traces-Sweeps :
    (p : RetrievalTrace → Bool) → Sweeps (delete_retrieval_traces p)
unfolding delete_retrieval_traces
delete_retrieval_traces-Sweeps p t = record {
  messages = same_messages t;
  versions = same_versions t;
  traces = same_traces t;
  ledger = same_ledger t;
  actions = same_actions t;
  confirmations = same_confirmations t;
  locked = refl;
  retrieval = λ r i. In-filter-In (λ x. not (p x)) t.retrieval_traces i;
  attempts = refl;
}

pub delete_units-Sweeps : (ids : List ℕ) → Sweeps (delete_units ids)
unfolding delete_units
delete_units-Sweeps ids t = record {
  messages = same_messages t;
  versions = same_versions t;
  traces = same_traces t;
  ledger = same_ledger t;
  actions = same_actions t;
  confirmations = same_confirmations t;
  locked = refl;
  retrieval = λ r i. i;
  attempts = refl;
}

pub invalidate_by_citation-Sweeps : (v : ℕ) → Sweeps (invalidate_by_citation v)
unfolding invalidate_by_citation
invalidate_by_citation-Sweeps v t = record {
  messages = same_messages t;
  versions = same_versions t;
  traces = same_traces t;
  ledger = same_ledger t;
  actions = same_actions t;
  confirmations = same_confirmations t;
  locked = refl;
  retrieval = λ r i. i;
  attempts = refl;
}

pub sweep_invocations-Sweeps : (n : ℕ) (ids : List ℕ) → Sweeps (sweep_invocations n ids)
unfolding sweep_invocations
sweep_invocations-Sweeps n ids t = record {
  messages = same_messages t;
  versions = same_versions t;
  traces = same_traces t;
  ledger = same_ledger t;
  actions = same_actions t;
  confirmations = same_confirmations t;
  locked = refl;
  retrieval = λ r i. i;
  attempts = refl;
}

pub sweep_undo_rows-Sweeps : (n : ℕ) (ids : List ℕ) → Sweeps (sweep_undo_rows n ids)
unfolding sweep_undo_rows
sweep_undo_rows-Sweeps n ids t = record {
  messages = same_messages t;
  versions = same_versions t;
  traces = same_traces t;
  ledger = same_ledger t;
  actions = same_actions t;
  confirmations = same_confirmations t;
  locked = refl;
  retrieval = λ r i. i;
  attempts = refl;
}

pub update_confirmations-Sweeps :
    (p : Confirmation → Bool) (f : Confirmation → Confirmation)
    → ((c : Confirmation) → ConfirmationStep c (f c))
    → Sweeps (update_confirmations p f)
unfolding update_confirmations
update_confirmations-Sweeps p f s t = record {
  messages = same_messages t;
  versions = same_versions t;
  traces = same_traces t;
  ledger = same_ledger t;
  actions = same_actions t;
  confirmations = pointwise_update ConfirmationStep p f confirmation_refl s t.butler.confirmations;
  locked = refl;
  retrieval = λ r i. i;
  attempts = refl;
}

pub update_actions-Sweeps :
    (p : Action → Bool) (f : Action → Action)
    → ((a : Action) → ActionStep a (f a))
    → Sweeps (update_actions p f)
unfolding update_actions
update_actions-Sweeps p f s t = record {
  messages = same_messages t;
  versions = same_versions t;
  traces = same_traces t;
  ledger = same_ledger t;
  actions = pointwise_update ActionStep p f action_refl s t.butler.actions;
  confirmations = same_confirmations t;
  locked = refl;
  retrieval = λ r i. i;
  attempts = refl;
}
