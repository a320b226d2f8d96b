-- ===== src/Forget/Erasure/Swept.antt =====
-- The tables after any number of layers: each row is what it was, or less of it.
use vibeshkoder.Base.{
  In, ◌≡◌, refl, ◌∙◌, true, false, none, Pointwise, pointwise_refl, pointwise_trans,
}
use vibeshkoder.Butler.Model.{Action, Confirmation, is_pending_conf}
use vibeshkoder.Forget.Model.{
  ChatMessage, MessageVersion, MemoryPolicy, QaTrace, LedgerRow, RetrievalTrace, Tables,
}
use vibeshkoder.Forget.Layers.Butler.{is_in_progress}

pub record IsErasedMessage (m : ChatMessage) : Type 0 where
  pub text : m.text ≡ none
  pub caption : m.caption ≡ none
  pub raw_json : m.raw_json ≡ none
  pub is_redacted : m.is_redacted ≡ true
  pub memory_policy : m.memory_policy ≡ MemoryPolicy.forgotten

pub record IsErasedVersion (v : MessageVersion) : Type 0 where
  pub text : v.text ≡ none
  pub caption : v.caption ≡ none
  pub normalized_text : v.normalized_text ≡ none
  pub entities_json : v.entities_json ≡ none
  pub is_redacted : v.is_redacted ≡ true

abbrev pub IsErasedSummary : QaTrace → Type 0
IsErasedSummary q = q.llm_response_summary ≡ none

abbrev pub IsErasedQuery : QaTrace → Type 0
IsErasedQuery q = q.query_text ≡ none

abbrev pub AreErasedHashes : LedgerRow → Type 0
AreErasedHashes l = (l.prompt_hash ≡ none) × (l.response_hash ≡ none)

pub record MessageStep (m n : ChatMessage) : Type 0 where
  pub id : n.id ≡ m.id
  pub user_id : n.user_id ≡ m.user_id
  pub erased : IsErasedMessage m → IsErasedMessage n

pub record VersionStep (v u : MessageVersion) : Type 0 where
  pub chat_message_id : u.chat_message_id ≡ v.chat_message_id
  pub erased : IsErasedVersion v → IsErasedVersion u

pub record TraceStep (q r : QaTrace) : Type 0 where
  pub id : r.id ≡ q.id
  pub user_tg_id : r.user_tg_id ≡ q.user_tg_id
  pub summary : IsErasedSummary q → IsErasedSummary r
  pub flagged : q.query_redacted ≡ true → r.query_redacted ≡ true
  pub query : IsErasedQuery q → IsErasedQuery r

pub record LedgerStep (l k : LedgerRow) : Type 0 where
  pub qa_trace_id : k.qa_trace_id ≡ l.qa_trace_id
  pub erased : AreErasedHashes l → AreErasedHashes k

pub record ActionStep (a b : Action) : Type 0 where
  pub id : b.id ≡ a.id
  pub requester : b.requester_tg_id ≡ a.requester_tg_id
  pub stopped : is_in_progress a.status ≡ false → is_in_progress b.status ≡ false

pub record ConfirmationStep (c d : Confirmation) : Type 0 where
  pub action_id : d.action_id ≡ c.action_id
  pub answered : is_pending_conf c.status ≡ false → is_pending_conf d.status ≡ false

pub record IsSwept (t u : Tables) : Type 0 where
  pub messages : Pointwise MessageStep t.messages u.messages
  pub versions : Pointwise VersionStep t.versions u.versions
  pub traces : Pointwise TraceStep t.traces u.traces
  pub ledger : Pointwise LedgerStep t.ledger u.ledger
  pub actions : Pointwise ActionStep t.butler.actions u.butler.actions
  pub confirmations : Pointwise ConfirmationStep t.butler.confirmations u.butler.confirmations
  pub locked : u.butler.locked ≡ t.butler.locked
  pub retrieval : (r : RetrievalTrace) → In r u.retrieval_traces → In r t.retrieval_traces
  pub attempts : u.attempts ≡ t.attempts

pub message_refl : (m : ChatMessage) → MessageStep m m
message_refl m = record { id = refl; user_id = refl; erased = λ h. h }

pub version_refl : (v : MessageVersion) → VersionStep v v
version_refl v = record { chat_message_id = refl; erased = λ h. h }

pub trace_refl : (q : QaTrace) → TraceStep q q
trace_refl q = record {
  id = refl;
  user_tg_id = refl;
  summary = λ h. h;
  flagged = λ h. h;
  query = λ h. h;
}

pub ledger_refl : (l : LedgerRow) → LedgerStep l l
ledger_refl l = record { qa_trace_id = refl; erased = λ h. h }

pub action_refl : (a : Action) → ActionStep a a
action_refl a = record { id = refl; requester = refl; stopped = λ h. h }

pub confirmation_refl : (c : Confirmation) → ConfirmationStep c c
confirmation_refl c = record { action_id = refl; answered = λ h. h }

pub same_messages : (t : Tables) → Pointwise MessageStep t.messages t.messages
same_messages t = pointwise_refl MessageStep message_refl t.messages

pub same_versions : (t : Tables) → Pointwise VersionStep t.versions t.versions
same_versions t = pointwise_refl VersionStep version_refl t.versions

pub same_traces : (t : Tables) → Pointwise TraceStep t.traces t.traces
same_traces t = pointwise_refl TraceStep trace_refl t.traces

pub same_ledger : (t : Tables) → Pointwise LedgerStep t.ledger t.ledger
same_ledger t = pointwise_refl LedgerStep ledger_refl t.ledger

pub same_actions : (t : Tables) → Pointwise ActionStep t.butler.actions t.butler.actions
same_actions t = pointwise_refl ActionStep action_refl t.butler.actions

pub same_confirmations :
    (t : Tables) → Pointwise ConfirmationStep t.butler.confirmations t.butler.confirmations
same_confirmations t = pointwise_refl ConfirmationStep confirmation_refl t.butler.confirmations

pub IsSwept-refl : (t : Tables) → IsSwept t t
IsSwept-refl t = record {
  messages = same_messages t;
  versions = same_versions t;
  traces = same_traces t;
  ledger = same_ledger t;
  actions = same_actions t;
  confirmations = same_confirmations t;
  locked = refl;
  retrieval = λ r i. i;
  attempts = refl;
}

pub IsSwept-trans : {s t u : Tables} → IsSwept s t → IsSwept t u → IsSwept s u
IsSwept-trans h k = record {
  messages =
      pointwise_trans MessageStep
        (λ x y z a b. record {
          id = b.id ∙ a.id;
          user_id = b.user_id ∙ a.user_id;
          erased = λ e. b.erased (a.erased e);
        })
        h.messages k.messages;
  versions =
      pointwise_trans VersionStep
        (λ x y z a b. record {
          chat_message_id = b.chat_message_id ∙ a.chat_message_id;
          erased = λ e. b.erased (a.erased e);
        })
        h.versions k.versions;
  traces =
      pointwise_trans TraceStep
        (λ x y z a b. record {
          id = b.id ∙ a.id;
          user_tg_id = b.user_tg_id ∙ a.user_tg_id;
          summary = λ e. b.summary (a.summary e);
          flagged = λ e. b.flagged (a.flagged e);
          query = λ e. b.query (a.query e);
        })
        h.traces k.traces;
  ledger =
      pointwise_trans LedgerStep
        (λ x y z a b. record {
          qa_trace_id = b.qa_trace_id ∙ a.qa_trace_id;
          erased = λ e. b.erased (a.erased e);
        })
        h.ledger k.ledger;
  actions =
      pointwise_trans ActionStep
        (λ x y z a b. record {
          id = b.id ∙ a.id;
          requester = b.requester ∙ a.requester;
          stopped = λ e. b.stopped (a.stopped e);
        })
        h.actions k.actions;
  confirmations =
      pointwise_trans ConfirmationStep
        (λ x y z a b. record {
          action_id = b.action_id ∙ a.action_id;
          answered = λ e. b.answered (a.answered e);
        })
        h.confirmations k.confirmations;
  locked = k.locked ∙ h.locked;
  retrieval = λ r i. h.retrieval r (k.retrieval r i);
  attempts = k.attempts ∙ h.attempts;
}
