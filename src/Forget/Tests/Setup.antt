-- ===== src/Forget/Tests/Setup.antt =====
-- A small database: a user with one message of two versions, a question, its ledger row, an action that
-- waits for execution, and the event that forgets the user.
use vibeshkoder.Base.{ℕ, true, false, none, some, List, [], ◌∷◌, empty_dict, null}
use vibeshkoder.Base.Exec.{ok}
use vibeshkoder.Butler.Model.{Action, ActionStatus, Evidence, Confirmation, ConfStatus, Role}
use vibeshkoder.Butler.Runs.{init}
use vibeshkoder.Forget.Model.{
  ForgetEvent, EventStatus, TargetType, ChatMessage, MessageVersion, MemoryPolicy, QaTrace,
  LedgerRow, Tables, Store, Outside,
}

abbrev pub outside : Outside
outside = record {
  int = λ t. some 2;
  mvid_lock_id = λ n. n;
  other_layer = λ l e t. ok 0;
  other_tables = λ l e t. t.derived;
}

abbrev pub message : ChatMessage
message = record {
  id = 5;
  user_id = some 2;
  text = some "secret";
  caption = none;
  raw_json = some empty_dict;
  current_version_id = some 12;
  memory_policy = MemoryPolicy.normal;
  is_redacted = false;
}

abbrev pub version : ℕ → MessageVersion
version n = record {
  id = n;
  chat_message_id = 5;
  text = some "secret";
  caption = none;
  normalized_text = some "secret";
  entities_json = none;
  content_hash = "h";
  is_redacted = false;
}

abbrev pub question : QaTrace
question = record {
  id = 3;
  source_chat_message_id = none;
  user_tg_id = 2;
  query_redacted = false;
  query_text = some "who";
  evidence_ids = 12 ∷ [];
  llm_response_summary = some "answer";
  llm_response_redacted = false;
}

abbrev pub ledger_row : LedgerRow
ledger_row = record {
  id = 4;
  qa_trace_id = some 3;
  prompt_hash = some "p";
  response_hash = some "r";
  tokens_in = 1;
  tokens_out = 1;
  cost_usd = 1;
}

abbrev pub action : Action
action = record {
  id = 1;
  requester_tg_id = 2;
  chat_id = 9;
  action_type = "meeting";
  status = ActionStatus.confirmed;
  tool_name = "schedule_meeting";
  tool_manifest_version = "v1.0.0";
  governance_filter_version = "g1";
  evidence_context_hash = "h";
  evidence_ids = Evidence.ids (12 ∷ []);
  plan_summary = "meet";
  action_args = empty_dict;
  action_args_hash = "";
  rollback_kind = "not_reversible";
  risk_level = "low";
  requires_confirmation = true;
  confirmation_policy = "per_action";
  expires_at = none;
  llm_usage_ledger_id = some 4;
  query = none;
  visibility_scope = none;
  plan_payload = none;
  rejection_reason = none;
  error_code = none;
  result_payload = none;
  inverse_op_payload = none;
  confirmed_at = none;
  executed_at = none;
  undone_at = none;
}

abbrev pub confirmation : Confirmation
confirmation = record {
  id = 1;
  action_id = 1;
  confirmer_tg_id = 2;
  confirmation_role = Role.requester;
  status = ConfStatus.pending;
  preview_payload_hash = "hash";
  expires_at = 9;
  confirmation_token = "t";
  confirmed_at = none;
  rejected_at = none;
}

abbrev pub tables : List ℕ → Tables
tables locked = record {
  messages = message ∷ [];
  versions = version 11 ∷ version 12 ∷ [];
  traces = question ∷ [];
  cache = record { id = 1; answer_text = "answer"; citation_ids = 12 ∷ [] } ∷ [];
  ledger = ledger_row ∷ [];
  units = record { id = 1; chunk_text = some "secret"; llm_usage_ledger_id = 4 } ∷ [];
  unit_sources = record { unit_id = 1; message_version_id = 12 } ∷ [];
  attempts = [];
  retrieval_traces = [];
  derived = record { card_sources = []; rest = null };
  butler = record init {
    locked = locked;
    actions = action ∷ [];
    next_action = 2;
    confirmations = confirmation ∷ [];
    next_confirmation = 2;
  };
}

abbrev pub event : TargetType → EventStatus → ForgetEvent
event type status = record {
  id = 1;
  target_type = type;
  target_id = some "2";
  actor_user_id = some 2;
  authorized_by = "self";
  tombstone_key = "user:2";
  reason = none;
  policy = "forgotten";
  status = status;
  cascade_status = none;
  created_at = 0;
}

abbrev pub store : List ℕ → ForgetEvent → Store
store locked e = record {
  now = 1;
  events = e ∷ [];
  next_event = 2;
  tables = tables locked;
  held = [];
}
