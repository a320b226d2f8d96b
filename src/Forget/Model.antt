-- ===== src/Forget/Model.antt =====
-- The rows of bot/db/models.py that forgetting reads and writes, and the errors that it raises.
use vibeshkoder.Base.{ℕ, String, Bool, false, Option, List, Json, ◌==◌}
use vibeshkoder.Base.Exec.{Exec, Result}
use vibeshkoder.Butler.Model.{World}

-- ck_forget_events_status
pub data EventStatus : Type 0 where
  pending processing completed failed superseded : EventStatus

-- ck_forget_events_target_type
pub data TargetType : Type 0 where
  message message_hash user export : TargetType

-- the names in CASCADE_LAYER_ORDER
pub data Layer : Type 0 where
  chat_messages semantic_retrieval message_versions qa_traces : Layer
  llm_synthesis_cache qa_traces_llm llm_usage_ledger digests : Layer
  wiki_pages wiki_revisions card_sources message_entities : Layer
  message_links attachments fts_rows graph_nodes : Layer
  butler_action_confirmations butler_tool_invocations butler_undo_invocations butler_actions : Layer

-- `ValueError` with its occasion, LockNotAvailable, and what a layer that is not modelled raises
pub data CascadeError : Type 0 where
  unknown_status not_found invalid_transition not_processing : CascadeError
  no_target not_an_integer unsupported_target : CascadeError
  lock_not_available : CascadeError
  layer_failed : String → CascadeError

-- What `cascade_status` holds under a layer: `completed` with its row count, `completed` as not
-- applicable, `skipped` as target_type_not_supported_yet (with `"rows": 0` or without), `skipped` as
-- table_not_exists.
pub data Mark : Type 0 where
  completed : ℕ → Mark
  not_applicable : Mark
  unsupported : Bool → Mark
  table_not_exists : Mark

-- one entry of the dict
pub record Progress : Type 0 where
  pub layer : Layer
  pub mark : Mark

-- `cascade_status`: the entries of the layers and the one under "error"
pub record CascadeStatus : Type 0 where
  pub layers : List Progress
  pub error : Option CascadeError

-- ForgetEvent
pub record ForgetEvent : Type 0 where
  pub id : ℕ
  pub target_type : TargetType
  pub target_id : Option String
  pub actor_user_id : Option ℕ
  pub authorized_by : String
  pub tombstone_key : String
  pub reason : Option String
  pub policy : String
  pub status : EventStatus
  pub cascade_status : Option CascadeStatus
  pub created_at : ℕ

-- ck_chat_messages_memory_policy
pub data MemoryPolicy : Type 0 where
  normal nomem offrecord forgotten : MemoryPolicy

-- ChatMessage
pub record ChatMessage : Type 0 where
  pub id : ℕ
  pub user_id : Option ℕ
  pub text : Option String
  pub caption : Option String
  pub raw_json : Option Json
  pub current_version_id : Option ℕ
  pub memory_policy : MemoryPolicy
  pub is_redacted : Bool

-- MessageVersion
pub record MessageVersion : Type 0 where
  pub id : ℕ
  pub chat_message_id : ℕ
  pub text : Option String
  pub caption : Option String
  pub normalized_text : Option String
  pub entities_json : Option Json
  pub content_hash : String
  pub is_redacted : Bool

-- QaTrace
pub record QaTrace : Type 0 where
  pub id : ℕ
  pub source_chat_message_id : Option ℕ
  pub user_tg_id : ℕ
  pub query_redacted : Bool
  pub query_text : Option String
  pub evidence_ids : List ℕ
  pub llm_response_summary : Option String
  pub llm_response_redacted : Bool

-- LlmSynthesisCache
pub record CacheRow : Type 0 where
  pub id : ℕ
  pub answer_text : String
  pub citation_ids : List ℕ

-- LlmUsageLedger
pub record LedgerRow : Type 0 where
  pub id : ℕ
  pub qa_trace_id : Option ℕ
  pub prompt_hash : Option String
  pub response_hash : Option String
  pub tokens_in : ℕ
  pub tokens_out : ℕ
  pub cost_usd : ℕ

-- SemanticRetrievalUnit
pub record RetrievalUnit : Type 0 where
  pub id : ℕ
  pub chunk_text : Option String
  pub llm_usage_ledger_id : ℕ

-- SemanticRetrievalUnitSource
pub record UnitSource : Type 0 where
  pub unit_id : ℕ
  pub message_version_id : ℕ

-- SemanticQaAttempt
pub record Attempt : Type 0 where
  pub id : ℕ
  pub user_tg_id : ℕ
  pub source_chat_message_id : Option ℕ
  pub qa_trace_id : Option ℕ
  pub embedding_llm_call_id : Option ℕ
  pub synthesis_llm_call_id : Option ℕ

-- SemanticRetrievalTrace; of `candidate_ranks` the keys
pub record RetrievalTrace : Type 0 where
  pub id : ℕ
  pub attempt_id : ℕ
  pub candidate_keys : List String
  pub result_source_ids : List String

-- CardSource
pub record CardSource : Type 0 where
  pub card_id : String
  pub message_version_id : ℕ

-- The tables that the layers without a model write: card_sources, and the others as one value.
pub record Derived : Type 0 where
  pub card_sources : List CardSource
  pub rest : Json

-- the tables that the layers read and write
pub record Tables : Type 0 where
  pub messages : List ChatMessage
  pub versions : List MessageVersion
  pub traces : List QaTrace
  pub cache : List CacheRow
  pub ledger : List LedgerRow
  pub units : List RetrievalUnit
  pub unit_sources : List UnitSource
  pub attempts : List Attempt
  pub retrieval_traces : List RetrievalTrace
  pub derived : Derived
  pub butler : World

-- the keys of pg_advisory_xact_lock
pub data LockKey : Type 0 where
  event_lock : ℕ → LockKey
  mvid_lock : ℕ → LockKey
  target_lock : TargetType → String → LockKey

-- The database: forget_events, the other tables, and the advisory locks that the transaction holds in
-- the order in which it took them, the latest first.
pub record Store : Type 0 where
  pub now : ℕ
  pub events : List ForgetEvent
  pub next_event : ℕ
  pub tables : Tables
  pub held : List LockKey

abbrev pub Method : Type 0 → Type 0
Method A = Exec CascadeError Store A

-- a layer works on the tables and returns a row count
abbrev pub Sweep : Type 0 → Type 0
Sweep A = Exec CascadeError Tables A

-- What is not part of this model: Python's reading of an integer, the integer that the hash of a
-- message version's lock key is, and the layers on digests, wiki pages, cards and the graph.
pub record Outside : Type 0 where
  pub int : String → Option ℕ
  pub mvid_lock_id : ℕ → ℕ
  pub other_layer : Layer → ForgetEvent → Tables → Result CascadeError ℕ
  pub other_tables : Layer → ForgetEvent → Tables → Derived

-- column == n, which NULL does not satisfy
abbrev pub is_id : ℕ → Option ℕ → Bool
is_id n Option.none = false
is_id n (Option.some m) = m == n
