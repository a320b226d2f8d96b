-- ===== src/Quota/Model.antt =====
-- The row of bot/db/models.py that the quota keeps, and the Moscow day of bot/services/qa_guardrails.py.
-- Times are microseconds of UTC, and a day is the number of the day in Moscow, which is UTC+3.
use vibeshkoder.Base.{
  ℕ, ◌+◌, ◌-◌, ◌*◌, ◌/◌, String, Bool, true, false, not, ◌&&◌, ◌||◌, Option, some, List, is_some,
}
use vibeshkoder.Base.Exec.{Exec}

-- ck_semantic_attempts_status
pub data AttemptStatus : Type 0 where
  denied reserved consumed released : AttemptStatus

-- ck_semantic_attempts_outcome
pub data Outcome : Type 0 where
  answered abstained technical_failure quota_denied : Outcome

-- SemanticQaAttempt
pub record Attempt : Type 0 where
  pub id : ℕ
  pub idempotency_key : String
  pub user_tg_id : ℕ
  pub chat_id : ℕ
  pub source_chat_message_id : Option ℕ
  pub local_day : ℕ
  pub slot_number : Option ℕ
  pub status : AttemptStatus
  pub outcome : Option Outcome
  pub qa_trace_id : Option ℕ
  pub embedding_llm_call_id : Option ℕ
  pub synthesis_llm_call_id : Option ℕ
  pub progress_at : ℕ
  pub delivery_started_at : Option ℕ
  pub finalized_at : Option ℕ

-- the columns of SemanticRetrievalTrace that `finalize` reads and writes
pub record Trace : Type 0 where
  pub attempt_id : ℕ
  pub qa_trace_id : Option ℕ

pub record Store : Type 0 where
  pub now : ℕ
  pub attempts : List Attempt
  pub next_attempt : ℕ
  pub traces : List Trace

-- ValueError, LookupError and a CHECK constraint of the database
pub data QuotaError : Type 0 where
  value_error lookup_error integrity_error : QuotaError

abbrev pub Method : Type 0 → Type 0
Method A = Exec QuotaError Store A

abbrev pub day_us : ℕ
day_us = 86_400_000_000

abbrev pub moscow_offset : ℕ
moscow_offset = 10_800_000_000

-- the date in Moscow of an instant
abbrev pub local_day_of : ℕ → ℕ
local_day_of t = (t + moscow_offset) / day_us

-- the end of `moscow_day_bounds_utc`
abbrev pub day_end : ℕ → ℕ
day_end t = (local_day_of t + 1) * day_us - moscow_offset

-- status IN ('reserved', 'consumed')
abbrev pub is_active : AttemptStatus → Bool
is_active AttemptStatus.reserved = true
is_active AttemptStatus.consumed = true
is_active _ = false

abbrev pub is_reserved : AttemptStatus → Bool
is_reserved AttemptStatus.reserved = true
is_reserved _ = false

-- outcome IN ('answered', 'abstained')
abbrev pub is_delivery : Option Outcome → Bool
is_delivery (some Outcome.answered) = true
is_delivery (some Outcome.abstained) = true
is_delivery _ = false

abbrev pub is_technical : Option Outcome → Bool
is_technical (some Outcome.technical_failure) = true
is_technical _ = false

abbrev pub is_quota_denied : Option Outcome → Bool
is_quota_denied (some Outcome.quota_denied) = true
is_quota_denied _ = false

-- ck_semantic_attempts_state, by the status
abbrev pub state_check : AttemptStatus → Attempt → Bool
state_check AttemptStatus.denied a =
    not (is_some a.slot_number)
    && (is_quota_denied a.outcome && not (is_some a.delivery_started_at))
state_check AttemptStatus.reserved a =
    is_some a.slot_number
    && (not (is_some a.finalized_at)
        && (not (is_some a.outcome) && not (is_some a.delivery_started_at)
            || is_delivery a.outcome && is_some a.delivery_started_at))
state_check AttemptStatus.consumed a =
    is_some a.slot_number
    && (is_delivery a.outcome && (is_some a.delivery_started_at && is_some a.finalized_at))
state_check AttemptStatus.released a =
    is_some a.slot_number && (is_technical a.outcome && is_some a.finalized_at)

unfoldable pub meets_checks : Attempt → Bool
meets_checks a = state_check a.status a
