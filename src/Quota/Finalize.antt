-- ===== src/Quota/Finalize.antt =====
-- `SemanticQuotaRepo.finalize` of bot/db/repos/semantic_quota.py.
use vibeshkoder.Base.{
  ℕ, ◌==◌, Bool, true, false, ◌&&◌, Option, none, some, find, update_where, if◌then◌else◌,
}
use vibeshkoder.Base.Exec.{guard, gets, pure, raise, modify, ◌>>=◌, ◌>>◌}
use vibeshkoder.Quota.Model.{AttemptStatus, Outcome, Attempt, QuotaError, Method}
use vibeshkoder.Quota.Attempts.{update_attempts, has_id, is_live}

-- "released" if outcome == "technical_failure" else "consumed"
abbrev pub final_status : Outcome → AttemptStatus
final_status Outcome.technical_failure = AttemptStatus.released
final_status _ = AttemptStatus.consumed

abbrev pub is_supported : Outcome → Bool
is_supported Outcome.quota_denied = false
is_supported _ = true

abbrev pub same_status : AttemptStatus → AttemptStatus → Bool
same_status AttemptStatus.denied AttemptStatus.denied = true
same_status AttemptStatus.reserved AttemptStatus.reserved = true
same_status AttemptStatus.consumed AttemptStatus.consumed = true
same_status AttemptStatus.released AttemptStatus.released = true
same_status _ _ = false

abbrev pub same_outcome : Option Outcome → Outcome → Bool
same_outcome (some Outcome.answered) Outcome.answered = true
same_outcome (some Outcome.abstained) Outcome.abstained = true
same_outcome (some Outcome.technical_failure) Outcome.technical_failure = true
same_outcome (some Outcome.quota_denied) Outcome.quota_denied = true
same_outcome _ _ = false

-- the keyword arguments of `finalize`
pub record Final : Type 0 where
  pub outcome : Outcome
  pub qa_trace_id : Option ℕ
  pub embedding_llm_call_id : Option ℕ
  pub synthesis_llm_call_id : Option ℕ

abbrev pub finalized : ℕ → Final → Attempt → Attempt
finalized now v a = record a {
  status = final_status v.outcome;
  outcome = some v.outcome;
  qa_trace_id = v.qa_trace_id;
  embedding_llm_call_id = v.embedding_llm_call_id;
  synthesis_llm_call_id = v.synthesis_llm_call_id;
  progress_at = now;
  finalized_at = some now;
}

abbrev pub is_same_final : Final → Attempt → Bool
is_same_final v a =
    same_status a.status (final_status v.outcome) && same_outcome a.outcome v.outcome

-- where no reservation was hit: the row of the attempt, if there is one, must say the same
unfoldable pub settle_again : Final → Option Attempt → Method (Unit {0})
settle_again v none = raise QuotaError.lookup_error
settle_again v (some a) = guard (is_same_final v a) QuotaError.lookup_error

-- the trace of the retrieval gets the trace of the answer
unfoldable pub link_trace : ℕ → Option ℕ → Method (Unit {0})
link_trace id none = pure tt
link_trace id (some trace) = modify (λ w. record w {
  traces =
      update_where (λ t. t.attempt_id == id) (λ t. record t { qa_trace_id = some trace }) w.traces;
})

unfoldable pub close : ℕ → Final → ℕ → Option Attempt → Method (Unit {0})
close id v rows existing =
    if rows == 1 then link_trace id v.qa_trace_id else settle_again v existing

unfoldable pub finalize : ℕ → Final → Method (Unit {0})
finalize id v = do
  guard (is_supported v.outcome) QuotaError.value_error
  now ← gets (λ w. w.now)
  rows ← update_attempts (is_live id) (finalized now v)
  existing ← gets (λ w. find (has_id id) w.attempts)
  close id v rows existing
