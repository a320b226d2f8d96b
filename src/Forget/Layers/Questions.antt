-- ===== src/Forget/Layers/Questions.antt =====
-- `_cascade_qa_traces`, `_cascade_llm_synthesis_cache` with `SynthesisCacheRepo.invalidate_by_citation`
-- (bot/db/repos/llm_synthesis_cache.py), `_cascade_qa_traces_llm` and `_cascade_llm_usage_ledger`.
use vibeshkoder.Base.{
  ℕ, ◌+◌, String, Bool, true, not, ◌&&◌, ◌==◌, none, List, [], ◌∷◌, any, contains, count_where,
  delete_where, update_where,
}
use vibeshkoder.Base.Exec.{ok, pure, raise, gets, ◌>>=◌}
use vibeshkoder.Forget.Model.{
  ForgetEvent, TargetType, CascadeError, QaTrace, CacheRow, LedgerRow, Sweep, Outside, is_id,
}
use vibeshkoder.Forget.Targets.{the_target, int_target, semantic_affected_mvids}

abbrev pub redact_query : QaTrace → QaTrace
redact_query q = record q { query_text = none; query_redacted = true }

abbrev pub redact_summary : QaTrace → QaTrace
redact_summary q = record q { llm_response_summary = none; llm_response_redacted = true }

abbrev pub redact_hashes : LedgerRow → LedgerRow
redact_hashes l = record l { prompt_hash = none; response_hash = none }

unfoldable pub update_traces : (QaTrace → Bool) → (QaTrace → QaTrace) → Sweep ℕ
update_traces p f w = (ok (count_where p w.traces), record w { traces = update_where p f w.traces })

unfoldable pub update_ledger : (LedgerRow → Bool) → Sweep ℕ
update_ledger p w =
    (ok (count_where p w.ledger), record w { ledger = update_where p redact_hashes w.ledger })

-- citation_ids @> [mvid]
abbrev pub cites : ℕ → CacheRow → Bool
cites mvid c = contains mvid c.citation_ids

-- evidence_ids @> [mvid]
abbrev pub trace_cites : ℕ → QaTrace → Bool
trace_cites mvid q = contains mvid q.evidence_ids

-- QaTrace.user_tg_id == n
abbrev pub asked_by : ℕ → QaTrace → Bool
asked_by n q = q.user_tg_id == n

unfoldable pub invalidate_by_citation : ℕ → Sweep ℕ
invalidate_by_citation mvid w =
    (ok (count_where (cites mvid) w.cache), record w { cache = delete_where (cites mvid) w.cache })

-- the loop `for vid in version_ids: total += …`
unfoldable pub for_each : (ℕ → Sweep ℕ) → List ℕ → ℕ → Sweep ℕ
for_each f [] total = pure total
for_each f (v ∷ l) total = do rows ← f v; for_each f l (total + rows)

-- qa_trace_id IN (SELECT id … WHERE user_tg_id = n)
abbrev pub call_of : ℕ → List QaTrace → LedgerRow → Bool
call_of n traces l = any (λ q. asked_by n q && is_id q.id l.qa_trace_id) traces

-- the layer's own check of the type
abbrev pub only_user : TargetType → Sweep String → Sweep String
only_user TargetType.user rest = rest
only_user _ rest = raise CascadeError.unsupported_target

module _ (out : Outside) where
  unfoldable pub cascade_qa_traces : ForgetEvent → Sweep ℕ
  cascade_qa_traces e = do
    t ← the_target e.target_id
    n ← int_target out t
    update_traces (λ q. asked_by n q && not q.query_redacted) redact_query

  unfoldable pub cascade_llm_synthesis_cache : ForgetEvent → Sweep ℕ
  cascade_llm_synthesis_cache e = do
    mvids ← semantic_affected_mvids out e
    for_each invalidate_by_citation mvids 0

  -- the part for the user's own traces
  abbrev pub own_summaries : TargetType → String → ℕ → Sweep ℕ
  own_summaries TargetType.user t total = do
    n ← int_target out t
    rows ← update_traces (asked_by n) redact_summary
    pure (total + rows)
  own_summaries _ t total = pure total

  unfoldable pub cascade_qa_traces_llm : ForgetEvent → Sweep ℕ
  cascade_qa_traces_llm e = do
    t ← the_target e.target_id
    mvids ← semantic_affected_mvids out e
    total ← for_each (λ v. update_traces (trace_cites v) redact_summary) mvids 0
    own_summaries e.target_type t total

  unfoldable pub cascade_llm_usage_ledger : ForgetEvent → Sweep ℕ
  cascade_llm_usage_ledger e = do
    t ← only_user e.target_type (the_target e.target_id)
    n ← int_target out t
    traces ← gets (λ w. w.traces)
    update_ledger (call_of n traces)
