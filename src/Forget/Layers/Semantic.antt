-- ===== src/Forget/Layers/Semantic.antt =====
-- `_cascade_semantic_retrieval`. A statement on an empty set of ids, which the code skips, touches no row.
use vibeshkoder.Base.{
  ℕ, ◌+◌, String, Bool, false, ◌&&◌, ◌||◌, ◌==◌, Option, none, some, List, [], ◌∷◌, ◌++◌, map, any,
  filter, length, somes, contains, contains_text, count_where, delete_where, sorted_set, is_some,
  decimal,
}
use Prim.Native.String.{◌++◌ as text_append}
use vibeshkoder.Base.Exec.{ok, pure, gets, ◌>>=◌}
use vibeshkoder.Forget.Model.{
  ForgetEvent, TargetType, QaTrace, LedgerRow, RetrievalUnit, UnitSource, Attempt, RetrievalTrace,
  CardSource, Tables, Sweep, Outside,
}
use vibeshkoder.Forget.Targets.{the_target, int_target, semantic_affected_mvids}
use vibeshkoder.Forget.Layers.Questions.{update_traces, update_ledger, redact_query, redact_summary}

-- the units of which one source is among the revisions
abbrev pub unit_of : List ℕ → List UnitSource → RetrievalUnit → Bool
unit_of mvids sources u =
    any (λ s. s.unit_id == u.id && contains s.message_version_id mvids) sources

abbrev pub message_key : ℕ → String
message_key mvid = text_append "message:" (decimal mvid)

abbrev pub card_key : CardSource → String
card_key c = text_append "card:" c.card_id

-- affected_source_keys
unfoldable pub source_keys : List ℕ → Tables → List String
source_keys mvids w =
    map message_key mvids
    ++ map card_key (filter (λ c. contains c.message_version_id mvids) w.derived.card_sources)

-- the trace names a key among its results or its candidates
abbrev pub names_key : List String → RetrievalTrace → Bool
names_key keys r =
    any (λ k. contains_text k keys) r.result_source_ids
    || any (λ k. contains_text k keys) r.candidate_keys

abbrev pub among : List ℕ → Option ℕ → Bool
among ids none = false
among ids (some n) = contains n ids

abbrev pub asked_by_user : Option ℕ → ℕ → Bool
asked_by_user none asker = false
asked_by_user (some n) asker = asker == n

-- qa_trace_filters, on the messages that ask and on the user
abbrev pub trace_filter : List ℕ → Option ℕ → QaTrace → Bool
trace_filter parents user q =
    among parents q.source_chat_message_id || asked_by_user user q.user_tg_id

-- attempt_filters
abbrev pub attempt_filter : List ℕ → Option ℕ → Attempt → Bool
attempt_filter parents user a =
    among parents a.source_chat_message_id || asked_by_user user a.user_tg_id

abbrev pub redact_trace : QaTrace → QaTrace
redact_trace q = redact_summary (redact_query q)

unfoldable pub delete_retrieval_traces : (RetrievalTrace → Bool) → Sweep (List RetrievalTrace)
delete_retrieval_traces p w = (
  ok (filter p w.retrieval_traces),
  record w { retrieval_traces = delete_where p w.retrieval_traces },
)

unfoldable pub delete_units : List ℕ → Sweep ℕ
delete_units unit_ids w = (
  ok (
      count_where (λ s. contains s.unit_id unit_ids) w.unit_sources
      + count_where (λ u. contains u.id unit_ids) w.units),
  record w {
    unit_sources = delete_where (λ s. contains s.unit_id unit_ids) w.unit_sources;
    units = delete_where (λ u. contains u.id unit_ids) w.units;
  },
)

-- prompt_hash IS NOT NULL OR response_hash IS NOT NULL
abbrev pub has_hashes : LedgerRow → Bool
has_hashes l = is_some l.prompt_hash || is_some l.response_hash

-- the traces of retrieval that name a forgotten source, and the answers that came of them
unfoldable pub sweep_answers : List ℕ → Sweep ℕ
sweep_answers attempt_ids = do
  attempts ← gets (λ w. filter (λ a. contains a.id attempt_ids) w.attempts)
  rows ← update_traces (λ q. contains q.id (somes (λ a. a.qa_trace_id) attempts)) redact_summary
  pure (length (sorted_set attempt_ids) + rows)

-- qa_trace_ids and ledger_ids come together before the UPDATE of the ledger
unfoldable pub sweep_ledger : List ℕ → List ℕ → Sweep ℕ
sweep_ledger qa_ids ledger_ids = do
  calls ← gets (λ w. map (λ l. l.id) (filter (λ l. among qa_ids l.qa_trace_id) w.ledger))
  update_ledger (λ l. contains l.id (ledger_ids ++ calls) && has_hashes l)

-- the whole layer, from the rows found before the first write
unfoldable pub sweep_semantic : List ℕ → List ℕ → Option ℕ → Sweep ℕ
unfolding sweep_answers sweep_ledger
sweep_semantic mvids parents user = do
  units ← gets (λ w. filter (unit_of mvids w.unit_sources) w.units)
  keys ← gets (source_keys mvids)
  direct ← gets (λ w. map (λ q. q.id) (filter (trace_filter parents user) w.traces))
  attempts ← gets (λ w. filter (attempt_filter parents user) w.attempts)
  let asked = direct ++ somes (λ a. a.qa_trace_id) attempts
  questions ← update_traces (λ q. contains q.id asked) redact_trace
  own ← delete_retrieval_traces (λ r. contains r.attempt_id (map (λ a. a.id) attempts))
  named ← delete_retrieval_traces (names_key keys)
  answers ← sweep_answers (map (λ r. r.attempt_id) named)
  later ← gets (λ w. filter (λ a. contains a.id (map (λ r. r.attempt_id) named)) w.attempts)
  hashes ← sweep_ledger (asked ++ somes (λ a. a.qa_trace_id) later) (
      map (λ u. u.llm_usage_ledger_id) units
      ++ somes (λ a. a.embedding_llm_call_id) attempts
      ++ somes (λ a. a.synthesis_llm_call_id) attempts
      ++ somes (λ a. a.synthesis_llm_call_id) later)
  removed ← delete_units (map (λ u. u.id) units)
  pure (removed + length own + answers + questions + hashes)

module _ (out : Outside) where
  -- parent_chat_message_ids
  abbrev pub parents_of : TargetType → String → List ℕ → Sweep (List ℕ)
  parents_of TargetType.message t mvids = do n ← int_target out t; pure (n ∷ [])
  parents_of TargetType.message_hash t mvids =
      gets (λ w. map (λ v. v.chat_message_id) (filter (λ v. contains v.id mvids) w.versions))
  parents_of _ t mvids = pure []

  -- the id of the user of a `user` event
  abbrev pub user_of : TargetType → String → Sweep (Option ℕ)
  user_of TargetType.user t = do n ← int_target out t; pure (some n)
  user_of _ t = pure none

  unfoldable pub cascade_semantic_retrieval : ForgetEvent → Sweep ℕ
  unfolding sweep_semantic
  cascade_semantic_retrieval e = do
    mvids ← semantic_affected_mvids out e
    t ← the_target e.target_id
    parents ← parents_of e.target_type t mvids
    user ← user_of e.target_type t
    sweep_semantic mvids parents user
