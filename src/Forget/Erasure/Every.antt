-- ===== src/Forget/Erasure/Every.antt =====
-- The layers on the Butler, the semantic index and the unmodelled ones, and every layer together.
use vibeshkoder.Base.{length, sorted_set, ℕ, ◌+◌, refl, String, Option, some, List, [], ◌∷◌}
use vibeshkoder.Base.Exec.{pure}
use vibeshkoder.Forget.Model.{ForgetEvent, TargetType, Layer, Sweep, Outside}
use vibeshkoder.Forget.Targets.{semantic_affected_mvids, affected_action_ids}
use vibeshkoder.Forget.Layers.Questions.{redact_summary, update_traces}
use vibeshkoder.Forget.Layers.Semantic.{
  redact_trace, delete_retrieval_traces, delete_units, sweep_answers, sweep_ledger, sweep_semantic,
  parents_of, user_of, cascade_semantic_retrieval,
}
use vibeshkoder.Forget.Layers.Butler.{
  update_confirmations, update_actions, lock_parents, sweep_confirmations, sweep_invocations,
  sweep_undo_rows, sweep_actions, unless_none, cascade_butler_action_confirmations,
  cascade_butler_tool_invocations, cascade_butler_undo_invocations, cascade_butler_actions,
  expire_row, redact_row, expire_source, redact_action,
}
use vibeshkoder.Forget.Erasure.Swept.{
  same_messages, same_versions, same_traces, same_ledger, same_actions, same_confirmations,
  IsSwept-refl,
}
use vibeshkoder.Forget.Erasure.Statements.{
  Sweeps, update_traces-Sweeps, redact_summary-step, redact_trace-step, update_ledger-Sweeps,
  delete_retrieval_traces-Sweeps, delete_units-Sweeps, sweep_invocations-Sweeps,
  sweep_undo_rows-Sweeps, update_confirmations-Sweeps, update_actions-Sweeps,
}
use vibeshkoder.Forget.Erasure.Sweeps.{
  bind-Sweeps, target-Sweeps, int-Sweeps, mvids-Sweeps, chat_messages-Sweeps,
  message_versions-Sweeps, qa_traces-Sweeps, synthesis_cache-Sweeps, qa_traces_llm-Sweeps,
  usage_ledger-Sweeps,
}
use vibeshkoder.Forget.Cascade.{layer_func, other}

sweep_answers-Sweeps : (ids : List ℕ) → Sweeps (sweep_answers ids)
unfolding sweep_answers
sweep_answers-Sweeps ids t =
    bind-Sweeps (update_traces _ redact_summary) (λ rows. pure (length (sorted_set ids) + rows))
      (update_traces-Sweeps _ redact_summary redact_summary-step) (λ r. IsSwept-refl) t

sweep_ledger-Sweeps : (a b : List ℕ) → Sweeps (sweep_ledger a b)
unfolding sweep_ledger
sweep_ledger-Sweeps a b t = update_ledger-Sweeps _ t

sweep_semantic-Sweeps :
    (mvids parents : List ℕ) (user : Option ℕ) → Sweeps (sweep_semantic mvids parents user)
unfolding sweep_semantic
sweep_semantic-Sweeps mvids parents user t =
    bind-Sweeps (update_traces _ redact_trace) _
      (update_traces-Sweeps _ redact_trace redact_trace-step)
      (λ a. bind-Sweeps (delete_retrieval_traces _) _ (delete_retrieval_traces-Sweeps _) (λ own.
        bind-Sweeps (delete_retrieval_traces _) _ (delete_retrieval_traces-Sweeps _) (λ named.
          bind-Sweeps (sweep_answers _) _ (sweep_answers-Sweeps _) (λ answers u.
            bind-Sweeps (sweep_ledger _ _) _ (sweep_ledger-Sweeps _ _)
              (λ hashes.
                bind-Sweeps (delete_units _) _ (delete_units-Sweeps _) (λ removed. IsSwept-refl))
              u))))
      t

sweep_confirmations-Sweeps : (n : ℕ) (ids : List ℕ) → Sweeps (sweep_confirmations n ids)
unfolding sweep_confirmations lock_parents
sweep_confirmations-Sweeps n ids =
    bind-Sweeps (lock_parents ids) _ (λ t. IsSwept-refl t)
      (λ x.
        bind-Sweeps (update_confirmations _ (expire_row n)) _
          (update_confirmations-Sweeps _ (expire_row n)
            (λ c. record { action_id = refl; answered = λ h. refl }))
          (λ a.
            bind-Sweeps (update_confirmations _ (redact_row n)) _
              (update_confirmations-Sweeps _ (redact_row n)
                (λ c. record { action_id = refl; answered = λ h. h }))
              (λ b. IsSwept-refl)))

sweep_actions-Sweeps : (n : ℕ) (ids : List ℕ) → Sweeps (sweep_actions n ids)
unfolding sweep_actions
sweep_actions-Sweeps n ids =
    bind-Sweeps (update_actions _ (expire_source n)) _
      (update_actions-Sweeps _ (expire_source n)
        (λ a. record { id = refl; requester = refl; stopped = λ h. refl }))
      (λ a.
        bind-Sweeps (update_actions _ (redact_action n)) _
          (update_actions-Sweeps _ (redact_action n)
            (λ a. record { id = refl; requester = refl; stopped = λ h. h }))
          (λ b. IsSwept-refl))

unless_none-Sweeps :
    (f : List ℕ → Sweep ℕ) → ((l : List ℕ) → Sweeps (f l)) → (l : List ℕ) → Sweeps (unless_none l f)
unless_none-Sweeps f h [] = IsSwept-refl
unless_none-Sweeps f h (n ∷ l) = h (n ∷ l)

module _ (out : Outside) where
  semantic-Sweeps : (e : ForgetEvent) → Sweeps (cascade_semantic_retrieval out e)
  unfolding cascade_semantic_retrieval
  semantic-Sweeps e = bind-Sweeps (semantic_affected_mvids out e) _ (mvids-Sweeps out e) (λ l.
      target-Sweeps e.target_id _ (λ a.
        bind-Sweeps (parents_of out e.target_type a l) _ (parents e.target_type a l) (λ p.
          bind-Sweeps (user_of out e.target_type a) _ (user e.target_type a)
            (λ u. sweep_semantic-Sweeps l p u))))
    where
      parents : (y : TargetType) (a : String) (l : List ℕ) → Sweeps (parents_of out y a l)
      parents TargetType.message a l =
          int-Sweeps (out.int a) (λ n. pure (n ∷ [])) (λ n. IsSwept-refl)
      parents TargetType.message_hash a l = IsSwept-refl
      parents TargetType.user a l = IsSwept-refl
      parents TargetType.export a l = IsSwept-refl

      user : (y : TargetType) (a : String) → Sweeps (user_of out y a)
      user TargetType.message a = IsSwept-refl
      user TargetType.message_hash a = IsSwept-refl
      user TargetType.user a = int-Sweeps (out.int a) (λ n. pure (some n)) (λ n. IsSwept-refl)
      user TargetType.export a = IsSwept-refl

  other-Sweeps : (l : Layer) (e : ForgetEvent) → Sweeps (other out l e)
  other-Sweeps l e t = record {
    messages = same_messages t;
    versions = same_versions t;
    traces = same_traces t;
    ledger = same_ledger t;
    actions = same_actions t;
    confirmations = same_confirmations t;
    locked = refl;
    retrieval = λ r i. i;
    attempts = refl;
  }

  -- Every layer erases and brings nothing back, also where it raises.
  pub layer-Sweeps : (l : Layer) (e : ForgetEvent) → Sweeps (layer_func out l e)
  unfolding layer_func cascade_butler_action_confirmations cascade_butler_tool_invocations
      cascade_butler_undo_invocations cascade_butler_actions
  layer-Sweeps Layer.chat_messages e t = chat_messages-Sweeps out e t
  layer-Sweeps Layer.semantic_retrieval e t = semantic-Sweeps e t
  layer-Sweeps Layer.message_versions e t = message_versions-Sweeps out e t
  layer-Sweeps Layer.qa_traces e t = qa_traces-Sweeps out e t
  layer-Sweeps Layer.llm_synthesis_cache e t = synthesis_cache-Sweeps out e t
  layer-Sweeps Layer.qa_traces_llm e t = qa_traces_llm-Sweeps out e t
  layer-Sweeps Layer.llm_usage_ledger e t = usage_ledger-Sweeps out e t
  layer-Sweeps Layer.butler_action_confirmations e t =
      unless_none-Sweeps (sweep_confirmations e.id) (sweep_confirmations-Sweeps e.id)
        (affected_action_ids out e t) t
  layer-Sweeps Layer.butler_tool_invocations e t =
      unless_none-Sweeps (sweep_invocations e.id) (sweep_invocations-Sweeps e.id)
        (affected_action_ids out e t) t
  layer-Sweeps Layer.butler_undo_invocations e t =
      unless_none-Sweeps (sweep_undo_rows e.id) (sweep_undo_rows-Sweeps e.id)
        (affected_action_ids out e t) t
  layer-Sweeps Layer.butler_actions e t =
      unless_none-Sweeps (sweep_actions e.id) (sweep_actions-Sweeps e.id)
        (affected_action_ids out e t) t
  layer-Sweeps Layer.digests e t = other-Sweeps Layer.digests e t
  layer-Sweeps Layer.wiki_pages e t = other-Sweeps Layer.wiki_pages e t
  layer-Sweeps Layer.wiki_revisions e t = other-Sweeps Layer.wiki_revisions e t
  layer-Sweeps Layer.card_sources e t = other-Sweeps Layer.card_sources e t
  layer-Sweeps Layer.message_entities e t = other-Sweeps Layer.message_entities e t
  layer-Sweeps Layer.message_links e t = other-Sweeps Layer.message_links e t
  layer-Sweeps Layer.attachments e t = other-Sweeps Layer.attachments e t
  layer-Sweeps Layer.fts_rows e t = other-Sweeps Layer.fts_rows e t
  layer-Sweeps Layer.graph_nodes e t = other-Sweeps Layer.graph_nodes e t
