-- ===== src/Forget/Erasure/Sweeps.antt =====
-- Each layer as a step of the tables.
use vibeshkoder.Base.{ℕ, ◌+◌, String, Option, none, some, List, [], ◌∷◌}
use vibeshkoder.Base.Exec.{gets, ◌>>=◌, bind_keeps}
use vibeshkoder.Forget.Model.{ForgetEvent, TargetType, Tables, Sweep, Outside}
use vibeshkoder.Forget.Targets.{
  the_target, read_int, version_owned_by, revisions, semantic_affected_mvids,
}
use vibeshkoder.Forget.Layers.Messages.{
  redact_versions, chat_messages_of, message_versions_of, cascade_chat_messages,
  cascade_message_versions,
}
use vibeshkoder.Forget.Layers.Questions.{
  redact_query, redact_summary, update_traces, update_ledger, invalidate_by_citation, for_each,
  cascade_qa_traces, cascade_llm_synthesis_cache, cascade_qa_traces_llm, cascade_llm_usage_ledger,
  own_summaries, call_of, only_user,
}
use vibeshkoder.Forget.Erasure.Swept.{IsSwept, IsSwept-refl, IsSwept-trans}
use vibeshkoder.Forget.Erasure.Statements.{
  Sweeps, redact_messages-Sweeps, redact_versions-Sweeps, update_traces-Sweeps, redact_query-step,
  redact_summary-step, update_ledger-Sweeps, invalidate_by_citation-Sweeps,
}

module _ {A B : Type 0} where
  pub bind-Sweeps :
      (m : Sweep A) (f : A → Sweep B) → Sweeps m → ((a : A) → Sweeps (f a)) → Sweeps (m >>= f)
  bind-Sweeps m f h k t = bind_keeps (IsSwept t) f m t (h t) (λ a u e i. IsSwept-trans i (k a u))

  pub reads-Sweeps :
      (g : Tables → A) (f : A → Sweep B) → ((a : A) → Sweeps (f a)) → Sweeps (gets g >>= f)
  reads-Sweeps g f k t = k (g t) t

pub target-Sweeps :
    {B : Type 0} (o : Option String) (f : String → Sweep B)
    → ((a : String) → Sweeps (f a))
    → Sweeps (the_target o >>= f)
target-Sweeps none f k t = IsSwept-refl t
target-Sweeps (some a) f k t = k a t

pub int-Sweeps :
    {B : Type 0} (o : Option ℕ) (f : ℕ → Sweep B)
    → ((a : ℕ) → Sweeps (f a))
    → Sweeps (read_int o >>= f)
int-Sweeps none f k t = IsSwept-refl t
int-Sweeps (some a) f k t = k a t

for_each-Sweeps :
    (f : ℕ → Sweep ℕ) → ((v : ℕ) → Sweeps (f v)) → (l : List ℕ) (n : ℕ) → Sweeps (for_each f l n)
unfolding for_each
for_each-Sweeps f h [] n = IsSwept-refl
for_each-Sweeps f h (v ∷ l) n =
    bind-Sweeps (f v) (λ rows. for_each f l (n + rows)) (h v)
      (λ rows. for_each-Sweeps f h l (n + rows))

module _ (out : Outside) where
  revisions-Sweeps : (y : TargetType) (a : String) → Sweeps (revisions out y a)
  revisions-Sweeps TargetType.message a = int-Sweeps (out.int a) _ (λ n. IsSwept-refl)
  revisions-Sweeps TargetType.message_hash a = IsSwept-refl
  revisions-Sweeps TargetType.user a = int-Sweeps (out.int a) _ (λ n. IsSwept-refl)
  revisions-Sweeps TargetType.export a = IsSwept-refl

  pub mvids-Sweeps : (e : ForgetEvent) → Sweeps (semantic_affected_mvids out e)
  unfolding semantic_affected_mvids
  mvids-Sweeps e = target-Sweeps e.target_id _ (λ a.
      bind-Sweeps (revisions out e.target_type a) _ (revisions-Sweeps e.target_type a)
        (λ f. IsSwept-refl))

  pub chat_messages-Sweeps : (e : ForgetEvent) → Sweeps (cascade_chat_messages out e)
  unfolding cascade_chat_messages
  chat_messages-Sweeps e =
      target-Sweeps e.target_id (chat_messages_of out e.target_type) (go e.target_type)
    where
      go : (y : TargetType) (a : String) → Sweeps (chat_messages_of out y a)
      go TargetType.message a = int-Sweeps (out.int a) _ (λ n. redact_messages-Sweeps _)
      go TargetType.message_hash a = IsSwept-refl
      go TargetType.user a = int-Sweeps (out.int a) _ (λ n. redact_messages-Sweeps _)
      go TargetType.export a = IsSwept-refl

  pub message_versions-Sweeps : (e : ForgetEvent) → Sweeps (cascade_message_versions out e)
  unfolding cascade_message_versions
  message_versions-Sweeps e =
      target-Sweeps e.target_id (message_versions_of out e.target_type) (go e.target_type)
    where
      go : (y : TargetType) (a : String) → Sweeps (message_versions_of out y a)
      go TargetType.message a = int-Sweeps (out.int a) _ (λ n. redact_versions-Sweeps _)
      go TargetType.message_hash a = IsSwept-refl
      go TargetType.user a = int-Sweeps (out.int a) _ (λ n.
          reads-Sweeps (λ w. w.messages) (λ l. redact_versions (version_owned_by n l))
            (λ l. redact_versions-Sweeps _))
      go TargetType.export a = IsSwept-refl

  pub qa_traces-Sweeps : (e : ForgetEvent) → Sweeps (cascade_qa_traces out e)
  unfolding cascade_qa_traces
  qa_traces-Sweeps e =
      target-Sweeps e.target_id _
        (λ a. int-Sweeps (out.int a) _ (λ n. update_traces-Sweeps _ redact_query redact_query-step))

  pub synthesis_cache-Sweeps : (e : ForgetEvent) → Sweeps (cascade_llm_synthesis_cache out e)
  unfolding cascade_llm_synthesis_cache
  synthesis_cache-Sweeps e =
      bind-Sweeps (semantic_affected_mvids out e) _ (mvids-Sweeps e)
        (λ l. for_each-Sweeps invalidate_by_citation invalidate_by_citation-Sweeps l 0)

  own_summaries-Sweeps : (y : TargetType) (a : String) (n : ℕ) → Sweeps (own_summaries out y a n)
  own_summaries-Sweeps TargetType.user a n = int-Sweeps (out.int a) _ (λ m.
      bind-Sweeps (update_traces _ redact_summary) _
        (update_traces-Sweeps _ redact_summary redact_summary-step) (λ r. IsSwept-refl))
  own_summaries-Sweeps TargetType.message a n = IsSwept-refl
  own_summaries-Sweeps TargetType.message_hash a n = IsSwept-refl
  own_summaries-Sweeps TargetType.export a n = IsSwept-refl

  pub qa_traces_llm-Sweeps : (e : ForgetEvent) → Sweeps (cascade_qa_traces_llm out e)
  unfolding cascade_qa_traces_llm
  qa_traces_llm-Sweeps e = target-Sweeps e.target_id _ (λ a.
      bind-Sweeps (semantic_affected_mvids out e) _ (mvids-Sweeps e) (λ l.
        bind-Sweeps (for_each _ l 0) _
          (for_each-Sweeps _ (λ v. update_traces-Sweeps _ redact_summary redact_summary-step) l 0)
          (own_summaries-Sweeps e.target_type a)))

  pub usage_ledger-Sweeps : (e : ForgetEvent) → Sweeps (cascade_llm_usage_ledger out e)
  unfolding cascade_llm_usage_ledger
  usage_ledger-Sweeps e =
      bind-Sweeps (only_user e.target_type (the_target e.target_id)) _
        (go e.target_type e.target_id)
        (λ a. int-Sweeps (out.int a) _ (λ n.
          reads-Sweeps (λ w. w.traces) (λ l. update_ledger (call_of n l))
            (λ l. update_ledger-Sweeps _)))
    where
      go : (y : TargetType) (o : Option String) → Sweeps (only_user y (the_target o))
      go TargetType.user none = IsSwept-refl
      go TargetType.user (some a) = IsSwept-refl
      go TargetType.message o = IsSwept-refl
      go TargetType.message_hash o = IsSwept-refl
      go TargetType.export o = IsSwept-refl
