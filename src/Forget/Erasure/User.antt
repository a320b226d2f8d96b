-- ===== src/Forget/Erasure/User.antt =====
-- The layers of a `user` event, and what each of them establishes of the user's rows.
use vibeshkoder.Base.{
  ◌+◌, ℕ, ◌≡◌, refl, sym, ◌∙◌, ap, subst, Bool, true, false, not, ◌&&◌, ◌==◌, ==_iff, ==_refl,
  String, some, List, In, any-In, update_where, updated_row, settled_row, count_where,
  pointwise_from, inl, inr, arith,
}
use vibeshkoder.Base.Exec.{ok, ◌>>=◌, bind_ok, ok_injective}
use vibeshkoder.Forget.Model.{
  CascadeError, ForgetEvent, TargetType, ChatMessage, MessageVersion, QaTrace, LedgerRow, Tables,
  Outside, is_id,
}
use vibeshkoder.Forget.Targets.{the_target, semantic_affected_mvids, owned_by, version_owned_by}
use vibeshkoder.Forget.Layers.Messages.{
  redact_message, redact_messages, redact_version, redact_versions, cascade_chat_messages,
  cascade_message_versions,
}
use vibeshkoder.Forget.Layers.Questions.{
  trace_cites, own_summaries, redact_query, redact_summary, redact_hashes, update_traces,
  update_ledger, asked_by, call_of, for_each, cascade_qa_traces, cascade_qa_traces_llm,
  cascade_llm_usage_ledger,
}
use vibeshkoder.Forget.Erasure.Swept.{
  IsErasedMessage, IsErasedVersion, IsErasedSummary, AreErasedHashes, IsSwept,
}

flag_set : (a b : Bool) → a ≡ true → (a && not b) ≡ false → b ≡ true
flag_set a true h k = refl
flag_set a false h k = ground arith

asked :
    {n : ℕ} (q : QaTrace) (l : LedgerRow)
    → q.user_tg_id ≡ n
    → l.qa_trace_id ≡ some q.id
    → (asked_by n q && is_id q.id l.qa_trace_id) ≡ true
asked {n} q l o r =
    let a : (q.user_tg_id == n) ≡ true = (==_iff q.user_tg_id n).1 o in rw (a, r) (==_refl q.id)

owner :
    {n : ℕ} (m : ChatMessage) (v : MessageVersion)
    → m.user_id ≡ some n
    → m.id ≡ v.chat_message_id
    → (m.id == v.chat_message_id && owned_by n m) ≡ true
owner {n} m v o r =
    let a : (m.id == v.chat_message_id) ≡ true = (==_iff m.id v.chat_message_id).1 r in
    rw (a, o) (==_refl n)

module _ (n : ℕ) where
  -- no message of the user holds its text, caption or raw update
  abbrev pub MessagesGone : Tables → Type 0
  MessagesGone t = (m : ChatMessage) → In m t.messages → m.user_id ≡ some n → IsErasedMessage m

  -- no version of a message of the user holds a body
  abbrev pub VersionsGone : Tables → Type 0
  VersionsGone t =
      (v : MessageVersion) (m : ChatMessage)
      → In v t.versions
      → In m t.messages
      → m.user_id ≡ some n
      → m.id ≡ v.chat_message_id
      → IsErasedVersion v

  -- every question of the user is flagged as redacted
  abbrev pub QueriesFlagged : Tables → Type 0
  QueriesFlagged t = (q : QaTrace) → In q t.traces → q.user_tg_id ≡ n → q.query_redacted ≡ true

  -- no answer to the user is stored
  abbrev pub SummariesGone : Tables → Type 0
  SummariesGone t = (q : QaTrace) → In q t.traces → q.user_tg_id ≡ n → IsErasedSummary q

  -- no hash of a prompt or of an answer to the user is stored
  abbrev pub HashesGone : Tables → Type 0
  HashesGone t =
      (l : LedgerRow) (q : QaTrace)
      → In l t.ledger
      → In q t.traces
      → q.user_tg_id ≡ n
      → l.qa_trace_id ≡ some q.id
      → AreErasedHashes l

  pub messages_kept : (t u : Tables) → IsSwept t u → MessagesGone t → MessagesGone u
  messages_kept t u s h m i q =
      let (x, j, k) = pointwise_from _ s.messages i in k.erased (h x j (sym k.user_id ∙ q))

  pub versions_kept : (t u : Tables) → IsSwept t u → VersionsGone t → VersionsGone u
  versions_kept t u s h v m i j q r =
      let (x, i', k) = pointwise_from _ s.versions i in
      let (y, j', l) = pointwise_from _ s.messages j in
      k.erased (h x y i' j' (sym l.user_id ∙ q) (sym l.id ∙ r ∙ k.chat_message_id))

  pub flags_kept : (t u : Tables) → IsSwept t u → QueriesFlagged t → QueriesFlagged u
  flags_kept t u s h q i e =
      let (x, j, k) = pointwise_from _ s.traces i in k.flagged (h x j (sym k.user_tg_id ∙ e))

  pub summaries_kept : (t u : Tables) → IsSwept t u → SummariesGone t → SummariesGone u
  summaries_kept t u s h q i e =
      let (x, j, k) = pointwise_from _ s.traces i in k.summary (h x j (sym k.user_tg_id ∙ e))

  pub hashes_kept : (t u : Tables) → IsSwept t u → HashesGone t → HashesGone u
  hashes_kept t u s h l q i j e r =
      let (x, i', k) = pointwise_from _ s.ledger i in
      let (y, j', m) = pointwise_from _ s.traces j in
      k.erased (h x y i' j' (sym m.user_tg_id ∙ e) (sym k.qa_trace_id ∙ r ∙ ap some m.id))

  module _ (out : Outside) (e : ForgetEvent) (a : String)
      (is_user : e.target_type ≡ TargetType.user) (target : e.target_id ≡ some a)
      (number : out.int a ≡ some n) where
    pub messages_gone :
        (t u : Tables) (rows : ℕ) → cascade_chat_messages out e t ≡ (ok rows, u) → MessagesGone u
    unfolding cascade_chat_messages redact_messages
    messages_gone t u rows q m i o =
        let p = owned_by n in
        let r : (
          ok (count_where p t.messages),
          record t { messages = update_where p redact_message t.messages },
        )
            ≡ (ok rows, u) =
          rw (is_user, target, number) at q in
        settled_row p redact_message IsErasedMessage
          (λ x. record {
            text = refl;
            caption = refl;
            raw_json = refl;
            is_redacted = refl;
            memory_policy = refl;
          })
          t.messages (subst (λ z. In m z) (sym (ap (λ z. z.1.messages) r)) i)
          (rw (o, ==_refl n) refl)

    pub versions_gone :
        (t u : Tables) (rows : ℕ) → cascade_message_versions out e t ≡ (ok rows, u) → VersionsGone u
    unfolding cascade_message_versions redact_versions
    versions_gone t u rows q v m i j o r =
        let p = version_owned_by n t.messages in
        let s : (
          ok (count_where p t.versions),
          record t { versions = update_where p redact_version t.versions },
        )
            ≡ (ok rows, u) =
          rw (is_user, target, number) at q in
        let j' : In m t.messages = subst (λ z. In m z) (sym (ap (λ z. z.1.messages) s)) j in
        settled_row p redact_version IsErasedVersion
          (λ x. record {
            text = refl;
            caption = refl;
            normalized_text = refl;
            entities_json = refl;
            is_redacted = refl;
          })
          t.versions (subst (λ z. In v z) (sym (ap (λ z. z.1.versions) s)) i)
          (any-In (λ x. x.id == v.chat_message_id && owned_by n x) t.messages j' (owner m v o r))

    pub queries_flagged :
        (t u : Tables) (rows : ℕ) → cascade_qa_traces out e t ≡ (ok rows, u) → QueriesFlagged u
    unfolding cascade_qa_traces update_traces
    queries_flagged t u rows q x i o =
        let p = λ (y : QaTrace). asked_by n y && not y.query_redacted in
        let s : (
          ok (count_where p t.traces),
          record t { traces = update_where p redact_query t.traces },
        )
            ≡ (ok rows, u) =
          rw (target, number) at q in
        let (y, j, c) =
          updated_row p redact_query t.traces
            (subst (λ z. In x z) (sym (ap (λ z. z.1.traces) s)) i) in
        elim c [
          | inl (a, b) ↦ ap (λ z. z.query_redacted) b
          | inr (a, b) ↦
              (let r : asked_by n y ≡ true =
                  (==_iff y.user_tg_id n).1 (sym (ap (λ z. z.user_tg_id) b) ∙ o) in
                ap (λ z. z.query_redacted) b ∙ flag_set (asked_by n y) y.query_redacted r a)
        ]

    pub hashes_gone :
        (t u : Tables) (rows : ℕ) → cascade_llm_usage_ledger out e t ≡ (ok rows, u) → HashesGone u
    unfolding cascade_llm_usage_ledger update_ledger
    hashes_gone t u rows q l x i j o r =
        let p = call_of n t.traces in
        let s : (
          ok (count_where p t.ledger),
          record t { ledger = update_where p redact_hashes t.ledger },
        )
            ≡ (ok rows, u) =
          rw (is_user, target, number) at q in
        let j' : In x t.traces = subst (λ z. In x z) (sym (ap (λ z. z.1.traces) s)) j in
        settled_row p redact_hashes AreErasedHashes (λ y. (refl, refl)) t.ledger
          (subst (λ z. In l z) (sym (ap (λ z. z.1.ledger) s)) i)
          (any-In (λ y. asked_by n y && is_id y.id l.qa_trace_id) t.traces j' (asked x l o r))

    own_gone :
        (y : TargetType) (b : String) (total : ℕ) (t u : Tables) (rows : ℕ)
        → y ≡ TargetType.user
        → b ≡ a
        → own_summaries out y b total t ≡ (ok rows, u)
        → SummariesGone u
    unfolding update_traces
    own_gone y b total t u rows p s q x i o =
        let g : (
          ok (total + count_where (asked_by n) t.traces),
          record t { traces = update_where (asked_by n) redact_summary t.traces },
        )
            ≡ (ok rows, u) =
          rw (p, s, number) at q in
        settled_row (asked_by n) redact_summary IsErasedSummary (λ y. refl) t.traces
          (subst (λ z. In x z) (sym (ap (λ z. z.1.traces) g)) i) ((==_iff x.user_tg_id n).1 o)

    pub summaries_gone :
        (t u : Tables) (rows : ℕ) → cascade_qa_traces_llm out e t ≡ (ok rows, u) → SummariesGone u
    unfolding cascade_qa_traces_llm update_traces
    summaries_gone t u rows q x i o =
        let each =
          λ (l : List ℕ). for_each (λ v. update_traces (trace_cites v) redact_summary) l 0 in
        let (b, t0, p, c) =
          bind_ok
            (λ b.
              semantic_affected_mvids out e >>= λ l. each l >>= own_summaries out e.target_type b)
            (the_target e.target_id) t u rows q in
        let (l, t1, p', d) =
          bind_ok (λ l. each l >>= own_summaries out e.target_type b)
            (semantic_affected_mvids out e) t0 u rows c in
        let (total, t2, p'', f) =
          bind_ok (own_summaries out e.target_type b) (each l) t1 u rows d in
        let r : (ok a, t) ≡ (ok b, t0) = subst (λ z. the_target z t ≡ (ok b, t0)) target p in
        own_gone e.target_type b total t2 u rows is_user
          (sym (ok_injective CascadeError (ap (λ z. z.0) r))) f x i o
