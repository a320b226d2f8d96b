-- ===== src/Forget/Erasure/Semantic.antt =====
-- The layer on semantic retrieval for a `user` event: the texts of the questions and the traces of retrieval.
use vibeshkoder.Base.{
  ℕ, ◌≡◌, ◌≢◌, refl, sym, ◌∙◌, ap, subst, Bool, true, false, not, ◌||◌, ◌==◌, ==_iff, ==_refl,
  String, some, List, [], ◌∷◌, ◌++◌, In, here, there, In-append_left, In-filter, In-filter-In,
  any-In, map, filter, somes, contains, update_where, delete_where, updated_row, pointwise_from,
  sorted_set, inl, inr, arith, Bool-cases, In-cons,
}
use mathlib.Core.Bool.{false≢true}
use vibeshkoder.Base.Exec.{ok}
use vibeshkoder.Forget.Model.{
  Layer, ForgetEvent, TargetType, QaTrace, Attempt, RetrievalTrace, Tables, Outside,
}
use vibeshkoder.Forget.Targets.{semantic_affected_mvids, version_ids, version_owned_by}
use vibeshkoder.Forget.Layers.Questions.{update_traces, update_ledger, redact_summary}
use vibeshkoder.Forget.Layers.Semantic.{
  trace_filter, attempt_filter, redact_trace, names_key, source_keys, delete_retrieval_traces,
  delete_units, sweep_answers, sweep_ledger, sweep_semantic, cascade_semantic_retrieval, among,
}
use vibeshkoder.Forget.Cascade.{layer_func}
use vibeshkoder.Forget.Erasure.Every.{layer-Sweeps}
use vibeshkoder.Forget.Erasure.Swept.{IsErasedQuery, IsSwept}

pub In-map : {A : Type 0} (f : A → ℕ) {x : A} (l : List A) → In x l → In (f x) (map f l)
In-map f [] i = elim i [ ]
In-map f (y ∷ l) here = here
In-map f (y ∷ l) (there i) = there (In-map f l i)

pub contains-In : (n : ℕ) (l : List ℕ) → In n l → contains n l ≡ true
contains-In n l i = any-In (λ m. m == n) l i (==_refl n)

or_right : (a b : Bool) → b ≡ true → a || b ≡ true
or_right a b h = ground arith

module _ {A : Type 0} (p : A → Bool) where
  kept_cons : (y : A) (l : List A) → p y ≡ false → delete_where p (y ∷ l) ≡ y ∷ delete_where p l
  kept_cons y l t = rw t refl

  gone_cons : (y : A) (l : List A) → p y ≡ true → delete_where p (y ∷ l) ≡ delete_where p l
  gone_cons y l t = rw t refl

  -- A row that a DELETE left does not meet its condition.
  kept_row : {x : A} (l : List A) → In x (delete_where p l) → p x ≡ false
  kept_row [] i = elim i [ ]
  kept_row {x} (y ∷ l) i = elim (Bool-cases (p y)) [
    | inl t ↦ kept_row l (subst (λ z. In x z) (gone_cons y l t) i)
    | inr t ↦ elim (In-cons (subst (λ z. In x z) (kept_cons y l t) i)) [
      | inl q ↦ rw q t
      | inr j ↦ kept_row l j
    ]
  ]

module _ (n : ℕ) where
  -- no question of the user is stored
  abbrev pub QueriesGone : Tables → Type 0
  QueriesGone t = (q : QaTrace) → In q t.traces → q.user_tg_id ≡ n → IsErasedQuery q

  -- no trace of retrieval belongs to an attempt of the user
  abbrev pub RetrievalGone : Tables → Type 0
  RetrievalGone t =
      (r : RetrievalTrace) (a : Attempt)
      → In r t.retrieval_traces
      → In a t.attempts
      → a.user_tg_id ≡ n
      → r.attempt_id ≢ a.id

  pub queries_kept : (t u : Tables) → IsSwept t u → QueriesGone t → QueriesGone u
  queries_kept t u s h q i e =
      let (x, j, k) = pointwise_from _ s.traces i in k.query (h x j (sym k.user_tg_id ∙ e))

  pub retrieval_kept : (t u : Tables) → IsSwept t u → RetrievalGone t → RetrievalGone u
  retrieval_kept t u s h r a i j e = h r a (s.retrieval r i) (subst (λ z. In a z) s.attempts j) e

  module _ (mvids parents : List ℕ) where
    abbrev own : Tables → List ℕ
    own t = map (λ q. q.id) (filter (trace_filter parents (some n)) t.traces)

    own_question : (t : Tables) (q : QaTrace) → In q t.traces → q.user_tg_id ≡ n → In q.id (own t)
    own_question t q i o =
        In-map (λ x. x.id) (filter (trace_filter parents (some n)) t.traces)
          (In-filter (trace_filter parents (some n)) t.traces i (
            or_right (among parents q.source_chat_message_id) (q.user_tg_id == n)
              ((==_iff q.user_tg_id n).1 o)))

    -- Two statements on the questions: the first erases the own ones.
    twice :
        (ids : List ℕ) (p : QaTrace → Bool) (t : Tables) (q : QaTrace)
        → ((x : QaTrace) → In x t.traces → x.user_tg_id ≡ n → contains x.id ids ≡ true)
        → In q (
            update_where p redact_summary
              (update_where (λ x. contains x.id ids) redact_trace t.traces))
        → q.user_tg_id ≡ n
        → IsErasedQuery q
    twice ids p t q h i o =
        let first = update_where (λ x. contains x.id ids) redact_trace t.traces in
        let (y, j, c) = updated_row p redact_summary first i in
        let s : (q.query_text ≡ y.query_text) × (q.user_tg_id ≡ y.user_tg_id) = elim c [
          | inl (v, w) ↦ (ap (λ z. z.query_text) w, ap (λ z. z.user_tg_id) w)
          | inr (v, w) ↦ (ap (λ z. z.query_text) w, ap (λ z. z.user_tg_id) w)
        ] in
        let (x, k, d) = updated_row (λ x. contains x.id ids) redact_trace t.traces j in
        s.0 ∙ elim d [
          | inl (v, w) ↦ ap (λ z. z.query_text) w
          | inr (v, w) ↦
              absurd (false≢true (sym v ∙ h x k (sym (ap (λ z. z.user_tg_id) w) ∙ sym s.1 ∙ o)))
        ]

    semantic_gone :
        (t u : Tables) (rows : ℕ)
        → sweep_semantic mvids parents (some n) t ≡ (ok rows, u)
        → ((q : QaTrace) → In q u.traces → q.user_tg_id ≡ n → IsErasedQuery q)
          × ((r : RetrievalTrace) (a : Attempt)
              → In r u.retrieval_traces
              → In a t.attempts
              → a.user_tg_id ≡ n
              → r.attempt_id ≢ a.id)
    unfolding sweep_semantic update_traces delete_retrieval_traces sweep_answers sweep_ledger
        update_ledger delete_units
    semantic_gone t u rows q =
        let attempts = filter (attempt_filter parents (some n)) t.attempts in
        let asked = own t ++ somes (λ a. a.qa_trace_id) attempts in
        let mine = λ (r : RetrievalTrace). contains r.attempt_id (map (λ a. a.id) attempts) in
        let left = delete_where mine t.retrieval_traces in
        let named = filter (names_key (source_keys mvids t)) left in
        let again =
          filter (λ (a : Attempt). contains a.id (map (λ (r : RetrievalTrace). r.attempt_id) named))
            t.attempts in
        let p = λ (x : QaTrace). contains x.id (somes (λ (a : Attempt). a.qa_trace_id) again) in
        let first = update_where (λ x. contains x.id asked) redact_trace t.traces in
        let l : update_where p redact_summary first ≡ u.traces = ap (λ z. z.1.traces) q in
        let m : delete_where (names_key (source_keys mvids t)) left ≡ u.retrieval_traces =
          ap (λ z. z.1.retrieval_traces) q in
        (
          λ x i o.
              twice asked p t x
                (λ y j e. contains-In y.id asked (
                  In-append_left (own t) (somes (λ a. a.qa_trace_id) attempts)
                    (own_question t y j e)))
                (subst (λ z. In x z) (sym l) i) o,
          λ r a i j o e.
              let k : In r left =
                In-filter-In (λ x. not (names_key (source_keys mvids t) x)) left
                  (subst (λ z. In r z) (sym m) i) in
              let c = kept_row mine t.retrieval_traces k in
              let d : In a attempts = In-filter (attempt_filter parents (some n)) t.attempts j (
                or_right (among parents a.source_chat_message_id) (a.user_tg_id == n)
                  ((==_iff a.user_tg_id n).1 o)) in
              let g : contains r.attempt_id (map (λ a. a.id) attempts) ≡ true =
                subst (λ z. contains z (map (λ a. a.id) attempts) ≡ true) (sym e)
                  (contains-In a.id (map (λ a. a.id) attempts) (In-map (λ a. a.id) attempts d)) in
              false≢true (sym c ∙ g),
        )

  module _ (out : Outside) (e : ForgetEvent) (b : String)
      (is_user : e.target_type ≡ TargetType.user) (target : e.target_id ≡ some b)
      (number : out.int b ≡ some n) where
    reduced :
        (t u : Tables) (rows : ℕ)
        → cascade_semantic_retrieval out e t ≡ (ok rows, u)
        → (mvids : List ℕ) × (sweep_semantic mvids [] (some n) t ≡ (ok rows, u))
    unfolding cascade_semantic_retrieval semantic_affected_mvids
    reduced t u rows q = (
      sorted_set (version_ids (version_owned_by n t.messages) t),
      rw (is_user, target, number, number) at q,
    )

    pub queries_gone :
        (t u : Tables) (rows : ℕ)
        → cascade_semantic_retrieval out e t ≡ (ok rows, u)
        → QueriesGone u
    queries_gone t u rows q =
        let (mvids, k) = reduced t u rows q in (semantic_gone mvids [] t u rows k).0

    pub retrieval_gone :
        (t u : Tables) (rows : ℕ)
        → cascade_semantic_retrieval out e t ≡ (ok rows, u)
        → RetrievalGone u
    unfolding layer_func
    retrieval_gone t u rows q r a i j =
        let (mvids, k) = reduced t u rows q in
        let s : IsSwept t u =
          subst (λ z. IsSwept t z.1) q (layer-Sweeps out Layer.semantic_retrieval e t) in
        (semantic_gone mvids [] t u rows k).1 r a i (subst (λ z. In a z) s.attempts j)
