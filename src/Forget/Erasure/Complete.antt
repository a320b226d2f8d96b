-- ===== src/Forget/Erasure/Complete.antt =====
-- A `user` event whose cascade completes.
use vibeshkoder.Base.{
  ◌≢◌, pointwise_to, any, Bool-cases, inl, inr, arith, or_else, ℕ, ◌≡◌, refl, sym, ◌∙◌, ap, subst,
  true, false, String, none, some, List, [], ◌∷◌, In, here, there,
}
use vibeshkoder.Butler.Model.{Action}
use vibeshkoder.Base.Exec.{bind_keeps, pure, raise, Result, ok, err, continue, err_not_ok, bind_ok}
use vibeshkoder.Forget.Model.{
  CascadeStatus, EventStatus, ForgetEvent, TargetType, Layer, CascadeError, Tables, Store, Outside,
  LockKey,
}
use vibeshkoder.Forget.Events.{mark_status}
use vibeshkoder.Forget.Order.{
  is_completed, mark_of, same_layer, cascade_layer_order, is_export, has_func, applies,
}
use vibeshkoder.Forget.Cascade.{
  no_progress, Progressing, on_store, run_layers, layer_func, lock_event, lock_keys, take_locks,
  cascade, finish, conclude, record_failure, process_one_event,
}
use vibeshkoder.Forget.Places.{same_layer_path}
use vibeshkoder.Forget.Rows.{mark_status-IsLocal}
use vibeshkoder.Forget.Outcome.{begin}
use vibeshkoder.Forget.Erasure.Swept.{IsSwept}
use vibeshkoder.Forget.Erasure.Through.{run_layers-IsSwept, through}
use vibeshkoder.Forget.Erasure.User.{
  MessagesGone, VersionsGone, QueriesFlagged, SummariesGone, HashesGone, messages_kept,
  versions_kept, flags_kept, summaries_kept, hashes_kept, messages_gone, versions_gone,
  queries_flagged, summaries_gone, hashes_gone,
}
use vibeshkoder.Forget.Erasure.Semantic.{
  QueriesGone, RetrievalGone, queries_kept, retrieval_kept, queries_gone, retrieval_gone,
}
use vibeshkoder.Forget.Erasure.Butler.{
  NoneLocked, locks_kept, none_locked, ActionsStopped, NobodyAsked, actions_kept, asked_kept,
  actions_stopped, nobody_asked,
}

In-list : (l : Layer) (ls : List Layer) → any (λ k. same_layer k l) ls ≡ true → In l ls
In-list l [] h = ground arith
In-list l (k ∷ ls) h = elim (Bool-cases (same_layer k l)) [
  | inl t ↦ subst (λ z. In l (z ∷ ls)) (sym (same_layer_path k l t)) here
  | inr t ↦ there (In-list l ls (rw t at h))
]

In-order :
    (l : Layer) → any (λ k. same_layer k l) cascade_layer_order ≡ true → In l cascade_layer_order
In-order l h = In-list l cascade_layer_order h

-- What the cascade leaves of a user in the tables of its modelled layers.
pub record IsForgotten (n : ℕ) (t : Tables) : Type 0 where
  pub messages : MessagesGone n t
  pub versions : VersionsGone n t
  pub queries : QueriesGone n t
  pub flags : QueriesFlagged n t
  pub summaries : SummariesGone n t
  pub hashes : HashesGone n t
  pub retrieval : RetrievalGone n t
  pub actions : ActionsStopped n t
  pub asked : NobodyAsked n t

no_success :
    (e : ForgetEvent) (state : CascadeStatus) (x : CascadeError) (w w' : Store)
    → record_failure e state x w ≡ (ok tt, w')
    → ⊥
unfolding record_failure
no_success e state x w w' h =
    let (d, v, a, b) =
      bind_ok (λ d. raise x)
        (mark_status e.id EventStatus.failed (some (record state { error = some x }))) w w' tt h in
    err_not_ok CascadeError (ap (λ z. z.0) b)

pub conclude_tables :
    (e : ForgetEvent) (r : Result CascadeError (Unit {0})) (p : Progressing)
    → (conclude e (r, p)).1.tables ≡ p.store.tables
unfolding conclude record_failure
conclude_tables e (ok x) p = refl
conclude_tables e (err x) p =
    let state = some (record p.state { error = some x }) in
    bind_keeps (λ s. s.tables ≡ p.store.tables) (λ d. raise x)
      (mark_status e.id EventStatus.failed state) p.store
      (mark_status-IsLocal e.id EventStatus.failed state p.store).same_tables (λ a s q h. h)

pub finish_tables :
    (e : ForgetEvent) (q : Progressing) → (finish e q).1.store.tables ≡ q.store.tables
unfolding finish
finish_tables e q =
    bind_keeps (λ s. s.store.tables ≡ q.store.tables) (λ d. pure tt)
      (on_store (mark_status e.id EventStatus.completed (some q.state))) q
      (mark_status-IsLocal e.id EventStatus.completed (some q.state) q.store).same_tables
      (λ a s r h. h)

-- The cascade that returns has run its layers to the end, and their tables are the ones it leaves.
process_ran :
    (out : Outside) (e : ForgetEvent) (w w' : Store)
    → process_one_event out e w ≡ (ok tt, w')
    → (q : Progressing) × (run_layers out e cascade_layer_order (begin out e w) ≡ (ok tt, q))
      × (w'.tables ≡ q.store.tables)
unfolding process_one_event cascade conclude
process_ran out e w w' h =
    let (r, q) = run_layers out e cascade_layer_order (begin out e w) in go r q refl h
  where
    go :
        (r : Result CascadeError (Unit {0})) (q : Progressing)
        → run_layers out e cascade_layer_order (begin out e w) ≡ (r, q)
        → conclude e (continue r (λ x. finish e) q) ≡ (ok tt, w')
        → (q : Progressing) × (run_layers out e cascade_layer_order (begin out e w) ≡ (ok tt, q))
          × (w'.tables ≡ q.store.tables)
    go (ok x) q s k = (
      q,
      s,
      sym (ap (λ z. z.1.tables) k)
          ∙ conclude_tables e (finish e q).0 (finish e q).1
          ∙ finish_tables e q,
    )
    go (err x) q s k = absurd (no_success e q.state x q.store w' k)

take_locks_tables : (ks : List LockKey) (w : Store) → (take_locks ks w).tables ≡ w.tables
take_locks_tables [] w = refl
take_locks_tables (k ∷ ks) w = take_locks_tables ks (record w { held = k ∷ w.held })

lock_event_tables :
    (out : Outside) (e : ForgetEvent) (w : Store) → (lock_event out e w).tables ≡ w.tables
lock_event_tables out e w = elim (Bool-cases (is_export e.target_type)) [
  | inl t ↦ rw t refl
  | inr t ↦ rw t (take_locks_tables (lock_keys out e w.tables) w)
]

-- A layer that applies to users has run in the cascade of a new `user` event.
established :
    (out : Outside) (e : ForgetEvent) (w : Store) (q : Progressing)
    → run_layers out e cascade_layer_order (begin out e w) ≡ (ok tt, q)
    → e.target_type ≡ TargetType.user
    → e.cascade_status ≡ none
    → (l : Layer) → has_func l ≡ true
    → applies l TargetType.user ≡ true
    → any (λ k. same_layer k l) cascade_layer_order ≡ true
    → (P : Tables → Type 0) → ((t u : Tables) → IsSwept t u → P t → P u)
    → ((t u : Tables) (rows : ℕ) → layer_func out l e t ≡ (ok rows, u) → P u)
    → P q.store.tables
established out e w q r y c l f a o P keep est =
    through out e l (ap is_export y) f (ap (applies l) y ∙ a) P keep est cascade_layer_order
      (begin out e w) q r (In-order l o)
      (subst (λ z. is_completed (mark_of l (or_else z no_progress).layers) ≡ false) (sym c) refl)

-- When the cascade of a new `user` event returns: no message of the user holds a text, caption or raw update,
-- and no version of one a body; his questions have no text and are flagged as redacted, and no summary of an
-- answer is stored with them; no call of the ledger that belongs to one of his questions holds a hash of its
-- prompt or answer; no trace of retrieval belongs to an attempt of his; no Butler action that he asked for is
-- waiting, confirmed or executing, and no confirmation row of one is pending.
pub forget_user :
    (out : Outside) (e : ForgetEvent) (w w' : Store) (n : ℕ) (a : String)
    → e.target_type ≡ TargetType.user
    → e.target_id ≡ some a
    → out.int a ≡ some n
    → e.cascade_status ≡ none
    → process_one_event out e w ≡ (ok tt, w')
    → IsForgotten n w'.tables
unfolding layer_func
forget_user out e w w' n a y t i c h =
    let (q, r, s) = process_ran out e w w' h in
    let by = established out e w q r y c in
    subst (IsForgotten n) (sym s) (record {
      messages =
          by Layer.chat_messages refl refl refl (MessagesGone n) (messages_kept n)
            (messages_gone n out e a y t i);
      versions =
          by Layer.message_versions refl refl refl (VersionsGone n) (versions_kept n)
            (versions_gone n out e a y t i);
      queries =
          by Layer.semantic_retrieval refl refl refl (QueriesGone n) (queries_kept n)
            (queries_gone n out e a y t i);
      retrieval =
          by Layer.semantic_retrieval refl refl refl (RetrievalGone n) (retrieval_kept n)
            (retrieval_gone n out e a y t i);
      flags =
          by Layer.qa_traces refl refl refl (QueriesFlagged n) (flags_kept n)
            (queries_flagged n out e a y t i);
      summaries =
          by Layer.qa_traces_llm refl refl refl (SummariesGone n) (summaries_kept n)
            (summaries_gone n out e a y t i);
      hashes =
          by Layer.llm_usage_ledger refl refl refl (HashesGone n) (hashes_kept n)
            (hashes_gone n out e a y t i);
      actions =
          by Layer.butler_actions refl refl refl (ActionsStopped n) (actions_kept n)
            (actions_stopped n out e a y t i);
      asked =
          by Layer.butler_action_confirmations refl refl refl (NobodyAsked n) (asked_kept n)
            (nobody_asked n out e a y t i);
    })

-- Where another transaction holds the lock of one of the user's Butler actions, the cascade of a new `user`
-- event does not return.
pub locked_breaks :
    (out : Outside) (e : ForgetEvent) (w w' : Store) (n : ℕ) (a : String) (b : Action)
    → e.target_type ≡ TargetType.user
    → e.target_id ≡ some a
    → out.int a ≡ some n
    → e.cascade_status ≡ none
    → In b w.tables.butler.actions
    → b.requester_tg_id ≡ n
    → In b.id w.tables.butler.locked
    → process_one_event out e w ≢ (ok tt, w')
unfolding layer_func
locked_breaks out e w w' n a b y t i c j o l h =
    let (q, r, s) = process_ran out e w w' h in
    let k =
      established out e w q r y c Layer.butler_action_confirmations refl refl refl (NoneLocked n)
        (locks_kept n) (none_locked n out e a y t i) in
    let v : IsSwept (begin out e w).store.tables q.store.tables =
      subst (λ z. IsSwept (begin out e w).store.tables z.1.store.tables) r
        (run_layers-IsSwept out e cascade_layer_order (begin out e w)) in
    let u : IsSwept w.tables q.store.tables =
      subst (λ z. IsSwept z q.store.tables) (lock_event_tables out e w) v in
    let (d, m, g) = pointwise_to _ u.actions j in
    k d m (g.requester ∙ o) (
      subst (λ z. In z q.store.tables.butler.locked) (sym g.id)
        (subst (λ z. In b.id z) (sym u.locked) l))
