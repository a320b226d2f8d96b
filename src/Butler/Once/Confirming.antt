-- ===== src/Butler/Once/Confirming.antt =====
-- `confirm_action` confirms no action that cannot be executed any more.
use vibeshkoder.Base.{
  ℕ, ◌≡◌, ◌≢◌, refl, ◌∙◌, not, Option, none, some, String, inl, inr, all, filter, Bool-cases, arith,
  or_else, str_eq,
}
use vibeshkoder.Base.Exec.{
  ok, pure, raise, bind_keeps, guard_keeps, if_keeps, continue_keeps, ◌>>=◌,
}
use vibeshkoder.Butler.Model.{
  Action, ActionStatus, ConfStatus, World, Tag, ErrorClass, is_confirmed_conf,
  is_pending_confirmation,
}
use vibeshkoder.Butler.Services.{Services, EvidenceQuery}
use vibeshkoder.Butler.Repos.Actions
use vibeshkoder.Butler.Repos.Actions.{lock_row, update_status, no_values, because, is_past}
use vibeshkoder.Butler.Repos.Confirmations.{
  of_action, mark_resolved, list_for_action, get_for_action_user,
}
use vibeshkoder.Butler.Plan.Guards.{build_evidence, built}
use vibeshkoder.Butler.Confirm.{
  confirm_action, check_action, check_ttl, check_row, finish_confirm, settle, is_redacted,
  is_resolved, stored_query, chat_or_none, failure,
}
use vibeshkoder.Butler.Confirm.Accepted.{check_action_ok}
use vibeshkoder.Butler.Once.Rows.{IsSpent, update_status-IsSpent}
use vibeshkoder.Butler.Once.Methods.{lock_row-IsSpent, mark_resolved-IsSpent}

module _ (spent_id : ℕ) where
  abbrev P : World → Type 0
  P = IsSpent spent_id

  other_action :
      (id user : ℕ) (w w' : World) (a : Action)
      → P w
      → check_action id user w ≡ (ok a, w')
      → id ≢ spent_id
  other_action id user w w' a h e same =
      let (_, i, q, waits, _) = check_action_ok id user w w' a e in
      let t = h.spent a i (q ∙ same) in ground arith

  check_ttl-IsSpent : (a : Action) (id : ℕ) (w : World) → P w → P (check_ttl a id w).1
  unfolding check_ttl
  check_ttl-IsSpent a id w h = elim (Bool-cases (is_past w.now a.expires_at)) [
    | inl e ↦ rw e (
        bind_keeps P (λ _. raise (failure ErrorClass.action_expired Tag.expired id))
          (update_status id ActionStatus.expired (because Tag.ttl_expired)) w
          (update_status-IsSpent spent_id id ActionStatus.expired (because Tag.ttl_expired) w
            (inl refl) h)
          λ _ u e' k. k)
    | inr e ↦ rw e h
  ]

  check_action-IsSpent : (id user : ℕ) (w : World) → P w → P (check_action id user w).1
  unfolding check_action
  check_action-IsSpent id user w h =
      bind_keeps P _ (lock_row id) w (lock_row-IsSpent spent_id id w h) λ a u e k.
        guard_keeps P (not (is_redacted a)) _ _ u k λ _.
          bind_keeps P _ (get_for_action_user id user) u (unfold get_for_action_user in k)
            λ early v e' m. guard_keeps P (not (is_resolved early)) _ _ v m λ _.
              guard_keeps P (is_pending_confirmation a.status) _ _ v m λ _.
                bind_keeps P (λ _. pure a) (check_ttl a id) v (check_ttl-IsSpent a id v m)
                  λ _ x e'' n. n

  module _ (sv : Services) (id : ℕ) (other : id ≢ spent_id) where
    settle-IsSpent :
        (a : Action) (q : Option EvidenceQuery) (w : World) → P w → P (settle sv id a q w).1
    unfolding build_evidence Actions.get
    settle-IsSpent a none w h = h
    settle-IsSpent a (some q) w h =
        continue_keeps P _ (built (sv.build_butler_evidence w q)) w h λ ctx e.
          if_keeps P (not (str_eq ctx.context_hash a.evidence_context_hash)) _ _ w
            (λ _.
              bind_keeps P (λ _. raise (failure ErrorClass.evidence_is_stale Tag.evidence_stale id))
                (update_status id ActionStatus.rejected (because Tag.evidence_stale)) w
                (update_status-IsSpent spent_id id ActionStatus.rejected
                  (because Tag.evidence_stale) w (inr other) h)
                λ _ u e' k. k)
            (λ _.
              let v = record no_values { confirmed_at = some w.now } in
              bind_keeps P (λ _. Actions.get id >>= λ updated. pure (or_else updated a))
                (update_status id ActionStatus.confirmed v) w
                (update_status-IsSpent spent_id id ActionStatus.confirmed v w (inr other) h)
                λ _ u e' k. k)

    finish_confirm-IsSpent : (a : Action) (w : World) → P w → P (finish_confirm sv id a w).1
    unfolding finish_confirm list_for_action
    finish_confirm-IsSpent a w h =
        if_keeps P (all (λ c. is_confirmed_conf c.status) (filter (of_action id) w.confirmations)) _
          _ w (λ _. settle-IsSpent a (stored_query a (chat_or_none a.chat_id)) w h) (λ _. h)

  pub confirm_action-IsSpent :
      (sv : Services) (id user : ℕ) (token : String) (w : World)
      → P w
      → P (confirm_action sv id user token w).1
  unfolding confirm_action
  confirm_action-IsSpent sv id user token w h =
      bind_keeps P _ (check_action id user) w (check_action-IsSpent id user w h) λ a u e k.
        bind_keeps P _ (check_row id user token) u (unfold check_row get_for_action_user in k)
          λ c v e' m.
            bind_keeps P (λ _. finish_confirm sv id a)
              (mark_resolved c.id ConfStatus.confirmed v.now) v
              (mark_resolved-IsSpent spent_id c.id ConfStatus.confirmed v.now v m)
              λ _ x e'' n. finish_confirm-IsSpent sv id (other_action id user w u a h e) a x n
