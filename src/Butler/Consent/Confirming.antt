-- ===== src/Butler/Consent/Confirming.antt =====
-- `confirm_action` keeps the invariant: it confirms an action only if everybody has confirmed.
use vibeshkoder.Base.{
  ℕ, ◌≡◌, true, not, Option, none, some, List, ==_iff, In-filter, all-In, all, filter, inl, inr,
  Bool-cases, or_else, arith, String, str_eq,
}
use vibeshkoder.Base.Exec.{pure, raise, bind_keeps, guard_keeps, if_keeps, continue_keeps, ◌>>=◌}
use vibeshkoder.Butler.Model.{
  Action, ActionStatus, Confirmation, ConfStatus, World, Tag, ErrorClass, is_confirmed_conf,
  is_pending_confirmation,
}
use vibeshkoder.Butler.Services.{Services, EvidenceQuery}
use vibeshkoder.Butler.Plan.Guards.{build_evidence, built}
use vibeshkoder.Butler.Confirm.{
  confirm_action, check_action, check_ttl, check_row, finish_confirm, settle, is_redacted,
  is_resolved, stored_query, chat_or_none, failure,
}
use vibeshkoder.Butler.Repos.Actions
use vibeshkoder.Butler.Repos.Actions.{lock_row, update_status, no_values, because, is_past}
use vibeshkoder.Butler.Repos.Confirmations.{
  of_action, mark_resolved, list_for_action, get_for_action_user,
}
use vibeshkoder.Butler.Consent.Rows.{IsConsented, IsAgreed, confirm-IsConsented}
use vibeshkoder.Butler.Consent.Methods.{
  lock_row-IsConsented, update_status-IsConsented, mark_resolved-IsConsented, idle,
}

-- The test of the code over the rows of the action says that everybody has confirmed.
pub all_confirmed-IsAgreed :
    (id : ℕ) (cs : List Confirmation)
    → all (λ c. is_confirmed_conf c.status) (filter (of_action id) cs) ≡ true
    → IsAgreed id cs
all_confirmed-IsAgreed id cs h c i e =
    let t : is_confirmed_conf c.status ≡ true =
      all-In (λ d. is_confirmed_conf d.status) (filter (of_action id) cs) h
        (In-filter (of_action id) cs i ((==_iff c.action_id id).1 e)) in
    ground arith

check_ttl-IsConsented :
    (a : Action) (id : ℕ) (w : World) → IsConsented w → IsConsented (check_ttl a id w).1
unfolding check_ttl
check_ttl-IsConsented a id w h = elim (Bool-cases (is_past w.now a.expires_at)) [
  | inl e ↦ rw e (
      bind_keeps IsConsented (λ _. raise (failure ErrorClass.action_expired Tag.expired id))
        (update_status id ActionStatus.expired (because Tag.ttl_expired)) w
        (update_status-IsConsented id ActionStatus.expired (because Tag.ttl_expired) w h idle)
        λ _ w' e' k. k)
  | inr e ↦ rw e h
]

check_action-IsConsented :
    (id user : ℕ) (w : World) → IsConsented w → IsConsented (check_action id user w).1
unfolding check_action
check_action-IsConsented id user w h =
    bind_keeps IsConsented _ (lock_row id) w (lock_row-IsConsented id w h) λ a w' e h'.
      guard_keeps IsConsented (not (is_redacted a)) _ _ w' h' λ _.
        bind_keeps IsConsented _ (get_for_action_user id user) w' (unfold get_for_action_user in h')
          λ early u eu hu. guard_keeps IsConsented (not (is_resolved early)) _ _ u hu λ _.
            guard_keeps IsConsented (is_pending_confirmation a.status) _ _ u hu λ _.
              bind_keeps IsConsented (λ _. pure a) (check_ttl a id) u
                (check_ttl-IsConsented a id u hu) λ _ v ev k. k

module _ (sv : Services) where
  settle-IsConsented :
      (id : ℕ) (a : Action) (q : Option EvidenceQuery) (w : World)
      → IsConsented w
      → IsAgreed id w.confirmations
      → IsConsented (settle sv id a q w).1
  unfolding build_evidence Actions.get
  settle-IsConsented id a none w h agreement = h
  settle-IsConsented id a (some q) w h agreement =
      continue_keeps IsConsented _ (built (sv.build_butler_evidence w q)) w h λ ctx e.
        if_keeps IsConsented (not (str_eq ctx.context_hash a.evidence_context_hash)) _ _ w
          (λ stale.
            bind_keeps IsConsented
              (λ _. raise (failure ErrorClass.evidence_is_stale Tag.evidence_stale id))
              (update_status id ActionStatus.rejected (because Tag.evidence_stale)) w
              (update_status-IsConsented id ActionStatus.rejected (because Tag.evidence_stale) w h
                idle)
              λ _ u e' k. k)
          (λ fresh.
            let v = record no_values { confirmed_at = some w.now } in
            bind_keeps IsConsented (λ _. Actions.get id >>= λ updated. pure (or_else updated a))
              (update_status id ActionStatus.confirmed v) w
              (update_status-IsConsented id ActionStatus.confirmed v w h (λ _. agreement))
              λ _ u e' k. k)

  finish_confirm-IsConsented :
      (id : ℕ) (a : Action) (w : World) → IsConsented w → IsConsented (finish_confirm sv id a w).1
  unfolding finish_confirm list_for_action
  finish_confirm-IsConsented id a w h =
      if_keeps IsConsented
        (all (λ c. is_confirmed_conf c.status) (filter (of_action id) w.confirmations)) _ _ w
        (λ t.
          settle-IsConsented id a (stored_query a (chat_or_none a.chat_id)) w h
            (all_confirmed-IsAgreed id w.confirmations t))
        (λ _. h)

  -- `confirm_action`
  pub confirm_action-IsConsented :
      (id user : ℕ) (token : String) (w : World)
      → IsConsented w
      → IsConsented (confirm_action sv id user token w).1
  unfolding confirm_action
  confirm_action-IsConsented id user token w h =
      bind_keeps IsConsented _ (check_action id user) w (check_action-IsConsented id user w h)
        λ a w' e h'.
          bind_keeps IsConsented _ (check_row id user token) w'
            (unfold check_row get_for_action_user in h')
            λ c u e' h''.
              bind_keeps IsConsented (λ _. finish_confirm sv id a)
                (mark_resolved c.id ConfStatus.confirmed u.now) u
                (mark_resolved-IsConsented c.id ConfStatus.confirmed u.now u h''
                  (confirm-IsConsented u h'' c.id u.now))
                λ _ v e'' k. finish_confirm-IsConsented id a v k
