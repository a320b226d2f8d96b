-- ===== src/Butler/Once/Methods.antt =====
-- Every method of the service leaves an action that cannot be executed any more as it is.
use vibeshkoder.Base.{
  ℕ, ◌*◌, ◌+◌, refl, ◌&&◌, ◌||◌, String, List, [], ◌∷◌, inl, inr, any, all, filter, Bool-cases,
  ◌==◌,
}
use vibeshkoder.Base.Exec.{bind_keeps, guard_keeps, if_keeps, continue_keeps}
use vibeshkoder.Butler.Model.{
  ActionStatus, ConfStatus, World, Tag, Role, Plan, Invocation, is_cancellable,
  is_pending_confirmation, is_undoable, is_confirmed,
}
use vibeshkoder.Butler.Services.{Services, EvidenceContext}
use vibeshkoder.Butler.Repos.Actions
use vibeshkoder.Butler.Repos.Actions.{has_id, lock_row, update_status, no_values, because, is_past}
use vibeshkoder.Butler.Repos.Confirmations
use vibeshkoder.Butler.Repos.Confirmations.{
  of_action, mark_all_for_action, mark_resolved, set_resolved, list_for_action, get_for_action_user,
}
use vibeshkoder.Butler.Repos.Invocations
use vibeshkoder.Butler.Plan.Guards.{Request, rejected_row}
use vibeshkoder.Butler.Plan.{
  plan_action, plan_row, pending_row, store_plan, ask_affected, confirmation_row, affected_users,
  preview_hash,
}
use vibeshkoder.Butler.Withdraw.{
  cancel_action, revoke_affected_user_consent, expire_action, lock_or_absent, affected_row,
  revocable, may_act,
}
use vibeshkoder.Butler.Execute.{execute_action}
use vibeshkoder.Butler.Undo.{execute_undo, consented_by, is_nonempty, has_done_row}
use vibeshkoder.Butler.Consent.Executing.{execute_locked_keeps}
use vibeshkoder.Butler.Consent.Planning.{plan_action_keeps}
use vibeshkoder.Butler.Consent.Undoing.{undo_now_keeps}
use vibeshkoder.Butler.Once.Rows.{
  IsSpent, create-IsSpent, finish-IsSpent, IsSpent-IsFrame, IsSpent-IsPlanFrame,
}

module _ (spent_id : ℕ) where
  abbrev P : World → Type 0
  P = IsSpent spent_id

  pub lock_row-IsSpent : (id : ℕ) (w : World) → P w → P (lock_row id w).1
  unfolding lock_row
  lock_row-IsSpent id w h = h

  pub mark_resolved-IsSpent :
      (i : ℕ) (s : ConfStatus) (ts : ℕ) (w : World) → P w → P (mark_resolved i s ts w).1
  unfolding mark_resolved set_resolved
  mark_resolved-IsSpent i s ts w h =
      elim (Bool-cases (any (Confirmations.has_id i) w.confirmations)) [
        | inl e ↦ rw e (record { known = h.known; spent = h.spent })
        | inr e ↦ rw e h
      ]

  pub cancel_action-IsSpent : (id user : ℕ) (w : World) → P w → P (cancel_action id user w).1
  unfolding cancel_action mark_all_for_action
  cancel_action-IsSpent id user w h =
      bind_keeps P _ (lock_row id) w (lock_row-IsSpent id w h) λ a u e k.
        guard_keeps P (may_act a user u) _ _ u k λ _.
          guard_keeps P (is_cancellable a.status) _ _ u k λ _.
            finish-IsSpent spent_id id ActionStatus.cancelled (because Tag.cancelled_by_user) a
              (mark_all_for_action id ConfStatus.cancelled u) refl
              (record { known = k.known; spent = k.spent })

  pub expire_action-IsSpent : (id : ℕ) (w : World) → P w → P (expire_action id w).1
  unfolding expire_action
  expire_action-IsSpent id w h = bind_keeps P _ (lock_or_absent id) w h λ a u e k.
      if_keeps P (is_pending_confirmation a.status && is_past u.now a.expires_at) _ _ u
        (λ _. finish-IsSpent spent_id id ActionStatus.expired (because Tag.ttl_expired) a u refl k)
        (λ _. k)

  pub revoke-IsSpent :
      (id user : ℕ) (w : World) → P w → P (revoke_affected_user_consent id user w).1
  unfolding revoke_affected_user_consent list_for_action
  revoke-IsSpent id user w h = bind_keeps P _ (lock_row id) w (lock_row-IsSpent id w h) λ a u e k.
      continue_keeps P _ (revocable id (affected_row user (filter (of_action id) u.confirmations)))
        u k
        λ c found.
          bind_keeps P _ (mark_resolved c.id ConfStatus.revoked u.now) u
            (mark_resolved-IsSpent c.id ConfStatus.revoked u.now u k)
            λ _ v e' m.
              finish-IsSpent spent_id id ActionStatus.cancelled
                (because Tag.affected_user_consent_revoked) a v refl m

  module _ (sv : Services) where
    pub execute_action-IsSpent : (id : ℕ) (w : World) → P w → P (execute_action sv id w).1
    unfolding execute_action
    execute_action-IsSpent id w h =
        bind_keeps P _ (lock_row id) w (lock_row-IsSpent id w h) λ a u e k.
          guard_keeps P (is_confirmed a.status) _ _ u k
            λ _. execute_locked_keeps sv id P (IsSpent-IsFrame spent_id id) a u k

    pub execute_undo-IsSpent : (id user : ℕ) (w : World) → P w → P (execute_undo sv id user w).1
    unfolding execute_undo list_for_action Invocations.list_for_action
    execute_undo-IsSpent id user w h =
        bind_keeps P _ (lock_row id) w (lock_row-IsSpent id w h) λ a u e k.
          guard_keeps P
            (may_act a user u || any (consented_by user) (filter (of_action id) u.confirmations)) _
            _ u k
            λ _. guard_keeps P (is_undoable a.status) _ _ u k λ _.
              let l = filter (λ (i : Invocation). i.action_id == id) u.invocations in
              if_keeps P (is_nonempty l && all (has_done_row id u.undo_rows) l) _ _ u (λ _. k)
                (λ _. undo_now_keeps sv id user P (IsSpent-IsFrame spent_id id) a l u k)

    ask_affected-IsSpent :
        (id : ℕ) (preview : String) (expires : ℕ) (l : List ℕ) (w : World)
        → P w
        → P (ask_affected sv id preview expires l w).1
    unfolding ask_affected Confirmations.create
    ask_affected-IsSpent id preview expires [] w h = h
    ask_affected-IsSpent id preview expires (user ∷ l) w h =
        ask_affected-IsSpent id preview expires l
          (Confirmations.create (confirmation_row sv id user Role.affected_user preview expires)
            w).1
          (record { known = h.known; spent = h.spent })

    module _ (r : Request) (ctx : EvidenceContext) (plan : Plan) (ledger_id : ℕ) where
      store_plan-IsSpent : (w : World) → P w → P (store_plan sv r ctx plan ledger_id w).1
      unfolding store_plan Actions.create Confirmations.create plan_row rejected_row
      store_plan-IsSpent w h =
          let expires = w.now + sv.settings.butler_confirmation_ttl_seconds * 1_000_000 in
          let preview = preview_hash sv plan in
          let id = w.next_action in
          let row = confirmation_row sv id r.requester_user_id Role.requester preview expires in
          let created = (Actions.create (pending_row sv r ctx plan ledger_id w.now) w).1 in
          let asked = (Confirmations.create row created).1 in
          let k = create-IsSpent spent_id (pending_row sv r ctx plan ledger_id w.now) w h refl in
          let users = affected_users r.requester_user_id plan.actions [] in
          bind_keeps P _ (ask_affected sv id preview expires users) asked
            (ask_affected-IsSpent id preview expires users asked
              (record { known = k.known; spent = k.spent }))
            λ _ u e m. m

    pub plan_action-IsSpent : (r : Request) (w : World) → P w → P (plan_action sv r w).1
    plan_action-IsSpent r w h =
        plan_action_keeps P (IsSpent-IsPlanFrame spent_id) sv r w (store_plan-IsSpent r) h
