-- ===== src/Butler/Consent/Runs.antt =====
-- The invariant over every sequence of calls, and what it says of the effects.
use vibeshkoder.Base.{ℕ, ◌≡◌, ◌≢◌, refl, ◌⊎◌, inl, inr, true, false, List, [], ◌∷◌, In, arith}
use vibeshkoder.Base.Exec.{bind_keeps, guard_keeps}
use vibeshkoder.Butler.Model.{Action, Confirmation, ConfStatus, World, is_confirmed}
use vibeshkoder.Butler.Services.{Services}
use vibeshkoder.Butler.Execute.{execute_action}
use vibeshkoder.Butler.Plan.{plan_action}
use vibeshkoder.Butler.Confirm.{confirm_action}
use vibeshkoder.Butler.Withdraw.{cancel_action, revoke_affected_user_consent, expire_action}
use vibeshkoder.Butler.Undo.{execute_undo}
use vibeshkoder.Butler.Runs.{
  Call, plan, confirm, execute, cancel, revoke, undo, expire, environment, abandoned, call, run,
  init, is_committable, is_action_error, ended_keeps,
}
use vibeshkoder.Butler.Repos.Actions.{lock_row}
use vibeshkoder.Butler.Consent.Rows.{IsConsented, IsAgreed, is_committed}
use vibeshkoder.Butler.Consent.Methods.{
  cancel_action-IsConsented, revoke-IsConsented, expire_action-IsConsented, lock_row_ok,
}
use vibeshkoder.Butler.Consent.Confirming.{confirm_action-IsConsented}
use vibeshkoder.Butler.Consent.Carried.{execute_action-IsConsented}
use vibeshkoder.Butler.Consent.Storing.{plan_action-IsConsented}
use vibeshkoder.Butler.Consent.Undoing.{execute_undo-IsConsented}

module _ (sv : Services) where
  call-IsConsented : (w : World) (c : Call) → IsConsented w → IsConsented (call sv w c)
  unfolding call
  call-IsConsented w (plan r) h =
      ended_keeps IsConsented is_committable w (plan_action sv r w) h
        (plan_action-IsConsented sv r w h)
  call-IsConsented w (confirm id user token) h =
      ended_keeps IsConsented is_action_error w (confirm_action sv id user token w) h
        (confirm_action-IsConsented sv id user token w h)
  call-IsConsented w (execute id) h =
      ended_keeps IsConsented is_action_error w (execute_action sv id w) h
        (execute_action-IsConsented sv id w h)
  call-IsConsented w (cancel id user) h =
      ended_keeps IsConsented is_action_error w (cancel_action id user w) h
        (cancel_action-IsConsented id user w h)
  call-IsConsented w (revoke id user) h =
      ended_keeps IsConsented is_action_error w (revoke_affected_user_consent id user w) h
        (revoke-IsConsented id user w h)
  call-IsConsented w (undo id user) h =
      ended_keeps IsConsented (λ e. false) w (execute_undo sv id user w) h
        (execute_undo-IsConsented sv id user w h)
  call-IsConsented w (expire id) h =
      ended_keeps IsConsented is_action_error w (expire_action id w) h
        (expire_action-IsConsented id w h)
  call-IsConsented w (abandoned c) h = h
  call-IsConsented w (environment now locked users) h = h

  pub run-IsConsented : (w : World) (l : List Call) → IsConsented w → IsConsented (run sv w l)
  unfolding run
  run-IsConsented w [] h = h
  run-IsConsented w (c ∷ l) h = run-IsConsented (call sv w c) l (call-IsConsented w c h)

  pub init-IsConsented : IsConsented init
  init-IsConsented = record {
    action_ids = λ a i. elim i [ ];
    conf_ids = λ c i. elim i [ ];
    conf_refs = λ c i. elim i [ ];
    conf_unique = λ c d i j e. elim i [ ];
    agreed = λ a i t. elim i [ ];
  }

  -- After any sequence of calls from the empty database, every confirmation row of an action that
  -- is confirmed, executing, succeeded, failed in execution or undone is itself confirmed.
  pub run-agreed :
      (calls : List Call) (a : Action) (c : Confirmation)
      → In a (run sv init calls).actions
      → is_committed a.status ≡ true
      → In c (run sv init calls).confirmations
      → c.action_id ≡ a.id
      → c.status ≡ ConfStatus.confirmed
  run-agreed calls a c i t j e = (run-IsConsented init calls init-IsConsented).agreed a i t c j e

  effects_or_agreed :
      (id : ℕ) (w : World)
      → IsConsented w
      → ((execute_action sv id w).1.effects ≡ w.effects) ⊎ IsAgreed id w.confirmations
  unfolding execute_action
  effects_or_agreed id w h =
      let P : World → Type 0 = λ u. (u.effects ≡ w.effects) ⊎ IsAgreed id w.confirmations in
      bind_keeps P _ (lock_row id) w (unfold lock_row in inl refl) λ a w' e k.
        guard_keeps P (is_confirmed a.status) _ _ w' k λ t.
          let (same, i, q) = lock_row_ok id w w' a e in
          let committed : is_committed a.status ≡ true = ground arith in
          inr (rw (← q) (h.agreed a i committed))

  -- After any sequence of calls, an execution that has any effect outside (a tool that runs) is of
  -- an action all of whose confirmation rows are confirmed at that moment.
  pub effects_need_consent :
      (calls : List Call) (id : ℕ) (c : Confirmation)
      → let w = run sv init calls in
        (execute_action sv id w).1.effects ≢ w.effects
        → In c w.confirmations
        → c.action_id ≡ id
        → c.status ≡ ConfStatus.confirmed
  effects_need_consent calls id c changed j e =
      elim (effects_or_agreed id (run sv init calls)
        (run-IsConsented init calls init-IsConsented)) [
          | inl same ↦ absurd (changed same)
          | inr agreed ↦ agreed c j e
        ]
