-- ===== src/Butler/Consent/Methods.antt =====
-- `cancel_action`, `expire_action` and `revoke_affected_user_consent` keep the invariant, whether they
-- return or raise, and so do the statements that the other methods share with them.
use vibeshkoder.Base.{
  ℕ, ◌≡◌, ◌≢◌, sym, ap, true, false, ◌&&◌, some, List, ==_iff, inl, inr, In, In-find, In-filter-In,
  any, find, filter, Bool-cases, arith,
}
use vibeshkoder.Base.Exec.{ok, bind_keeps, guard_keeps, if_keeps, continue_keeps, ◌>>◌}
use mathlib.Core.Bool.{false≢true}
use vibeshkoder.Butler.Repos.Confirmations
use vibeshkoder.Butler.Model.{
  Action, ActionStatus, Confirmation, ConfStatus, World, Tag, is_pending_conf, is_cancellable,
  is_pending_confirmation,
}
use vibeshkoder.Butler.Repos.Actions
use vibeshkoder.Butler.Repos.Actions.{
  has_id, Values, lock_row, found_row, update_status, set_status, is_past, because,
}
use vibeshkoder.Butler.Repos.Confirmations.{
  of_action, mark_all_for_action, mark_resolved, set_resolved, list_for_action, get_for_action_user,
}
use vibeshkoder.Butler.Withdraw.{
  cancel_action, revoke_affected_user_consent, expire_action, refetch, lock_or_absent, affected_row,
  revocable, may_act,
}
use vibeshkoder.Butler.Consent.Rows.{
  IsConsented, IsAgreed, is_committed, set_status-IsConsented, resolve-IsConsented,
  mark_all-IsConsented,
}

pub mark_resolved-IsConsented :
    (id : ℕ) (s : ConfStatus) (ts : ℕ) (w : World)
    → IsConsented w
    → IsConsented (set_resolved id s ts w)
    → IsConsented (mark_resolved id s ts w).1
unfolding mark_resolved
mark_resolved-IsConsented id s ts w h k =
    elim (Bool-cases (any (Confirmations.has_id id) w.confirmations)) [
      | inl e ↦ rw e k
      | inr e ↦ rw e h
    ]

-- The row that `lock_row` returns stands in the table under the id, and nothing has changed.
pub lock_row_ok :
    (id : ℕ) (w w' : World) (a : Action)
    → lock_row id w ≡ (ok a, w')
    → (w' ≡ w) × In a w.actions × (a.id ≡ id)
unfolding lock_row
lock_row_ok id w w' a e =
    let same : w ≡ w' = ap (λ p. p.1) e in
    let row : (lock_row id w).0 ≡ ok a = ap (λ p. p.0) e in
    let there : find (has_id id) w.actions ≡ some a = ground arith in
    let (i, t) = In-find (has_id id) w.actions there in (sym same, i, (==_iff a.id id).0 t)

pub update_status-IsConsented :
    (id : ℕ) (s : ActionStatus) (v : Values) (w : World)
    → IsConsented w
    → (is_committed s ≡ true → IsAgreed id w.confirmations)
    → IsConsented (update_status id s v w).1
unfolding update_status
update_status-IsConsented id s v w h agreement =
    let k = set_status-IsConsented id s v w h agreement in
    elim (Bool-cases (any (has_id id) w.actions)) [
      | inl e ↦ elim (Bool-cases (any (Actions.breaks_check id s v) w.actions)) [
        | inl f ↦ rw (e, f) h
        | inr f ↦ rw (e, f) k
      ]
      | inr e ↦ rw e h
    ]

pub lock_row-IsConsented : (id : ℕ) (w : World) → IsConsented w → IsConsented (lock_row id w).1
unfolding lock_row
lock_row-IsConsented id w h = h

pub idle : {id : ℕ} {cs : List Confirmation} → false ≡ true → IsAgreed id cs
idle e = absurd (false≢true e)

-- the write that ends a method, and the row read again
pub finish-IsConsented :
    (id : ℕ) (s : ActionStatus) (v : Values) (a : Action) (w : World)
    → IsConsented w
    → (is_committed s ≡ true → IsAgreed id w.confirmations)
    → IsConsented ((update_status id s v >> refetch id a) w).1
unfolding refetch Actions.get
finish-IsConsented id s v a w h agreement =
    bind_keeps IsConsented (λ _. refetch id a) (update_status id s v) w
      (update_status-IsConsented id s v w h agreement) λ _ w' e k. k

-- `cancel_action`
pub cancel_action-IsConsented :
    (id user : ℕ) (w : World) → IsConsented w → IsConsented (cancel_action id user w).1
unfolding cancel_action
cancel_action-IsConsented id user w h =
    bind_keeps IsConsented _ (lock_row id) w (lock_row-IsConsented id w h) λ a w' e h'.
      guard_keeps IsConsented (may_act a user w') _ _ w' h' λ authorized.
        guard_keeps IsConsented (is_cancellable a.status) _ _ w' h' λ cancellable.
          let h'' = mark_all-IsConsented w' h' id ConfStatus.cancelled in
          finish-IsConsented id ActionStatus.cancelled (because Tag.cancelled_by_user) a
            (mark_all_for_action id ConfStatus.cancelled w') h'' idle

-- `expire_action`
pub expire_action-IsConsented :
    (id : ℕ) (w : World) → IsConsented w → IsConsented (expire_action id w).1
unfolding expire_action
expire_action-IsConsented id w h = bind_keeps IsConsented _ (lock_or_absent id) w h λ a w' e h'.
    if_keeps IsConsented (is_pending_confirmation a.status && is_past w'.now a.expires_at) _ _ w'
      (λ due. finish-IsConsented id ActionStatus.expired (because Tag.ttl_expired) a w' h' idle)
      (λ not_due. h')

-- The row that a revocation finds: it stands in the table and is not confirmed.
revocable_ok :
    (id user : ℕ) (w : World) (c : Confirmation)
    → revocable id (affected_row user (filter (of_action id) w.confirmations)) ≡ ok c
    → In c w.confirmations × (c.status ≢ ConfStatus.confirmed)
revocable_ok id user w c e =
    let found : affected_row user (filter (of_action id) w.confirmations) ≡ some c = ground arith in
    let waits : is_pending_conf c.status ≡ true = ground arith in
    let (i, t) = In-find _ (filter (of_action id) w.confirmations) found in
    (In-filter-In (of_action id) w.confirmations i, λ q. ground arith)

-- `revoke_affected_user_consent`
pub revoke-IsConsented :
    (id user : ℕ) (w : World)
    → IsConsented w
    → IsConsented (revoke_affected_user_consent id user w).1
unfolding revoke_affected_user_consent list_for_action
revoke-IsConsented id user w h =
    bind_keeps IsConsented _ (lock_row id) w (lock_row-IsConsented id w h) λ a w' e h'.
      continue_keeps IsConsented _
        (revocable id (affected_row user (filter (of_action id) w'.confirmations))) w' h'
        λ c found.
          let (i, waits) = revocable_ok id user w' c found in
          bind_keeps IsConsented _ (mark_resolved c.id ConfStatus.revoked w'.now) w'
            (mark_resolved-IsConsented c.id ConfStatus.revoked w'.now w' h'
              (resolve-IsConsented w' h' c ConfStatus.revoked w'.now i waits))
            λ _ w'' e' k.
              finish-IsConsented id ActionStatus.cancelled
                (because Tag.affected_user_consent_revoked) a w'' k idle
