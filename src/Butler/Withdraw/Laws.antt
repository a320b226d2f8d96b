-- ===== src/Butler/Withdraw/Laws.antt =====
-- What cancelling and revoking do to the action's row, and who may do it.
use vibeshkoder.Base.{
  ◌≢◌, ==_neq, ==_iff, Option-cases, ℕ, ◌≡◌, refl, sym, ap, ◌∙◌, ◌&&◌, [], ◌∷◌, if◌then◌else◌,
  any-In, In-filter-In, In-update_where, ==_refl, true, false, some, List, any, find, map_option,
  find-update_where, any-find, In, In-find, filter, arith, Bool-cases, inl, inr, ◌==◌,
}
use vibeshkoder.Base.Exec.{ok, err, ◌>>◌}
use vibeshkoder.Butler.Repos.Users.{user_of}
use vibeshkoder.Butler.Model.{
  User, Action, ActionStatus, Confirmation, ConfStatus, Tag, ErrorClass, Error, World,
  is_cancellable, is_pending_conf,
}
use vibeshkoder.Butler.Repos.Actions
use vibeshkoder.Butler.Repos.Actions.{
  has_id, lock_row, update_status, set_status, apply_values, because, is_past, Values, breaks_check,
  needs_inverse, needs_no_ledger, meets_checks,
}
use vibeshkoder.Butler.Repos.Confirmations.{
  mark_all_for_action, mark_resolved, list_for_action, of_action, set_resolved,
}
use vibeshkoder.Butler.Repos.Confirmations
use vibeshkoder.Butler.Withdraw.{
  may_act, refetch, cancel_action, revoke_affected_user_consent, affected_row,
}

-- A status that wants neither an inverse nor a ledger row breaks no CHECK constraint.
pub closing_ok :
    (id : ℕ) (s : ActionStatus) (v : Values) (l : List Action)
    → needs_inverse s ≡ false
    → needs_no_ledger s ≡ true
    → any (breaks_check id s v) l ≡ false
unfolding meets_checks apply_values
closing_ok id s v [] h k = refl
closing_ok id s v (a ∷ l) h k = rw (h, k) (ground (arith, closing_ok id s v l h k))

-- `update_status` of a row that is there.
pub update_status_lem :
    (id : ℕ) (s : ActionStatus) (v : Values) (w : World) (a : Action)
    → find (has_id id) w.actions ≡ some a
    → needs_inverse s ≡ false
    → needs_no_ledger s ≡ true
    → update_status id s v w ≡ (ok tt, set_status id s v w)
unfolding update_status
update_status_lem id s v w a there h k =
    rw (any-find (has_id id) w.actions there, closing_ok id s v w.actions h k)

pub find-set_status :
    (id : ℕ) (s : ActionStatus) (v : Values) (w : World) (a : Action)
    → find (has_id id) w.actions ≡ some a
    → find (has_id id) (set_status id s v w).actions ≡ some (apply_values s v a)
unfolding set_status
find-set_status id s v w a there =
    find-update_where (has_id id) (apply_values s v) w.actions (unfold apply_values in λ x t. t)
    ∙ ap (map_option (apply_values s v)) there

-- the closing write of a method, and the row that it returns
pub close_lem :
    (id : ℕ) (s : ActionStatus) (v : Values) (w : World) (a b : Action)
    → find (has_id id) w.actions ≡ some a
    → needs_inverse s ≡ false
    → needs_no_ledger s ≡ true
    → (update_status id s v >> refetch id b) w ≡ (ok (apply_values s v a), set_status id s v w)
unfolding refetch Actions.get
close_lem id s v w a b there h k =
    rw (update_status_lem id s v w a there h k, find-set_status id s v w a there)

-- The user is neither the one who asked for the action nor an administrator by any row of the users.
pub record IsStranger (user : ℕ) (a : Action) (w : World) : Type 0 where
  pub not_requester : user ≢ a.requester_tg_id
  pub not_admin : (u : User) → In u w.users → u.id ≡ user → u.is_admin ≡ false

stranger_refused :
    (user : ℕ) (a : Action) (w : World) → IsStranger user a w → may_act a user w ≡ false
stranger_refused user a w h = elim (Option-cases (user_of user w)) [
  | inl e ↦ rw (==_neq user a.requester_tg_id (λ q. h.not_requester (sym q)), e) refl
  | inr (u, e) ↦
      let (i, t) = In-find (λ v. v.id == user) w.users e in
      rw (==_neq user a.requester_tg_id (λ q. h.not_requester (sym q)), e)
        (h.not_admin u i ((==_iff u.id user).0 t))
]

-- A stranger's cancellation of an action that is there changes nothing, whatever its status: it ends in
-- 'cascade_in_flight' where another transaction holds the lock of the action, else in 'forbidden'.
pub cancel_forbidden :
    (id user : ℕ) (w : World) (a : Action)
    → find (has_id id) w.actions ≡ some a
    → IsStranger user a w
    → cancel_action id user w ≡ (
      err (
          if any (λ i. i == id) w.locked
          then Error.butler ErrorClass.cascade_is_in_flight Tag.cascade_in_flight id
          else Error.butler ErrorClass.action_rejected Tag.forbidden id),
      w,
    )
unfolding cancel_action lock_row
cancel_forbidden id user w a there h = elim (Bool-cases (any (λ i. i == id) w.locked)) [
  | inl t ↦ rw t refl
  | inr t ↦ rw (t, there, stranger_refused user a w h) refl
]

no_pending_left :
    (id : ℕ) (w : World) (c : Confirmation)
    → In c (mark_all_for_action id ConfStatus.cancelled w).confirmations
    → c.action_id ≡ id
    → is_pending_conf c.status ≡ false
unfolding mark_all_for_action
no_pending_left id w c i e =
    let (d, j, q) =
      In-update_where (λ c. of_action id c && is_pending_conf c.status)
        (λ c. record c { status = ConfStatus.cancelled }) w.confirmations i in
    ground arith

-- A cancellation by the requester or an administrator of an action that waits or is confirmed
-- returns the row with the status 'cancelled' and its reason, the table holds that row, and no
-- confirmation row of the action is pending any more.
pub cancel_success :
    (id user : ℕ) (w : World) (a : Action)
    → any (λ i. i == id) w.locked ≡ false
    → find (has_id id) w.actions ≡ some a
    → may_act a user w ≡ true
    → is_cancellable a.status ≡ true
    → let done = apply_values ActionStatus.cancelled (because Tag.cancelled_by_user) a in
      let (r, w') = cancel_action id user w in
      (r ≡ ok done)
      × (find (has_id id) w'.actions ≡ some done)
      × ((c : Confirmation)
          → In c w'.confirmations
          → c.action_id ≡ id
          → is_pending_conf c.status ≡ false)
unfolding cancel_action lock_row
cancel_success id user w a free there allowed live =
    let marked = mark_all_for_action id ConfStatus.cancelled w in
    let v = because Tag.cancelled_by_user in
    let there' : find (has_id id) marked.actions ≡ some a = unfold mark_all_for_action in there in
    rw
      (
        free,
        there,
        allowed,
        live,
        close_lem id ActionStatus.cancelled v marked a a there' refl refl,
      )
      (
        refl,
        find-set_status id ActionStatus.cancelled v marked a there',
        unfold set_status in no_pending_left id w,
      )

-- A revocation by an affected user whose row is pending ends in 'cancelled' whatever the status of
-- the action was, also where it was 'expired', 'rejected' or 'cancelled' before.
pub revoke_overwrites :
    (id user : ℕ) (w : World) (a : Action) (c : Confirmation)
    → any (λ i. i == id) w.locked ≡ false
    → find (has_id id) w.actions ≡ some a
    → affected_row user (filter (of_action id) w.confirmations) ≡ some c
    → is_pending_conf c.status ≡ true
    → let done =
        apply_values ActionStatus.cancelled (because Tag.affected_user_consent_revoked) a in
      let (r, w') = revoke_affected_user_consent id user w in
      (r ≡ ok done) × (find (has_id id) w'.actions ≡ some done)
unfolding revoke_affected_user_consent lock_row list_for_action mark_resolved
revoke_overwrites id user w a c free there asked waits =
    let v = because Tag.affected_user_consent_revoked in
    let (i, t) = In-find _ (filter (of_action id) w.confirmations) asked in
    let known =
      any-In (Confirmations.has_id c.id) w.confirmations
        (In-filter-In (of_action id) w.confirmations i) (==_refl c.id) in
    let u = set_resolved c.id ConfStatus.revoked w.now w in
    let there' : find (has_id id) u.actions ≡ some a = unfold set_resolved in there in
    rw
      (
        free,
        there,
        asked,
        waits,
        known,
        close_lem id ActionStatus.cancelled v u a a there' refl refl,
      )
      (refl, find-set_status id ActionStatus.cancelled v u a there')
