-- ===== src/Butler/Withdraw.antt =====
-- `cancel_action`, `revoke_affected_user_consent` and `expire_action` of bot/services/butler.py
pub mod Laws
pub mod Expiry
pub mod Sweep
use vibeshkoder.Base.{
  ℕ, Bool, ◌&&◌, ◌||◌, Option, none, some, List, find, any, ◌==◌, if◌then◌else◌, or_else,
}
use vibeshkoder.Base.Exec.{Result, ok, err, pure, guard, gets, modify, ◌>>=◌, ◌>>◌}
use vibeshkoder.Butler.Model.{
  Action, ActionStatus, Confirmation, ConfStatus, Tag, ErrorClass, Error, World, Method,
  is_pending_confirmation, is_cancellable, is_affected_user, is_pending_conf,
}
use vibeshkoder.Butler.Repos.Users.{user_of, admin_user}
use vibeshkoder.Butler.Repos.Actions
use vibeshkoder.Butler.Repos.Actions.{lock_row, update_status, because, is_past, has_id, found_row}
use vibeshkoder.Butler.Repos.Confirmations.{mark_all_for_action, mark_resolved, list_for_action}

-- the requester, or an administrator by the users' table
abbrev pub may_act : Action → ℕ → World → Bool
may_act a user_id w = user_id == a.requester_tg_id || admin_user (user_of user_id w)

unfoldable pub refetch : ℕ → Action → Method Action
refetch action_id a = do updated ← Actions.get action_id; pure (or_else updated a)

unfoldable pub cancel_action : ℕ → ℕ → Method Action
unfolding refetch
cancel_action action_id user_id = do
  a ← lock_row action_id
  authorized ← gets (may_act a user_id)
  guard authorized (Error.butler ErrorClass.action_rejected Tag.forbidden action_id)
  guard (is_cancellable a.status) (Error.butler ErrorClass.action_error Tag.wrong_status action_id)
  modify (mark_all_for_action action_id ConfStatus.cancelled)
  update_status action_id ActionStatus.cancelled (because Tag.cancelled_by_user)
  refetch action_id a

-- the first row of the user in the role 'affected_user'
abbrev pub affected_row : ℕ → List Confirmation → Option Confirmation
affected_row user_id =
    find (λ c. c.confirmer_tg_id == user_id && is_affected_user c.confirmation_role)

abbrev pub revocable : ℕ → Option Confirmation → Result Error Confirmation
revocable action_id none = err (Error.butler ErrorClass.action_error Tag.not_found action_id)
revocable action_id (some c) =
    if is_pending_conf c.status
    then ok c
    else err (Error.butler ErrorClass.action_error Tag.wrong_status action_id)

-- The status of the action is not looked at.
unfoldable pub revoke_affected_user_consent : ℕ → ℕ → Method Action
unfolding refetch
revoke_affected_user_consent action_id user_id = do
  a ← lock_row action_id
  rows ← list_for_action action_id
  c ← (λ w. (revocable action_id (affected_row user_id rows), w))
  now ← gets (λ w. w.now)
  mark_resolved c.id ConfStatus.revoked now
  update_status action_id ActionStatus.cancelled (because Tag.affected_user_consent_revoked)
  refetch action_id a

-- Here a lock that is held raises as it is, and an absent row is 'not_found'.
abbrev pub lock_or_absent : ℕ → Method Action
lock_or_absent action_id w = (
  if any (λ i. i == action_id) w.locked
      then err Error.lock_not_available
      else present (find (has_id action_id) w.actions),
  w,
)
  where
    present : Option Action → Result Error Action
    present none = err (Error.butler ErrorClass.action_error Tag.not_found action_id)
    present (some a) = ok a

-- An action that waits and is past its time expires; any other is returned as it is.
unfoldable pub expire_action : ℕ → Method Action
unfolding refetch
expire_action action_id = do
  a ← lock_or_absent action_id
  now ← gets (λ w. w.now)
  if is_pending_confirmation a.status && is_past now a.expires_at
      then (do
        update_status action_id ActionStatus.expired (because Tag.ttl_expired)
        refetch action_id a)
      else pure a
