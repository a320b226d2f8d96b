-- ===== src/Butler/Confirm.antt =====
-- `ButlerService.confirm_action` of bot/services/butler.py
pub mod Accepted
use vibeshkoder.Base.{
  ℕ, String, Bool, false, not, ◌&&◌, Option, none, some, all, leb, ◌==◌, if◌then◌else◌, or_else,
  str_eq,
}
use vibeshkoder.Base.Exec.{Result, ok, err, pure, raise, guard, gets, ◌>>=◌, ◌>>◌}
use vibeshkoder.Butler.Model.{
  Action, ActionStatus, Confirmation, ConfStatus, Tag, ErrorClass, Error, Method,
  is_pending_confirmation, is_expired, is_expired_or_cancelled, is_confirmed_conf,
  is_source_forgotten,
}
use vibeshkoder.Butler.Services.{Services, EvidenceQuery}
use vibeshkoder.Butler.Plan.Guards.{build_evidence}
use vibeshkoder.Butler.Repos.Actions
use vibeshkoder.Butler.Repos.Actions.{lock_row, update_status, no_values, because, is_past}
use vibeshkoder.Butler.Repos.Confirmations.{mark_resolved, get_for_action_user, list_for_action}

abbrev pub failure : ErrorClass → Tag → ℕ → Error
failure = Error.butler

-- the check that a cascade has not redacted the action
abbrev pub is_redacted : Action → Bool
is_redacted a = is_expired_or_cancelled a.status && is_source_forgotten a.rejection_reason

abbrev pub is_resolved : Option Confirmation → Bool
is_resolved none = false
is_resolved (some c) = is_confirmed_conf c.status

-- Step 2: the errors of a status that is not 'pending_confirmation'
abbrev pub status_error : Action → ℕ → Error
status_error a action_id =
    if is_expired a.status
    then failure ErrorClass.action_expired Tag.expired action_id
    else failure ErrorClass.action_error Tag.wrong_status action_id

-- Step 2: an action past its time is expired here too
unfoldable pub check_ttl : Action → ℕ → Method (Unit {0})
check_ttl a action_id w =
    if is_past w.now a.expires_at
    then (do
      update_status action_id ActionStatus.expired (because Tag.ttl_expired)
      raise (failure ErrorClass.action_expired Tag.expired action_id))
        w
    else (ok tt, w)

-- Steps 1 and 2: what must hold of the action
unfoldable pub check_action : ℕ → ℕ → Method Action
unfolding check_ttl
check_action action_id user_id = do
  a ← lock_row action_id
  guard (not (is_redacted a)) (failure ErrorClass.action_error Tag.source_forgotten action_id)
  early ← get_for_action_user action_id user_id
  guard (not (is_resolved early))
      (failure ErrorClass.action_error Tag.already_confirmed_by_user action_id)
  guard (is_pending_confirmation a.status) (status_error a action_id)
  check_ttl a action_id
  pure a

-- Step 4: what must hold of the confirmation row
abbrev pub row_error : ℕ → String → ℕ → Option Confirmation → Result Error Confirmation
row_error action_id token now none = err (failure ErrorClass.action_error Tag.bad_token action_id)
row_error action_id token now (some c) =
    if is_confirmed_conf c.status
    then err (failure ErrorClass.action_error Tag.already_confirmed_by_user action_id)
    else if not (str_eq c.confirmation_token token)
    then err (failure ErrorClass.action_error Tag.bad_token action_id)
    else if leb c.expires_at now
    then err (failure ErrorClass.action_error Tag.expired action_id)
    else ok c

-- Steps 3 and 4
unfoldable pub check_row : ℕ → ℕ → String → Method Confirmation
check_row action_id user_id token = do
  found ← get_for_action_user action_id user_id
  λ w. (row_error action_id token w.now found, w)

-- the query of an action's evidence; none where a column is NULL, against the schema
abbrev pub stored_query : Action → Option ℕ → Option EvidenceQuery
stored_query a chat_id = both a.query a.visibility_scope
  where
    both : Option String → Option String → Option EvidenceQuery
    both (some q) (some scope) = some (record {
      requester_user_id = a.requester_tg_id;
      query = q;
      chat_id = chat_id;
      visibility_scope = scope;
    })
    both _ _ = none

-- action.chat_id if action.chat_id != 0 else None
abbrev pub chat_or_none : ℕ → Option ℕ
chat_or_none chat_id = if chat_id == 0 then none else some chat_id

module _ (sv : Services) where
  -- Step 6a to 6c
  abbrev pub settle : ℕ → Action → Option EvidenceQuery → Method Action
  settle action_id a none = raise (failure ErrorClass.action_error Tag.invariant_broken a.id)
  settle action_id a (some q) = do
    ctx ← build_evidence sv q
    if not (str_eq ctx.context_hash a.evidence_context_hash)
        then (do
          update_status action_id ActionStatus.rejected (because Tag.evidence_stale)
          raise (failure ErrorClass.evidence_is_stale Tag.evidence_stale action_id))
        else (do
          now ← gets (λ w. w.now)
          update_status action_id ActionStatus.confirmed
              (record no_values { confirmed_at = some now })
          updated ← Actions.get action_id
          pure (or_else updated a))

  -- Step 6: only the last confirmation settles the action
  unfoldable pub finish_confirm : ℕ → Action → Method Action
  unfolding build_evidence
  finish_confirm action_id a = do
    rows ← list_for_action action_id
    if all (λ c. is_confirmed_conf c.status) rows
        then settle action_id a (stored_query a (chat_or_none a.chat_id))
        else pure a

  unfoldable pub confirm_action : ℕ → ℕ → String → Method Action
  unfolding check_action check_row finish_confirm
  confirm_action action_id user_id token = do
    a ← check_action action_id user_id
    c ← check_row action_id user_id token
    now ← gets (λ w. w.now)
    mark_resolved c.id ConfStatus.confirmed now
    finish_confirm action_id a
