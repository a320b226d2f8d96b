-- ===== src/Butler/Repos/Actions.antt =====
-- bot/db/repos/butler_action.py
use vibeshkoder.Base.{
  ℕ, ◌+◌, String, Bool, true, false, not, ◌||◌, is_some, str_eq, Option, none, some, List, [], ◌∷◌,
  ◌++◌, ◌&&◌, ◌==◌, leb, find, filter, any, update_where, if◌then◌else◌, or_keep, Json,
}
use vibeshkoder.Base.Exec.{Result, ok, err, gets}
use vibeshkoder.Butler.Model.{
  Action, ActionStatus, Tag, ErrorClass, Error, World, Method, is_pending_confirmation,
  is_unconfirmed,
}

-- Action.id == action_id
abbrev pub has_id : ℕ → Action → Bool
has_id action_id a = a.id == action_id

-- The row is inserted under the next primary key.
unfoldable pub create : (ℕ → Action) → Method Action
create row w =
    let a = row w.next_action in
    (ok a, record w { actions = w.actions ++ a ∷ []; next_action = w.next_action + 1 })

unfoldable pub get : ℕ → Method (Option Action)
get action_id = gets (λ w. find (has_id action_id) w.actions)

abbrev pub in_flight : ℕ → Error
in_flight action_id = Error.butler ErrorClass.cascade_is_in_flight Tag.cascade_in_flight action_id

abbrev pub found_row : ℕ → Option Action → Result Error Action
found_row action_id none = err (in_flight action_id)
found_row action_id (some a) = ok a

-- What `get_for_update` and its callers' `except OperationalError` come to: a row that is locked
-- (NOWAIT) and a row that is absent both end in `CascadeInFlightError`.
unfoldable pub lock_row : ℕ → Method Action
lock_row action_id w = (
  if any (λ i. i == action_id) w.locked
      then err (in_flight action_id)
      else found_row action_id (find (has_id action_id) w.actions),
  w,
)

-- the optional keyword arguments of `update_status`
pub record Values : Type 0 where
  pub rejection_reason : Option Tag
  pub error_code : Option String
  pub result_payload : Option Json
  pub inverse_op_payload : Option Json
  pub confirmed_at : Option ℕ
  pub executed_at : Option ℕ
  pub undone_at : Option ℕ

abbrev pub no_values : Values
no_values = record {
  rejection_reason = none;
  error_code = none;
  result_payload = none;
  inverse_op_payload = none;
  confirmed_at = none;
  executed_at = none;
  undone_at = none;
}

abbrev pub because : Tag → Values
because reason = record no_values { rejection_reason = some reason }

unfoldable pub apply_values : ActionStatus → Values → Action → Action
apply_values status v a = record a {
  status = status;
  rejection_reason = or_keep v.rejection_reason a.rejection_reason;
  error_code = or_keep v.error_code a.error_code;
  result_payload = or_keep v.result_payload a.result_payload;
  inverse_op_payload = or_keep v.inverse_op_payload a.inverse_op_payload;
  confirmed_at = or_keep v.confirmed_at a.confirmed_at;
  executed_at = or_keep v.executed_at a.executed_at;
  undone_at = or_keep v.undone_at a.undone_at;
}

-- the UPDATE of `update_status`
unfoldable pub set_status : ℕ → ActionStatus → Values → World → World
set_status action_id status v w = record w {
  actions = update_where (has_id action_id) (apply_values status v) w.actions;
}

-- status IN ('succeeded', 'undo_pending', 'undo_succeeded')
abbrev pub needs_inverse : ActionStatus → Bool
needs_inverse ActionStatus.succeeded = true
needs_inverse ActionStatus.undo_pending = true
needs_inverse ActionStatus.undo_succeeded = true
needs_inverse _ = false

-- status IN ('rejected', 'expired', 'cancelled')
abbrev pub needs_no_ledger : ActionStatus → Bool
needs_no_ledger ActionStatus.rejected = true
needs_no_ledger ActionStatus.expired = true
needs_no_ledger ActionStatus.cancelled = true
needs_no_ledger _ = false

-- ck_butler_actions_executed_has_inverse and ck_butler_actions_ledger_required_post_plan
unfoldable pub meets_checks : Action → Bool
meets_checks a =
    (not (needs_inverse a.status)
      || (is_some a.inverse_op_payload || str_eq a.rollback_kind "not_reversible"))
    && (needs_no_ledger a.status || is_some a.llm_usage_ledger_id)

abbrev pub breaks_check : ℕ → ActionStatus → Values → Action → Bool
breaks_check action_id status v a =
    has_id action_id a && not (meets_checks (apply_values status v a))

-- A row count of 0 raises LookupError, and a row against a CHECK constraint IntegrityError.
unfoldable pub update_status : ℕ → ActionStatus → Values → Method (Unit {0})
update_status action_id status v w =
    if not (any (has_id action_id) w.actions)
    then (err Error.lookup_error, w)
    else if any (breaks_check action_id status v) w.actions
    then (err Error.integrity_error, w)
    else (ok tt, set_status action_id status v w)

-- `expires_at <= cutoff`, which NULL does not satisfy
abbrev pub is_past : ℕ → Option ℕ → Bool
is_past cutoff none = Bool.false
is_past cutoff (some t) = leb t cutoff

-- the rows of `get_pending_past_ttl`, before its ORDER BY and LIMIT
unfoldable pub pending_past_ttl : ℕ → List Action → List Action
pending_past_ttl cutoff l =
    filter (λ a. is_pending_confirmation a.status && is_past cutoff a.expires_at) l

unfoldable pub mark_expired_past_ttl : ℕ → World → World
mark_expired_past_ttl cutoff w = record w {
  actions =
      update_where (λ a. is_unconfirmed a.status && is_past cutoff a.expires_at)
        (apply_values ActionStatus.expired (because Tag.ttl_expired)) w.actions;
}
