-- ===== src/Butler/Undo.antt =====
-- `ButlerService.execute_undo` of bot/services/butler.py and its helpers. The repositories of the
-- undo rows and of the card suggestions are those that the handlers wire.
use Prim.Native.String.{◌++◌}
use vibeshkoder.Base.{
  ℕ, ◌-◌, ◌*◌, String, Bool, true, false, not, ◌&&◌, ◌||◌, Option, none, some, List, [], ◌∷◌, any,
  all, find, ltb, leb, ◌==◌, if◌then◌else◌, str_eq, Json, str, get, get_raw, or_empty,
}
use vibeshkoder.Base.Exec.{pure, guard, gets, modify, ◌>>=◌, ◌>>◌}
use vibeshkoder.Butler.Model.{
  Action, ActionStatus, Confirmation, Invocation, UndoRow, UndoStatus, Tag, ErrorClass, Error,
  Effect, World, Method, is_undoable, is_affected_user, is_confirmed_conf, is_done, is_open,
}
use vibeshkoder.Butler.Services.{Services}
use vibeshkoder.Butler.Withdraw.{may_act}
use vibeshkoder.Butler.Repos.Actions.{lock_row, update_status, no_values}
use vibeshkoder.Butler.Repos.Confirmations.{list_for_action}
use vibeshkoder.Butler.Repos.Invocations
use vibeshkoder.Butler.Repos.Undos
use vibeshkoder.Butler.Repos.Undos.{of_invocation}

-- (status, error_kind, error_message)
pub record Outcome : Type 0 where
  pub status : UndoStatus
  pub error_kind : Option String
  pub error_message : Option String

abbrev pub done_as : UndoStatus → Outcome
done_as status = record { status = status; error_kind = none; error_message = none }

abbrev pub failed_as : String → String → Outcome
failed_as kind message = record {
  status = UndoStatus.failed;
  error_kind = some kind;
  error_message = some message;
}

-- inv_payload.get("rollback_kind", "not_reversible"); a value that is no text is an unknown kind
abbrev pub kind_of : Option Json → String
kind_of none = "not_reversible"
kind_of (some (str s)) = s
kind_of (some _) = ""

abbrev pub rollback_kind_of : Invocation → String
rollback_kind_of inv = kind_of (get_raw "rollback_kind" (or_empty inv.inverse_op_payload))

-- an affected user who has confirmed may undo as well
abbrev pub consented_by : ℕ → Confirmation → Bool
consented_by user_id c =
    c.confirmer_tg_id == user_id
    && (is_affected_user c.confirmation_role && is_confirmed_conf c.status)

abbrev pub row_is_done : Option UndoRow → Bool
row_is_done none = false
row_is_done (some u) = is_done u.status

-- the undo row of an invocation
abbrev pub undo_row_of : ℕ → List UndoRow → Invocation → Option UndoRow
undo_row_of action_id rows inv = find (of_invocation action_id inv.id) rows

abbrev pub has_done_row : ℕ → List UndoRow → Invocation → Bool
has_done_row action_id rows inv = row_is_done (undo_row_of action_id rows inv)

abbrev pub add_id : Option UndoRow → List ℕ → List ℕ
add_id none ids = ids
add_id (some u) ids = u.id ∷ ids

-- existing_undo_rows
abbrev pub done_ids : ℕ → List UndoRow → List Invocation → List ℕ
done_ids action_id rows [] = []
done_ids action_id rows (inv ∷ l) =
    add_id (undo_row_of action_id rows inv) (done_ids action_id rows l)

abbrev pub is_nonempty : List Invocation → Bool
is_nonempty [] = false
is_nonempty (i ∷ l) = true

-- `sorted(…, key=invocation_seq, reverse=True)`, which keeps the order of equal keys
abbrev pub place : Invocation → List Invocation → List Invocation
place i [] = i ∷ []
place i (j ∷ l) = if leb j.invocation_seq i.invocation_seq then i ∷ j ∷ l else j ∷ place i l

abbrev pub newest_first : List Invocation → List Invocation
newest_first [] = []
newest_first (i ∷ l) = place i (newest_first l)

-- the age in minutes is more than the limit; an executed_at that is NULL has no age
abbrev pub is_too_old : ℕ → ℕ → Option ℕ → Bool
is_too_old now limit none = false
is_too_old now limit (some t) = ltb (limit * 60_000_000) (now - t)

abbrev pub log : Effect → World → World
log e w = record w { effects = e ∷ w.effects }

-- `except Exception` of a Telegram call, with the exception's class name
abbrev pub telegram_outcome : Option String → Outcome
telegram_outcome none = done_as UndoStatus.succeeded
telegram_outcome (some class_name) = failed_as ("telegram_api_error:" ++ class_name) class_name

-- The effect is recorded where the call returned.
abbrev pub log_if_done : Effect → Option String → World → World
log_if_done e none w = log e w
log_if_done e (some class_name) w = w

module _ (sv : Services) where
  -- `_undo_delete_message` and `_undo_followup_correction`, which differ in the key of the message and
  -- in the text of a missing field
  abbrev pub delete_call : String → Option Json → Option Json → Method Outcome
  delete_call missing (some chat_id) (some message_id) = do
    answer ← gets (λ w. sv.delete_message w chat_id message_id)
    modify (log_if_done (Effect.deleted chat_id message_id) answer)
    pure (telegram_outcome answer)
  delete_call missing _ _ = pure (failed_as "missing_payload_fields" missing)

  abbrev pub edit_to : Json → Json → Option String → Method Outcome
  edit_to chat_id message_id none = pure (
      failed_as "fallback_prior_text_unavailable"
        "prior_text not in payload and message_versions lookup returned None")
  edit_to chat_id message_id (some text) = do
    answer ← gets (λ w. sv.edit_message_text w chat_id message_id text)
    modify (log_if_done (Effect.edited chat_id message_id text) answer)
    pure (telegram_outcome answer)

  -- `_undo_edit_message`: the text before the edit comes from the message's versions alone
  abbrev pub edit_call : Option Json → Option Json → Method Outcome
  edit_call (some chat_id) (some message_id) = do
    prior ← gets (λ w. sv.prior_text w chat_id message_id)
    edit_to chat_id message_id prior
  edit_call _ _ = pure (failed_as "missing_payload_fields" "chat_id or message_id missing")

  abbrev pub repo_outcome : Option String → Outcome
  repo_outcome none = done_as UndoStatus.succeeded
  repo_outcome (some class_name) = failed_as "repo_error" class_name

  -- `_undo_cancel_pending`
  abbrev pub dismiss_call : ℕ → ℕ → Method Outcome
  dismiss_call action_id user_id = do
    answer ← gets (λ w. sv.dismiss_by_undo w action_id user_id)
    modify (log_if_done (Effect.dismissed action_id user_id) answer)
    pure (repo_outcome answer)

  -- Step 7
  unfoldable pub roll_back_step : ℕ → ℕ → Invocation → Method Outcome
  roll_back_step action_id user_id inv =
      let payload = or_empty inv.inverse_op_payload in
      let kind = rollback_kind_of inv in
      if str_eq kind "not_reversible"
      then pure (done_as UndoStatus.skipped_not_reversible)
      else if str_eq kind "delete_message"
      then delete_call "chat_id or message_id missing from inverse_op_payload"
          (get "chat_id" payload) (get "message_id" payload)
      else if str_eq kind "edit_message"
      then edit_call (get "chat_id" payload) (get "message_id" payload)
      else if str_eq kind "followup_correction"
      then delete_call "chat_id or followup_message_id missing" (get "chat_id" payload)
          (get "followup_message_id" payload)
      else if str_eq kind "cancel_pending"
      then dismiss_call action_id user_id
      else pure (record {
        status = UndoStatus.skipped_not_reversible;
        error_kind = some "unknown_rollback_kind";
        error_message = some ("unknown rollback_kind=" ++ kind);
      })

  abbrev pub pending_undo : ℕ → ℕ → Invocation → ℕ → UndoRow
  pending_undo action_id user_id inv new_id = record {
    id = new_id;
    butler_action_id = action_id;
    butler_tool_invocation_id = inv.id;
    requester_user_id = user_id;
    rollback_kind = rollback_kind_of inv;
    status = UndoStatus.pending;
    error_kind = none;
    error_message = none;
  }

  abbrev pub found_or_create : ℕ → ℕ → Invocation → Option UndoRow → Method UndoRow
  found_or_create action_id user_id inv none = Undos.create (pending_undo action_id user_id inv)
  found_or_create action_id user_id inv (some u) = pure u

  -- The side effect of a row that is not done, then its final status.
  abbrev pub redo : ℕ → ℕ → Invocation → UndoRow → Method ℕ
  redo action_id user_id inv u = do
    out ← roll_back_step action_id user_id inv
    (if is_open u.status
        then Undos.update_status u.id out.status out.error_kind out.error_message
        else pure tt)
    pure u.id

  -- One round of the loop: a row that is done is not run again.
  unfoldable pub undo_one : ℕ → ℕ → Invocation → Method ℕ
  unfolding roll_back_step
  undo_one action_id user_id inv = do
    existing ← Undos.find_by_action_and_invocation action_id inv.id
    u ← found_or_create action_id user_id inv existing
    if is_done u.status then pure u.id else redo action_id user_id inv u

  unfoldable pub undo_all : ℕ → ℕ → List Invocation → Method (List ℕ)
  undo_all action_id user_id [] = pure []
  undo_all action_id user_id (inv ∷ l) = do
    i ← undo_one action_id user_id inv
    rest ← undo_all action_id user_id l
    pure (i ∷ rest)

  -- Steps 4b to 8
  unfoldable pub undo_now : ℕ → ℕ → Action → List Invocation → Method (List ℕ)
  undo_now action_id user_id a invocations = do
    now ← gets (λ w. w.now)
    guard (not (is_too_old now sv.settings.butler_undo_ttl_minutes a.executed_at))
        (Error.butler ErrorClass.action_error Tag.ttl_expired action_id)
    steps ← undo_all action_id user_id (newest_first invocations)
    update_status action_id ActionStatus.undone (record no_values { undone_at = some now })
    pure steps

  -- Returns the ids of the undo rows, which are the steps of the summary.
  unfoldable pub execute_undo : ℕ → ℕ → Method (List ℕ)
  execute_undo action_id user_id = do
    a ← lock_row action_id
    authorized ← gets (may_act a user_id)
    rows ← list_for_action action_id
    guard (authorized || any (consented_by user_id) rows)
        (Error.butler ErrorClass.action_rejected Tag.forbidden action_id)
    guard (is_undoable a.status) (Error.butler ErrorClass.action_error Tag.wrong_status action_id)
    invocations ← Invocations.list_for_action action_id
    undo_rows ← gets (λ w. w.undo_rows)
    if is_nonempty invocations && all (has_done_row action_id undo_rows) invocations
        then pure (done_ids action_id undo_rows invocations)
        else undo_now action_id user_id a invocations
