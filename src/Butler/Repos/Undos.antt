-- ===== src/Butler/Repos/Undos.antt =====
-- bot/db/repos/butler_undo_invocation.py
use vibeshkoder.Base.{
  ℕ, ◌+◌, String, Bool, ◌||◌, str_eq, Option, [], ◌∷◌, ◌++◌, ◌&&◌, ◌==◌, find, any, update_where,
  if◌then◌else◌,
}
use vibeshkoder.Base.Exec.{ok, err, gets}
use vibeshkoder.Butler.Model.{UndoRow, UndoStatus, Error, Method}

-- ck_butler_undo_invocations_rollback_kind
abbrev pub is_rollback_kind : String → Bool
is_rollback_kind k =
    str_eq k "not_reversible"
    || (str_eq k "delete_message"
        || (str_eq k "edit_message"
            || (str_eq k "followup_correction" || str_eq k "cancel_pending")))

-- A row of another kind is refused by the CHECK constraint.
unfoldable pub create : (ℕ → UndoRow) → Method UndoRow
create row w =
    let u = row w.next_undo in
    if is_rollback_kind u.rollback_kind
    then (ok u, record w { undo_rows = w.undo_rows ++ u ∷ []; next_undo = w.next_undo + 1 })
    else (err Error.integrity_error, w)

abbrev pub of_invocation : ℕ → ℕ → UndoRow → Bool
of_invocation action_id invocation_id u =
    u.butler_action_id == action_id && u.butler_tool_invocation_id == invocation_id

unfoldable pub find_by_action_and_invocation : ℕ → ℕ → Method (Option UndoRow)
find_by_action_and_invocation action_id invocation_id =
    gets (λ w. find (of_invocation action_id invocation_id) w.undo_rows)

abbrev pub has_id : ℕ → UndoRow → Bool
has_id undo_invocation_id u = u.id == undo_invocation_id

-- The errors are written also when they are None, which clears those of an earlier attempt.
abbrev pub finish : UndoStatus → Option String → Option String → UndoRow → UndoRow
finish status error_kind error_message u = record u {
  status = status;
  error_kind = error_kind;
  error_message = error_message;
}

-- A row count of 0 raises LookupError.
unfoldable pub update_status : ℕ → UndoStatus → Option String → Option String → Method (Unit {0})
update_status undo_invocation_id status error_kind error_message w =
    if any (has_id undo_invocation_id) w.undo_rows
    then (
      ok tt,
      record w {
        undo_rows =
            update_where (has_id undo_invocation_id) (finish status error_kind error_message)
              w.undo_rows;
      },
    )
    else (err Error.lookup_error, w)
