-- ===== src/Butler/Consent/Undoing.antt =====
-- `execute_undo` keeps every predicate that its writes keep, and the invariant: only an action
-- that was carried out becomes 'undone'.
use vibeshkoder.Base.{
  refl, ℕ, ◌≡◌, true, not, ◌&&◌, ◌||◌, Option, none, some, List, [], ◌∷◌, inl, inr, any, all,
  str_eq, if◌then◌else◌, Bool-cases, arith, Json, String, filter, ◌==◌,
}
use vibeshkoder.Base.Exec.{ok, pure, bind_keeps, guard_keeps, if_keeps}
use vibeshkoder.Butler.Model.{
  Action, ActionStatus, Invocation, UndoRow, World, is_undoable, is_done, is_open, Effect,
}
use vibeshkoder.Butler.Services.{Services}
use vibeshkoder.Butler.Withdraw.{may_act}
use vibeshkoder.Butler.Undo.{
  execute_undo, undo_now, undo_all, undo_one, redo, found_or_create, roll_back_step, delete_call,
  edit_call, edit_to, rollback_kind_of, consented_by, is_nonempty, has_done_row, newest_first,
  is_too_old, Outcome, log_if_done,
}
use vibeshkoder.Butler.Repos.Actions.{lock_row, update_status, no_values}
use vibeshkoder.Butler.Repos.Confirmations.{list_for_action, of_action}
use vibeshkoder.Butler.Repos.Invocations
use vibeshkoder.Butler.Repos.Undos
use vibeshkoder.Butler.Consent.Rows.{IsConsented, is_committed}
use vibeshkoder.Butler.Consent.Methods.{lock_row_ok, lock_row-IsConsented}
use vibeshkoder.Butler.Consent.Starting.{IsFrame, update_status_keeps}
use vibeshkoder.Butler.Consent.Carried.{IsUnderway, IsUnderway-IsFrame}

module _ (id : ℕ) (P : World → Type 0) (frame : IsFrame id P) where
  log_keeps : (e : Effect) (answer : Option String) (w : World) → P w → P (log_if_done e answer w)
  log_keeps e none w h = frame.effects w _ h
  log_keeps e (some class_name) w h = h

module _ (sv : Services) (id user : ℕ) (P : World → Type 0) (frame : IsFrame id P) where
  delete_keeps :
      (missing : String) (chat message : Option Json) (w : World)
      → P w
      → P (delete_call sv missing chat message w).1
  delete_keeps missing (some chat) (some message) w h =
      log_keeps id P frame (Effect.deleted chat message) (sv.delete_message w chat message) w h
  delete_keeps missing _ _ w h = h

  edit_to_keeps :
      (chat message : Json) (prior : Option String) (w : World)
      → P w
      → P (edit_to sv chat message prior w).1
  edit_to_keeps chat message none w h = h
  edit_to_keeps chat message (some text) w h =
      log_keeps id P frame (Effect.edited chat message text)
        (sv.edit_message_text w chat message text) w h

  edit_keeps : (chat message : Option Json) (w : World) → P w → P (edit_call sv chat message w).1
  edit_keeps (some chat) (some message) w h =
      edit_to_keeps chat message (sv.prior_text w chat message) w h
  edit_keeps _ _ w h = h

  roll_back_step_keeps :
      (inv : Invocation) (w : World) → P w → P (roll_back_step sv id user inv w).1
  unfolding roll_back_step
  roll_back_step_keeps inv w h =
      if_keeps P (str_eq (rollback_kind_of inv) "not_reversible") _ _ w (λ _. h)
        λ _.
          if_keeps P (str_eq (rollback_kind_of inv) "delete_message") _ _ w
            (λ _. delete_keeps _ _ _ w h)
            λ _.
              if_keeps P (str_eq (rollback_kind_of inv) "edit_message") _ _ w
                (λ _. edit_keeps _ _ w h)
                λ _.
                  if_keeps P (str_eq (rollback_kind_of inv) "followup_correction") _ _ w
                    (λ _. delete_keeps _ _ _ w h)
                    λ _.
                      if_keeps P (str_eq (rollback_kind_of inv) "cancel_pending") _ _ w
                        (λ _.
                          log_keeps id P frame (Effect.dismissed id user)
                            (sv.dismiss_by_undo w id user) w h)
                        (λ _. h)

  write_keeps :
      (i : ℕ) (out : Outcome) (w : World)
      → P w
      → P (Undos.update_status i out.status out.error_kind out.error_message w).1
  unfolding Undos.update_status
  write_keeps i out w h = elim (Bool-cases (any (Undos.has_id i) w.undo_rows)) [
    | inl e ↦ rw e (frame.undo_rows w _ _ h)
    | inr e ↦ rw e h
  ]

  redo_keeps : (inv : Invocation) (u : UndoRow) (w : World) → P w → P (redo sv id user inv u w).1
  redo_keeps inv u w h =
      bind_keeps P _ (roll_back_step sv id user inv) w (roll_back_step_keeps inv w h) λ out x e k.
        bind_keeps P (λ _. pure u.id)
          (if is_open u.status
            then Undos.update_status u.id out.status out.error_kind out.error_message
            else pure tt)
          x (if_keeps P (is_open u.status) _ _ x (λ _. write_keeps u.id out x k) (λ _. k))
          λ _ y e' l. l

  found_or_create_keeps :
      (inv : Invocation) (existing : Option UndoRow) (w : World)
      → P w
      → P (found_or_create sv id user inv existing w).1
  unfolding Undos.create
  found_or_create_keeps inv none w h =
      elim (Bool-cases (Undos.is_rollback_kind (rollback_kind_of inv))) [
        | inl e ↦ rw e (frame.undo_rows w _ _ h)
        | inr e ↦ rw e h
      ]
  found_or_create_keeps inv (some u) w h = h

  undo_one_keeps : (inv : Invocation) (w : World) → P w → P (undo_one sv id user inv w).1
  unfolding undo_one
  undo_one_keeps inv w h =
      bind_keeps P _ (Undos.find_by_action_and_invocation id inv.id) w
        (unfold Undos.find_by_action_and_invocation in h)
        λ existing x e k.
          bind_keeps P _ (found_or_create sv id user inv existing) x
            (found_or_create_keeps inv existing x k)
            λ u y e' l. if_keeps P (is_done u.status) _ _ y (λ _. l) (λ _. redo_keeps inv u y l)

  undo_all_keeps : (l : List Invocation) (w : World) → P w → P (undo_all sv id user l w).1
  unfolding undo_all
  undo_all_keeps [] w h = h
  undo_all_keeps (inv ∷ l) w h =
      bind_keeps P _ (undo_one sv id user inv) w (undo_one_keeps inv w h) λ i x e k.
        bind_keeps P (λ rest. pure (i ∷ rest)) (undo_all sv id user l) x (undo_all_keeps l x k)
          λ rest y e' m. m

  pub undo_now_keeps :
      (a : Action) (l : List Invocation) (w : World) → P w → P (undo_now sv id user a l w).1
  unfolding undo_now
  undo_now_keeps a l w h =
      guard_keeps P (not (is_too_old w.now sv.settings.butler_undo_ttl_minutes a.executed_at)) _ _ w
        h
        λ _.
          bind_keeps P _ (undo_all sv id user (newest_first l)) w
            (undo_all_keeps (newest_first l) w h)
            λ steps x e k.
              let v = record no_values { undone_at = some w.now } in
              bind_keeps P (λ _. pure steps) (update_status id ActionStatus.undone v) x
                (update_status_keeps sv id P frame.quiet ActionStatus.undone v x refl k)
                λ _ y e' m. m

module _ (sv : Services) (id user : ℕ) where
  undoable-IsUnderway :
      (w w' : World) (a : Action)
      → IsConsented w
      → lock_row id w ≡ (ok a, w')
      → is_undoable a.status ≡ true
      → IsUnderway id w'
  undoable-IsUnderway w w' a h e t =
      let (same, i, q) = lock_row_ok id w w' a e in
      let committed : is_committed a.status ≡ true = ground arith in
      rw (same, ← q) (h, h.agreed a i committed)

  -- `execute_undo`
  pub execute_undo-IsConsented :
      (w : World) → IsConsented w → IsConsented (execute_undo sv id user w).1
  unfolding execute_undo list_for_action Invocations.list_for_action
  execute_undo-IsConsented w h =
      bind_keeps IsConsented _ (lock_row id) w (lock_row-IsConsented id w h) λ a w' e h'.
        guard_keeps IsConsented
          (may_act a user w' || any (consented_by user) (filter (of_action id) w'.confirmations)) _
          _ w' h'
          λ _. guard_keeps IsConsented (is_undoable a.status) _ _ w' h' λ t.
            let l = filter (λ (i : Invocation). i.action_id == id) w'.invocations in
            if_keeps IsConsented (is_nonempty l && all (has_done_row id w'.undo_rows) l) _ _ w'
              (λ _. h')
              (λ _.
                (undo_now_keeps sv id user (IsUnderway id) (IsUnderway-IsFrame id) a l w'
                  (undoable-IsUnderway w w' a h e t)).0)
