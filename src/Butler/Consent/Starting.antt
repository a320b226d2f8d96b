-- ===== src/Butler/Consent/Starting.antt =====
-- What the methods may write, and the first steps of `execute_action`, which act on nothing outside.
use vibeshkoder.Base.{
  refl, ℕ, ◌≡◌, Bool, true, false, List, ◌==◌, inl, inr, Bool-cases, any, filter,
}
use vibeshkoder.Base.Exec.{raise, bind_keeps, if_keeps, ◌>>◌}
use vibeshkoder.Butler.Model.{
  Action, ActionStatus, World, Invocation, UndoRow, Bucket, Effect, Tag, ErrorClass, Error,
}
use vibeshkoder.Butler.Services.{Services}
use vibeshkoder.Butler.Windows.{msk_day_window}
use vibeshkoder.Butler.Buckets.{BucketId, try_increment}
use vibeshkoder.Butler.Execute.{execs_bucket, check_consent, take_exec, is_withheld}
use vibeshkoder.Butler.Repos.Actions
use vibeshkoder.Butler.Repos.Actions.{
  lock_row, update_status, set_status, Values, no_values, because,
}
use vibeshkoder.Butler.Repos.Confirmations.{list_for_action, of_action}

-- The statuses from which an action is never executed, again or at all.
abbrev pub is_spent : ActionStatus → Bool
is_spent ActionStatus.executing = true
is_spent ActionStatus.succeeded = true
is_spent ActionStatus.undone = true
is_spent ActionStatus.execution_failed = true
is_spent ActionStatus.rejected = true
is_spent ActionStatus.expired = true
is_spent ActionStatus.cancelled = true
is_spent _ = false

-- What a method may write before it acts outside: a spent status of the action `id`, and counters.
pub record IsQuiet (id : ℕ) (P : World → Type 0) : Type 0 where
  pub status :
      (s : ActionStatus) (v : Values) (w : World)
      → is_spent s ≡ true
      → P w
      → P (set_status id s v w)
  pub buckets : (w : World) (l : List Bucket) → P w → P (record w { buckets = l })

-- What an execution or an undo of the action `id` may write.
pub record IsFrame (id : ℕ) (P : World → Type 0) : Type 0 where
  pub quiet : IsQuiet id P
  pub invocations :
      (w : World) (l : List Invocation) (n : ℕ)
      → P w
      → P (record w { invocations = l; next_invocation = n })
  pub undo_rows :
      (w : World) (l : List UndoRow) (n : ℕ) → P w → P (record w { undo_rows = l; next_undo = n })
  pub effects : (w : World) (l : List Effect) → P w → P (record w { effects = l })

module _ (sv : Services) (id : ℕ) (P : World → Type 0) (quiet : IsQuiet id P) where
  pub update_status_keeps :
      (s : ActionStatus) (v : Values) (w : World)
      → is_spent s ≡ true
      → P w
      → P (update_status id s v w).1
  unfolding update_status
  update_status_keeps s v w t h = elim (Bool-cases (any (Actions.has_id id) w.actions)) [
    | inl e ↦ elim (Bool-cases (any (Actions.breaks_check id s v) w.actions)) [
      | inl f ↦ rw (e, f) h
      | inr f ↦ rw (e, f) (quiet.status s v w t h)
    ]
    | inr e ↦ rw e h
  ]

  reject_keeps :
      (reason : Tag) (e : Error) (w : World)
      → P w
      → P ((update_status id ActionStatus.rejected (because reason) >> raise {A = Unit {0}} e) w).1
  reject_keeps reason e w h =
      bind_keeps P (λ _. raise e) (update_status id ActionStatus.rejected (because reason)) w
        (update_status_keeps ActionStatus.rejected (because reason) w refl h) λ _ u q k. k

  pub check_consent_keeps : (w : World) → P w → P (check_consent id w).1
  unfolding check_consent list_for_action
  check_consent_keeps w h =
      if_keeps P (any is_withheld (filter (of_action id) w.confirmations)) _ _ w
        (λ _.
          reject_keeps Tag.affected_user_consent_revoked
            (Error.butler ErrorClass.action_rejected Tag.affected_user_consent_revoked id) w h)
        (λ _. h)

  try_increment_keeps :
      (i : BucketId) (window : ℕ × ℕ) (ceiling : ℕ) (w : World)
      → P w
      → P (try_increment i window ceiling w).1
  unfolding try_increment
  try_increment_keeps i window ceiling w h = elim (Bool-cases (ceiling == 0)) [
    | inl e ↦ rw e h
    | inr e ↦ rw e (quiet.buckets w _ h)
  ]

  pub take_exec_keeps : (a : Action) (w : World) → P w → P (take_exec sv id a w).1
  unfolding take_exec
  take_exec_keeps a w h =
      bind_keeps P _
        (try_increment (execs_bucket a w) (msk_day_window w.now) sv.settings.user_execs_day_ceiling)
        w
        (try_increment_keeps (execs_bucket a w) (msk_day_window w.now)
          sv.settings.user_execs_day_ceiling w h)
        λ rate_ok u e k.
          if_keeps P rate_ok _ _ u (λ _. k)
            (λ _.
              reject_keeps Tag.rate_limit_exceeded
                (Error.butler ErrorClass.action_error Tag.rate_limit_exceeded id) u k)
