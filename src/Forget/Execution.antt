-- ===== src/Forget/Execution.antt =====
-- The Butler after a forgotten user: bot/services/butler.py, execute_action on the tables that the cascade of
-- bot/services/forget_cascade.py leaves.
use vibeshkoder.Base.{
  ℕ, ◌≡◌, refl, false, String, none, some, any, find, ◌==◌, Bool-cases, inl, inr, arith, In-find,
}
use vibeshkoder.Base.Exec.{ok, err}
use vibeshkoder.Butler.Model.{Action, ActionStatus, Error, ErrorClass, Tag, World, is_confirmed}
use vibeshkoder.Butler.Services.{Services}
use vibeshkoder.Butler.Repos.Actions.{has_id, lock_row, in_flight}
use vibeshkoder.Butler.Execute.{execute_action}
use vibeshkoder.Forget.Model.{ForgetEvent, TargetType, Store, Outside}
use vibeshkoder.Forget.Layers.Butler.{is_in_progress}
use vibeshkoder.Forget.Cascade.{process_one_event}
use vibeshkoder.Forget.Erasure.Complete.{forget_user}

not_confirmed : (s : ActionStatus) → is_in_progress s ≡ false → is_confirmed s ≡ false
not_confirmed ActionStatus.confirmed h = ground arith
not_confirmed ActionStatus.requested h = refl
not_confirmed ActionStatus.evidence_loaded h = refl
not_confirmed ActionStatus.planned h = refl
not_confirmed ActionStatus.pending_confirmation h = refl
not_confirmed ActionStatus.executing h = refl
not_confirmed ActionStatus.succeeded h = refl
not_confirmed ActionStatus.undone h = refl
not_confirmed ActionStatus.undo_pending h = refl
not_confirmed ActionStatus.undo_succeeded h = refl
not_confirmed ActionStatus.undo_failed h = refl
not_confirmed ActionStatus.rejected h = refl
not_confirmed ActionStatus.expired h = refl
not_confirmed ActionStatus.execution_failed h = refl
not_confirmed ActionStatus.cancelled h = refl

-- An action that is not confirmed is not executed: the call raises and changes nothing.
refused :
    (sv : Services) (id : ℕ) (a : Action) (w : World)
    → find (has_id id) w.actions ≡ some a
    → is_confirmed a.status ≡ false
    → (x : Error) × (execute_action sv id w ≡ (err x, w))
unfolding execute_action lock_row
refused sv id a w f c = elim (Bool-cases (any (λ i. i == id) w.locked)) [
  | inl t ↦ (in_flight id, rw t refl)
  | inr t ↦ (Error.butler ErrorClass.action_error Tag.wrong_status id, rw (t, f, c) refl)
]

-- When the cascade of a new `user` event has returned, a call of execute_action for an action that this user
-- asked for raises, changes no row and has no effect outside.
pub forgotten_not_executed :
    (out : Outside) (e : ForgetEvent) (w w' : Store) (n : ℕ) (t : String) (sv : Services) (id : ℕ)
    (a : Action)
    → e.target_type ≡ TargetType.user
    → e.target_id ≡ some t
    → out.int t ≡ some n
    → e.cascade_status ≡ none
    → process_one_event out e w ≡ (ok tt, w')
    → find (has_id id) w'.tables.butler.actions ≡ some a
    → a.requester_tg_id ≡ n
    → (x : Error) × (execute_action sv id w'.tables.butler ≡ (err x, w'.tables.butler))
forgotten_not_executed out e w w' n t sv id a y g i c h f o =
    let (m, k) = In-find (has_id id) w'.tables.butler.actions f in
    refused sv id a w'.tables.butler f
      (not_confirmed a.status ((forget_user out e w w' n t y g i c h).actions a m o))
