-- ===== src/Butler/Consent/Carried.antt =====
-- `execute_action` keeps the invariant: from the confirmed action on, everybody has agreed.
use vibeshkoder.Base.{ℕ, ◌≡◌, true, arith}
use vibeshkoder.Base.Exec.{ok, bind_keeps, guard_keeps}
use vibeshkoder.Butler.Model.{Action, World, is_confirmed}
use vibeshkoder.Butler.Services.{Services}
use vibeshkoder.Butler.Execute.{execute_action}
use vibeshkoder.Butler.Repos.Actions.{lock_row, set_status}
use vibeshkoder.Butler.Consent.Rows.{IsConsented, IsAgreed, is_committed, set_status-IsConsented}
use vibeshkoder.Butler.Consent.Methods.{lock_row_ok, lock_row-IsConsented}
use vibeshkoder.Butler.Consent.Starting.{IsFrame}
use vibeshkoder.Butler.Consent.Executing.{execute_locked_keeps}

-- The invariant while the action runs.
abbrev pub IsUnderway : ℕ → World → Type 0
IsUnderway id w = IsConsented w × IsAgreed id w.confirmations

pub IsUnderway-IsFrame : (id : ℕ) → IsFrame id (IsUnderway id)
unfolding set_status
IsUnderway-IsFrame id = record {
  quiet = record {
    status = λ s v w t h. (set_status-IsConsented id s v w h.0 (λ _. h.1), h.1);
    buckets = λ w l h. h;
  };
  invocations = λ w l n h. h;
  undo_rows = λ w l n h. h;
  effects = λ w l h. h;
}

module _ (sv : Services) (id : ℕ) where
  from_locked :
      (w w' : World) (a : Action)
      → IsConsented w
      → lock_row id w ≡ (ok a, w')
      → is_confirmed a.status ≡ true
      → IsUnderway id w'
  from_locked w w' a h e t =
      let (same, i, q) = lock_row_ok id w w' a e in
      let committed : is_committed a.status ≡ true = ground arith in
      rw (same, ← q) (h, h.agreed a i committed)

  -- `execute_action`
  pub execute_action-IsConsented :
      (w : World) → IsConsented w → IsConsented (execute_action sv id w).1
  unfolding execute_action
  execute_action-IsConsented w h =
      bind_keeps IsConsented _ (lock_row id) w (lock_row-IsConsented id w h) λ a w' e h'.
        guard_keeps IsConsented (is_confirmed a.status) _ _ w' h' λ t.
          (execute_locked_keeps sv id (IsUnderway id) (IsUnderway-IsFrame id) a w'
            (from_locked w w' a h e t)).0
