-- ===== src/Butler/Once/Runs.antt =====
-- Executions within sequences of calls: how one begins, and what it leaves.
use vibeshkoder.Base.{
  ℕ, ◌<◌, ◌≡◌, ◌≢◌, refl, ◌⊎◌, inl, inr, List, [], ◌∷◌, ==_iff, In-update_where, any, Bool-cases,
  arith, ap, sym, ◌∙◌, subst, true, false,
}
use vibeshkoder.Base.Exec.{ok, err_not_ok, at_end, bind_keeps, guard_keeps, ◌>>=◌}
use vibeshkoder.Butler.Model.{Action, ActionStatus, World, Error, is_confirmed}
use vibeshkoder.Butler.Services.{Services}
use vibeshkoder.Butler.Repos.Actions.{
  has_id, no_values, apply_values, lock_row, set_status, update_status, breaks_check,
}
use vibeshkoder.Butler.Execute.{
  execute_action, execute_locked, check_consent, take_exec, get_plan_steps, run_steps, conclude,
}
use vibeshkoder.Butler.Plan.{plan_action}
use vibeshkoder.Butler.Confirm.{confirm_action}
use vibeshkoder.Butler.Withdraw.{cancel_action, revoke_affected_user_consent, expire_action}
use vibeshkoder.Butler.Undo.{execute_undo}
use vibeshkoder.Butler.Runs.{
  Call, plan, confirm, execute, cancel, revoke, undo, expire, environment, abandoned, call, run,
  init, is_committable, is_action_error, is_kept, rolled_back, ended_keeps,
}
use vibeshkoder.Butler.Consent.Rows.{IsConsented}
use vibeshkoder.Butler.Consent.Methods.{lock_row_ok}
use vibeshkoder.Butler.Consent.Runs.{run-IsConsented, init-IsConsented}
use vibeshkoder.Butler.Consent.Starting.{IsQuiet, check_consent_keeps, take_exec_keeps}
use vibeshkoder.Butler.Consent.Executing.{run_steps_keeps, conclude_keeps}
use vibeshkoder.Butler.Once.Rows.{IsSpent, IsSpent-IsFrame}
use vibeshkoder.Butler.Once.Methods.{
  cancel_action-IsSpent, expire_action-IsSpent, revoke-IsSpent, execute_action-IsSpent,
  execute_undo-IsSpent, plan_action-IsSpent,
}
use vibeshkoder.Butler.Once.Confirming.{confirm_action-IsSpent}

module _ (sv : Services) (id : ℕ) where
  rolled_back-IsSpent : (w w' : World) → IsSpent id w → IsSpent id (rolled_back w w')
  rolled_back-IsSpent w w' h = record { known = h.known; spent = h.spent }

  call-IsSpent : (w : World) (c : Call) → IsSpent id w → IsSpent id (call sv w c)
  unfolding call
  call-IsSpent w (plan r) h =
      ended_keeps (IsSpent id) is_committable w (plan_action sv r w)
        (rolled_back-IsSpent w (plan_action sv r w).1 h) (plan_action-IsSpent id sv r w h)
  call-IsSpent w (confirm i user token) h =
      ended_keeps (IsSpent id) is_action_error w (confirm_action sv i user token w)
        (rolled_back-IsSpent w (confirm_action sv i user token w).1 h)
        (confirm_action-IsSpent id sv i user token w h)
  call-IsSpent w (execute i) h =
      ended_keeps (IsSpent id) is_action_error w (execute_action sv i w)
        (rolled_back-IsSpent w (execute_action sv i w).1 h) (execute_action-IsSpent id sv i w h)
  call-IsSpent w (cancel i user) h =
      ended_keeps (IsSpent id) is_action_error w (cancel_action i user w)
        (rolled_back-IsSpent w (cancel_action i user w).1 h) (cancel_action-IsSpent id i user w h)
  call-IsSpent w (revoke i user) h =
      ended_keeps (IsSpent id) is_action_error w (revoke_affected_user_consent i user w)
        (rolled_back-IsSpent w (revoke_affected_user_consent i user w).1 h)
        (revoke-IsSpent id i user w h)
  call-IsSpent w (undo i user) h =
      ended_keeps (IsSpent id) (λ e. false) w (execute_undo sv i user w)
        (rolled_back-IsSpent w (execute_undo sv i user w).1 h)
        (execute_undo-IsSpent id sv i user w h)
  call-IsSpent w (expire i) h =
      ended_keeps (IsSpent id) is_action_error w (expire_action i w)
        (rolled_back-IsSpent w (expire_action i w).1 h) (expire_action-IsSpent id i w h)
  call-IsSpent w (abandoned c) h = rolled_back-IsSpent w (call sv w c) h
  call-IsSpent w (environment now locked users) h = record { known = h.known; spent = h.spent }

  run-IsSpent : (w : World) (l : List Call) → IsSpent id w → IsSpent id (run sv w l)
  unfolding run
  run-IsSpent w [] h = h
  run-IsSpent w (c ∷ l) h = run-IsSpent (call sv w c) l (call-IsSpent w c h)

  -- Nothing outside has happened yet, and the action is there.
  abbrev IsBefore : World → World → Type 0
  IsBefore w u = (u.effects ≡ w.effects) × (id < u.next_action)

  IsBefore-IsQuiet : (w : World) → IsQuiet id (IsBefore w)
  unfolding set_status
  IsBefore-IsQuiet w = record { status = λ s v u t h. h; buckets = λ u l h. h }

  abbrev IsBegun : World → World → Type 0
  IsBegun w u = (u.effects ≡ w.effects) ⊎ IsSpent id u

  -- the write of 'executing'
  begin-IsSpent :
      (w u : World) → IsBefore w u → IsSpent id (set_status id ActionStatus.executing no_values u)
  unfolding set_status apply_values
  begin-IsSpent w u h = record {
    known = h.1;
    spent = λ a i q.
        let (b, j, e) =
          In-update_where (has_id id) (apply_values ActionStatus.executing no_values) u.actions i in
        ground (arith, ==_iff b.id id);
  }

  update_status-IsBegun :
      (w u : World)
      → IsBefore w u
      → IsBegun w (update_status id ActionStatus.executing no_values u).1
  unfolding update_status
  update_status-IsBegun w u h = elim (Bool-cases (any (has_id id) u.actions)) [
    | inl e ↦ elim (Bool-cases (any (breaks_check id ActionStatus.executing no_values) u.actions)) [
      | inl f ↦ rw (e, f) (inl h.0)
      | inr f ↦ rw (e, f) (inr (begin-IsSpent w u h))
    ]
    | inr e ↦ rw e (inl h.0)
  ]

  begun_ok :
      (w u u' : World) (x : Unit {0})
      → IsBefore w u
      → update_status id ActionStatus.executing no_values u ≡ (ok x, u')
      → IsSpent id u'
  unfolding update_status
  begun_ok w u u' x h q = elim (Bool-cases (any (has_id id) u.actions)) [
    | inl e ↦ elim (Bool-cases (any (breaks_check id ActionStatus.executing no_values) u.actions)) [
      | inl f ↦ absurd (err_not_ok Error (ap (λ p. p.0) (rw (e, f) at q)))
      | inr f ↦ rw (← ap (λ p. p.1) (rw (e, f) at q)) (begin-IsSpent w u h)
    ]
    | inr e ↦ absurd (err_not_ok Error (ap (λ p. p.0) (rw e at q)))
  ]

  carried_out :
      (a : Action) (w : World)
      → IsSpent id w
      → IsSpent id
          ((get_plan_steps a >>= λ steps.
              run_steps sv id a 1 steps >>= λ done. conclude sv id a done)
            w).1
  carried_out a w h =
      let frame = IsSpent-IsFrame id id in
      bind_keeps (IsSpent id) _ (get_plan_steps a) w h λ steps u e k.
        bind_keeps (IsSpent id) _ (run_steps sv id a 1 steps) u
          (run_steps_keeps sv id (IsSpent id) frame a 1 steps u k)
          λ done v e' m. conclude_keeps sv id (IsSpent id) frame a done v m

  execute_locked-IsBegun :
      (w : World) (a : Action) → IsBefore w w → IsBegun w (execute_locked sv id a w).1
  unfolding execute_locked
  execute_locked-IsBegun w a h =
      let quiet = IsBefore-IsQuiet w in
      let frame = IsSpent-IsFrame id id in
      let asked = check_consent_keeps sv id (IsBefore w) quiet w h in
      bind_keeps (IsBegun w) _ (check_consent id) w (inl asked.0) λ _ u e _.
        let h1 = at_end Error World (IsBefore w) (check_consent id) e asked in
        let counted = take_exec_keeps sv id (IsBefore w) quiet a u h1 in
        bind_keeps (IsBegun w) _ (take_exec sv id a) u (inl counted.0) λ _ v e' _.
          let h2 = at_end Error World (IsBefore w) (take_exec sv id a) e' counted in
          bind_keeps (IsBegun w) _ (update_status id ActionStatus.executing no_values) v
            (update_status-IsBegun w v h2)
            λ x y e'' _. inr (carried_out a y (begun_ok w v y x h2 e''))

  execute_action-IsBegun : (w : World) → IsConsented w → IsBegun w (execute_action sv id w).1
  unfolding execute_action
  execute_action-IsBegun w h =
      bind_keeps (IsBegun w) _ (lock_row id) w (unfold lock_row in inl refl) λ a u e k.
        let (same, i, q) = lock_row_ok id w u a e in
        guard_keeps (IsBegun w) (is_confirmed a.status) _ _ u k
          λ _. rw same (execute_locked-IsBegun w a (refl, rw (← q) (h.action_ids a i)))

  -- An action that cannot be executed any more: the call changes nothing.
  spent_refused : (w : World) → IsSpent id w → (execute_action sv id w).1 ≡ w
  unfolding execute_action
  spent_refused w h =
      bind_keeps (λ u. u ≡ w) _ (lock_row id) w (unfold lock_row in refl)
        λ a u e k.
          let (same, i, q) = lock_row_ok id w u a e in
          guard_keeps (λ u. u ≡ w) (is_confirmed a.status) _ _ u k
            λ t. let s = h.spent a i q in absurd (ground arith)

-- After any sequence of calls from the empty database, an execution that has any effect outside and whose
-- transaction is committed, since it returned or raised one of the service's own errors, is the last one of
-- its action: whatever calls follow it, of whatever users, committed or rolled back, another call of
-- `execute_action` for the action changes nothing at all.
pub executes_once :
    (sv : Services) (calls more : List Call) (id : ℕ)
    → let w = run sv init calls in
      let w' = call sv w (execute id) in
      w'.effects ≢ w.effects
      → is_kept is_action_error (execute_action sv id w).0 ≡ true
      → (execute_action sv id (run sv w' more)).1 ≡ run sv w' more
unfolding call
executes_once sv calls more id changed kept =
    let w = run sv init calls in
    let u = (execute_action sv id w).1 in
    let same : call sv w (execute id) ≡ u = rw kept refl in
    let begun =
      execute_action-IsBegun sv id w (run-IsConsented sv init calls (init-IsConsented sv)) in
    let spent : IsSpent id u = elim begun [
      | inl e ↦ absurd (changed (ap (λ z. z.effects) same ∙ e))
      | inr k ↦ k
    ] in
    let after : IsSpent id (call sv w (execute id)) = subst (IsSpent id) (sym same) spent in
    spent_refused sv id (run sv (call sv w (execute id)) more)
      (run-IsSpent sv id (call sv w (execute id)) more after)
