-- ===== src/Butler/Consent/Executing.antt =====
-- `execute_action` keeps every predicate that its writes keep.
use vibeshkoder.Base.{
  refl, ℕ, ◌+◌, Bool, true, false, not, Option, none, some, List, [], ◌∷◌, inl, inr, Bool-cases,
  any, Json, String, take_text,
}
use vibeshkoder.Base.Exec.{pure, bind_keeps, guard_keeps, if_keeps, ◌>>◌}
use vibeshkoder.Butler.Model.{Action, ActionStatus, World, InvStatus, Step}
use vibeshkoder.Butler.Services.{
  Services, EvidenceQuery, EvidenceContext, Tool, ToolResult, ToolOutcome, returned, raised,
  is_allowed_tool,
}
use vibeshkoder.Butler.Plan.Guards.{build_evidence}
use vibeshkoder.Butler.Confirm.{stored_query}
use vibeshkoder.Butler.Withdraw.{refetch}
use vibeshkoder.Butler.Execute.{
  execute_locked, conclude, check_consent, take_exec, attempt, fail_step, store_inverse,
  finish_step, after_tool, run_tool, replay_evidence, dispatch, run_step, run_steps, stub_result,
  inverse_of, get_plan_steps, running_row, success_values, log_tool,
}
use vibeshkoder.Butler.Repos.Actions
use vibeshkoder.Butler.Repos.Actions.{
  lock_row, update_status, set_status, Values, no_values, because,
}
use vibeshkoder.Butler.Repos.Invocations
use vibeshkoder.Butler.Repos.Invocations.{update_invocation}
use vibeshkoder.Butler.Consent.Starting.{
  IsFrame, update_status_keeps, check_consent_keeps, take_exec_keeps,
}

module _ (sv : Services) (id : ℕ) (P : World → Type 0) (frame : IsFrame id P) where
  update_invocation_keeps :
      (i : ℕ) (s : InvStatus) (v : Invocations.Values) (w : World)
      → P w
      → P (update_invocation i s v w).1
  unfolding update_invocation
  update_invocation_keeps i s v w h = elim (Bool-cases (any (Invocations.has_id i) w.invocations)) [
    | inl e ↦ rw e (frame.invocations w _ _ h)
    | inr e ↦ rw e h
  ]

  fail_step_keeps :
      (i : ℕ) (message : String) (response : Option Json) (w : World)
      → P w
      → P (fail_step sv id i message response w).1
  fail_step_keeps i message response w h =
      let v = record Invocations.no_values {
        error_code = some message;
        response_payload = response;
        finished_at = some w.now;
      } in
      bind_keeps P _ (update_invocation i InvStatus.failed v) w
        (update_invocation_keeps i InvStatus.failed v w h)
        λ _ u e k.
          let x = record no_values { error_code = some message; executed_at = some w.now } in
          bind_keeps P (λ _. pure false) (update_status id ActionStatus.execution_failed x) u
            (update_status_keeps sv id P frame.quiet ActionStatus.execution_failed x u refl k)
            λ _ u' e' k'. k'

  store_inverse_keeps :
      (i : ℕ) (inverse : Option Json) (w : World) → P w → P (store_inverse sv id i inverse w).1
  unfolding attempt
  store_inverse_keeps i none w h = h
  store_inverse_keeps i (some inverse) w h =
      let x = record no_values { inverse_op_payload = some inverse } in
      let v = record Invocations.no_values { inverse_op_payload = some inverse } in
      bind_keeps P (λ _. update_invocation i InvStatus.succeeded v)
        (update_status id ActionStatus.executing x) w
        (update_status_keeps sv id P frame.quiet ActionStatus.executing x w refl h)
        λ _ u e k. update_invocation_keeps i InvStatus.succeeded v u k

  finish_step_keeps :
      (i : ℕ) (name : String) (tool : Option Tool) (result : ToolResult) (w : World)
      → P w
      → P (finish_step sv id i name tool result w).1
  unfolding finish_step
  finish_step_keeps i name tool result w h =
      if_keeps P (not result.success) _ _ w (λ _. fail_step_keeps i _ _ w h)
        (λ _.
          bind_keeps P (λ _. store_inverse sv id i (inverse_of sv tool result) >> pure true)
            (update_invocation i InvStatus.succeeded (success_values sv name result w.now)) w
            (update_invocation_keeps i InvStatus.succeeded (success_values sv name result w.now) w
              h)
            λ _ u e k.
              bind_keeps P (λ _. pure true) (store_inverse sv id i (inverse_of sv tool result)) u
                (store_inverse_keeps i (inverse_of sv tool result) u k) λ _ u' e' k'. k')

  after_tool_keeps :
      (i : ℕ) (name : String) (tool : Tool) (outcome : ToolOutcome) (w : World)
      → P w
      → P (after_tool sv id i name tool outcome w).1
  after_tool_keeps i name tool (returned result) w h =
      finish_step_keeps i name (some tool) result w h
  after_tool_keeps i name tool (raised message) w h =
      fail_step_keeps i (take_text 200 message) none w h

  run_tool_keeps :
      (i : ℕ) (step : Step) (tool : Tool) (ctx : EvidenceContext) (policy : Option String)
      (w : World)
      → P w
      → P (run_tool sv id i step tool ctx policy w).1
  run_tool_keeps i step tool ctx (some message) w h =
      fail_step_keeps i (take_text 200 message) none w h
  run_tool_keeps i step tool ctx none w h =
      after_tool_keeps i step.tool_name tool (tool.execute w ctx step.args)
        (log_tool sv id step.tool_name step.args w) (frame.effects w _ h)

  replay_keeps : (q : Option EvidenceQuery) (w : World) → P w → P (replay_evidence sv q w).1
  unfolding build_evidence
  replay_keeps none w h = h
  replay_keeps (some q) w h = h

  dispatch_keeps :
      (a : Action) (i : ℕ) (step : Step) (tool : Option Tool) (w : World)
      → P w
      → P (dispatch sv id a i step tool w).1
  unfolding dispatch
  dispatch_keeps a i step none w h = finish_step_keeps i step.tool_name none stub_result w h
  dispatch_keeps a i step (some tool) w h =
      bind_keeps P _ (replay_evidence sv (stored_query a (some a.chat_id))) w
        (replay_keeps (stored_query a (some a.chat_id)) w h)
        λ ctx u e k. guard_keeps P (is_allowed_tool step.tool_name) _ _ u k λ _.
          guard_keeps P (sv.validates step.tool_name step.args) _ _ u k
            λ _. run_tool_keeps i step tool ctx (tool.validate_policy u ctx step.args) u k

  run_step_keeps :
      (a : Action) (seq : ℕ) (step : Step) (w : World) → P w → P (run_step sv id a seq step w).1
  unfolding run_step
  run_step_keeps a seq step w h =
      bind_keeps P _ (Invocations.create (running_row sv id step seq)) w
        (unfold Invocations.create in frame.invocations w _ _ h)
        λ inv u e k. dispatch_keeps a inv.id step (sv.tool_registry step.tool_name) u k

  pub run_steps_keeps :
      (a : Action) (seq : ℕ) (steps : List Step) (w : World)
      → P w
      → P (run_steps sv id a seq steps w).1
  unfolding run_steps
  run_steps_keeps a seq [] w h = h
  run_steps_keeps a seq (step ∷ l) w h =
      bind_keeps P _ (run_step sv id a seq step) w (run_step_keeps a seq step w h)
        λ going u e k. if_keeps P going _ _ u (λ _. run_steps_keeps a (seq + 1) l u k) (λ _. k)

  pub conclude_keeps : (a : Action) (done : Bool) (w : World) → P w → P (conclude sv id a done w).1
  unfolding conclude refetch Actions.get
  conclude_keeps a true w h =
      let v = record no_values { executed_at = some w.now } in
      bind_keeps P (λ _. refetch id a) (update_status id ActionStatus.succeeded v) w
        (update_status_keeps sv id P frame.quiet ActionStatus.succeeded v w refl h) λ _ u e k. k
  conclude_keeps a false w h = h

  -- what follows the lock
  pub execute_locked_keeps : (a : Action) (w : World) → P w → P (execute_locked sv id a w).1
  unfolding execute_locked
  execute_locked_keeps a w h =
      bind_keeps P _ (check_consent id) w (check_consent_keeps sv id P frame.quiet w h) λ _ u e k.
        bind_keeps P _ (take_exec sv id a) u (take_exec_keeps sv id P frame.quiet a u k)
          λ _ u' e' k'.
            bind_keeps P _ (update_status id ActionStatus.executing no_values) u'
              (update_status_keeps sv id P frame.quiet ActionStatus.executing no_values u' refl k')
              λ _ v e'' l. bind_keeps P _ (get_plan_steps a) v l λ steps v' q l'.
                bind_keeps P _ (run_steps sv id a 1 steps) v' (run_steps_keeps a 1 steps v' l')
                  λ done x q' m. conclude_keeps a done x m
