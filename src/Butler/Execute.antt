-- ===== src/Butler/Execute.antt =====
-- `ButlerService.execute_action` of bot/services/butler.py
use Prim.Native.String.{◌++◌}
use vibeshkoder.Base.{
  ℕ, ◌+◌, String, Bool, true, false, not, ◌&&◌, ◌||◌, Option, none, some, List, [], ◌∷◌, any,
  take_text, if◌then◌else◌, str_eq, Json, obj, str, field, end, get, or_empty, empty_dict,
}
use vibeshkoder.Base.Exec.{Result, ok, err, pure, raise, guard, gets, modify, ◌>>=◌, ◌>>◌}
use vibeshkoder.Butler.Model.{
  Action, ActionStatus, Confirmation, Invocation, InvStatus, Step, Tag, ErrorClass, Error,
  BucketKind, Effect, World, Method, is_confirmed, is_affected_user, is_confirmed_conf,
}
use vibeshkoder.Butler.Services.{
  Services, EvidenceQuery, EvidenceContext, Tool, ToolResult, ToolOutcome, returned, raised,
  is_allowed_tool,
}
use vibeshkoder.Butler.Plan.Guards.{build_evidence}
use vibeshkoder.Butler.Confirm.{stored_query}
use vibeshkoder.Butler.Withdraw.{refetch}
use vibeshkoder.Butler.Windows.{msk_day_bucket_key, msk_day_window}
use vibeshkoder.Butler.Buckets.{BucketId, try_increment}
use vibeshkoder.Butler.Repos.Actions.{lock_row, update_status, no_values, because}
use vibeshkoder.Butler.Repos.Confirmations.{list_for_action}
use vibeshkoder.Butler.Repos.Invocations
use vibeshkoder.Butler.Repos.Invocations.{update_invocation}

-- an affected user who has not confirmed
abbrev pub is_withheld : Confirmation → Bool
is_withheld c = is_affected_user c.confirmation_role && not (is_confirmed_conf c.status)

-- Consent is read again before any side effect
unfoldable pub check_consent : ℕ → Method (Unit {0})
check_consent action_id = do
  rows ← list_for_action action_id
  if any is_withheld rows
      then (do
        update_status action_id ActionStatus.rejected (because Tag.affected_user_consent_revoked)
        raise (Error.butler ErrorClass.action_rejected Tag.affected_user_consent_revoked action_id))
      else pure tt

abbrev pub execs_bucket : Action → World → BucketId
execs_bucket a w = record {
  bucket_kind = BucketKind.user_execs_day;
  scope_id = a.requester_tg_id;
  bucket_key = msk_day_bucket_key w.now;
}

-- tool_name in {"send_intro", "schedule_meeting"}
abbrev pub posts_message : String → Bool
posts_message t = str_eq t "send_intro" || str_eq t "schedule_meeting"

-- getattr(result, "error", …) or "tool_execution_failed"
abbrev pub error_text : Option String → String
error_text none = "tool_execution_failed"
error_text (some e) = if str_eq e "" then "tool_execution_failed" else e

-- _StubToolResult(success=True, payload={}, error=None)
abbrev pub stub_result : ToolResult
stub_result = record { success = true; payload = some empty_dict; error = none }

-- action.plan_payload["actions"]
abbrev pub get_plan_steps : Action → Method (List Step)
get_plan_steps a w = (stored a.plan_payload, w)
  where
    stored : Option (List Step) → Result Error (List Step)
    stored none = err (Error.butler ErrorClass.action_error Tag.invariant_broken a.id)
    stored (some steps) = ok steps

-- `try: … except Exception: log`, after which what was flushed stays
unfoldable pub attempt : Method (Unit {0}) → Method (Unit {0})
attempt m w = (ok tt, (m w).1)

module _ (sv : Services) where
  -- H3: user_execs_day
  unfoldable pub take_exec : ℕ → Action → Method (Unit {0})
  take_exec action_id a w =
      (do
        rate_ok ←
            try_increment (execs_bucket a w) (msk_day_window w.now)
              sv.settings.user_execs_day_ceiling
        if rate_ok then pure tt else (do
          update_status action_id ActionStatus.rejected (because Tag.rate_limit_exceeded)
          raise (Error.butler ErrorClass.action_error Tag.rate_limit_exceeded action_id)))
        w

  -- `butler:{action_id}:{tool_name}:{seq}`
  abbrev pub idempotency_key : ℕ → String → ℕ → String
  idempotency_key action_id tool_name seq =
      "butler:" ++ (sv.decimal action_id ++ (":" ++ (tool_name ++ (":" ++ sv.decimal seq))))

  abbrev pub running_row : ℕ → Step → ℕ → ℕ → Invocation
  running_row action_id step seq new_id =
      let request : Json = obj (field "args" step.args end) in
      record {
        id = new_id;
        action_id = action_id;
        tool_name = step.tool_name;
        invocation_seq = seq;
        idempotency_key = idempotency_key action_id step.tool_name seq;
        request_payload = request;
        request_payload_hash = sv.sha256 (sv.dumps request);
        status = InvStatus.running;
        response_payload = none;
        response_payload_hash = none;
        finished_at = none;
        error_code = none;
        posted_message_id = none;
        inverse_op_payload = none;
      }

  -- `now` is read once: the call takes one instant of the model's time.
  abbrev pub fail_step : ℕ → ℕ → String → Option Json → Method Bool
  fail_step action_id inv_id message response = do
    now ← gets (λ w. w.now)
    update_invocation inv_id InvStatus.failed (record Invocations.no_values {
      error_code = some message;
      response_payload = response;
      finished_at = some now;
    })
    update_status action_id ActionStatus.execution_failed
        (record no_values { error_code = some message; executed_at = some now })
    pure false

  -- `build_inverse`, whose failure is logged
  abbrev pub store_inverse : ℕ → ℕ → Option Json → Method (Unit {0})
  store_inverse action_id inv_id none = pure tt
  store_inverse action_id inv_id (some inverse) = attempt (do
    update_status action_id ActionStatus.executing
        (record no_values { inverse_op_payload = some inverse })
    update_invocation inv_id InvStatus.succeeded
        (record Invocations.no_values { inverse_op_payload = some inverse }))

  abbrev pub inverse_of : Option Tool → ToolResult → Option Json
  inverse_of none result = none
  inverse_of (some tool) result = call tool.build_inverse
    where
      call : Option (ToolResult → Option Json) → Option Json
      call none = none
      call (some build) = build result

  -- what is written of a step that succeeded
  abbrev pub success_values : String → ToolResult → ℕ → Invocations.Values
  success_values tool_name result now =
      let payload = or_empty result.payload in
      record Invocations.no_values {
        response_payload = some payload;
        response_payload_hash = some (sv.sha256 (sv.dumps payload));
        finished_at = some now;
        posted_message_id = if posts_message tool_name then get "message_id" payload else none;
      }

  -- what follows the tool's result
  unfoldable pub finish_step : ℕ → ℕ → String → Option Tool → ToolResult → Method Bool
  unfolding attempt
  finish_step action_id inv_id tool_name tool result =
      if not result.success
      then fail_step action_id inv_id (error_text result.error)
          (some (obj (field "error" (str (error_text result.error)) end)))
      else (do
        now ← gets (λ w. w.now)
        update_invocation inv_id InvStatus.succeeded (success_values tool_name result now)
        store_inverse action_id inv_id (inverse_of tool result)
        pure true)

  abbrev pub after_tool : ℕ → ℕ → String → Tool → ToolOutcome → Method Bool
  after_tool action_id inv_id tool_name tool (returned result) =
      finish_step action_id inv_id tool_name (some tool) result
  after_tool action_id inv_id tool_name tool (raised message) =
      fail_step action_id inv_id (take_text 200 message) none

  -- the row of the effects for a tool that runs
  abbrev pub log_tool : ℕ → String → Json → World → World
  log_tool action_id tool_name args w = record w {
    effects = Effect.tool_ran action_id tool_name args ∷ w.effects;
  }

  -- `tool.validate_policy` passes, or raises; then `tool.execute`
  abbrev pub run_tool : ℕ → ℕ → Step → Tool → EvidenceContext → Option String → Method Bool
  run_tool action_id inv_id step tool ctx (some message) =
      fail_step action_id inv_id (take_text 200 message) none
  run_tool action_id inv_id step tool ctx none = do
    outcome ← gets (λ w. tool.execute w ctx step.args)
    modify (log_tool action_id step.tool_name step.args)
    after_tool action_id inv_id step.tool_name tool outcome

  -- A NULL column is against the schema, and the builder takes texts only.
  abbrev pub replay_evidence : Option EvidenceQuery → Method EvidenceContext
  replay_evidence none = raise Error.evidence_failed
  replay_evidence (some q) = build_evidence sv q

  unfoldable pub dispatch : ℕ → Action → ℕ → Step → Option Tool → Method Bool
  unfolding build_evidence finish_step
  dispatch action_id a inv_id step none =
      finish_step action_id inv_id step.tool_name none stub_result
  dispatch action_id a inv_id step (some tool) = do
    ctx ← replay_evidence (stored_query a (some a.chat_id))
    guard (is_allowed_tool step.tool_name) (Error.plan_failed Tag.tool_not_allowed)
    guard (sv.validates step.tool_name step.args) (Error.plan_failed Tag.invalid_args)
    policy ← gets (λ w. tool.validate_policy w ctx step.args)
    run_tool action_id inv_id step tool ctx policy

  -- one round of the loop: false where the method returns after a failure
  unfoldable pub run_step : ℕ → Action → ℕ → Step → Method Bool
  unfolding dispatch
  run_step action_id a seq step = do
    inv ← Invocations.create (running_row action_id step seq)
    dispatch action_id a inv.id step (sv.tool_registry step.tool_name)

  unfoldable pub run_steps : ℕ → Action → ℕ → List Step → Method Bool
  run_steps action_id a seq [] = pure true
  run_steps action_id a seq (step ∷ l) = do
    going ← run_step action_id a seq step
    if going then run_steps action_id a (seq + 1) l else pure false

  -- the end of the method: all steps succeeded, or one failed and has written the status
  unfoldable pub conclude : ℕ → Action → Bool → Method Action
  conclude action_id a true = do
    now ← gets (λ w. w.now)
    update_status action_id ActionStatus.succeeded (record no_values { executed_at = some now })
    refetch action_id a
  conclude action_id a false = refetch action_id a

  -- what follows the lock and the check of the status
  unfoldable pub execute_locked : ℕ → Action → Method Action
  execute_locked action_id a = do
    check_consent action_id
    take_exec action_id a
    update_status action_id ActionStatus.executing no_values
    steps ← get_plan_steps a
    done ← run_steps action_id a 1 steps
    conclude action_id a done

  unfoldable pub execute_action : ℕ → Method Action
  execute_action action_id = do
    a ← lock_row action_id
    guard (is_confirmed a.status) (Error.butler ErrorClass.action_error Tag.wrong_status action_id)
    execute_locked action_id a
