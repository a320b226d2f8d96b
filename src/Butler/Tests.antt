-- ===== src/Butler/Tests.antt =====
-- The theorems on a small deployment: at its plan, its consent, its execution, and what can be done
-- with it.
pub mod Setup
use vibeshkoder.Base.{
  ℕ, true, false, ◌≡◌, ◌≢◌, refl, none, some, List, [], ◌∷◌, In, here, there, empty_dict, ◌<◌, ◌≤◌,
  ◌+◌, ◌↔◌, arith, find,
}
use vibeshkoder.Base.Exec.{ok, err}
use vibeshkoder.Butler.Model.{
  Action, Confirmation, Plan, Step, User, World, ConfStatus, Error, ErrorClass, Tag, Role,
  ActionStatus, is_pending_conf, Invocation,
}
use vibeshkoder.Butler.Services.{
  Services, EvidenceContext, ToolResult, Tool, returned, planned_as, default_settings,
}
use vibeshkoder.Butler.Plan.Guards.{
  Request, plans_bucket, rejected_row, reject, check_member, roll_back, take_plan, take_chat,
  check_budget, build_evidence, load_evidence, ask_gateway,
}
use vibeshkoder.Butler.Plan.{
  tool_name_to_action_type, plan_action, confirmation_row, plan_row, take_tool, ask_affected,
  store_plan,
}
use vibeshkoder.Butler.Plan.{default_step}
use vibeshkoder.Butler.Plan.Counters.{plan_action-IsTaken}
use vibeshkoder.Butler.Plan.Asks.{IsAsked, plan_action-asks}
use vibeshkoder.Butler.Withdraw.Sweep.{sweep_leaves_none}
use vibeshkoder.Butler.Confirm.Accepted.{IsAnswer, confirm_action-IsAnswer}
use vibeshkoder.Butler.Confirm.{check_ttl, check_action, check_row, finish_confirm, confirm_action}
use vibeshkoder.Butler.Execute.{
  running_row, check_consent, attempt, take_exec, finish_step, dispatch, run_step, run_steps,
  conclude, execute_locked, execute_action,
}
use vibeshkoder.Butler.Withdraw.{
  refetch, cancel_action, revoke_affected_user_consent, expire_action,
}
use vibeshkoder.Butler.Withdraw.Laws.{cancel_forbidden, cancel_success, revoke_overwrites}
use vibeshkoder.Butler.Windows.{
  hour_us, day_us, msk_day_bucket_key, msk_day_window, msk_hour_bucket_key, msk_hour_window,
}
use vibeshkoder.Butler.Windows.Laws.{msk_day_window-key, msk_hour_window-key}
use vibeshkoder.Butler.Buckets.{BucketId, upsert, same_id, try_increment, decrement}
use vibeshkoder.Butler.Buckets.Counts.{
  count_in, count_in-upsert, count_in-decrement, AreBounded, upsert-AreBounded,
}
use vibeshkoder.Butler.Repos.Actions
use vibeshkoder.Butler.Repos.Actions.{
  pending_past_ttl, mark_expired_past_ttl, because, lock_row, apply_values, set_status,
  update_status, meets_checks,
}
use vibeshkoder.Butler.Repos.Confirmations
use vibeshkoder.Butler.Repos.Confirmations.{
  resolve, set_resolved, mark_resolved, get_for_action_user, list_for_action, mark_all_for_action,
}
use vibeshkoder.Butler.Repos.Invocations
use vibeshkoder.Butler.Repos.Invocations.{update_invocation}
use vibeshkoder.Butler.Plan.Taken.{IsTaken}
use vibeshkoder.Butler.Withdraw.Expiry.{expire_exact, IsDue}
use vibeshkoder.Butler.Once.Runs.{executes_once}
use vibeshkoder.Butler.Consent.Runs.{run-agreed, effects_need_consent}
use vibeshkoder.Butler.Runs.{
  Call, plan, confirm, execute, abandoned, environment, expire, undo, call, run, init,
}
use vibeshkoder.Butler.Tests.Setup.{
  meeting, evidence, posted, tool, sv, request, member, start, planning, agreeing, planned, agreed,
  head, no_action, row,
}

-- the row of the second user's confirmation
abbrev second : List Confirmation → Confirmation
second (c ∷ d ∷ l) = d
second _ = confirmation_row sv 0 0 Role.requester "" 0 0

run-agreed_example : (second agreed.confirmations).status ≡ ConfStatus.confirmed
unfolding run call plan_action check_member take_plan take_chat check_budget load_evidence
    build_evidence ask_gateway take_tool store_plan ask_affected plan_row rejected_row reject
    roll_back tool_name_to_action_type try_increment same_id msk_day_bucket_key msk_day_window
    msk_hour_bucket_key msk_hour_window Actions.create Confirmations.create confirm_action
    check_action check_row check_ttl finish_confirm lock_row get_for_action_user list_for_action
    mark_resolved set_resolved resolve update_status set_status apply_values meets_checks
    Actions.get
run-agreed_example =
    run-agreed sv agreeing (row agreed) (second agreed.confirmations) here refl (there here) refl

effects_need_consent_example : (second agreed.confirmations).status ≡ ConfStatus.confirmed
unfolding run call plan_action check_member take_plan take_chat check_budget load_evidence
    build_evidence ask_gateway take_tool store_plan ask_affected plan_row rejected_row reject
    roll_back tool_name_to_action_type try_increment same_id msk_day_bucket_key msk_day_window
    msk_hour_bucket_key msk_hour_window Actions.create Confirmations.create confirm_action
    check_action check_row check_ttl finish_confirm lock_row get_for_action_user list_for_action
    mark_resolved set_resolved resolve update_status set_status apply_values meets_checks
    Actions.get execute_action execute_locked check_consent take_exec run_steps run_step dispatch
    finish_step conclude attempt Invocations.create update_invocation refetch
effects_need_consent_example =
    effects_need_consent sv agreeing 1 (second agreed.confirmations) (λ e. ground arith)
      (there here) refl

plan_action-asks_example :
    let a = row planned in
    (a.status ≡ ActionStatus.pending_confirmation)
    × ((steps : List Step) (step : Step) (user : ℕ)
        → a.plan_payload ≡ some steps
        → In step steps
        → In user step.affected_user_ids
        → user ≢ 1
        → IsAsked a.id user planned.confirmations)
unfolding run call plan_action check_member take_plan take_chat check_budget load_evidence
    build_evidence ask_gateway take_tool store_plan ask_affected plan_row rejected_row reject
    roll_back tool_name_to_action_type try_increment same_id msk_day_bucket_key msk_day_window
    msk_hour_bucket_key msk_hour_window Actions.create Confirmations.create
plan_action-asks_example =
    plan_action-asks sv request (run sv init (start ∷ [])) planned (row planned) refl

no_admins : (u : User) → In u (member 1 ∷ member 2 ∷ []) → u.is_admin ≡ false
no_admins u here = refl
no_admins u (there here) = refl
no_admins u (there (there i)) = elim i [ ]

cancel_forbidden_example :
    cancel_action 1 2 agreed
    ≡ (err (Error.butler ErrorClass.action_rejected Tag.forbidden 1), agreed)
unfolding run call plan_action check_member take_plan take_chat check_budget load_evidence
    build_evidence ask_gateway take_tool store_plan ask_affected plan_row rejected_row reject
    roll_back tool_name_to_action_type try_increment same_id msk_day_bucket_key msk_day_window
    msk_hour_bucket_key msk_hour_window Actions.create Confirmations.create confirm_action
    check_action check_row check_ttl finish_confirm lock_row get_for_action_user list_for_action
    mark_resolved set_resolved resolve update_status set_status apply_values meets_checks
    Actions.get
cancel_forbidden_example =
    cancel_forbidden 1 2 agreed (row agreed) refl
      (record { not_requester = λ q. ground arith; not_admin = λ u i e. no_admins u i })

cancel_success_example :
    let done = apply_values ActionStatus.cancelled (because Tag.cancelled_by_user) (row planned) in
    let (r, w') = cancel_action 1 1 planned in
    (r ≡ ok done)
    × (find (Actions.has_id 1) w'.actions ≡ some done)
    × ((c : Confirmation)
        → In c w'.confirmations
        → c.action_id ≡ 1
        → is_pending_conf c.status ≡ false)
unfolding run call plan_action check_member take_plan take_chat check_budget load_evidence
    build_evidence ask_gateway take_tool store_plan ask_affected plan_row rejected_row reject
    roll_back tool_name_to_action_type try_increment same_id msk_day_bucket_key msk_day_window
    msk_hour_bucket_key msk_hour_window Actions.create Confirmations.create
cancel_success_example = cancel_success 1 1 planned (row planned) refl refl refl refl

-- the plan expires at its time, and only then the second user takes the consent back
abbrev late : World
late = run sv init (start ∷ plan request ∷ environment 2_000_000_000_000 [] [] ∷ expire 1 ∷ [])

revoke_overwrites_example :
    let v = because Tag.affected_user_consent_revoked in
    let done = apply_values ActionStatus.cancelled v (row late) in
    let (r, w') = revoke_affected_user_consent 1 2 late in
    (r ≡ ok done) × (find (Actions.has_id 1) w'.actions ≡ some done)
unfolding run call plan_action check_member take_plan take_chat check_budget load_evidence
    build_evidence ask_gateway take_tool store_plan ask_affected plan_row rejected_row reject
    roll_back tool_name_to_action_type try_increment same_id msk_day_bucket_key msk_day_window
    msk_hour_bucket_key msk_hour_window Actions.create Confirmations.create confirm_action
    check_action check_row check_ttl finish_confirm lock_row get_for_action_user list_for_action
    mark_resolved set_resolved resolve update_status set_status apply_values meets_checks
    Actions.get expire_action refetch
revoke_overwrites_example =
    revoke_overwrites 1 2 late (row late) (second late.confirmations) refl refl refl refl

abbrev overdue : World
overdue = record planned { now = 2_000_000_000_000 }

expire_exact_example :
    let done = apply_values ActionStatus.expired (because Tag.ttl_expired) (row planned) in
    let (r, w') = expire_action 1 overdue in
    (IsDue (row planned) overdue.now
      → (r ≡ ok done) × (find (Actions.has_id 1) w'.actions ≡ some done))
    × (¬ IsDue (row planned) overdue.now → (r ≡ ok (row planned)) × (w' ≡ overdue))
unfolding run call plan_action check_member take_plan take_chat check_budget load_evidence
    build_evidence ask_gateway take_tool store_plan ask_affected plan_row rejected_row reject
    roll_back tool_name_to_action_type try_increment same_id msk_day_bucket_key msk_day_window
    msk_hour_bucket_key msk_hour_window Actions.create Confirmations.create
expire_exact_example = expire_exact 1 overdue (row planned) refl refl

msk_day_window-key_example :
    let t : ℕ = 900_000_000_000 in
    let u : ℕ = 900_000_000_001 in
    let (start, end) = msk_day_window t in
    (start ≤ t)
    × (t < end)
    × (end ≡ start + day_us)
    × (((start ≤ u) × (u < end)) ↔ (msk_day_bucket_key u ≡ msk_day_bucket_key t))
msk_day_window-key_example = msk_day_window-key 900_000_000_000 900_000_000_001 (ground arith)

msk_hour_window-key_example :
    let t : ℕ = 900_000_000_000 in
    let u : ℕ = 900_000_000_001 in
    let (start, end) = msk_hour_window t in
    (start ≤ t)
    × (t < end)
    × (end ≡ start + hour_us)
    × (((start ≤ u) × (u < end)) ↔ (msk_hour_bucket_key u ≡ msk_hour_bucket_key t))
msk_hour_window-key_example = msk_hour_window-key 900_000_000_000 900_000_000_001 (ground arith)

abbrev plans : BucketId
plans = plans_bucket request planned

count_in-upsert_example : count_in plans (upsert plans (0, 1) 10 planned.buckets) ≡ 2
unfolding run call plan_action check_member take_plan take_chat check_budget load_evidence
    build_evidence ask_gateway take_tool store_plan ask_affected plan_row rejected_row reject
    roll_back tool_name_to_action_type try_increment same_id msk_day_bucket_key msk_day_window
    msk_hour_bucket_key msk_hour_window Actions.create Confirmations.create
count_in-upsert_example = count_in-upsert plans plans (0, 1) 10 planned.buckets

count_in-decrement_example : count_in plans (decrement plans planned).buckets ≡ 0
unfolding run call plan_action check_member take_plan take_chat check_budget load_evidence
    build_evidence ask_gateway take_tool store_plan ask_affected plan_row rejected_row reject
    roll_back tool_name_to_action_type try_increment same_id msk_day_bucket_key msk_day_window
    msk_hour_bucket_key msk_hour_window Actions.create Confirmations.create decrement
count_in-decrement_example = count_in-decrement plans plans planned.buckets

upsert-AreBounded_example : AreBounded (upsert plans (0, 1) 10 planned.buckets)
unfolding run call plan_action check_member take_plan take_chat check_budget load_evidence
    build_evidence ask_gateway take_tool store_plan ask_affected plan_row rejected_row reject
    roll_back tool_name_to_action_type try_increment same_id msk_day_bucket_key msk_day_window
    msk_hour_bucket_key msk_hour_window Actions.create Confirmations.create
upsert-AreBounded_example =
    upsert-AreBounded plans (0, 1) 10 planned.buckets (ground arith) (ground arith)

abbrev started : World
started = run sv init (start ∷ [])

plan_action-IsTaken_example :
    IsTaken sv request started plans
      (plan_action sv request started).0
      0
      (count_in plans (plan_action sv request started).1.buckets)
unfolding run call plan_action check_member take_plan take_chat check_budget load_evidence
    build_evidence ask_gateway take_tool store_plan ask_affected plan_row rejected_row reject
    roll_back tool_name_to_action_type try_increment same_id msk_day_bucket_key msk_day_window
    msk_hour_bucket_key msk_hour_window Actions.create Confirmations.create
plan_action-IsTaken_example =
    plan_action-IsTaken sv request started plans (ground arith) (ground arith) (ground arith)

-- after its execution, the action is undone and asked to be executed again
executes_once_example :
    let w' = call sv agreed (execute 1) in
    (execute_action sv 1 (run sv w' (undo 1 1 ∷ abandoned (execute 1) ∷ []))).1
    ≡ run sv w' (undo 1 1 ∷ abandoned (execute 1) ∷ [])
unfolding run call plan_action check_member take_plan take_chat check_budget load_evidence
    build_evidence ask_gateway take_tool store_plan ask_affected plan_row rejected_row reject
    roll_back tool_name_to_action_type try_increment same_id msk_day_bucket_key msk_day_window
    msk_hour_bucket_key msk_hour_window Actions.create Confirmations.create confirm_action
    check_action check_row check_ttl finish_confirm lock_row get_for_action_user list_for_action
    mark_resolved set_resolved resolve update_status set_status apply_values meets_checks
    Actions.get execute_action execute_locked check_consent take_exec run_steps run_step dispatch
    finish_step conclude attempt Invocations.create update_invocation refetch
executes_once_example =
    executes_once sv agreeing (undo 1 1 ∷ abandoned (execute 1) ∷ []) 1 (λ e. ground arith) refl

confirm_action-IsAnswer_example : IsAnswer 1 1 "token" planned
unfolding run call plan_action check_member take_plan take_chat check_budget load_evidence
    build_evidence ask_gateway take_tool store_plan ask_affected plan_row rejected_row reject
    roll_back tool_name_to_action_type try_increment same_id msk_day_bucket_key msk_day_window
    msk_hour_bucket_key msk_hour_window Actions.create Confirmations.create confirm_action
    check_action check_row check_ttl finish_confirm lock_row get_for_action_user list_for_action
    mark_resolved set_resolved resolve update_status set_status apply_values meets_checks
    Actions.get
confirm_action-IsAnswer_example =
    confirm_action-IsAnswer sv 1 1 "token" planned (confirm_action sv 1 1 "token" planned).1
      (row planned) refl

sweep_leaves_none_example :
    pending_past_ttl 2_000_000_000_000 (mark_expired_past_ttl 2_000_000_000_000 planned).actions
    ≡ []
sweep_leaves_none_example = sweep_leaves_none 2_000_000_000_000 planned
