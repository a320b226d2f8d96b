-- ===== src/Butler/Plan.antt =====
-- `ButlerService.plan_action` of bot/services/butler.py: the metadata of the plan, its rows, and the
-- method. The checks before there is a plan are in Guards.
pub mod Guards
pub mod Asks
pub mod Taken
pub mod Counters
use vibeshkoder.Base.{
  ℕ, ◌+◌, ◌*◌, ◌≡◌, String, Bool, true, false, not, Option, none, some, List, [], ◌∷◌, ◌++◌, ◌==◌,
  leb, ltb, if◌then◌else◌, or_else, str_eq, Json, obj, str, end, field, empty_dict,
}
use vibeshkoder.Base.Exec.{Exec, Result, ok, err, pure, raise, gets, modify, guard, ◌>>=◌, ◌>>◌}
use vibeshkoder.Butler.Model.{
  Evidence, Action, ActionStatus, Confirmation, ConfStatus, Role, Step, Plan, Tag, ErrorClass,
  Error, BucketKind, World, Method,
}
use vibeshkoder.Butler.Services.{
  Services, EvidenceQuery, EvidenceContext, PlanOutcome, planned_as, plan_error, other_exception,
}
use vibeshkoder.Butler.Repos.Users.{user_of, member_or_admin}
use vibeshkoder.Butler.Repos.Actions
use vibeshkoder.Butler.Repos.Confirmations
use vibeshkoder.Butler.Windows.{
  msk_day_bucket_key, msk_day_window, msk_hour_bucket_key, msk_hour_window,
}
use vibeshkoder.Butler.Buckets.{BucketId, try_increment, decrement}
use vibeshkoder.Butler.Plan.Guards.{
  Request, effective_chat_id, rejected_row, reject, check_member, plans_bucket, chat_bucket,
  tool_bucket, roll_back, limited_row, built, take_plan, take_chat, check_budget, evidence_query,
  build_evidence, load_evidence, plan_error_tag, plan_or_reject, ask_gateway,
}

-- _TOOL_TO_ACTION_TYPE
unfoldable pub tool_name_to_action_type : String → String
tool_name_to_action_type t =
    if str_eq t "recall_evidence"
    then "recall"
    else if str_eq t "schedule_meeting"
    then "meeting"
    else if str_eq t "send_intro"
    then "intro"
    else if str_eq t "update_intro"
    then "intro_update"
    else if str_eq t "suggest_card_creation"
    then "card_suggestion"
    else "recall"

-- what stands for `plan.actions[0]` in a plan with no action
abbrev pub default_step : Step
default_step = record {
  tool_name = "recall_evidence";
  args = empty_dict;
  affected_user_ids = [];
  risk_level = "low";
  rollback_kind = "not_reversible";
}

abbrev pub first_step : List Step → Step
first_step [] = default_step
first_step (s ∷ l) = s

-- `sorted` of a set, one element at a time
abbrev pub add_sorted : ℕ → List ℕ → List ℕ
add_sorted x [] = x ∷ []
add_sorted x (y ∷ l) = if ltb x y then x ∷ y ∷ l else if x == y then y ∷ l else y ∷ add_sorted x l

-- the ids of one step, without the requester's
abbrev pub add_affected : ℕ → List ℕ → List ℕ → List ℕ
add_affected me [] acc = acc
add_affected me (uid ∷ l) acc = add_affected me l (if uid == me then acc else add_sorted uid acc)

-- sorted(affected_user_ids), over all the steps of the plan
abbrev pub affected_users : ℕ → List Step → List ℕ → List ℕ
affected_users me [] acc = acc
affected_users me (s ∷ l) acc = affected_users me l (add_affected me s.affected_user_ids acc)

module _ (sv : Services) where
  abbrev pub args_hash : Json → String
  args_hash args = sv.sha256 (sv.dumps args)

  -- The row of a plan: what both rows of Step 4 share. A plan has no manifest version of its own, so
  -- the row keeps the default.
  unfoldable pub plan_row : Request → EvidenceContext → Plan → ℕ → ℕ → Action
  plan_row r ctx plan ledger_id new_id =
      let first = first_step plan.actions in
      record (rejected_row r Tag.plan_error "" "" none new_id) {
        action_type = tool_name_to_action_type first.tool_name;
        tool_name = first.tool_name;
        governance_filter_version = plan.governance_filter_version;
        evidence_context_hash = ctx.context_hash;
        action_args = first.args;
        action_args_hash = args_hash first.args;
        rollback_kind = first.rollback_kind;
        risk_level = first.risk_level;
        llm_usage_ledger_id = some ledger_id;
        plan_payload = some plan.actions;
      }

  abbrev pub tool_limited_row : Request → EvidenceContext → Plan → ℕ → ℕ → Action
  tool_limited_row r ctx plan ledger_id new_id = record (plan_row r ctx plan ledger_id new_id) {
    rejection_reason = some Tag.rate_limit_exceeded;
  }

  abbrev pub pending_row : Request → EvidenceContext → Plan → ℕ → ℕ → ℕ → Action
  pending_row r ctx plan ledger_id now new_id = record (plan_row r ctx plan ledger_id new_id) {
    status = ActionStatus.pending_confirmation;
    rejection_reason = none;
    evidence_ids = Evidence.ids plan.evidence_ids;
    plan_summary = plan.plan_summary;
    expires_at = some (now + sv.settings.butler_plan_ttl_seconds * 1_000_000);
  }

  -- Step 4: the limit of the first tool
  unfoldable pub take_tool : Request → EvidenceContext → Plan → ℕ → Method (Unit {0})
  unfolding reject
  take_tool r ctx plan ledger_id w =
      (do
        rate_ok ←
            try_increment (tool_bucket r (first_step plan.actions).tool_name w)
              (msk_hour_window w.now) sv.settings.tool_hour_ceiling
        if rate_ok then pure tt else (do
          modify (roll_back r)
          reject ErrorClass.action_error Tag.rate_limit_exceeded
              (tool_limited_row r ctx plan ledger_id)))
        w

  -- _payload_hash({"plan_summary": plan.plan_summary})
  abbrev pub preview_hash : Plan → String
  preview_hash plan = args_hash (obj (field "plan_summary" (str plan.plan_summary) end))

  -- A confirmation row has a token of its own.
  abbrev pub confirmation_row : ℕ → ℕ → Role → String → ℕ → ℕ → Confirmation
  confirmation_row action_id user_id role preview expires_at new_id = record {
    id = new_id;
    action_id = action_id;
    confirmer_tg_id = user_id;
    confirmation_role = role;
    status = ConfStatus.pending;
    preview_payload_hash = preview;
    expires_at = expires_at;
    confirmation_token = sv.token_urlsafe new_id;
    confirmed_at = none;
    rejected_at = none;
  }

  -- the loop over sorted(affected_user_ids)
  unfoldable pub ask_affected : ℕ → String → ℕ → List ℕ → Method (Unit {0})
  ask_affected action_id preview expires_at [] = pure tt
  ask_affected action_id preview expires_at (uid ∷ l) = do
    Confirmations.create (confirmation_row action_id uid Role.affected_user preview expires_at)
    ask_affected action_id preview expires_at l

  -- Steps 4 and 5: the action and its confirmation rows
  unfoldable pub store_plan : Request → EvidenceContext → Plan → ℕ → Method Action
  store_plan r ctx plan ledger_id w =
      (do
        let expires = w.now + sv.settings.butler_confirmation_ttl_seconds * 1_000_000
        a ← Actions.create (pending_row r ctx plan ledger_id w.now)
        Confirmations.create
            (confirmation_row a.id r.requester_user_id Role.requester (preview_hash plan) expires)
        ask_affected a.id (preview_hash plan) expires
            (affected_users r.requester_user_id plan.actions [])
        pure a)
        w

  unfoldable pub plan_action : Request → Method Action
  plan_action r = do
    check_member r
    take_plan sv r
    take_chat sv r
    check_budget sv r
    ctx ← load_evidence sv r
    (plan, ledger_id) ← ask_gateway sv r ctx
    take_tool r ctx plan ledger_id
    store_plan r ctx plan ledger_id
