-- ===== src/Butler/Plan/Guards.antt =====
-- `ButlerService.plan_action` of bot/services/butler.py: the request, and the checks before there is
-- a plan, one definition for each step.
use vibeshkoder.Base.{
  ℕ, String, true, Option, none, some, [], leb, if◌then◌else◌, or_else, str_eq, empty_dict,
}
use vibeshkoder.Base.Exec.{Result, ok, err, pure, raise, modify, ◌>>=◌, ◌>>◌}
use vibeshkoder.Butler.Model.{
  Evidence, Action, ActionStatus, Plan, Tag, tag_of, ErrorClass, Error, BucketKind, World, Method,
}
use vibeshkoder.Butler.Services.{
  Services, EvidenceQuery, EvidenceContext, PlanOutcome, planned_as, plan_error, other_exception,
}
use vibeshkoder.Butler.Repos.Users.{user_of, member_or_admin}
use vibeshkoder.Butler.Repos.Actions
use vibeshkoder.Butler.Windows.{msk_day_bucket_key, msk_day_window, msk_hour_bucket_key}
use vibeshkoder.Butler.Buckets.{BucketId, try_increment, decrement}

-- the arguments of `plan_action`
pub record Request : Type 0 where
  pub requester_user_id : ℕ
  pub chat_id : Option ℕ
  pub query : String
  pub visibility_scope : String

-- chat_id if chat_id is not None else 0
abbrev pub effective_chat_id : Request → ℕ
effective_chat_id r = or_else r.chat_id 0

-- The row of a request that is turned away before there is a plan.
unfoldable pub rejected_row : Request → Tag → String → String → Option ℕ → ℕ → Action
rejected_row r reason filter_version context_hash ledger_id new_id = record {
  id = new_id;
  requester_tg_id = r.requester_user_id;
  chat_id = effective_chat_id r;
  action_type = "recall";
  status = ActionStatus.rejected;
  tool_name = "recall_evidence";
  tool_manifest_version = "v1.0.0";
  governance_filter_version = filter_version;
  evidence_context_hash = context_hash;
  evidence_ids = Evidence.ids [];
  plan_summary = "";
  action_args = empty_dict;
  action_args_hash = "";
  rollback_kind = "not_reversible";
  risk_level = "low";
  requires_confirmation = true;
  confirmation_policy = "per_action";
  expires_at = none;
  llm_usage_ledger_id = ledger_id;
  query = some r.query;
  visibility_scope = some r.visibility_scope;
  plan_payload = none;
  rejection_reason = some reason;
  error_code = none;
  result_payload = none;
  inverse_op_payload = none;
  confirmed_at = none;
  executed_at = none;
  undone_at = none;
}

-- INSERT of a rejected row, then the error with its id
unfoldable pub reject : {A : Type 0} → ErrorClass → Tag → (ℕ → Action) → Method A
reject c reason row = do a ← Actions.create row; raise (Error.butler c reason a.id)

-- Step 0: membership
unfoldable pub check_member : Request → Method (Unit {0})
unfolding reject
check_member r w =
    if member_or_admin (user_of r.requester_user_id w)
    then (ok tt, w)
    else reject ErrorClass.membership_is_revoked Tag.membership_revoked
        (rejected_row r Tag.membership_revoked "" "" none) w

-- The daily counters of the request.
abbrev pub plans_bucket : Request → World → BucketId
plans_bucket r w = record {
  bucket_kind = BucketKind.user_plans_day;
  scope_id = r.requester_user_id;
  bucket_key = msk_day_bucket_key w.now;
}

abbrev pub chat_bucket : Request → World → BucketId
chat_bucket r w = record {
  bucket_kind = BucketKind.chat_actions_day;
  scope_id = effective_chat_id r;
  bucket_key = msk_day_bucket_key w.now;
}

abbrev pub tool_bucket : Request → String → World → BucketId
tool_bucket r tool_name w = record {
  bucket_kind = BucketKind.tool_hour tool_name;
  scope_id = r.requester_user_id;
  bucket_key = msk_hour_bucket_key w.now;
}

-- `for _bucket in _incremented_buckets: decrement`
unfoldable pub roll_back : Request → World → World
roll_back r w = decrement (chat_bucket r w) (decrement (plans_bucket r w) w)

-- the row of a request that is turned away by a rate limit or the budget
abbrev pub limited_row : Request → Tag → ℕ → Action
limited_row r reason = rejected_row r reason "" "" none

abbrev pub built : Option EvidenceContext → Result Error EvidenceContext
built none = err Error.evidence_failed
built (some ctx) = ok ctx

module _ (sv : Services) where
  -- Step 1: user_plans_day
  unfoldable pub take_plan : Request → Method (Unit {0})
  unfolding reject
  take_plan r w =
      (do
        rate_ok ←
            try_increment (plans_bucket r w) (msk_day_window w.now)
              sv.settings.user_plans_day_ceiling
        if rate_ok
            then pure tt
            else reject ErrorClass.action_error Tag.rate_limit_exceeded
                (limited_row r Tag.rate_limit_exceeded))
        w

  -- Step 1: chat_actions_day; the row is written before the counter of the plans is given back
  unfoldable pub take_chat : Request → Method (Unit {0})
  take_chat r w =
      (do
        rate_ok ←
            try_increment (chat_bucket r w) (msk_day_window w.now)
              sv.settings.chat_actions_day_ceiling
        if rate_ok then pure tt else (do
          a ← Actions.create (limited_row r Tag.rate_limit_exceeded)
          modify (decrement (plans_bucket r w))
          raise (Error.butler ErrorClass.action_error Tag.rate_limit_exceeded a.id)))
        w

  -- is_user_daily_exceeded: spent >= ceiling
  unfoldable pub check_budget : Request → Method (Unit {0})
  unfolding reject
  check_budget r w =
      if leb sv.settings.per_user_daily_usd_ceiling (sv.daily_spend w r.requester_user_id)
      then (do
        modify (roll_back r)
        reject ErrorClass.action_error Tag.budget_exceeded (limited_row r Tag.budget_exceeded))
          w
      else (ok tt, w)

  abbrev pub evidence_query : Request → EvidenceQuery
  evidence_query r = record {
    requester_user_id = r.requester_user_id;
    query = r.query;
    chat_id = r.chat_id;
    visibility_scope = r.visibility_scope;
  }

  -- An exception of the evidence builder is not caught by any method of the service.
  unfoldable pub build_evidence : EvidenceQuery → Method EvidenceContext
  build_evidence q w = (built (sv.build_butler_evidence w q), w)

  -- Steps 2 and 2b: no plan is made from nothing
  unfoldable pub load_evidence : Request → Method EvidenceContext
  unfolding build_evidence reject
  load_evidence r = do
    ctx ← build_evidence (evidence_query r)
    if ctx.abstained
        then reject ErrorClass.action_error Tag.empty_evidence
            (rejected_row r Tag.empty_evidence ctx.governance_filter_version ctx.context_hash none)
        else pure ctx

  -- exc.error_kind or "plan_error"
  abbrev pub plan_error_tag : Option String → Tag
  plan_error_tag none = Tag.plan_error
  plan_error_tag (some kind) = if str_eq kind "" then Tag.plan_error else tag_of kind

  -- Step 3: any exception of the gateway leaves a rejected row
  abbrev pub plan_or_reject : Request → EvidenceContext → PlanOutcome → Method (Plan × ℕ)
  plan_or_reject r ctx (planned_as plan ledger_id) = pure (plan, ledger_id)
  plan_or_reject r ctx (plan_error kind ledger_id) =
      let reason = plan_error_tag kind in
      reject ErrorClass.action_error reason
        (rejected_row r reason ctx.governance_filter_version ctx.context_hash ledger_id)
  plan_or_reject r ctx other_exception =
      reject ErrorClass.action_error Tag.plan_error
        (rejected_row r Tag.plan_error ctx.governance_filter_version ctx.context_hash none)

  unfoldable pub ask_gateway : Request → EvidenceContext → Method (Plan × ℕ)
  unfolding reject
  ask_gateway r ctx w = plan_or_reject r ctx (sv.plan_butler_action w (evidence_query r) ctx) w
