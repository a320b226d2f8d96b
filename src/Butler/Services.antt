-- ===== src/Butler/Services.antt =====
-- What the constructor of `ButlerService` injects, and the libraries that the service calls: the
-- evidence builder, the language-model gateway, the tools, Telegram, hashes and random tokens.
use vibeshkoder.Base.{ℕ, String, Bool, ◌||◌, str_eq, Option, Json}
use vibeshkoder.Butler.Model.{Plan, World}

-- the arguments of `build_butler_evidence`
pub record EvidenceQuery : Type 0 where
  pub requester_user_id : ℕ
  pub query : String
  pub chat_id : Option ℕ
  pub visibility_scope : String

-- the fields of ButlerEvidenceContext that the service reads; `abstained` is `bundle.abstained`
pub record EvidenceContext : Type 0 where
  pub context_hash : String
  pub governance_filter_version : String
  pub abstained : Bool

-- How `plan_butler_action` ends: with a plan and its ledger row, with a `ButlerPlanError` and its
-- kind and ledger row, or with another exception.
pub data PlanOutcome : Type 0 where
  planned_as : Plan → ℕ → PlanOutcome
  plan_error : Option String → Option ℕ → PlanOutcome
  other_exception : PlanOutcome

-- ToolResult
pub record ToolResult : Type 0 where
  pub success : Bool
  pub payload : Option Json
  pub error : Option String

-- How `tool.execute` ends: it returns, or it raises with a text. In both cases it may have acted.
pub data ToolOutcome : Type 0 where
  returned : ToolResult → ToolOutcome
  raised : String → ToolOutcome

-- The ButlerTool protocol. `validate_policy` returns, or raises with a text. `build_inverse` is
-- none where the tool has no such method, and its result is none where the call raises.
pub record Tool : Type 0 where
  pub validate_policy : World → EvidenceContext → Json → Option String
  pub execute : World → EvidenceContext → Json → ToolOutcome
  pub build_inverse : Option (ToolResult → Option Json)

-- the attributes of `settings`, with the module's defaults where there is none
pub record Settings : Type 0 where
  pub user_plans_day_ceiling : ℕ
  pub chat_actions_day_ceiling : ℕ
  pub user_execs_day_ceiling : ℕ
  pub tool_hour_ceiling : ℕ
  pub per_user_daily_usd_ceiling : ℕ
  pub butler_plan_ttl_seconds : ℕ
  pub butler_confirmation_ttl_seconds : ℕ
  pub butler_undo_ttl_minutes : ℕ

-- _USER_PLANS_DAY_CEILING, _CHAT_ACTIONS_DAY_CEILING, _USER_EXECS_DAY_CEILING, _TOOL_HOUR_CEILING,
-- _PER_USER_DAILY_USD_CEILING (in millionths), _PLAN_TTL_SECONDS, _CONFIRMATION_TTL_SECONDS
abbrev pub default_settings : Settings
default_settings = record {
  user_plans_day_ceiling = 10;
  chat_actions_day_ceiling = 50;
  user_execs_day_ceiling = 5;
  tool_hour_ceiling = 20;
  per_user_daily_usd_ceiling = 200_000;
  butler_plan_ttl_seconds = 900;
  butler_confirmation_ttl_seconds = 300;
  butler_undo_ttl_minutes = 60;
}

-- `dumps` is json.dumps with sorted keys and no spaces, `sha256` the hex digest of a text's bytes,
-- `token_urlsafe n` the random token drawn for the confirmation row n, `daily_spend` the sum of
-- compute_user_daily_budget_spent, `validates` the pydantic validation of a tool's arguments.
-- A Telegram call returns the exception's class name where it raises; `prior_text` is the query
-- of `_resolve_prior_text`; `dismiss_by_undo` is none where it returns.
pub record Services : Type 0 where
  pub settings : Settings
  pub dumps : Json → String
  pub sha256 : String → String
  pub token_urlsafe : ℕ → String
  pub daily_spend : World → ℕ → ℕ
  pub build_butler_evidence : World → EvidenceQuery → Option EvidenceContext
  pub plan_butler_action : World → EvidenceQuery → EvidenceContext → PlanOutcome
  pub tool_registry : String → Option Tool
  pub validates : String → Json → Bool
  pub delete_message : World → Json → Json → Option String
  pub edit_message_text : World → Json → Json → String → Option String
  pub prior_text : World → Json → Json → Option String
  pub dismiss_by_undo : World → ℕ → ℕ → Option String
  pub decimal : ℕ → String

-- ALLOWED_BUTLER_TOOLS, the keys of TOOL_ARGS_SCHEMA
abbrev pub is_allowed_tool : String → Bool
is_allowed_tool t =
    str_eq t "recall_evidence"
    || (str_eq t "schedule_meeting"
        || (str_eq t "send_intro" || (str_eq t "update_intro" || str_eq t "suggest_card_creation")))
