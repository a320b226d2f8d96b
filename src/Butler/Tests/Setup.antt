-- ===== src/Butler/Tests/Setup.antt =====
-- A small deployment: a plan of one step that affects a second user, and the calls up to its consent.
use vibeshkoder.Base.{ℕ, true, false, none, some, List, [], ◌∷◌, empty_dict}
use vibeshkoder.Butler.Model.{Action, Plan, User, World, Tag}
use vibeshkoder.Butler.Services.{
  Services, EvidenceContext, ToolResult, Tool, returned, planned_as, default_settings,
}
use vibeshkoder.Butler.Plan.Guards.{Request, rejected_row}
use vibeshkoder.Butler.Runs.{Call, plan, confirm, environment, run, init}

abbrev pub meeting : Plan
meeting = record {
  plan_summary = "meet";
  evidence_ids = 7 ∷ [];
  actions =
      record {
        tool_name = "schedule_meeting";
        args = empty_dict;
        affected_user_ids = 2 ∷ [];
        risk_level = "low";
        rollback_kind = "not_reversible";
      }
      ∷ [];
  governance_filter_version = "g1";
}

abbrev pub evidence : EvidenceContext
evidence = record { context_hash = "h"; governance_filter_version = "g1"; abstained = false }

abbrev pub posted : ToolResult
posted = record { success = true; payload = some empty_dict; error = none }

abbrev pub tool : Tool
tool = record {
  validate_policy = λ w ctx args. none;
  execute = λ w ctx args. returned posted;
  build_inverse = none;
}

abbrev pub sv : Services
sv = record {
  settings = default_settings;
  dumps = λ j. "";
  sha256 = λ s. s;
  token_urlsafe = λ n. "token";
  daily_spend = λ w u. 0;
  build_butler_evidence = λ w q. some evidence;
  plan_butler_action = λ w q ctx. planned_as meeting 5;
  tool_registry = λ t. some tool;
  validates = λ t args. true;
  delete_message = λ w c m. none;
  edit_message_text = λ w c m t. none;
  prior_text = λ w c m. none;
  dismiss_by_undo = λ w a u. none;
  decimal = λ n. "1";
}

abbrev pub request : Request
request = record {
  requester_user_id = 1;
  chat_id = some 9;
  query = "q";
  visibility_scope = "member";
}

abbrev pub member : ℕ → User
member n = record { id = n; is_member = true; is_admin = false }

abbrev pub start : Call
start = environment 900_000_000_000 [] (member 1 ∷ member 2 ∷ [])

abbrev pub planning : List Call
planning = start ∷ plan request ∷ []

abbrev pub agreeing : List Call
agreeing = start ∷ plan request ∷ confirm 1 1 "token" ∷ confirm 1 2 "token" ∷ []

-- the world after the plan, and after both have confirmed
abbrev pub planned : World
planned = run sv init planning

abbrev pub agreed : World
agreed = run sv init agreeing

abbrev pub head : {A : Type 0} → A → List A → A
head d [] = d
head d (x ∷ l) = x

abbrev pub no_action : Action
no_action = rejected_row request Tag.plan_error "" "" none 0

abbrev pub row : World → Action
row w = head no_action w.actions
