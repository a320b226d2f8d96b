-- ===== src/Butler/Model.antt =====
-- The rows of bot/db/models.py that the Butler service reads and writes, the service's errors
-- (bot/services/butler.py) and the plan of bot/services/butler_tools/__init__.py.
-- Telegram and row ids are only compared, so they are naturals; times are microseconds of UTC.
-- A dict column is a `Json`; money is counted in the smallest unit of its Decimal column.
use vibeshkoder.Base.{
  [], ◌∷◌, str_eq, if◌then◌else◌, ℕ, String, Bool, true, false, Option, List, Json,
}
use vibeshkoder.Base.Exec.{Exec}

-- ck_butler_actions_status
pub data ActionStatus : Type 0 where
  requested evidence_loaded planned pending_confirmation : ActionStatus
  confirmed executing succeeded undone : ActionStatus
  undo_pending undo_succeeded undo_failed : ActionStatus
  rejected expired execution_failed cancelled : ActionStatus

-- ck_butler_action_confirmations_status
pub data ConfStatus : Type 0 where
  pending confirmed rejected expired cancelled revoked : ConfStatus

-- ck_butler_action_confirmations_role
pub data Role : Type 0 where
  requester affected_user admin rollback_requester : Role

-- ck_butler_tool_invocations_status
pub data InvStatus : Type 0 where
  pending running succeeded failed rolled_back : InvStatus

-- ck_butler_undo_invocations_status
pub data UndoStatus : Type 0 where
  pending succeeded failed skipped_not_reversible : UndoStatus

-- The string tags of `error_kind` and of the column `rejection_reason`; `gateway` is one that the gateway
-- alone uses.
pub data Tag : Type 0 where
  membership_revoked rate_limit_exceeded budget_exceeded empty_evidence plan_error : Tag
  cascade_in_flight source_forgotten already_confirmed_by_user expired ttl_expired : Tag
  wrong_status bad_token invariant_broken evidence_stale : Tag
  affected_user_consent_revoked cancelled_by_user forbidden not_found : Tag
  tool_not_allowed invalid_args : Tag
  gateway : String → Tag

abbrev pub named_tags : List (String × Tag)
named_tags =
    ("membership_revoked", Tag.membership_revoked)
    ∷ ("rate_limit_exceeded", Tag.rate_limit_exceeded)
    ∷ ("budget_exceeded", Tag.budget_exceeded)
    ∷ ("empty_evidence", Tag.empty_evidence)
    ∷ ("plan_error", Tag.plan_error)
    ∷ ("cascade_in_flight", Tag.cascade_in_flight)
    ∷ ("source_forgotten", Tag.source_forgotten)
    ∷ ("already_confirmed_by_user", Tag.already_confirmed_by_user)
    ∷ ("expired", Tag.expired)
    ∷ ("ttl_expired", Tag.ttl_expired)
    ∷ ("wrong_status", Tag.wrong_status)
    ∷ ("bad_token", Tag.bad_token)
    ∷ ("invariant_broken", Tag.invariant_broken)
    ∷ ("evidence_stale", Tag.evidence_stale)
    ∷ ("affected_user_consent_revoked", Tag.affected_user_consent_revoked)
    ∷ ("cancelled_by_user", Tag.cancelled_by_user)
    ∷ ("forbidden", Tag.forbidden)
    ∷ ("not_found", Tag.not_found)
    ∷ ("tool_not_allowed", Tag.tool_not_allowed)
    ∷ ("invalid_args", Tag.invalid_args)
    ∷ []

abbrev pub named : String → List (String × Tag) → Tag
named kind [] = Tag.gateway kind
named kind ((name, tag) ∷ l) = if str_eq kind name then tag else named kind l

-- the tag of a text
unfoldable pub tag_of : String → Tag
tag_of kind = named kind named_tags

pub data ErrorClass : Type 0 where
  action_error action_expired action_rejected evidence_is_stale cascade_is_in_flight : ErrorClass
  membership_is_revoked : ErrorClass

-- `ButlerActionError` and its subclasses carry a kind and the action's id; a `LookupError` of a
-- repository, a `ButlerPlanError`, an exception of the evidence builder, a CHECK
-- constraint of the database and a lock that is not available are the others.
pub data Error : Type 0 where
  butler : ErrorClass → Tag → ℕ → Error
  lookup_error : Error
  plan_failed : Tag → Error
  evidence_failed : Error
  integrity_error : Error
  lock_not_available : Error

-- ButlerActionStep
pub record Step : Type 0 where
  pub tool_name : String
  pub args : Json
  pub affected_user_ids : List ℕ
  pub risk_level : String
  pub rollback_kind : String

-- ButlerPlan, with the fields that the service reads; it has no `tool_manifest_version`
pub record Plan : Type 0 where
  pub plan_summary : String
  pub evidence_ids : List ℕ
  pub actions : List Step
  pub governance_filter_version : String

-- butler_actions.evidence_ids: the ids that the plan names, or what the forget cascade leaves of them,
-- `{"redacted": true, "forget_event_id": n}`
pub data Evidence : Type 0 where
  ids : List ℕ → Evidence
  redacted : ℕ → Evidence

-- ButlerAction; `plan_payload` is the list under its key 'actions', and none where there is no
-- such key (the default `{}`)
pub record Action : Type 0 where
  pub id : ℕ
  pub requester_tg_id : ℕ
  pub chat_id : ℕ
  pub action_type : String
  pub status : ActionStatus
  pub tool_name : String
  pub tool_manifest_version : String
  pub governance_filter_version : String
  pub evidence_context_hash : String
  pub evidence_ids : Evidence
  pub plan_summary : String
  pub action_args : Json
  pub action_args_hash : String
  pub rollback_kind : String
  pub risk_level : String
  pub requires_confirmation : Bool
  pub confirmation_policy : String
  pub expires_at : Option ℕ
  pub llm_usage_ledger_id : Option ℕ
  pub query : Option String
  pub visibility_scope : Option String
  pub plan_payload : Option (List Step)
  pub rejection_reason : Option Tag
  pub error_code : Option String
  pub result_payload : Option Json
  pub inverse_op_payload : Option Json
  pub confirmed_at : Option ℕ
  pub executed_at : Option ℕ
  pub undone_at : Option ℕ

-- ButlerActionConfirmation
pub record Confirmation : Type 0 where
  pub id : ℕ
  pub action_id : ℕ
  pub confirmer_tg_id : ℕ
  pub confirmation_role : Role
  pub status : ConfStatus
  pub preview_payload_hash : String
  pub expires_at : ℕ
  pub confirmation_token : String
  pub confirmed_at : Option ℕ
  pub rejected_at : Option ℕ

-- ButlerToolInvocation
pub record Invocation : Type 0 where
  pub id : ℕ
  pub action_id : ℕ
  pub tool_name : String
  pub invocation_seq : ℕ
  pub idempotency_key : String
  pub request_payload : Json
  pub request_payload_hash : String
  pub status : InvStatus
  pub response_payload : Option Json
  pub response_payload_hash : Option String
  pub finished_at : Option ℕ
  pub error_code : Option String
  pub posted_message_id : Option Json
  pub inverse_op_payload : Option Json

-- ButlerUndoInvocation
pub record UndoRow : Type 0 where
  pub id : ℕ
  pub butler_action_id : ℕ
  pub butler_tool_invocation_id : ℕ
  pub requester_user_id : ℕ
  pub rollback_kind : String
  pub status : UndoStatus
  pub error_kind : Option String
  pub error_message : Option String

-- The bucket kinds of ck_butler_rate_buckets_kind; `tool_hour` carries the tool's name.
pub data BucketKind : Type 0 where
  user_plans_day user_execs_day chat_actions_day : BucketKind
  tool_hour : String → BucketKind

-- The strings `day:YYYY-MM-DD` and `hour:YYYY-MM-DD-HH`, as the number of the day or hour that
-- they spell.
pub data BucketKey : Type 0 where
  day hour : ℕ → BucketKey

-- ButlerRateBucket
pub record Bucket : Type 0 where
  pub bucket_kind : BucketKind
  pub scope_id : ℕ
  pub bucket_key : BucketKey
  pub window_start : ℕ
  pub window_end : ℕ
  pub count : ℕ
  pub ceiling : ℕ

-- the columns of `users` that the service reads
pub record User : Type 0 where
  pub id : ℕ
  pub is_member : Bool
  pub is_admin : Bool

-- What the service makes the outside do: a tool of an action runs, or Telegram is asked to
-- delete or to edit a message, or a card suggestion is dismissed.
pub data Effect : Type 0 where
  tool_ran : ℕ → String → Json → Effect
  deleted : Json → Json → Effect
  edited : Json → Json → String → Effect
  dismissed : ℕ → ℕ → Effect

-- The database, the rows that a concurrent transaction holds locked, the clock and the effects,
-- the latest first. `next_…` are the sequences of the primary keys.
pub record World : Type 0 where
  pub now : ℕ
  pub locked : List ℕ
  pub users : List User
  pub actions : List Action
  pub next_action : ℕ
  pub confirmations : List Confirmation
  pub next_confirmation : ℕ
  pub invocations : List Invocation
  pub next_invocation : ℕ
  pub undo_rows : List UndoRow
  pub next_undo : ℕ
  pub buckets : List Bucket
  pub effects : List Effect

abbrev pub Method : Type 0 → Type 0
Method A = Exec Error World A

-- the tests by which the code branches on a status
abbrev pub is_pending_confirmation : ActionStatus → Bool
is_pending_confirmation ActionStatus.pending_confirmation = true
is_pending_confirmation _ = false

abbrev pub is_confirmed : ActionStatus → Bool
is_confirmed ActionStatus.confirmed = true
is_confirmed _ = false

abbrev pub is_expired : ActionStatus → Bool
is_expired ActionStatus.expired = true
is_expired _ = false

-- status in ("expired", "cancelled")
abbrev pub is_expired_or_cancelled : ActionStatus → Bool
is_expired_or_cancelled ActionStatus.expired = true
is_expired_or_cancelled ActionStatus.cancelled = true
is_expired_or_cancelled _ = false

-- status in ("pending_confirmation", "confirmed")
abbrev pub is_cancellable : ActionStatus → Bool
is_cancellable ActionStatus.pending_confirmation = true
is_cancellable ActionStatus.confirmed = true
is_cancellable _ = false

-- status in ("pending_confirmation", "planned")
abbrev pub is_unconfirmed : ActionStatus → Bool
is_unconfirmed ActionStatus.pending_confirmation = true
is_unconfirmed ActionStatus.planned = true
is_unconfirmed _ = false

-- status in ("succeeded", "undone")
abbrev pub is_undoable : ActionStatus → Bool
is_undoable ActionStatus.succeeded = true
is_undoable ActionStatus.undone = true
is_undoable _ = false

abbrev pub is_pending_conf : ConfStatus → Bool
is_pending_conf ConfStatus.pending = true
is_pending_conf _ = false

abbrev pub is_confirmed_conf : ConfStatus → Bool
is_confirmed_conf ConfStatus.confirmed = true
is_confirmed_conf _ = false

abbrev pub is_affected_user : Role → Bool
is_affected_user Role.affected_user = true
is_affected_user _ = false

-- status in ("succeeded", "skipped_not_reversible")
abbrev pub is_done : UndoStatus → Bool
is_done UndoStatus.succeeded = true
is_done UndoStatus.skipped_not_reversible = true
is_done _ = false

-- status in ("pending", "failed")
abbrev pub is_open : UndoStatus → Bool
is_open UndoStatus.pending = true
is_open UndoStatus.failed = true
is_open _ = false

abbrev pub is_source_forgotten : Option Tag → Bool
is_source_forgotten (Option.some Tag.source_forgotten) = true
is_source_forgotten _ = false
