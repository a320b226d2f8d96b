-- ===== src/Forget/Layers/Butler.antt =====
-- The four layers on the tables of the Butler.
use vibeshkoder.Base.{
  flag, num, obj, field, end, ℕ, ◌+◌, String, Bool, true, false, not, ◌&&◌, str_eq, Option, none,
  some, List, [], any, contains, count_where, update_where, if◌then◌else◌, is_some, Json, get,
  decimal, starts_with,
}
use Prim.Native.String.{◌++◌ as text_append}
use vibeshkoder.Base.Exec.{ok, pure, gets, guard, ◌>>=◌, ◌>>◌}
use vibeshkoder.Butler.Model.{
  Action, ActionStatus, Confirmation, ConfStatus, Invocation, UndoRow, Evidence, Tag,
  is_pending_conf,
}
use vibeshkoder.Forget.Model.{ForgetEvent, CascadeError, Sweep, Outside}
use vibeshkoder.Forget.Targets.{affected_action_ids}

-- f"[CONTENT_REDACTED: forget_event_id={event.id}]"
abbrev pub redact_text : ℕ → String
redact_text n = text_append "[CONTENT_REDACTED: forget_event_id=" (text_append (decimal n) "]")

-- {"redacted": true, "forget_event_id": n}
abbrev pub redact_payload : ℕ → Json
redact_payload n = obj (field "redacted" (flag true) (field "forget_event_id" (num n) end))

-- the value is there, and its key 'forget_event_id' is NULL
abbrev pub holds_content : Option Json → Bool
holds_content none = false
holds_content (some j) = not (is_some (get "forget_event_id" j))

-- status IN ('pending_confirmation', 'confirmed', 'executing')
abbrev pub is_in_progress : ActionStatus → Bool
is_in_progress ActionStatus.pending_confirmation = true
is_in_progress ActionStatus.confirmed = true
is_in_progress ActionStatus.executing = true
is_in_progress _ = false

-- action_id = ANY(action_ids)
abbrev pub of_actions : List ℕ → Confirmation → Bool
of_actions ids c = contains c.action_id ids

abbrev pub expire_row : ℕ → Confirmation → Confirmation
expire_row n c = record c { status = ConfStatus.expired; preview_payload_hash = redact_text n }

abbrev pub redact_row : ℕ → Confirmation → Confirmation
redact_row n c = record c { preview_payload_hash = redact_text n }

unfoldable pub update_confirmations :
    (Confirmation → Bool) → (Confirmation → Confirmation) → Sweep ℕ
update_confirmations p f w = (
  ok (count_where p w.butler.confirmations),
  record w { butler = record w.butler { confirmations = update_where p f w.butler.confirmations } },
)

-- SELECT … FOR UPDATE NOWAIT on the parent rows
unfoldable pub lock_parents : List ℕ → Sweep (Unit {0})
lock_parents ids w =
    guard (not (any (λ i. contains i ids) w.butler.locked)) CascadeError.lock_not_available w

-- the two statements on the confirmations
abbrev pub rewrite_rows : ℕ → List ℕ → Sweep ℕ
rewrite_rows n ids = do
  expired ← update_confirmations (λ c. of_actions ids c && is_pending_conf c.status) (expire_row n)
  rewritten ←
      update_confirmations
        (λ c.
          of_actions ids c
          && (not (is_pending_conf c.status)
              && not (str_eq c.preview_payload_hash (redact_text n))))
        (redact_row n)
  pure (expired + rewritten)

unfoldable pub sweep_confirmations : ℕ → List ℕ → Sweep ℕ
unfolding lock_parents
sweep_confirmations n ids = do lock_parents ids; rewrite_rows n ids

abbrev pub redact_response : ℕ → Invocation → Invocation
redact_response n i = record i { response_payload = some (redact_payload n) }

abbrev pub leaks_response : List ℕ → Invocation → Bool
leaks_response ids i = contains i.action_id ids && holds_content i.response_payload

unfoldable pub sweep_invocations : ℕ → List ℕ → Sweep ℕ
sweep_invocations n ids w = (
  ok (count_where (leaks_response ids) w.butler.invocations),
  record w {
    butler = record w.butler {
      invocations = update_where (leaks_response ids) (redact_response n) w.butler.invocations;
    };
  },
)

-- error_message IS NOT NULL AND error_message NOT LIKE '[CONTENT_REDACTED%'
abbrev pub holds_message : Option String → Bool
holds_message none = false
holds_message (some s) = not (starts_with "[CONTENT_REDACTED" s)

abbrev pub redact_error : ℕ → UndoRow → UndoRow
redact_error n u = record u { error_message = some (redact_text n) }

abbrev pub leaks_error : List ℕ → UndoRow → Bool
leaks_error ids u = contains u.butler_action_id ids && holds_message u.error_message

unfoldable pub sweep_undo_rows : ℕ → List ℕ → Sweep ℕ
sweep_undo_rows n ids w = (
  ok (count_where (leaks_error ids) w.butler.undo_rows),
  record w {
    butler = record w.butler {
      undo_rows = update_where (leaks_error ids) (redact_error n) w.butler.undo_rows;
    };
  },
)

-- evidence_ids->>'forget_event_id' IS NULL
abbrev pub holds_evidence : Evidence → Bool
holds_evidence (Evidence.ids l) = true
holds_evidence (Evidence.redacted n) = false

abbrev pub expire_source : ℕ → Action → Action
expire_source n a = record a {
  status = ActionStatus.expired;
  rejection_reason = some Tag.source_forgotten;
  evidence_ids = Evidence.redacted n;
}

abbrev pub redact_action : ℕ → Action → Action
redact_action n a = record a {
  evidence_ids = Evidence.redacted n;
  result_payload =
      if holds_content a.result_payload then some (redact_payload n) else a.result_payload;
}

unfoldable pub update_actions : (Action → Bool) → (Action → Action) → Sweep ℕ
update_actions p f w = (
  ok (count_where p w.butler.actions),
  record w { butler = record w.butler { actions = update_where p f w.butler.actions } },
)

-- the two statements on the actions
unfoldable pub sweep_actions : ℕ → List ℕ → Sweep ℕ
sweep_actions n ids = do
  expired ← update_actions (λ a. contains a.id ids && is_in_progress a.status) (expire_source n)
  rewritten ←
      update_actions
        (λ a. contains a.id ids && (not (is_in_progress a.status) && holds_evidence a.evidence_ids))
        (redact_action n)
  pure (expired + rewritten)

-- if not action_ids: return 0
abbrev pub unless_none : List ℕ → (List ℕ → Sweep ℕ) → Sweep ℕ
unless_none [] sweep = pure 0
unless_none ids sweep = sweep ids

module _ (out : Outside) where
  unfoldable pub cascade_butler_action_confirmations : ForgetEvent → Sweep ℕ
  cascade_butler_action_confirmations e = do
    ids ← gets (affected_action_ids out e)
    unless_none ids (sweep_confirmations e.id)

  unfoldable pub cascade_butler_tool_invocations : ForgetEvent → Sweep ℕ
  cascade_butler_tool_invocations e = do
    ids ← gets (affected_action_ids out e)
    unless_none ids (sweep_invocations e.id)

  unfoldable pub cascade_butler_undo_invocations : ForgetEvent → Sweep ℕ
  cascade_butler_undo_invocations e = do
    ids ← gets (affected_action_ids out e)
    unless_none ids (sweep_undo_rows e.id)

  unfoldable pub cascade_butler_actions : ForgetEvent → Sweep ℕ
  cascade_butler_actions e = do
    ids ← gets (affected_action_ids out e)
    unless_none ids (sweep_actions e.id)
