-- ===== src/Butler/Repos/Invocations.antt =====
-- bot/db/repos/butler_tool_invocation.py
use vibeshkoder.Base.{
  ℕ, ◌+◌, String, Bool, Option, none, List, [], ◌∷◌, ◌++◌, ◌==◌, filter, any, update_where,
  if◌then◌else◌, or_keep, Json,
}
use vibeshkoder.Base.Exec.{ok, err, gets}
use vibeshkoder.Butler.Model.{Invocation, InvStatus, Error, Method}

unfoldable pub create : (ℕ → Invocation) → Method Invocation
create row w =
    let inv = row w.next_invocation in
    (
      ok inv,
      record w { invocations = w.invocations ++ inv ∷ []; next_invocation = w.next_invocation + 1 },
    )

-- ORDER BY started_at: the order of insertion
unfoldable pub list_for_action : ℕ → Method (List Invocation)
list_for_action action_id = gets (λ w. filter (λ i. i.action_id == action_id) w.invocations)

-- the optional keyword arguments of `update_invocation`
pub record Values : Type 0 where
  pub response_payload : Option Json
  pub response_payload_hash : Option String
  pub finished_at : Option ℕ
  pub error_code : Option String
  pub posted_message_id : Option Json
  pub inverse_op_payload : Option Json

abbrev pub no_values : Values
no_values = record {
  response_payload = none;
  response_payload_hash = none;
  finished_at = none;
  error_code = none;
  posted_message_id = none;
  inverse_op_payload = none;
}

unfoldable pub apply_values : InvStatus → Values → Invocation → Invocation
apply_values status v i = record i {
  status = status;
  response_payload = or_keep v.response_payload i.response_payload;
  response_payload_hash = or_keep v.response_payload_hash i.response_payload_hash;
  finished_at = or_keep v.finished_at i.finished_at;
  error_code = or_keep v.error_code i.error_code;
  posted_message_id = or_keep v.posted_message_id i.posted_message_id;
  inverse_op_payload = or_keep v.inverse_op_payload i.inverse_op_payload;
}

-- Invocation.id == invocation_id
abbrev pub has_id : ℕ → Invocation → Bool
has_id invocation_id i = i.id == invocation_id

-- A row count of 0 raises LookupError.
unfoldable pub update_invocation : ℕ → InvStatus → Values → Method (Unit {0})
update_invocation invocation_id status v w =
    if any (has_id invocation_id) w.invocations
    then (
      ok tt,
      record w {
        invocations = update_where (has_id invocation_id) (apply_values status v) w.invocations;
      },
    )
    else (err Error.lookup_error, w)
