-- ===== src/Butler/Consent/Planning.antt =====
-- `plan_action` keeps, up to its last step, every predicate that its writes keep.
use vibeshkoder.Base.{List, ℕ, ◌≡◌, refl, false, none, ◌==◌, inl, inr, Bool-cases, leb}
use vibeshkoder.Base.Exec.{bind_keeps, if_keeps, continue_keeps}
use vibeshkoder.Butler.Model.{Bucket, Action, World, Tag, ErrorClass, Plan}
use vibeshkoder.Butler.Services.{
  Services, EvidenceContext, PlanOutcome, planned_as, plan_error, other_exception,
}
use vibeshkoder.Butler.Buckets.{BucketId, try_increment, decrement}
use vibeshkoder.Butler.Windows.{msk_day_window, msk_hour_window}
use vibeshkoder.Butler.Repos.Actions
use vibeshkoder.Butler.Repos.Users.{user_of, member_or_admin}
use vibeshkoder.Butler.Plan.Guards.{
  Request, ask_gateway, rejected_row, reject, check_member, take_plan, take_chat, check_budget,
  load_evidence, built, build_evidence, evidence_query, plan_or_reject, plan_error_tag,
  plans_bucket, chat_bucket, tool_bucket, roll_back, limited_row,
}
use vibeshkoder.Butler.Plan.{
  plan_row, plan_action, store_plan, tool_limited_row, take_tool, first_step,
}
use vibeshkoder.Butler.Consent.Rows.{is_committed}

-- What a plan may write before it is stored: rows that are not committed and counters.
pub record IsPlanFrame (P : World → Type 0) : Type 0 where
  pub create :
      (row : ℕ → Action) (w : World)
      → P w
      → (row w.next_action).id ≡ w.next_action
      → is_committed (row w.next_action).status ≡ false
      → P (Actions.create row w).1
  pub buckets : (w : World) (l : List Bucket) → P w → P (record w { buckets = l })

module _ (P : World → Type 0) (frame : IsPlanFrame P) (sv : Services) (r : Request) where
  reject_keeps :
      (A : Type 0) (c : ErrorClass) (reason : Tag) (row : ℕ → Action) (w : World)
      → P w
      → (row w.next_action).id ≡ w.next_action
      → is_committed (row w.next_action).status ≡ false
      → P (reject {A = A} c reason row w).1
  unfolding reject
  reject_keeps A c reason row w h key idle =
      bind_keeps P _ (Actions.create row) w (frame.create row w h key idle) λ a u e k. k

  try_increment_keeps :
      (i : BucketId) (window : ℕ × ℕ) (ceiling : ℕ) (w : World)
      → P w
      → P (try_increment i window ceiling w).1
  unfolding try_increment
  try_increment_keeps i window ceiling w h = elim (Bool-cases (ceiling == 0)) [
    | inl e ↦ rw e h
    | inr e ↦ rw e (frame.buckets w _ h)
  ]

  check_member_keeps : (w : World) → P w → P (check_member r w).1
  unfolding check_member
  check_member_keeps w h = elim (Bool-cases (member_or_admin (user_of r.requester_user_id w))) [
    | inl e ↦ rw e h
    | inr e ↦ rw e (
        reject_keeps (Unit {0}) ErrorClass.membership_is_revoked Tag.membership_revoked
          (rejected_row r Tag.membership_revoked "" "" none) w h (unfold rejected_row in refl)
          (unfold rejected_row in refl))
  ]

  limited_keeps :
      (reason : Tag) (w : World)
      → P w
      → P (reject {A = Unit {0}} ErrorClass.action_error reason (limited_row r reason) w).1
  limited_keeps reason w h =
      reject_keeps (Unit {0}) ErrorClass.action_error reason (limited_row r reason) w h
        (unfold rejected_row in refl) (unfold rejected_row in refl)

  take_plan_keeps : (w : World) → P w → P (take_plan sv r w).1
  unfolding take_plan
  take_plan_keeps w h =
      bind_keeps P _
        (try_increment (plans_bucket r w) (msk_day_window w.now) sv.settings.user_plans_day_ceiling)
        w (try_increment_keeps _ _ _ w h)
        λ rate_ok u e k.
          if_keeps P rate_ok _ _ u (λ _. k) (λ _. limited_keeps Tag.rate_limit_exceeded u k)

  take_chat_keeps : (w : World) → P w → P (take_chat sv r w).1
  unfolding take_chat decrement
  take_chat_keeps w h =
      bind_keeps P _
        (try_increment (chat_bucket r w) (msk_day_window w.now)
          sv.settings.chat_actions_day_ceiling)
        w (try_increment_keeps _ _ _ w h)
        λ rate_ok u e k.
          if_keeps P rate_ok _ _ u (λ _. k)
            (λ _.
              bind_keeps P _ (Actions.create (limited_row r Tag.rate_limit_exceeded)) u
                (frame.create (limited_row r Tag.rate_limit_exceeded) u k
                  (unfold rejected_row in refl) (unfold rejected_row in refl))
                λ a v e' l. frame.buckets v _ l)

  check_budget_keeps : (w : World) → P w → P (check_budget sv r w).1
  unfolding check_budget roll_back decrement
  check_budget_keeps w h =
      elim (Bool-cases
        (leb sv.settings.per_user_daily_usd_ceiling (sv.daily_spend w r.requester_user_id))) [
          | inl e ↦ rw e (limited_keeps Tag.budget_exceeded (roll_back r w) (frame.buckets w _ h))
          | inr e ↦ rw e h
        ]

  load_evidence_keeps : (w : World) → P w → P (load_evidence sv r w).1
  unfolding load_evidence build_evidence
  load_evidence_keeps w h =
      continue_keeps P _ (built (sv.build_butler_evidence w (evidence_query sv r))) w h λ ctx e.
        if_keeps P ctx.abstained _ _ w
          (λ _.
            reject_keeps EvidenceContext ErrorClass.action_error Tag.empty_evidence
              (rejected_row r Tag.empty_evidence ctx.governance_filter_version ctx.context_hash
                none)
              w h (unfold rejected_row in refl) (unfold rejected_row in refl))
          (λ _. h)

  outcome_keeps :
      (ctx : EvidenceContext) (o : PlanOutcome) (w : World)
      → P w
      → P (plan_or_reject sv r ctx o w).1
  outcome_keeps ctx (planned_as plan ledger_id) w h = h
  outcome_keeps ctx (plan_error kind ledger_id) w h =
      reject_keeps (Plan × ℕ) ErrorClass.action_error (plan_error_tag sv kind)
        (rejected_row r (plan_error_tag sv kind) ctx.governance_filter_version ctx.context_hash
          ledger_id)
        w h (unfold rejected_row in refl) (unfold rejected_row in refl)
  outcome_keeps ctx other_exception w h =
      reject_keeps (Plan × ℕ) ErrorClass.action_error Tag.plan_error
        (rejected_row r Tag.plan_error ctx.governance_filter_version ctx.context_hash none) w h
        (unfold rejected_row in refl) (unfold rejected_row in refl)

  take_tool_keeps :
      (ctx : EvidenceContext) (plan : Plan) (ledger_id : ℕ) (w : World)
      → P w
      → P (take_tool sv r ctx plan ledger_id w).1
  unfolding take_tool roll_back decrement
  take_tool_keeps ctx plan ledger_id w h =
      bind_keeps P _
        (try_increment (tool_bucket r (first_step plan.actions).tool_name w) (msk_hour_window w.now)
          sv.settings.tool_hour_ceiling)
        w (try_increment_keeps _ _ _ w h)
        λ rate_ok u e k.
          if_keeps P rate_ok _ _ u (λ _. k)
            (λ _.
              reject_keeps (Unit {0}) ErrorClass.action_error Tag.rate_limit_exceeded
                (tool_limited_row sv r ctx plan ledger_id) (roll_back r u) (frame.buckets u _ k)
                (unfold plan_row rejected_row in refl) (unfold plan_row rejected_row in refl))

  ask_gateway_keeps : (ctx : EvidenceContext) (w : World) → P w → P (ask_gateway sv r ctx w).1
  unfolding ask_gateway
  ask_gateway_keeps ctx w h =
      outcome_keeps ctx (sv.plan_butler_action w (evidence_query sv r) ctx) w h

  -- `plan_action`, by its last step
  pub plan_action_keeps :
      (w : World)
      → ((ctx : EvidenceContext) (plan : Plan) (ledger_id : ℕ) (u : World)
          → P u
          → P (store_plan sv r ctx plan ledger_id u).1)
      → P w
      → P (plan_action sv r w).1
  unfolding plan_action
  plan_action_keeps w stores h =
      bind_keeps P _ (check_member r) w (check_member_keeps w h) λ _ w1 _ h1.
        bind_keeps P _ (take_plan sv r) w1 (take_plan_keeps w1 h1) λ _ w2 _ h2.
          bind_keeps P _ (take_chat sv r) w2 (take_chat_keeps w2 h2) λ _ w3 _ h3.
            bind_keeps P _ (check_budget sv r) w3 (check_budget_keeps w3 h3) λ _ w4 _ h4.
              bind_keeps P _ (load_evidence sv r) w4 (load_evidence_keeps w4 h4) λ ctx w5 _ h5.
                bind_keeps P _ (ask_gateway sv r ctx) w5 (ask_gateway_keeps ctx w5 h5) λ pl w6 _ h6.
                  bind_keeps P _ (take_tool sv r ctx pl.0 pl.1) w6
                    (take_tool_keeps ctx pl.0 pl.1 w6 h6) λ _ w7 _ h7. stores ctx pl.0 pl.1 w7 h7
