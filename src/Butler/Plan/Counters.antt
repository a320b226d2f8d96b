-- ===== src/Butler/Plan/Counters.antt =====
-- What a call of `plan_action` takes from the rate counters, on every branch.
use vibeshkoder.Base.{
  ℕ, ◌+◌, ◌-◌, ◌*◌, ◌<◌, ◌≡◌, refl, ◌∙◌, String, false, List, [], ◌∷◌, arith, inl, inr,
  update_where, Bool-cases, Option-cases, leb,
}
use vibeshkoder.Base.Exec.{continue, Result, pure, ◌>>=◌, ◌>>◌}
use vibeshkoder.Butler.Model.{Action, Bucket, Role, Plan, Error, World, Method}
use vibeshkoder.Butler.Services.{
  Services, EvidenceContext, PlanOutcome, planned_as, plan_error, other_exception,
}
use vibeshkoder.Butler.Repos.Actions
use vibeshkoder.Butler.Repos.Confirmations
use vibeshkoder.Butler.Repos.Users.{user_of, member_or_admin}
use vibeshkoder.Butler.Windows.{msk_day_window, msk_hour_window}
use vibeshkoder.Butler.Buckets.{drop_one, BucketId, is_bucket, same_id, decrement}
use vibeshkoder.Butler.Buckets.Counts.{count_in, one_if, count_in-decrement}
use vibeshkoder.Butler.Plan.Guards.{
  Request, plans_bucket, chat_bucket, tool_bucket, roll_back, reject, check_member, take_plan,
  take_chat, check_budget, build_evidence, load_evidence, plan_or_reject, ask_gateway,
  evidence_query, rejected_row,
}
use vibeshkoder.Butler.Plan.{
  plan_action, plan_row, pending_row, take_tool, store_plan, ask_affected, first_step,
  confirmation_row, preview_hash, affected_users,
}
use vibeshkoder.Butler.Plan.Taken.{IsTaken, increment_cases}

module _ (sv : Services) (r : Request) (w0 : World) (j : BucketId) where
  abbrev in_plans : ℕ
  in_plans = one_if (same_id (plans_bucket r w0) j)

  abbrev in_chat : ℕ
  in_chat = one_if (same_id (chat_bucket r w0) j)

  -- From the first world, the counter has grown by `n` and the clock stands.
  record HasTaken (n : ℕ) (w : World) : Type 0 where
    same_time : w.now ≡ w0.now
    grown : count_in j w.buckets ≡ count_in j w0.buckets + n

  abbrev Counts : Result Error Action × World → Type 0
  Counts (res, w) = IsTaken sv r w0 j res (count_in j w0.buckets) (count_in j w.buckets)

  -- the two counters given back, at the first world's time
  drop_plan :
      (w : World)
      → w.now ≡ w0.now
      → (l : List Bucket)
      → count_in j (update_where (is_bucket (plans_bucket r w)) drop_one l)
        ≡ count_in j l - in_plans
  drop_plan w h l = rw (← h) (count_in-decrement (plans_bucket r w) j l)

  drop_chat :
      (w : World)
      → w.now ≡ w0.now
      → (l : List Bucket)
      → count_in j (update_where (is_bucket (chat_bucket r w)) drop_one l) ≡ count_in j l - in_chat
  drop_chat w h l = rw (← h) (count_in-decrement (chat_bucket r w) j l)

  drop_both :
      (u w : World)
      → w.now ≡ w0.now
      → HasTaken (in_plans + in_chat) u
      → count_in j (
          update_where
            (is_bucket (chat_bucket r w))
            drop_one
            (update_where (is_bucket (plans_bucket r w)) drop_one u.buckets))
        ≡ count_in j w0.buckets
  drop_both u w h k = ground (
    arith,
    drop_plan w h u.buckets,
    drop_chat w h (update_where (is_bucket (plans_bucket r w)) drop_one u.buckets),
    k.grown,
  )

  nothing : {n m : ℕ} → m ≡ n + 0 → m ≡ n
  nothing h = omega (arith, h)

  module _ (f : Unit {0} → Method Action) where
    check_member-Counts :
        (w : World)
        → HasTaken 0 w
        → ((u : World) → HasTaken 0 u → Counts (f tt u))
        → Counts ((check_member r >>= f) w)
    unfolding check_member reject Actions.create
    check_member-Counts w h k =
        elim (Bool-cases (member_or_admin (user_of r.requester_user_id w))) [
          | inl e ↦ rw e (k w h)
          | inr e ↦ rw e (inl (refl, nothing h.grown))
        ]

    take_plan-Counts :
        (w : World)
        → 0 < sv.settings.user_plans_day_ceiling
        → HasTaken 0 w
        → ((u : World) → HasTaken in_plans u → Counts (f tt u))
        → Counts ((take_plan sv r >>= f) w)
    unfolding take_plan reject Actions.create
    take_plan-Counts w c h k =
        increment_cases j (plans_bucket r w) (msk_day_window w.now)
          sv.settings.user_plans_day_ceiling _ (λ p. Counts (continue p.0 f p.1)) w c
          (λ u t e. k u (record {
            same_time = t ∙ h.same_time;
            grown = rw (← h.same_time) (ground (arith, e, h.grown));
          }))
          (λ u t e. inl (refl, ground (arith, e, h.grown)))

    take_chat-Counts :
        (w : World)
        → 0 < sv.settings.chat_actions_day_ceiling
        → HasTaken in_plans w
        → ((u : World) → HasTaken (in_plans + in_chat) u → Counts (f tt u))
        → Counts ((take_chat sv r >>= f) w)
    unfolding take_chat Actions.create decrement
    take_chat-Counts w c h k =
        increment_cases j (chat_bucket r w) (msk_day_window w.now)
          sv.settings.chat_actions_day_ceiling _ (λ p. Counts (continue p.0 f p.1)) w c
          (λ u t e. k u (record {
            same_time = t ∙ h.same_time;
            grown = rw (← h.same_time) (ground (arith, e, h.grown));
          }))
          (λ u t e. inl (refl, ground (arith, e, h.grown, drop_plan w h.same_time u.buckets)))

    check_budget-Counts :
        (w : World)
        → HasTaken (in_plans + in_chat) w
        → ((u : World) → HasTaken (in_plans + in_chat) u → Counts (f tt u))
        → Counts ((check_budget sv r >>= f) w)
    unfolding check_budget reject Actions.create roll_back decrement
    check_budget-Counts w h k =
        elim (Bool-cases
          (leb sv.settings.per_user_daily_usd_ceiling (sv.daily_spend w r.requester_user_id))) [
            | inl e ↦ rw e (inl (refl, drop_both w w h.same_time h))
            | inr e ↦ rw e (k w h)
          ]

  module _ (f : EvidenceContext → Method Action) where
    load_evidence-Counts :
        (w : World)
        → HasTaken (in_plans + in_chat) w
        → ((ctx : EvidenceContext) → Counts (f ctx w))
        → Counts ((load_evidence sv r >>= f) w)
    unfolding load_evidence build_evidence reject Actions.create
    load_evidence-Counts w h k =
        elim (Option-cases (sv.build_butler_evidence w (evidence_query sv r))) [
          | inl e ↦ rw e h.grown
          | inr (ctx, e) ↦ elim (Bool-cases ctx.abstained) [
            | inl t ↦ rw (e, t) (inr (inl refl, h.grown))
            | inr t ↦ rw (e, t) (k (record ctx { abstained = false }))
          ]
        ]

  module _ (ctx : EvidenceContext) (f : Plan × ℕ → Method Action) where
    plan_or_reject-Counts :
        (o : PlanOutcome) (w : World)
        → sv.plan_butler_action w (evidence_query sv r) ctx ≡ o
        → HasTaken (in_plans + in_chat) w
        → ((p : Plan × ℕ) → Counts (f p w))
        → Counts ((plan_or_reject sv r ctx o >>= f) w)
    unfolding reject Actions.create
    plan_or_reject-Counts (planned_as p id) w q h k = k (p, id)
    plan_or_reject-Counts (plan_error kind id) w q h k = inr (
      inr (record {
        world = w;
        context = ctx;
        kind = kind;
        ledger_id = id;
        same_time = h.same_time;
        raised = q;
        same_tag = refl;
      }),
      h.grown,
    )
    plan_or_reject-Counts other_exception w q h k = inr (inl refl, h.grown)

    ask_gateway-Counts :
        (w : World)
        → HasTaken (in_plans + in_chat) w
        → ((p : Plan × ℕ) → Counts (f p w))
        → Counts ((ask_gateway sv r ctx >>= f) w)
    unfolding ask_gateway
    ask_gateway-Counts w h k =
        plan_or_reject-Counts (sv.plan_butler_action w (evidence_query sv r) ctx) w refl h k

  module _ (ctx : EvidenceContext) (p : Plan) (ledger_id : ℕ) where
    abbrev in_tool : ℕ
    in_tool = one_if (same_id (tool_bucket r (first_step p.actions).tool_name w0) j)

    module _ (f : Unit {0} → Method Action) where
      take_tool-Counts :
          (w : World)
          → 0 < sv.settings.tool_hour_ceiling
          → HasTaken (in_plans + in_chat) w
          → ((u : World) → HasTaken (in_plans + in_chat + in_tool) u → Counts (f tt u))
          → Counts ((take_tool sv r ctx p ledger_id >>= f) w)
      unfolding take_tool reject Actions.create roll_back decrement
      take_tool-Counts w c h k =
          increment_cases j (tool_bucket r (first_step p.actions).tool_name w)
            (msk_hour_window w.now) sv.settings.tool_hour_ceiling _
            (λ p. Counts (continue p.0 f p.1)) w c
            (λ u t e. k u (record {
              same_time = t ∙ h.same_time;
              grown = rw (← h.same_time) (ground (arith, e, h.grown));
            }))
            (λ u t e.
              let same = t ∙ h.same_time in
              inl (refl, drop_both u u same (record { same_time = same; grown = e ∙ h.grown })))

    module _ (id : ℕ) (preview : String) (expires : ℕ) (a : Action) where
      ask_affected-Counts :
          (l : List ℕ) (w : World)
          → a.tool_name ≡ (first_step p.actions).tool_name
          → HasTaken (in_plans + in_chat + in_tool) w
          → Counts ((ask_affected sv id preview expires l >> pure a) w)
      unfolding ask_affected Confirmations.create
      ask_affected-Counts [] w q h = rw q (ground (arith, h.grown))
      ask_affected-Counts (u ∷ l) w q h =
          let row = confirmation_row sv id u Role.affected_user preview expires in
          ask_affected-Counts l (Confirmations.create row w).1 q
            (record { same_time = h.same_time; grown = h.grown })

    store_plan-Counts :
        (w : World)
        → HasTaken (in_plans + in_chat + in_tool) w
        → Counts (store_plan sv r ctx p ledger_id w)
    unfolding store_plan Actions.create Confirmations.create plan_row rejected_row
    store_plan-Counts w h =
        let expires = w.now + sv.settings.butler_confirmation_ttl_seconds * 1_000_000 in
        let a = pending_row sv r ctx p ledger_id w.now w.next_action in
        let created = (Actions.create (pending_row sv r ctx p ledger_id w.now) w).1 in
        let first =
          confirmation_row sv a.id r.requester_user_id Role.requester (preview_hash sv p) expires in
        ask_affected-Counts a.id (preview_hash sv p) expires a
          (affected_users r.requester_user_id p.actions []) (Confirmations.create first created).1
          refl (record { same_time = h.same_time; grown = h.grown })

-- Where the three ceilings are positive, a call of `plan_action` takes from every rate counter: one from the
-- requester's plans of the day, the chat's actions of the day and the requester's hour of the row's tool
-- where it returns a row; nothing, or one from each of the two counters of the day, where it ends in one of
-- the service's errors, and it takes from the day wherever the tag is none of 'membership_revoked',
-- 'rate_limit_exceeded' and 'budget_exceeded', and with one of these three only if the gateway raises a
-- ButlerPlanError of that kind at the time of the call; and one from each of the day where it ends in any
-- other exception.
pub plan_action-IsTaken :
    (sv : Services) (r : Request) (w : World) (j : BucketId)
    → 0 < sv.settings.user_plans_day_ceiling
    → 0 < sv.settings.chat_actions_day_ceiling
    → 0 < sv.settings.tool_hour_ceiling
    → let (res, w') = plan_action sv r w in
      IsTaken sv r w j res (count_in j w.buckets) (count_in j w'.buckets)
unfolding plan_action
plan_action-IsTaken sv r w j c d e =
    check_member-Counts sv r w j _ w (record { same_time = refl; grown = ground arith })
      λ w1 h1. take_plan-Counts sv r w j _ w1 c h1 λ w2 h2.
        take_chat-Counts sv r w j _ w2 d h2 λ w3 h3. check_budget-Counts sv r w j _ w3 h3 λ w4 h4.
          load_evidence-Counts sv r w j _ w4 h4 λ ctx. ask_gateway-Counts sv r w j ctx _ w4 h4 λ p.
            take_tool-Counts sv r w j ctx p.0 p.1 _ w4 e h4
              λ w5 h5. store_plan-Counts sv r w j ctx p.0 p.1 w5 h5
