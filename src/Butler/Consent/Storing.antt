-- ===== src/Butler/Consent/Storing.antt =====
-- `plan_action` keeps the invariant: nobody has agreed to the new action, whose rows are pending.
use vibeshkoder.Base.{
  ℕ, ◌+◌, ◌*◌, ◌<◌, ◌≡◌, refl, false, List, [], ◌∷◌, inl, inr, In, In-append, In-single, arith,
  String,
}
use vibeshkoder.Base.Exec.{bind_keeps}
use vibeshkoder.Butler.Model.{Action, Role, World, Plan}
use vibeshkoder.Butler.Services.{Services, EvidenceContext}
use vibeshkoder.Butler.Repos.Actions
use vibeshkoder.Butler.Repos.Confirmations
use vibeshkoder.Butler.Plan.Guards.{Request, rejected_row}
use vibeshkoder.Butler.Plan.{
  plan_action, plan_row, pending_row, store_plan, ask_affected, confirmation_row, affected_users,
  preview_hash,
}
use vibeshkoder.Butler.Consent.Rows.{
  IsConsented, is_committed, insert_action-IsConsented, insert_confirmation-IsConsented,
}
use vibeshkoder.Butler.Consent.Planning.{IsPlanFrame, plan_action_keeps}

-- The action exists and is not committed.
pub record IsOpen (id : ℕ) (w : World) : Type 0 where
  pub consented : IsConsented w
  pub known : id < w.next_action
  pub uncommitted : (a : Action) → In a w.actions → a.id ≡ id → is_committed a.status ≡ false

module _ (sv : Services) where
  -- one more confirmation row
  ask-IsOpen :
      (id user : ℕ) (role : Role) (preview : String) (expires : ℕ) (w : World)
      → IsOpen id w
      → IsOpen id (Confirmations.create (confirmation_row sv id user role preview expires) w).1
  unfolding Confirmations.create
  ask-IsOpen id user role preview expires w h = record {
    consented =
        insert_confirmation-IsConsented w h.consented
          (confirmation_row sv id user role preview expires w.next_confirmation) refl h.known
          h.uncommitted;
    known = h.known;
    uncommitted = h.uncommitted;
  }

  ask_affected-IsOpen :
      (id : ℕ) (preview : String) (expires : ℕ) (l : List ℕ) (w : World)
      → IsOpen id w
      → IsOpen id (ask_affected sv id preview expires l w).1
  unfolding ask_affected Confirmations.create
  ask_affected-IsOpen id preview expires [] w h = h
  ask_affected-IsOpen id preview expires (user ∷ l) w h =
      ask_affected-IsOpen id preview expires l
        (Confirmations.create (confirmation_row sv id user Role.affected_user preview expires) w).1
        (ask-IsOpen id user Role.affected_user preview expires w h)

  module _ (r : Request) (ctx : EvidenceContext) (plan : Plan) (ledger_id : ℕ) where
    stored-IsOpen :
        (w : World)
        → IsConsented w
        → IsOpen w.next_action (Actions.create (pending_row sv r ctx plan ledger_id w.now) w).1
    unfolding Actions.create plan_row rejected_row
    stored-IsOpen w h =
        let row = pending_row sv r ctx plan ledger_id w.now w.next_action in
        record {
          consented = insert_action-IsConsented w h row refl refl;
          known = omega arith;
          uncommitted = λ a i e. elim (In-append w.actions (row ∷ []) i) [
            | inl old ↦ (let k = h.action_ids a old in absurd (omega arith))
            | inr last ↦ rw (In-single last) refl
          ];
        }

    store_plan-IsConsented :
        (w : World) → IsConsented w → IsConsented (store_plan sv r ctx plan ledger_id w).1
    unfolding store_plan Actions.create Confirmations.create plan_row rejected_row
    store_plan-IsConsented w h =
        let expires = w.now + sv.settings.butler_confirmation_ttl_seconds * 1_000_000 in
        let created = (Actions.create (pending_row sv r ctx plan ledger_id w.now) w).1 in
        let asked =
          (Confirmations.create
            (confirmation_row sv w.next_action r.requester_user_id Role.requester
              (preview_hash sv plan) expires)
            created).1 in
        bind_keeps IsConsented _
          (ask_affected sv w.next_action (preview_hash sv plan) expires
            (affected_users r.requester_user_id plan.actions []))
          asked
          (ask_affected-IsOpen w.next_action (preview_hash sv plan) expires
            (affected_users r.requester_user_id plan.actions []) asked
            (ask-IsOpen w.next_action r.requester_user_id Role.requester (preview_hash sv plan)
              expires created (stored-IsOpen w h))).consented
          λ _ u e k. k

  IsConsented-IsPlanFrame : IsPlanFrame IsConsented
  unfolding Actions.create
  IsConsented-IsPlanFrame = record {
    create = λ row w h key idle. insert_action-IsConsented w h (row w.next_action) key idle;
    buckets = λ w l h. h;
  }

  -- `plan_action`
  pub plan_action-IsConsented :
      (r : Request) (w : World) → IsConsented w → IsConsented (plan_action sv r w).1
  plan_action-IsConsented r w h =
      plan_action_keeps IsConsented IsConsented-IsPlanFrame sv r w (store_plan-IsConsented r) h
