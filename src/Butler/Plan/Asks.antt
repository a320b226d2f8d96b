-- ===== src/Butler/Plan/Asks.antt =====
-- Whom a stored plan asks.
use vibeshkoder.Base.{
  ℕ, ◌≡◌, ◌≢◌, refl, some, List, [], ◌∷◌, ◌==◌, ltb, ==_iff, In, here, there, Bool-cases, inl, inr,
  if◌then◌else◌, ap, String, ◌+◌, ◌*◌, In-cons, In-append_left, In-append_right, sym, ◌∙◌,
}
use vibeshkoder.Base.Exec.{ok, ok_injective, bind_ok, pure}
use vibeshkoder.Butler.Model.{
  Action, ActionStatus, Confirmation, ConfStatus, Role, Step, Plan, World, Error,
}
use vibeshkoder.Butler.Services.{Services, EvidenceContext}
use vibeshkoder.Butler.Repos.Actions
use vibeshkoder.Butler.Repos.Confirmations
use vibeshkoder.Butler.Plan.Guards.{
  Request, rejected_row, check_member, take_plan, take_chat, check_budget, load_evidence,
  ask_gateway,
}
use vibeshkoder.Butler.Plan.{
  plan_action, plan_row, pending_row, take_tool, store_plan, ask_affected, confirmation_row,
  affected_users, add_affected, add_sorted, preview_hash,
}

In-add_sorted_self : (x : ℕ) (l : List ℕ) → In x (add_sorted x l)
In-add_sorted_self x [] = here
In-add_sorted_self x (y ∷ l) = elim (Bool-cases (ltb x y)) [
  | inl e ↦ rw e here
  | inr e ↦ elim (Bool-cases (x == y)) [
    | inl q ↦ rw (e, q, (==_iff x y).0 q) here
    | inr q ↦ rw (e, q) (there (In-add_sorted_self x l))
  ]
]

In-add_sorted : (x : ℕ) {z : ℕ} (l : List ℕ) → In z l → In z (add_sorted x l)
In-add_sorted x [] i = elim i [ ]
In-add_sorted x (y ∷ l) i = elim (Bool-cases (ltb x y)) [
  | inl e ↦ rw e (there i)
  | inr e ↦ elim (Bool-cases (x == y)) [
    | inl q ↦ rw (e, q) i
    | inr q ↦
        rw (e, q)
          (elim (In-cons i) [ inl same ↦ rw same here | inr j ↦ there (In-add_sorted x l j) ])
  ]
]

module _ (me : ℕ) where
  add_affected_keeps : {z : ℕ} (l acc : List ℕ) → In z acc → In z (add_affected me l acc)
  add_affected_keeps [] acc i = i
  add_affected_keeps (u ∷ l) acc i = elim (Bool-cases (u == me)) [
    | inl e ↦ rw e (add_affected_keeps l acc i)
    | inr e ↦ rw e (add_affected_keeps l (add_sorted u acc) (In-add_sorted u acc i))
  ]

  In-add_affected : {z : ℕ} (l acc : List ℕ) → In z l → z ≢ me → In z (add_affected me l acc)
  In-add_affected [] acc i ne = elim i [ ]
  In-add_affected {z} (u ∷ l) acc i ne = elim (In-cons i) [
    | inl same ↦ elim (Bool-cases (u == me)) [
      | inl e ↦ absurd (ne (same ∙ (==_iff u me).0 e))
      | inr e ↦ rw (e, same) (add_affected_keeps l (add_sorted u acc) (In-add_sorted_self u acc))
    ]
    | inr j ↦ In-add_affected l (if u == me then acc else add_sorted u acc) j ne
  ]

  affected_users_keeps :
      {z : ℕ} (l : List Step) (acc : List ℕ) → In z acc → In z (affected_users me l acc)
  affected_users_keeps [] acc i = i
  affected_users_keeps (s ∷ l) acc i =
      affected_users_keeps l (add_affected me s.affected_user_ids acc)
        (add_affected_keeps s.affected_user_ids acc i)

  -- Everybody whom a step affects, but the requester, is in the list.
  In-affected_users :
      {z : ℕ} (s : Step) (l : List Step) (acc : List ℕ)
      → In s l
      → In z s.affected_user_ids
      → z ≢ me
      → In z (affected_users me l acc)
  In-affected_users s [] acc i j ne = elim i [ ]
  In-affected_users {z} s (t ∷ l) acc i j ne = elim (In-cons i) [
    | inl same ↦
        affected_users_keeps l (add_affected me t.affected_user_ids acc)
          (In-add_affected t.affected_user_ids acc (rw same at j) ne)
    | inr k ↦ In-affected_users s l (add_affected me t.affected_user_ids acc) k j ne
  ]

-- A pending row by which the user is asked about the action.
pub record IsAsked (id user : ℕ) (cs : List Confirmation) : Type 0 where
  pub row : Confirmation
  pub stands : In row cs
  pub of_action : row.action_id ≡ id
  pub of_user : row.confirmer_tg_id ≡ user
  pub role : row.confirmation_role ≡ Role.affected_user
  pub waits : row.status ≡ ConfStatus.pending

module _ (sv : Services) where
  ask_affected_keeps :
      (id : ℕ) (preview : String) (expires : ℕ) (l : List ℕ) (w : World) (c : Confirmation)
      → In c w.confirmations
      → In c (ask_affected sv id preview expires l w).1.confirmations
  unfolding ask_affected Confirmations.create
  ask_affected_keeps id preview expires [] w c i = i
  ask_affected_keeps id preview expires (u ∷ l) w c i =
      ask_affected_keeps id preview expires l
        (Confirmations.create (confirmation_row sv id u Role.affected_user preview expires) w).1 c
        (In-append_left w.confirmations _ i)

  ask_affected-IsAsked :
      (id : ℕ) (preview : String) (expires : ℕ) (l : List ℕ) (w : World) (user : ℕ)
      → In user l
      → IsAsked id user (ask_affected sv id preview expires l w).1.confirmations
  unfolding ask_affected Confirmations.create
  ask_affected-IsAsked id preview expires [] w user i = elim i [ ]
  ask_affected-IsAsked id preview expires (u ∷ l) w user i =
      let row = confirmation_row sv id u Role.affected_user preview expires in
      let w' = (Confirmations.create row w).1 in
      elim (In-cons i) [
        | inl same ↦ record {
          row = row w.next_confirmation;
          stands =
              ask_affected_keeps id preview expires l w' (row w.next_confirmation)
                (In-append_right w.confirmations (row w.next_confirmation ∷ []) here);
          of_action = refl;
          of_user = sym same;
          role = refl;
          waits = refl;
        }
        | inr j ↦ ask_affected-IsAsked id preview expires l w' user j
      ]

  ask_affected_ok :
      (id : ℕ) (preview : String) (expires : ℕ) (l : List ℕ) (w : World)
      → (ask_affected sv id preview expires l w).0 ≡ ok tt
  unfolding ask_affected Confirmations.create
  ask_affected_ok id preview expires [] w = refl
  ask_affected_ok id preview expires (u ∷ l) w =
      ask_affected_ok id preview expires l
        (Confirmations.create (confirmation_row sv id u Role.affected_user preview expires) w).1

  module _ (r : Request) (ctx : EvidenceContext) (plan : Plan) (ledger_id : ℕ) where
    -- The row that `store_plan` returns, and whom the final table asks.
    store_plan-asks :
        (w w' : World) (a : Action)
        → store_plan sv r ctx plan ledger_id w ≡ (ok a, w')
        → (a ≡ pending_row sv r ctx plan ledger_id w.now w.next_action)
          × ((user : ℕ)
              → In user (affected_users r.requester_user_id plan.actions [])
              → IsAsked w.next_action user w'.confirmations)
    unfolding store_plan Actions.create Confirmations.create plan_row rejected_row
    store_plan-asks w w' a e =
        let id = w.next_action in
        let expires = w.now + sv.settings.butler_confirmation_ttl_seconds * 1_000_000 in
        let preview = preview_hash sv plan in
        let created = (Actions.create (pending_row sv r ctx plan ledger_id w.now) w).1 in
        let asked =
          (Confirmations.create
            (confirmation_row sv id r.requester_user_id Role.requester preview expires)
            created).1 in
        let l = affected_users r.requester_user_id plan.actions [] in
        let (x, t, q, k) =
          bind_ok (λ _. pure (pending_row sv r ctx plan ledger_id w.now id))
            (ask_affected sv id preview expires l) asked w' a e in
        let row : pending_row sv r ctx plan ledger_id w.now id ≡ a =
          ok_injective Error (ap (λ p. p.0) k) in
        let last : (ask_affected sv id preview expires l asked).1 ≡ w' =
          ap (λ p. p.1) q ∙ ap (λ p. p.1) k in
        (sym row, λ user i. rw (← last) (ask_affected-IsAsked id preview expires l asked user i))

    -- The same by the payload of the row.
    stored_asks :
        (w w' : World) (a : Action)
        → store_plan sv r ctx plan ledger_id w ≡ (ok a, w')
        → (a.status ≡ ActionStatus.pending_confirmation)
          × ((steps : List Step) (step : Step) (user : ℕ)
              → a.plan_payload ≡ some steps
              → In step steps
              → In user step.affected_user_ids
              → user ≢ r.requester_user_id
              → IsAsked a.id user w'.confirmations)
    unfolding plan_row rejected_row
    stored_asks w w' a e =
        let (row, asks) = store_plan-asks w w' a e in
        (
          rw row refl,
          λ steps step user p i j ne.
              let q : some plan.actions ≡ some steps = rw row at p in
              let same : plan.actions ≡ steps = cc in
              rw row (
                asks user
                  (In-affected_users r.requester_user_id step plan.actions [] (rw same i) j ne)),
        )

  -- A plan that `plan_action` stores is returned with the status 'pending_confirmation', and every
  -- user but the requester whom any of its steps affects has a pending row of the role
  -- 'affected_user' for it in the table of the confirmations.
  pub plan_action-asks :
      (r : Request) (w w' : World) (a : Action)
      → plan_action sv r w ≡ (ok a, w')
      → (a.status ≡ ActionStatus.pending_confirmation)
        × ((steps : List Step) (step : Step) (user : ℕ)
            → a.plan_payload ≡ some steps
            → In step steps
            → In user step.affected_user_ids
            → user ≢ r.requester_user_id
            → IsAsked a.id user w'.confirmations)
  unfolding plan_action
  plan_action-asks r w w' a e =
      let (_, w1, _, e1) = bind_ok _ (check_member r) w w' a e in
      let (_, w2, _, e2) = bind_ok _ (take_plan sv r) w1 w' a e1 in
      let (_, w3, _, e3) = bind_ok _ (take_chat sv r) w2 w' a e2 in
      let (_, w4, _, e4) = bind_ok _ (check_budget sv r) w3 w' a e3 in
      let (ctx, w5, _, e5) = bind_ok _ (load_evidence sv r) w4 w' a e4 in
      let (pl, w6, _, e6) = bind_ok _ (ask_gateway sv r ctx) w5 w' a e5 in
      let (_, w7, _, e7) = bind_ok _ (take_tool sv r ctx pl.0 pl.1) w6 w' a e6 in
      stored_asks r ctx pl.0 pl.1 w7 w' a e7
