-- ===== src/Butler/Confirm/Accepted.antt =====
-- What a confirmation that is accepted says of the action and of the row it answers.
use vibeshkoder.Base.{
  ℕ, ◌<◌, ◌≡◌, refl, sym, ◌∙◌, true, false, not, ◌&&◌, Option, none, some, String, find, In,
  In-find, ==_iff, Bool-cases, inl, inr, arith, ap, str_eq, eq_iff, ◌==◌,
}
use vibeshkoder.Base.Exec.{ok, guard, bind_ok, guard_ok, err_not_ok, ok_injective, raise, pure}
use vibeshkoder.Butler.Model.{
  Action, ActionStatus, Confirmation, World, Tag, ErrorClass, Error, is_pending_confirmation,
}
use vibeshkoder.Butler.Services.{Services}
use vibeshkoder.Butler.Repos.Actions.{lock_row, update_status, because, is_past}
use vibeshkoder.Butler.Repos.Confirmations.{of_action, get_for_action_user}
use vibeshkoder.Butler.Consent.Methods.{lock_row_ok}
use vibeshkoder.Butler.Confirm.{
  confirm_action, check_action, check_ttl, check_row, row_error, is_redacted, is_resolved, failure,
  status_error,
}

check_ttl_ok :
    (a : Action) (id : ℕ) (w w' : World) (x : Unit {0})
    → check_ttl a id w ≡ (ok x, w')
    → (is_past w.now a.expires_at ≡ false) × (w' ≡ w)
unfolding check_ttl
check_ttl_ok a id w w' x q = elim (Bool-cases (is_past w.now a.expires_at)) [
  | inl e ↦
      (let (_, u, _, k) =
          bind_ok (λ _. raise (failure ErrorClass.action_expired Tag.expired id))
            (update_status id ActionStatus.expired (because Tag.ttl_expired)) w w' x (rw e at q) in
        absurd (err_not_ok Error (ap (λ p. p.0) k)))
  | inr e ↦ (e, sym (ap (λ p. p.1) (rw e at q)))
]

get_ok :
    (id user : ℕ) (w w' : World) (o : Option Confirmation)
    → get_for_action_user id user w ≡ (ok o, w')
    → w ≡ w'
unfolding get_for_action_user
get_ok id user w w' o e = ap (λ p. p.1) e

-- The action that passes the checks stands in the table, waits for confirmation and is in time.
pub check_action_ok :
    (id user : ℕ) (w w' : World) (a : Action)
    → check_action id user w ≡ (ok a, w')
    → (w' ≡ w)
      × In a w.actions
      × (a.id ≡ id)
      × (is_pending_confirmation a.status ≡ true)
      × (is_past w.now a.expires_at ≡ false)
unfolding check_action
check_action_ok id user w w' a e =
    let (b, u, q, e1) = bind_ok _ (lock_row id) w w' a e in
    let (_, u2, q2, e2) =
      bind_ok _
        (guard (not (is_redacted b)) (failure ErrorClass.action_error Tag.source_forgotten id)) u w'
        a e1 in
    let (early, u3, q3, e3) = bind_ok _ (get_for_action_user id user) u2 w' a e2 in
    let (_, u4, q4, e4) =
      bind_ok _
        (guard (not (is_resolved early))
          (failure ErrorClass.action_error Tag.already_confirmed_by_user id))
        u3 w' a e3 in
    let (_, u5, q5, e5) =
      bind_ok _ (guard (is_pending_confirmation b.status) (status_error b id)) u4 w' a e4 in
    let (_, u6, q6, e6) = bind_ok (λ _. pure b) (check_ttl b id) u5 w' a e5 in
    let (there, i, same) = lock_row_ok id w u b q in
    let (_, s2) = guard_ok Error World (not (is_redacted b)) _ u u2 _ q2 in
    let s3 : u2 ≡ u3 = get_ok id user u2 u3 early q3 in
    let (_, s4) = guard_ok Error World (not (is_resolved early)) _ u3 u4 _ q4 in
    let (waits, s5) = guard_ok Error World (is_pending_confirmation b.status) _ u4 u5 _ q5 in
    let (in_time, s6) = check_ttl_ok b id u5 u6 _ q6 in
    let row : b ≡ a = ok_injective Error (ap (λ p. p.0) e6) in
    let unchanged : u5 ≡ w = s5 ∙ s4 ∙ sym s3 ∙ s2 ∙ there in
    let ended : w' ≡ w = sym (ap (λ p. p.1) e6) ∙ s6 ∙ unchanged in
    rw (← row) (ended, i, same, waits, rw (← unchanged) in_time)

row_error_ok :
    (id : ℕ) (token : String) (now : ℕ) (o : Option Confirmation) (c : Confirmation)
    → row_error id token now o ≡ ok c
    → (o ≡ some c) × (c.confirmation_token ≡ token) × (now < c.expires_at)
row_error_ok id token now none c e = absurd (err_not_ok Error e)
row_error_ok id token now (some d) c e =
    let found : some d ≡ some c = ground arith in
    let same : d ≡ c = cc in
    let spelled : str_eq d.confirmation_token token ≡ true = ground arith in
    let fresh : now < d.expires_at = ground arith in
    rw (← same) (refl, (eq_iff d.confirmation_token token).0 spelled, fresh)

check_row_ok :
    (id user : ℕ) (token : String) (w w' : World) (c : Confirmation)
    → check_row id user token w ≡ (ok c, w')
    → (w' ≡ w)
      × In c w.confirmations
      × (c.action_id ≡ id)
      × (c.confirmer_tg_id ≡ user)
      × (c.confirmation_token ≡ token)
      × (w.now < c.expires_at)
unfolding check_row get_for_action_user
check_row_ok id user token w w' c e =
    let answer : row_error id token w.now
          (find (λ d. of_action id d && d.confirmer_tg_id == user) w.confirmations)
        ≡ ok c =
      ap (λ p. p.0) e in
    let (found, spelled, fresh) = row_error_ok id token w.now _ c answer in
    let (i, t) = In-find (λ d. of_action id d && d.confirmer_tg_id == user) w.confirmations found in
    let its_action : c.action_id ≡ id = ground (arith, ==_iff c.action_id id) in
    let its_user : c.confirmer_tg_id ≡ user = ground (arith, ==_iff c.confirmer_tg_id user) in
    (sym (ap (λ p. p.1) e), i, its_action, its_user, spelled, fresh)

-- An action that waits, with a row of the user that the token answers, both in time.
pub record IsAnswer (id user : ℕ) (token : String) (w : World) : Type 0 where
  pub action : Action
  pub row : Confirmation
  pub action_stands : In action w.actions
  pub action_id : action.id ≡ id
  pub waits : action.status ≡ ActionStatus.pending_confirmation
  pub in_time : is_past w.now action.expires_at ≡ false
  pub row_stands : In row w.confirmations
  pub of_action : row.action_id ≡ id
  pub of_user : row.confirmer_tg_id ≡ user
  pub its_token : row.confirmation_token ≡ token
  pub not_expired : w.now < row.expires_at

-- A confirmation that returns was asked for: before the call, the action was waiting for confirmation
-- and not past its time, and the user had a row for it that was not expired and had the token given.
pub confirm_action-IsAnswer :
    (sv : Services) (id user : ℕ) (token : String) (w w' : World) (a : Action)
    → confirm_action sv id user token w ≡ (ok a, w')
    → IsAnswer id user token w
unfolding confirm_action
confirm_action-IsAnswer sv id user token w w' a e =
    let (b, u, q, e1) = bind_ok _ (check_action id user) w w' a e in
    let (c, v, k, _) = bind_ok _ (check_row id user token) u w' a e1 in
    let (same, stands, its_id, waits, in_time) = check_action_ok id user w u b q in
    let (_, i, its_action, its_user, spelled, fresh) =
      check_row_ok id user token w v c (rw same at k) in
    record {
      action = b;
      row = c;
      action_stands = stands;
      action_id = its_id;
      waits = ground arith;
      in_time = in_time;
      row_stands = i;
      of_action = its_action;
      of_user = its_user;
      its_token = spelled;
      not_expired = fresh;
    }
