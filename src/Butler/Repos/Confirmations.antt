-- ===== src/Butler/Repos/Confirmations.antt =====
-- bot/db/repos/butler_action_confirmation.py
use vibeshkoder.Base.{
  ℕ, ◌+◌, Bool, Option, some, List, [], ◌∷◌, ◌++◌, ◌&&◌, ◌==◌, find, filter, any, update_where,
  if◌then◌else◌,
}
use vibeshkoder.Base.Exec.{ok, err, gets}
use vibeshkoder.Butler.Model.{Confirmation, ConfStatus, Error, World, Method, is_pending_conf}

unfoldable pub create : (ℕ → Confirmation) → Method (Unit {0})
create row w = (
  ok tt,
  record w {
    confirmations = w.confirmations ++ row w.next_confirmation ∷ [];
    next_confirmation = w.next_confirmation + 1;
  },
)

-- Confirmation.id == confirmation_id
abbrev pub has_id : ℕ → Confirmation → Bool
has_id confirmation_id c = c.id == confirmation_id

-- Confirmation.action_id == action_id
abbrev pub of_action : ℕ → Confirmation → Bool
of_action action_id c = c.action_id == action_id

-- Only 'confirmed' and 'rejected' write a time.
unfoldable pub resolve : ConfStatus → ℕ → Confirmation → Confirmation
resolve ConfStatus.confirmed ts c = record c {
  status = ConfStatus.confirmed;
  confirmed_at = some ts;
}
resolve ConfStatus.rejected ts c = record c { status = ConfStatus.rejected; rejected_at = some ts }
resolve status ts c = record c { status = status }

-- the UPDATE of `mark_resolved`
unfoldable pub set_resolved : ℕ → ConfStatus → ℕ → World → World
set_resolved confirmation_id status ts w = record w {
  confirmations = update_where (has_id confirmation_id) (resolve status ts) w.confirmations;
}

-- A row count of 0 raises LookupError.
unfoldable pub mark_resolved : ℕ → ConfStatus → ℕ → Method (Unit {0})
mark_resolved confirmation_id status ts w =
    if any (has_id confirmation_id) w.confirmations
    then (ok tt, set_resolved confirmation_id status ts w)
    else (err Error.lookup_error, w)

unfoldable pub get_for_action_user : ℕ → ℕ → Method (Option Confirmation)
get_for_action_user action_id user_id =
    gets (λ w. find (λ c. of_action action_id c && c.confirmer_tg_id == user_id) w.confirmations)

unfoldable pub list_for_action : ℕ → Method (List Confirmation)
list_for_action action_id = gets (λ w. filter (of_action action_id) w.confirmations)

-- All pending confirmations of the action get the status.
unfoldable pub mark_all_for_action : ℕ → ConfStatus → World → World
mark_all_for_action action_id status w = record w {
  confirmations =
      update_where (λ c. of_action action_id c && is_pending_conf c.status)
        (λ c. record c { status = status }) w.confirmations;
}
