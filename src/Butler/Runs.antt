-- ===== src/Butler/Runs.antt =====
-- Sequences of calls of the service, in any order and from any users, and what the environment
-- does between them: time passes, other transactions take and release locks, members change.
-- Each call is a transaction: bot/middlewares/db_session.py commits when the handler of
-- bot/handlers/butler.py returns, and rolls back when an exception escapes from it.
use vibeshkoder.Base.{ℕ, String, Bool, true, false, List, [], ◌∷◌, if◌then◌else◌}
use vibeshkoder.Base.Exec.{Result, ok, err}
use vibeshkoder.Butler.Model.{World, User, Error}
use vibeshkoder.Butler.Services.{Services}
use vibeshkoder.Butler.Plan.Guards.{Request}
use vibeshkoder.Butler.Plan.{plan_action}
use vibeshkoder.Butler.Confirm.{confirm_action}
use vibeshkoder.Butler.Execute.{execute_action}
use vibeshkoder.Butler.Withdraw.{cancel_action, revoke_affected_user_consent, expire_action}
use vibeshkoder.Butler.Undo.{execute_undo}

pub data Call : Type 0 where
  plan : Request → Call
  confirm : ℕ → ℕ → String → Call
  execute : ℕ → Call
  cancel revoke undo : ℕ → ℕ → Call
  expire : ℕ → Call
  abandoned : Call → Call
  environment : ℕ → List ℕ → List User → Call

-- The rows are those of before; what was done outside stays done.
abbrev pub rolled_back : World → World → World
rolled_back w w' = record w { effects = w'.effects }

-- except ButlerActionError: reply and return
abbrev pub is_action_error : Error → Bool
is_action_error (Error.butler c tag id) = true
is_action_error _ = false

-- The handler of a plan catches every exception; a transaction in which a statement failed cannot be
-- committed.
abbrev pub is_committable : Error → Bool
is_committable Error.integrity_error = false
is_committable Error.lock_not_available = false
is_committable _ = true

-- Whether the transaction of a call is committed, by its result and by the errors after which its handler
-- returns.
abbrev pub is_kept : {A : Type 0} → (Error → Bool) → Result Error A → Bool
is_kept handled (ok a) = true
is_kept handled (err e) = handled e

-- What a call leaves.
abbrev pub ended : {A : Type 0} → (Error → Bool) → World → Result Error A × World → World
ended handled w (r, w') = if is_kept handled r then w' else rolled_back w w'

-- `abandoned` is a call whose handler fails or rolls back after it, before its commit: a reply that Telegram
-- refuses, a tool that is switched off, an affected user who cannot be reached. The handler of an undo
-- rolls back after every exception.
unfoldable pub call : Services → World → Call → World
call sv w (plan r) = ended is_committable w (plan_action sv r w)
call sv w (confirm id user token) = ended is_action_error w (confirm_action sv id user token w)
call sv w (execute id) = ended is_action_error w (execute_action sv id w)
call sv w (cancel id user) = ended is_action_error w (cancel_action id user w)
call sv w (revoke id user) = ended is_action_error w (revoke_affected_user_consent id user w)
call sv w (undo id user) = ended (λ e. false) w (execute_undo sv id user w)
call sv w (expire id) = ended is_action_error w (expire_action id w)
call sv w (abandoned c) = rolled_back w (call sv w c)
call sv w (environment now locked users) = record w { now = now; locked = locked; users = users }

-- What holds of the tables through a transaction.
kept_or_not :
    (P : World → Type 0) (w : World) (b : Bool) (w' : World)
    → P (rolled_back w w')
    → P w'
    → P (if b then w' else rolled_back w w')
kept_or_not P w true w' h k = k
kept_or_not P w false w' h k = h

pub ended_keeps :
    {A : Type 0} (P : World → Type 0) (handled : Error → Bool) (w : World)
    (p : Result Error A × World)
    → P (rolled_back w p.1)
    → P p.1
    → P (ended handled w p)
ended_keeps P handled w (r, w') h k = kept_or_not P w (is_kept handled r) w' h k

unfoldable pub run : Services → World → List Call → World
run sv w [] = w
run sv w (c ∷ l) = run sv (call sv w c) l

-- the database before the first request
abbrev pub init : World
init = record {
  now = 0;
  locked = [];
  users = [];
  actions = [];
  next_action = 1;
  confirmations = [];
  next_confirmation = 1;
  invocations = [];
  next_invocation = 1;
  undo_rows = [];
  next_undo = 1;
  buckets = [];
  effects = [];
}
