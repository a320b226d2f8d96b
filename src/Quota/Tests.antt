-- ===== src/Quota/Tests.antt =====
-- The theorems on a table of one attempt that is under delivery.
use vibeshkoder.Base.{
  ◌++◌, ℕ, ◌≤◌, ◌≡◌, inl, inr, refl, true, false, none, some, List, [], ◌∷◌, arith, length,
  In-single, Bool-cases, none_yet, one_more, ap,
}
use vibeshkoder.Base.Exec.{ok}
use vibeshkoder.Quota.Model.{
  day_end, AttemptStatus, Outcome, Attempt, Store, meets_checks, local_day_of,
}
use vibeshkoder.Quota.Attempts.{
  new_row, Request, Decision, active_count, update_attempts, release_stale_reserved, admit, decide,
  reserve, daily_limit,
}
use vibeshkoder.Quota.Finalize.{Final, finalize, close, settle_again, link_trace}
use vibeshkoder.Quota.Slots.{holds}
use vibeshkoder.Quota.Writes.{HasSlots}
use vibeshkoder.Quota.Runs.{Call, reserve_slot, settle_attempt, time_passes, run, call}
use vibeshkoder.Quota.Bounds.{quota_holds}
use vibeshkoder.Quota.Replay.{AreValid, reserve-replayed}
use vibeshkoder.Quota.Denials.{reserve_denies}
use vibeshkoder.Quota.Again.{finalize_again}

abbrev noon : ℕ
noon = 1_800_000_000_000_000

abbrev delivering : Attempt
delivering = record {
  id = 1;
  idempotency_key = "m1";
  user_tg_id = 7;
  chat_id = 70;
  source_chat_message_id = none;
  local_day = 20833;
  slot_number = some 1;
  status = AttemptStatus.reserved;
  outcome = some Outcome.answered;
  qa_trace_id = some 5;
  embedding_llm_call_id = some 6;
  synthesis_llm_call_id = none;
  progress_at = noon;
  delivery_started_at = some noon;
  finalized_at = none;
}

abbrev db : Store
db = record { now = noon; attempts = delivering ∷ []; next_attempt = 2; traces = [] }

today : local_day_of noon ≡ 20833
today = refl

abbrev ask : Request
ask = record {
  idempotency_key = "m2";
  user_tg_id = 7;
  chat_id = 70;
  source_chat_message_id = none;
  limit = 2;
}

abbrev answer : Final
answer = record {
  outcome = Outcome.answered;
  qa_trace_id = some 5;
  embedding_llm_call_id = some 6;
  synthesis_llm_call_id = none;
}

abbrev calls : List Call
calls =
    reserve_slot ask
    ∷ reserve_slot (record ask { idempotency_key = "m3" })
    ∷ settle_attempt 1 answer
    ∷ time_passes 1_000_000_000
    ∷ reserve_slot (record ask { idempotency_key = "m4" })
    ∷ []

-- The second question gets the second slot, the third none; a quarter of an hour later the second slot is
-- free again.
after_calls : active_count 7 20833 (run db calls).attempts ≡ 2
unfolding run call reserve release_stale_reserved update_attempts decide admit active_count finalize
    close link_trace settle_again meets_checks
after_calls = refl

denied_third : length (run db calls).attempts ≡ 4
unfolding run call reserve release_stale_reserved update_attempts decide admit active_count finalize
    close link_trace settle_again meets_checks
denied_third = refl

db_slots : HasSlots db
db_slots = record {
  numbered = λ a i t. inl (ap (λ z. z.slot_number) (In-single i));
  single = λ user day s. elim (Bool-cases (holds user day s delivering)) [
    | inl t ↦ rw t (omega arith)
    | inr t ↦ rw t (omega arith)
  ];
}

db_valid : AreValid db.attempts
unfolding meets_checks
db_valid a i = let e : a ≡ delivering = In-single i in rw e refl

quota_holds_example : active_count 7 20833 (run db calls).attempts ≤ daily_limit
quota_holds_example = quota_holds db calls 7 20833 db_slots

abbrev ask_again : Request
ask_again = record ask { idempotency_key = "m1" }

reserve-replayed_example :
    (d : Decision) × ((reserve ask_again db).0 ≡ ok d)
    × (d.allowed ≡ false)
    × (d.replayed ≡ true)
    × (length (reserve ask_again db).1.attempts ≡ 1)
reserve-replayed_example = reserve-replayed ask_again db db_valid refl refl refl

abbrev settled_row : Attempt
settled_row = record delivering { status = AttemptStatus.consumed; finalized_at = some noon }

abbrev settled_db : Store
settled_db = record db { attempts = settled_row ∷ [] }

finalize-answer : finalize 1 answer db ≡ (ok tt, settled_db)
unfolding finalize update_attempts close link_trace meets_checks
finalize-answer = refl

finalize_again_example : finalize 1 answer settled_db ≡ (ok tt, settled_db)
finalize_again_example =
    finalize_again 1 answer db settled_db (one_more (λ y i. elim i [ ]) none_yet) finalize-answer

abbrev full_db : Store
full_db = record db {
  attempts =
      delivering ∷ record delivering { id = 2; idempotency_key = "m0"; slot_number = some 2 } ∷ [];
  next_attempt = 3;
}

abbrev denial : Decision
denial = record {
  allowed = false;
  attempt_id = 3;
  used = 2;
  limit = 2;
  resets_at = day_end noon;
  replayed = false;
  status = AttemptStatus.denied;
  outcome = some Outcome.quota_denied;
  qa_trace_id = none;
}

abbrev denied_db : Store
denied_db = record full_db {
  attempts =
      full_db.attempts
      ++ new_row ask noon 3 none AttemptStatus.denied (some Outcome.quota_denied) ∷ [];
  next_attempt = 4;
}

denied : reserve ask full_db ≡ (ok denial, denied_db)
unfolding reserve release_stale_reserved update_attempts decide admit meets_checks
denied = refl

reserve_denies_example : daily_limit ≤ active_count 7 20833 denied_db.attempts
reserve_denies_example = reserve_denies ask full_db denied_db denial denied refl refl
