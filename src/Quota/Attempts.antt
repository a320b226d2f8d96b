-- ===== src/Quota/Attempts.antt =====
-- `SemanticQuotaRepo` of bot/db/repos/semantic_quota.py; `finalize` stands in Finalize. The lock by which `reserve` serialises the calls of one
-- user is taken for granted: the calls of a run follow one another.
use vibeshkoder.Base.{
  ℕ, ◌+◌, ◌-◌, String, Bool, true, false, not, ◌&&◌, ◌==◌, ltb, leb, str_eq, text_length, Option,
  none, some, List, [], ◌∷◌, ◌++◌, any, find, filter, length, somes, contains, sorted_set,
  count_where, update_where, if◌then◌else◌, is_some,
}
use vibeshkoder.Base.Exec.{ok, err, pure, gets, guard, ◌>>=◌, ◌>>◌}
use vibeshkoder.Quota.Model.{
  AttemptStatus, Outcome, Attempt, Store, QuotaError, Method, local_day_of, day_end, is_active,
  is_reserved, is_delivery, meets_checks,
}

-- SemanticQuotaDecision
pub record Decision : Type 0 where
  pub allowed : Bool
  pub attempt_id : ℕ
  pub used : ℕ
  pub limit : ℕ
  pub resets_at : ℕ
  pub replayed : Bool
  pub status : AttemptStatus
  pub outcome : Option Outcome
  pub qa_trace_id : Option ℕ

-- DAILY_LLM_QUESTION_LIMIT
abbrev pub daily_limit : ℕ
daily_limit = 2

-- STALE_RESERVATION_AFTER, 15 minutes
abbrev pub stale_after : ℕ
stale_after = 900_000_000

abbrev pub has_id : ℕ → Attempt → Bool
has_id id a = a.id == id

abbrev pub has_key : String → Attempt → Bool
has_key key a = str_eq a.idempotency_key key

-- the user's attempts of the day that hold a slot
abbrev pub is_active_of : ℕ → ℕ → Attempt → Bool
is_active_of user day a = a.user_tg_id == user && (a.local_day == day && is_active a.status)

-- _active_count
unfoldable pub active_count : ℕ → ℕ → List Attempt → ℕ
active_count user day l = count_where (is_active_of user day) l

-- An UPDATE: its row count, or the error of a row that would break ck_semantic_attempts_state.
unfoldable pub update_attempts : (Attempt → Bool) → (Attempt → Attempt) → Method ℕ
update_attempts p f w =
    if any (λ a. p a && not (meets_checks (f a))) w.attempts
    then (err QuotaError.integrity_error, w)
    else (ok (count_where p w.attempts), record w { attempts = update_where p f w.attempts })

-- a reservation of the user, up to the day, that has made no progress since `stale_before`
abbrev pub is_stale : ℕ → ℕ → ℕ → Attempt → Bool
is_stale user day stale_before a =
    a.user_tg_id == user
    && (leb a.local_day day && (is_reserved a.status && ltb a.progress_at stale_before))

abbrev pub consume : ℕ → Attempt → Attempt
consume finalized_at a = record a {
  status = AttemptStatus.consumed;
  finalized_at = some finalized_at;
}

abbrev pub release : ℕ → Attempt → Attempt
release finalized_at a = record a {
  status = AttemptStatus.released;
  outcome = some Outcome.technical_failure;
  finalized_at = some finalized_at;
}

unfoldable pub release_stale_reserved : ℕ → ℕ → ℕ → ℕ → Method ℕ
release_stale_reserved user day stale_before finalized_at = do
  delivered ←
      update_attempts (λ a. is_stale user day stale_before a && is_some a.delivery_started_at)
        (consume finalized_at)
  freed ←
      update_attempts (λ a. is_stale user day stale_before a && not (is_some a.delivery_started_at))
        (release finalized_at)
  pure (delivered + freed)

-- the keyword arguments of `reserve`
pub record Request : Type 0 where
  pub idempotency_key : String
  pub user_tg_id : ℕ
  pub chat_id : ℕ
  pub source_chat_message_id : Option ℕ
  pub limit : ℕ

-- next((slot for slot in (1, 2) if slot not in used_slots), None)
abbrev pub available_slot : List ℕ → Option ℕ
available_slot used =
    if not (contains 1 used) then some 1 else if not (contains 2 used) then some 2 else none

abbrev pub used_slots : ℕ → ℕ → List Attempt → List ℕ
used_slots user day l = somes (λ a. a.slot_number) (filter (is_active_of user day) l)

abbrev pub new_row : Request → ℕ → ℕ → Option ℕ → AttemptStatus → Option Outcome → Attempt
new_row r now new_id slot status outcome = record {
  id = new_id;
  idempotency_key = r.idempotency_key;
  user_tg_id = r.user_tg_id;
  chat_id = r.chat_id;
  source_chat_message_id = r.source_chat_message_id;
  local_day = local_day_of now;
  slot_number = slot;
  status = status;
  outcome = outcome;
  qa_trace_id = none;
  embedding_llm_call_id = none;
  synthesis_llm_call_id = none;
  progress_at = now;
  delivery_started_at = none;
  finalized_at = none;
}

abbrev pub insert : (ℕ → Attempt) → Store → Store
insert row w = record w {
  attempts = w.attempts ++ row w.next_attempt ∷ [];
  next_attempt = w.next_attempt + 1;
}

-- the answer to a key that is new, by the slot that is free
unfoldable pub admit : Request → Option ℕ → List ℕ → Method Decision
admit r none used w = (
  ok (record {
    allowed = false;
    attempt_id = w.next_attempt;
    used = length (sorted_set used);
    limit = r.limit;
    resets_at = day_end w.now;
    replayed = false;
    status = AttemptStatus.denied;
    outcome = some Outcome.quota_denied;
    qa_trace_id = none;
  }),
  insert (λ n. new_row r w.now n none AttemptStatus.denied (some Outcome.quota_denied)) w,
)
admit r (some slot) used w = (
  ok (record {
    allowed = true;
    attempt_id = w.next_attempt;
    used = length (sorted_set used);
    limit = r.limit;
    resets_at = day_end w.now;
    replayed = false;
    status = AttemptStatus.reserved;
    outcome = none;
    qa_trace_id = none;
  }),
  insert (λ n. new_row r w.now n (some slot) AttemptStatus.reserved none) w,
)

-- the answer to a key that an attempt has
abbrev pub replay_of : Request → Attempt → Store → Decision
replay_of r a w = record {
  allowed = false;
  attempt_id = a.id;
  used = active_count r.user_tg_id (local_day_of w.now) w.attempts;
  limit = r.limit;
  resets_at = day_end w.now;
  replayed = true;
  status = a.status;
  outcome = a.outcome;
  qa_trace_id = a.qa_trace_id;
}

-- what follows the reconciliation of stale reservations, by the attempt that has the key
unfoldable pub decide : Request → Option Attempt → Method Decision
unfolding active_count admit
decide r (some a) w = (ok (replay_of r a w), w)
decide r none w =
    let used = used_slots r.user_tg_id (local_day_of w.now) w.attempts in
    admit r (available_slot used) used w

abbrev pub is_valid_key : String → Bool
is_valid_key key = not (str_eq key "") && leb (text_length key) 128

unfoldable pub reserve : Request → Method Decision
reserve r = do
  guard (is_valid_key r.idempotency_key) QuotaError.value_error
  guard (r.limit == daily_limit) QuotaError.value_error
  now ← gets (λ w. w.now)
  freed ← release_stale_reserved r.user_tg_id (local_day_of now) (now - stale_after) now
  existing ← gets (λ w. find (has_key r.idempotency_key) w.attempts)
  decide r existing

-- if rowcount != 1: raise LookupError
abbrev pub need_one : ℕ → Method (Unit {0})
need_one rows = guard (rows == 1) QuotaError.lookup_error

abbrev pub is_live : ℕ → Attempt → Bool
is_live id a = has_id id a && is_reserved a.status

abbrev pub is_undelivered : ℕ → Attempt → Bool
is_undelivered id a = is_live id a && not (is_some a.delivery_started_at)

abbrev pub started : ℕ → Outcome → ℕ → ℕ → Option ℕ → Attempt → Attempt
started now outcome trace embedding synthesis a = record a {
  outcome = some outcome;
  qa_trace_id = some trace;
  embedding_llm_call_id = some embedding;
  synthesis_llm_call_id = synthesis;
  progress_at = now;
  delivery_started_at = some now;
}

unfoldable pub mark_delivery_started : ℕ → Outcome → ℕ → ℕ → Option ℕ → Method (Unit {0})
mark_delivery_started id outcome trace embedding synthesis = do
  guard (is_delivery (some outcome)) QuotaError.value_error
  now ← gets (λ w. w.now)
  rows ← update_attempts (is_undelivered id) (started now outcome trace embedding synthesis)
  need_one rows

unfoldable pub attach_trace : ℕ → ℕ → Method (Unit {0})
attach_trace id trace = do
  now ← gets (λ w. w.now)
  rows ←
      update_attempts (is_live id) (λ a. record a { qa_trace_id = some trace; progress_at = now })
  need_one rows

unfoldable pub attach_embedding_call : ℕ → ℕ → Method (Unit {0})
attach_embedding_call id call = do
  now ← gets (λ w. w.now)
  rows ←
      update_attempts (is_live id)
        (λ a. record a { embedding_llm_call_id = some call; progress_at = now })
  need_one rows

unfoldable pub touch : ℕ → Method (Unit {0})
touch id = do
  now ← gets (λ w. w.now)
  rows ← update_attempts (is_undelivered id) (λ a. record a { progress_at = now })
  need_one rows
