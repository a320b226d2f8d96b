-- ===== src/Forget/Events.antt =====
-- bot/db/repos/forget_event.py, and the writer of forget_events in bot/services/message_persistence.py
use vibeshkoder.Base.{
  ℕ, ◌+◌, String, Bool, true, false, ◌&&◌, ◌||◌, ltb, ◌==◌, if◌then◌else◌, str_eq, Option, none,
  some, List, [], ◌∷◌, ◌++◌, map, any, find, filter, sort_by, take, update_where, or_keep,
  contains_text,
}
use Prim.Native.String.{◌++◌ as text_append}
use vibeshkoder.Base.Exec.{Result, ok, err, gets}
use vibeshkoder.Forget.Model.{
  ForgetEvent, EventStatus, TargetType, CascadeStatus, CascadeError, Store, Method, LockKey,
}

abbrev pub same_status : EventStatus → EventStatus → Bool
same_status EventStatus.pending EventStatus.pending = true
same_status EventStatus.processing EventStatus.processing = true
same_status EventStatus.completed EventStatus.completed = true
same_status EventStatus.failed EventStatus.failed = true
same_status EventStatus.superseded EventStatus.superseded = true
same_status _ _ = false

-- one entry of _ALLOWED_TRANSITIONS
pub record Transitions : Type 0 where
  pub old : EventStatus
  pub nexts : List EventStatus

abbrev pub allowed_transitions : List Transitions
allowed_transitions =
    record { old = EventStatus.pending; nexts = EventStatus.processing ∷ [] }
    ∷ record {
      old = EventStatus.processing;
      nexts = EventStatus.completed ∷ EventStatus.failed ∷ [];
    }
    ∷ record { old = EventStatus.completed; nexts = [] }
    ∷ record { old = EventStatus.failed; nexts = [] }
    ∷ []

-- status in _ALLOWED_TRANSITIONS
abbrev pub is_known : EventStatus → Bool
is_known status = any (λ t. same_status t.old status) allowed_transitions

-- [old for old, nexts in _ALLOWED_TRANSITIONS.items() if status in nexts]
abbrev pub allowed_old : EventStatus → List EventStatus
allowed_old status =
    map (λ t. t.old) (filter (λ t. any (same_status status) t.nexts) allowed_transitions)

-- ForgetEvent.tombstone_key == key
abbrev pub has_key : String → ForgetEvent → Bool
has_key key e = str_eq e.tombstone_key key

-- ForgetEvent.id == forget_event_id
abbrev pub has_id : ℕ → ForgetEvent → Bool
has_id id e = e.id == id

-- the keyword arguments of `create`
pub record NewEvent : Type 0 where
  pub target_type : TargetType
  pub target_id : Option String
  pub actor_user_id : Option ℕ
  pub authorized_by : String
  pub tombstone_key : String
  pub reason : Option String
  pub policy : String

abbrev pub pending_row : NewEvent → ℕ → ℕ → ForgetEvent
pending_row r now new_id = record {
  id = new_id;
  target_type = r.target_type;
  target_id = r.target_id;
  actor_user_id = r.actor_user_id;
  authorized_by = r.authorized_by;
  tombstone_key = r.tombstone_key;
  reason = r.reason;
  policy = r.policy;
  status = EventStatus.pending;
  cascade_status = none;
  created_at = now;
}

-- INSERT … ON CONFLICT (tombstone_key) DO NOTHING RETURNING, else the row that is there. A conflict
-- uses up a value of the sequence.
unfoldable pub insert_or_return :
    NewEvent → Option ForgetEvent → Store → Result CascadeError ForgetEvent × Store
insert_or_return r (some existing) w = (ok existing, record w { next_event = w.next_event + 1 })
insert_or_return r none w =
    let e = pending_row r w.now w.next_event in
    (ok e, record w { events = w.events ++ e ∷ []; next_event = w.next_event + 1 })

unfoldable pub get_by_tombstone_key : String → Method (Option ForgetEvent)
get_by_tombstone_key key = gets (λ w. find (has_key key) w.events)

-- The first visible tombstone of a target is serialised with the delivery of evidence.
abbrev pub target_key : TargetType → Option String → List LockKey
target_key TargetType.export id = []
target_key type none = []
target_key type (some id) = LockKey.target_lock type id ∷ []

unfoldable pub create : NewEvent → Method ForgetEvent
unfolding insert_or_return
create r w =
    insert_or_return r (find (has_key r.tombstone_key) w.events)
      (record w { held = target_key r.target_type r.target_id ++ w.held })

-- ORDER BY created_at ASC, id ASC
abbrev pub created_before : ForgetEvent → ForgetEvent → Bool
created_before e f = ltb e.created_at f.created_at || e.created_at == f.created_at && ltb e.id f.id

unfoldable pub list_pending : ℕ → Store → List ForgetEvent
list_pending limit w =
    take limit
      (sort_by created_before (filter (λ e. same_status e.status EventStatus.pending) w.events))

-- id = … AND status IN (allowed_old)
abbrev pub may_move : ℕ → List EventStatus → ForgetEvent → Bool
may_move id allowed e = has_id id e && any (λ old. same_status old e.status) allowed

-- the row as the UPDATE leaves it
abbrev pub moved : EventStatus → Option CascadeStatus → ForgetEvent → ForgetEvent
moved status state e = record e { status = status; cascade_status = or_keep state e.cascade_status }

abbrev pub absent_or : CascadeError → Option ForgetEvent → CascadeError
absent_or error none = CascadeError.not_found
absent_or error (some e) = error

-- The UPDATE … RETURNING returned a row, or the reason why it did not is looked up.
unfoldable pub returning :
    (ForgetEvent → ForgetEvent)
    → CascadeError
    → ℕ
    → (ForgetEvent → Bool)
    → Option ForgetEvent
    → Method ForgetEvent
returning f error id p (some e) w = (ok (f e), record w { events = update_where p f w.events })
returning f error id p none w = (err (absent_or error (find (has_id id) w.events)), w)

unfoldable pub mark_status : ℕ → EventStatus → Option CascadeStatus → Method ForgetEvent
unfolding returning
mark_status id status state w =
    let p = may_move id (allowed_old status) in
    if is_known status
    then returning (moved status state) CascadeError.invalid_transition id p (find p w.events) w
    else (err CascadeError.unknown_status, w)

abbrev pub checkpointed : CascadeStatus → ForgetEvent → ForgetEvent
checkpointed state e = record e { cascade_status = some state }

unfoldable pub update_cascade_status : ℕ → CascadeStatus → Method ForgetEvent
unfolding returning
update_cascade_status id state w =
    let p = may_move id (EventStatus.processing ∷ []) in
    returning (checkpointed state) CascadeError.not_processing id p (find p w.events) w

-- status IN ('pending', 'processing', 'completed')
abbrev pub may_supersede : EventStatus → Bool
may_supersede EventStatus.pending = true
may_supersede EventStatus.processing = true
may_supersede EventStatus.completed = true
may_supersede _ = false

-- the tombstone keys of a message, of the hashes of its versions, and of its author
abbrev pub tombstone_keys : String → String → List String → Option String → List String
tombstone_keys chat_id message_id hashes author =
    text_append "message:" (text_append chat_id (text_append ":" message_id))
      ∷ map (text_append "message_hash:") hashes
    ++ author_key author
  where
    author_key : Option String → List String
    author_key none = []
    author_key (some user_id) = text_append "user:" user_id ∷ []

abbrev pub is_superseded_by : List String → ForgetEvent → Bool
is_superseded_by keys e = contains_text e.tombstone_key keys && may_supersede e.status

-- The UPDATE at the end of the restoring of a message's content.
unfoldable pub supersede : List String → Store → Store
supersede keys w = record w {
  events =
      update_where (is_superseded_by keys) (λ e. record e { status = EventStatus.superseded })
        w.events;
}
