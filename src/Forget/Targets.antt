-- ===== src/Forget/Targets.antt =====
-- Which rows a forget event is about: the resolvers of bot/services/forget_cascade.py, and
-- bot/services/forget_predicate.py.
use vibeshkoder.Base.{
  ℕ, String, Bool, true, false, not, ◌&&◌, ◌||◌, ◌==◌, str_eq, Option, none, some, List, [], ◌∷◌,
  ◌++◌, map, any, find, filter, contains, sorted_set, decimal,
}
use vibeshkoder.Base.Exec.{pure, raise, gets, ◌>>=◌}
use vibeshkoder.Butler.Model.{Action, Evidence}
use vibeshkoder.Forget.Model.{
  ForgetEvent, EventStatus, TargetType, CascadeError, ChatMessage, MessageVersion, Tables, Sweep,
  Outside, is_id,
}

-- if event.target_id is None: raise ValueError
abbrev pub the_target : Option String → Sweep String
the_target none = raise CascadeError.no_target
the_target (some t) = pure t

abbrev pub read_int : Option ℕ → Sweep ℕ
read_int none = raise CascadeError.not_an_integer
read_int (some n) = pure n

-- ChatMessage.user_id == n
abbrev pub owned_by : ℕ → ChatMessage → Bool
owned_by n m = is_id n m.user_id

-- the version is of a message of the user
abbrev pub version_owned_by : ℕ → List ChatMessage → MessageVersion → Bool
version_owned_by n messages v = any (λ m. m.id == v.chat_message_id && owned_by n m) messages

-- MessageVersion.content_hash == hash
abbrev pub has_hash : String → MessageVersion → Bool
has_hash hash v = str_eq v.content_hash hash

abbrev pub version_ids : (MessageVersion → Bool) → Tables → List ℕ
version_ids p w = map (λ v. v.id) (filter p w.versions)

abbrev pub current_of : Option ChatMessage → List ℕ
current_of none = []
current_of (some m) = elim m.current_version_id [ none ↦ [] | some v ↦ v ∷ [] ]

abbrev pub current_mvids : Option ℕ → Tables → List ℕ
current_mvids none w = []
current_mvids (some n) w = current_of (find (λ m. m.id == n) w.messages)

abbrev pub user_mvids : Option ℕ → Tables → List ℕ
user_mvids none w = []
user_mvids (some n) w = version_ids (version_owned_by n w.messages) w

-- evidence_ids @> ANY(… [mvid] …); an object contains no array
abbrev pub cites_any : List ℕ → Action → Bool
cites_any mvids a = elim a.evidence_ids [
  | Evidence.ids l ↦ any (λ v. contains v l) mvids
  | Evidence.redacted n ↦ false
]

abbrev pub action_ids : (Action → Bool) → Tables → List ℕ
action_ids p w = map (λ a. a.id) (filter p w.butler.actions)

abbrev pub requested_by : Option ℕ → Action → Bool
requested_by none a = false
requested_by (some n) a = a.requester_tg_id == n

module _ (out : Outside) where
  -- int(event.target_id)
  abbrev pub int_target : String → Sweep ℕ
  int_target t = read_int (out.int t)

  -- the statement of `_semantic_affected_mvids`, by the type of the target
  abbrev pub revisions : TargetType → String → Sweep (List ℕ)
  revisions TargetType.message t = do
    n ← int_target t
    gets (version_ids (λ v. v.chat_message_id == n))
  revisions TargetType.message_hash t = gets (version_ids (has_hash t))
  revisions TargetType.user t = do
    n ← int_target t
    gets (λ w. version_ids (version_owned_by n w.messages) w)
  revisions TargetType.export t = raise CascadeError.unsupported_target

  -- _semantic_affected_mvids
  unfoldable pub semantic_affected_mvids : ForgetEvent → Sweep (List ℕ)
  semantic_affected_mvids e = do
    t ← the_target e.target_id
    found ← revisions e.target_type t
    pure (sorted_set found)

  abbrev pub mvids_of : TargetType → String → Tables → List ℕ
  mvids_of TargetType.message t w = current_mvids (out.int t) w
  mvids_of TargetType.message_hash t w = version_ids (has_hash t) w
  mvids_of TargetType.user t w = user_mvids (out.int t) w
  mvids_of TargetType.export t w = []

  -- _resolve_affected_mvids
  unfoldable pub resolve_affected_mvids : ForgetEvent → Tables → List ℕ
  resolve_affected_mvids e w = elim e.target_id [ none ↦ [] | some t ↦ mvids_of e.target_type t w ]

  abbrev pub of_user : TargetType → String → Tables → List ℕ
  of_user TargetType.user t w = action_ids (requested_by (out.int t)) w
  of_user _ t w = []

  abbrev pub requested : ForgetEvent → Tables → List ℕ
  requested e w = elim e.target_id [ none ↦ [] | some t ↦ of_user e.target_type t w ]

  -- the list `action_ids` with which each of the four Butler layers begins
  unfoldable pub affected_action_ids : ForgetEvent → Tables → List ℕ
  unfolding resolve_affected_mvids
  affected_action_ids e w =
      let cited = action_ids (cites_any (resolve_affected_mvids e w)) w in
      cited ++ filter (λ id. not (contains id cited)) (requested e w)

-- fe.status IN ('pending', 'processing', 'completed')
abbrev pub is_active : EventStatus → Bool
is_active EventStatus.pending = true
is_active EventStatus.processing = true
is_active EventStatus.completed = true
is_active _ = false

abbrev pub equals_id : Option String → Option ℕ → Bool
equals_id (some t) (some n) = str_eq t (decimal n)
equals_id _ _ = false

abbrev pub equals_text : Option String → String → Bool
equals_text (some t) s = str_eq t s
equals_text none s = false

abbrev pub is_message_type : TargetType → Bool
is_message_type TargetType.message = true
is_message_type _ = false

abbrev pub is_user_type : TargetType → Bool
is_user_type TargetType.user = true
is_user_type _ = false

abbrev pub is_hash_type : TargetType → Bool
is_hash_type TargetType.message_hash = true
is_hash_type _ = false

-- the three alternatives of the predicate, on a message `cm` and a version `mv` of it
unfoldable pub targets : ForgetEvent → ChatMessage → MessageVersion → Bool
targets fe cm mv =
    is_message_type fe.target_type && equals_id fe.target_id (some cm.id)
    || (is_user_type fe.target_type && equals_id fe.target_id cm.user_id
        || is_hash_type fe.target_type && equals_text fe.target_id mv.content_hash)

-- NOT EXISTS (…): the row may be shown
unfoldable pub forget_excludes : List ForgetEvent → ChatMessage → MessageVersion → Bool
unfolding targets
forget_excludes events cm mv = not (any (λ fe. is_active fe.status && targets fe cm mv) events)
