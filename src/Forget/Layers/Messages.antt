-- ===== src/Forget/Layers/Messages.antt =====
-- `_cascade_chat_messages` and `_cascade_message_versions`.
use vibeshkoder.Base.{ℕ, String, Bool, true, ◌==◌, none, count_where, update_where}
use vibeshkoder.Base.Exec.{ok, raise, gets, ◌>>=◌}
use vibeshkoder.Forget.Model.{
  ForgetEvent, TargetType, CascadeError, ChatMessage, MessageVersion, MemoryPolicy, Sweep, Outside,
}
use vibeshkoder.Forget.Targets.{the_target, int_target, owned_by, version_owned_by}

abbrev pub redact_message : ChatMessage → ChatMessage
redact_message m = record m {
  text = none;
  caption = none;
  raw_json = none;
  is_redacted = true;
  memory_policy = MemoryPolicy.forgotten;
}

unfoldable pub redact_messages : (ChatMessage → Bool) → Sweep ℕ
redact_messages p w = (
  ok (count_where p w.messages),
  record w { messages = update_where p redact_message w.messages },
)

abbrev pub redact_version : MessageVersion → MessageVersion
redact_version v = record v {
  text = none;
  caption = none;
  normalized_text = none;
  entities_json = none;
  is_redacted = true;
}

unfoldable pub redact_versions : (MessageVersion → Bool) → Sweep ℕ
redact_versions p w = (
  ok (count_where p w.versions),
  record w { versions = update_where p redact_version w.versions },
)

module _ (out : Outside) where
  abbrev pub chat_messages_of : TargetType → String → Sweep ℕ
  chat_messages_of TargetType.message t = do n ← int_target out t; redact_messages (λ m. m.id == n)
  chat_messages_of TargetType.user t = do n ← int_target out t; redact_messages (owned_by n)
  chat_messages_of _ t = raise CascadeError.unsupported_target

  unfoldable pub cascade_chat_messages : ForgetEvent → Sweep ℕ
  cascade_chat_messages e = do t ← the_target e.target_id; chat_messages_of e.target_type t

  abbrev pub message_versions_of : TargetType → String → Sweep ℕ
  message_versions_of TargetType.message t = do
    n ← int_target out t
    redact_versions (λ v. v.chat_message_id == n)
  message_versions_of TargetType.user t = do
    n ← int_target out t
    messages ← gets (λ w. w.messages)
    redact_versions (version_owned_by n messages)
  message_versions_of _ t = raise CascadeError.unsupported_target

  unfoldable pub cascade_message_versions : ForgetEvent → Sweep ℕ
  cascade_message_versions e = do t ← the_target e.target_id; message_versions_of e.target_type t
