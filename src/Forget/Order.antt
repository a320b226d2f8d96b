-- ===== src/Forget/Order.antt =====
-- The order of the layers, the types to which each applies, and the entries of `cascade_status`.
use vibeshkoder.Base.{
  ℕ, Bool, true, false, ◌||◌, ◌==◌, Option, none, some, List, [], ◌∷◌, if◌then◌else◌,
}
use vibeshkoder.Forget.Model.{TargetType, Layer, Mark, Progress}
use vibeshkoder.Forget.Targets.{is_message_type, is_user_type, is_hash_type}

-- CASCADE_LAYER_ORDER
abbrev pub cascade_layer_order : List Layer
cascade_layer_order =
    Layer.chat_messages ∷ Layer.semantic_retrieval ∷ Layer.message_versions ∷ Layer.qa_traces
    ∷ Layer.llm_synthesis_cache ∷ Layer.qa_traces_llm ∷ Layer.llm_usage_ledger ∷ Layer.digests
    ∷ Layer.wiki_pages ∷ Layer.wiki_revisions ∷ Layer.card_sources ∷ Layer.message_entities
    ∷ Layer.message_links ∷ Layer.attachments ∷ Layer.fts_rows ∷ Layer.graph_nodes
    ∷ Layer.butler_action_confirmations ∷ Layer.butler_tool_invocations
    ∷ Layer.butler_undo_invocations ∷ Layer.butler_actions ∷ []

-- the place of a layer in the order, by which names are compared
abbrev pub place : Layer → ℕ
place Layer.chat_messages = 0
place Layer.semantic_retrieval = 1
place Layer.message_versions = 2
place Layer.qa_traces = 3
place Layer.llm_synthesis_cache = 4
place Layer.qa_traces_llm = 5
place Layer.llm_usage_ledger = 6
place Layer.digests = 7
place Layer.wiki_pages = 8
place Layer.wiki_revisions = 9
place Layer.card_sources = 10
place Layer.message_entities = 11
place Layer.message_links = 12
place Layer.attachments = 13
place Layer.fts_rows = 14
place Layer.graph_nodes = 15
place Layer.butler_action_confirmations = 16
place Layer.butler_tool_invocations = 17
place Layer.butler_undo_invocations = 18
place Layer.butler_actions = 19

abbrev pub same_layer : Layer → Layer → Bool
same_layer l k = place l == place k

-- the three sets of types in _LAYER_APPLICABLE_TARGET_TYPES
abbrev pub message_or_user : TargetType → Bool
message_or_user t = is_message_type t || is_user_type t

abbrev pub not_export : TargetType → Bool
not_export t = is_message_type t || (is_hash_type t || is_user_type t)

-- _LAYER_APPLICABLE_TARGET_TYPES; a layer that is absent there applies to all
abbrev pub applies : Layer → TargetType → Bool
applies Layer.chat_messages t = message_or_user t
applies Layer.semantic_retrieval t = not_export t
applies Layer.message_versions t = message_or_user t
applies Layer.qa_traces t = is_user_type t
applies Layer.llm_synthesis_cache t = not_export t
applies Layer.qa_traces_llm t = not_export t
applies Layer.llm_usage_ledger t = is_user_type t
applies Layer.card_sources t = not_export t
applies Layer.wiki_pages t = not_export t
applies Layer.wiki_revisions t = not_export t
applies Layer.graph_nodes t = not_export t
applies Layer.butler_action_confirmations t = not_export t
applies Layer.butler_tool_invocations t = not_export t
applies Layer.butler_actions t = not_export t
applies _ t = true

-- layer in _LAYER_FUNCS
abbrev pub has_func : Layer → Bool
has_func Layer.message_entities = false
has_func Layer.message_links = false
has_func Layer.attachments = false
has_func Layer.fts_rows = false
has_func _ = true

abbrev pub is_export : TargetType → Bool
is_export TargetType.export = true
is_export _ = false

-- the entry under a layer, if there is one
abbrev pub mark_of : Layer → List Progress → Option Mark
mark_of l [] = none
mark_of l (p ∷ ps) = if same_layer p.layer l then some p.mark else mark_of l ps

-- cascade_state[layer] = mark
abbrev pub put : Layer → Mark → List Progress → List Progress
put l m [] = record { layer = l; mark = m } ∷ []
put l m (p ∷ ps) =
    let rest = put l m ps in
    if same_layer p.layer l then record { layer = l; mark = m } ∷ ps else p ∷ rest

-- existing.get("status") == "completed"
abbrev pub is_completed : Option Mark → Bool
is_completed (some (Mark.completed n)) = true
is_completed (some Mark.not_applicable) = true
is_completed _ = false
