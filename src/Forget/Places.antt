-- ===== src/Forget/Places.antt =====
-- The places of the layers in their order.
use vibeshkoder.Base.{
  zero, suc, ℕ, ◌≡◌, refl, sym, ◌∙◌, ap, true, false, Option, none, some, List, [], ◌∷◌, Bool-cases,
  inl, inr, In, here, there, ==_iff, ==_refl, ◌==◌,
}
use mathlib.Core.Bool.{false≢true}
use vibeshkoder.Forget.Model.{Layer, Mark, Progress}
use vibeshkoder.Forget.Order.{is_completed, mark_of, put, same_layer, place, cascade_layer_order}
use vibeshkoder.Forget.Cascade.{Progressing}

pub mark_of-put_other :
    (k l : Layer) (m : Mark) (ps : List Progress)
    → same_layer k l ≡ false
    → mark_of l (put k m ps) ≡ mark_of l ps
mark_of-put_other k l m [] n = rw n refl
mark_of-put_other k l m (p ∷ ps) n = elim (Bool-cases (same_layer p.layer k)) [
  | inl t ↦
      (let u : place p.layer ≡ place k = (==_iff (place p.layer) (place k)).0 t in
        let v : (place p.layer == place l) ≡ false = rw u n in rw (t, n, v) refl)
  | inr t ↦ elim (Bool-cases (same_layer p.layer l)) [
    | inl v ↦ rw (t, v) refl
    | inr v ↦ rw (t, v) (mark_of-put_other k l m ps n)
  ]
]

layer_at : ℕ → List Layer → Option Layer
layer_at n [] = none
layer_at zero (l ∷ ls) = some l
layer_at (suc n) (l ∷ ls) = layer_at n ls

placed : (l : Layer) → layer_at (place l) cascade_layer_order ≡ some l
unfolding layer_at
placed Layer.chat_messages = refl
placed Layer.semantic_retrieval = refl
placed Layer.message_versions = refl
placed Layer.qa_traces = refl
placed Layer.llm_synthesis_cache = refl
placed Layer.qa_traces_llm = refl
placed Layer.llm_usage_ledger = refl
placed Layer.digests = refl
placed Layer.wiki_pages = refl
placed Layer.wiki_revisions = refl
placed Layer.card_sources = refl
placed Layer.message_entities = refl
placed Layer.message_links = refl
placed Layer.attachments = refl
placed Layer.fts_rows = refl
placed Layer.graph_nodes = refl
placed Layer.butler_action_confirmations = refl
placed Layer.butler_tool_invocations = refl
placed Layer.butler_undo_invocations = refl
placed Layer.butler_actions = refl

-- Two layers with the same place are the same.
pub same_layer_path : (k l : Layer) → same_layer k l ≡ true → k ≡ l
same_layer_path k l t =
    let u : place k ≡ place l = (==_iff (place k) (place l)).0 t in
    let v : some k ≡ some l =
      sym (placed k) ∙ ap (λ z. layer_at z cascade_layer_order) u ∙ placed l in
    cc

pub not_here : {k l : Layer} {ls : List Layer} → same_layer k l ≡ false → In l (k ∷ ls) → In l ls
not_here {k} n here = absurd (false≢true (sym n ∙ ==_refl (place k)))
not_here n (there i) = i

-- A layer that is passed over as completed is another one.
pub not_completed :
    (k : Layer) (ls : List Layer) (p : Progressing) {l : Layer}
    → is_completed (mark_of k p.state.layers) ≡ true
    → In l (k ∷ ls)
    → is_completed (mark_of l p.state.layers) ≡ false
    → In l ls
not_completed k ls p t here c = absurd (false≢true (sym c ∙ t))
not_completed k ls p t (there i) c = i
