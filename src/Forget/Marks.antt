-- ===== src/Forget/Marks.antt =====
-- The entries of `cascade_status` along the layers.
use vibeshkoder.Base.{
  ◌≡◌, refl, true, false, Option, none, some, List, [], ◌∷◌, Bool-cases, inl, inr, arith, is_some,
  In, here, there, ==_refl, ==_iff, ◌==◌,
}
use vibeshkoder.Base.Exec.{ok, bind_keeps, bind_ok, if_keeps, at_end}
use vibeshkoder.Forget.Model.{ForgetEvent, Layer, Mark, Progress, CascadeError, Outside}
use vibeshkoder.Forget.Order.{is_completed, mark_of, put, same_layer, place}
use vibeshkoder.Forget.Cascade.{Progressing, on_store, run_layer, round, checkpoint, run_layers}

-- the layer has an entry
abbrev pub IsMarked : Layer → List Progress → Type 0
IsMarked l ps = is_some (mark_of l ps) ≡ true

pub mark_of-put : (l : Layer) (m : Mark) (ps : List Progress) → mark_of l (put l m ps) ≡ some m
mark_of-put l m [] = rw (==_refl (place l))
mark_of-put l m (p ∷ ps) = elim (Bool-cases (same_layer p.layer l)) [
  | inl t ↦ rw (t, ==_refl (place l))
  | inr t ↦ rw (t, t) (mark_of-put l m ps)
]

in_rest :
    (p : Progress) (l k : Layer) (ps : List Progress)
    → same_layer p.layer l ≡ true
    → (place l == place k) ≡ false
    → IsMarked k (p ∷ ps)
    → IsMarked k ps
in_rest p l k ps t s h =
    let e : place p.layer ≡ place l = (==_iff (place p.layer) (place l)).0 t in
    let n : (place p.layer == place k) ≡ false = rw e s in rw n at h

put_keeps : (l k : Layer) (m : Mark) (ps : List Progress) → IsMarked k ps → IsMarked k (put l m ps)
put_keeps l k m [] h = ground arith
put_keeps l k m (p ∷ ps) h = elim (Bool-cases (same_layer p.layer l)) [
  | inl t ↦ rw t (elim (Bool-cases (place l == place k)) [
    | inl s ↦ rw s refl
    | inr s ↦ rw s (in_rest p l k ps t s h)
  ])
  | inr t ↦ rw t (elim (Bool-cases (same_layer p.layer k)) [
    | inl s ↦ rw s refl
    | inr s ↦ rw s (put_keeps l k m ps (rw s at h))
  ])
]

completed-IsMarked :
    (l : Layer) (ps : List Progress) → is_completed (mark_of l ps) ≡ true → IsMarked l ps
completed-IsMarked l ps h = go (mark_of l ps) h
  where
    go : (o : Option Mark) → is_completed o ≡ true → is_some o ≡ true
    go none h = ground arith
    go (some m) h = refl

module _ (out : Outside) (e : ForgetEvent) where
  Has : Layer → Progressing → Type 0
  Has l p = IsMarked l p.state.layers

  round_keeps : (k l : Layer) (p : Progressing) → Has k p → Has k (round out e l p).1
  unfolding round Has
  round_keeps k l p h =
      bind_keeps (Has k) (checkpoint e l) (on_store (run_layer out e l)) p h
        (λ m q r i. put_keeps l k m q.state.layers i)

  round_marks :
      (l : Layer) (p q : Progressing) (x : ForgetEvent) → round out e l p ≡ (ok x, q) → Has l q
  unfolding round Has
  round_marks l p q x r =
      let (m, t, s, k) = bind_ok (checkpoint e l) (on_store (run_layer out e l)) p q x r in
      let h : IsMarked l (put l m t.state.layers) = rw (mark_of-put l m t.state.layers) refl in
      at_end CascadeError Progressing (Has l) (checkpoint e l m) {s = t} k h

  run_layers_keep :
      (k : Layer) (ls : List Layer) (p : Progressing) → Has k p → Has k (run_layers out e ls p).1
  unfolding run_layers
  run_layers_keep k [] p h = h
  run_layers_keep k (l ∷ ls) p h =
      if_keeps (Has k) (is_completed (mark_of l p.state.layers)) (run_layers out e ls) _ p
        (λ t. run_layers_keep k ls p h)
        (λ t.
          bind_keeps (Has k) (λ x. run_layers out e ls) (round out e l) p (round_keeps k l p h)
            (λ a q r i. run_layers_keep k ls q i))

  IsMarked-rest :
      (l : Layer) (ls : List Layer) (p q : Progressing) {k : Layer}
      → Has l p
      → run_layers out e ls p ≡ (ok tt, q)
      → In k (l ∷ ls)
      → (In k ls → IsMarked k q.state.layers)
      → IsMarked k q.state.layers
  unfolding Has
  IsMarked-rest l ls p q h r here rest =
      at_end CascadeError Progressing (Has l) (run_layers out e ls) {s = p} r
        (run_layers_keep l ls p h)
  IsMarked-rest l ls p q h r (there i) rest = rest i

  -- Where the loop comes to its end, each of its layers has an entry.
  pub run_layers_mark :
      {l : Layer} (ls : List Layer) (p q : Progressing)
      → run_layers out e ls p ≡ (ok tt, q)
      → In l ls
      → IsMarked l q.state.layers
  unfolding run_layers Has
  run_layers_mark [] p q r i = elim i [ ]
  run_layers_mark (l ∷ ls) p q r i = elim (Bool-cases (is_completed (mark_of l p.state.layers))) [
    | inl t ↦
        IsMarked-rest l ls p q (completed-IsMarked l p.state.layers t) (rw t at r) i
          (run_layers_mark ls p q (rw t at r))
    | inr t ↦
        (let (x, s, a, b) = bind_ok (λ x. run_layers out e ls) (round out e l) p q tt (rw t at r) in
          IsMarked-rest l ls s q (round_marks l p s x a) b i (run_layers_mark ls s q b))
  ]
