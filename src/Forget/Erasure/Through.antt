-- ===== src/Forget/Erasure/Through.antt =====
-- What one layer establishes and no layer takes back holds at the end of the loop.
use vibeshkoder.Base.{
  ℕ, ◌≡◌, sym, ◌∙◌, ap, true, false, not, List, [], ◌∷◌, Bool-cases, inl, inr, In, subst,
}
use vibeshkoder.Base.Exec.{
  Result, ok, err, pure, ◌>>=◌, bind_keeps, bind_ok, if_keeps, at_end, err_not_ok,
}
use vibeshkoder.Forget.Model.{ForgetEvent, Layer, Mark, CascadeError, Tables, Store, Sweep, Outside}
use vibeshkoder.Forget.Order.{is_completed, mark_of, same_layer, is_export, has_func, applies}
use vibeshkoder.Forget.Cascade.{
  Progressing, on_store, nested, savepoint, run_layer, round, checkpoint, set_entry, run_layers,
  layer_func,
}
use vibeshkoder.Forget.Rows.{update_cascade_status-IsLocal}
use vibeshkoder.Forget.Erasure.Swept.{IsSwept, IsSwept-refl, IsSwept-trans}
use vibeshkoder.Forget.Erasure.Every.{layer-Sweeps}
use vibeshkoder.Forget.Places.{mark_of-put_other, same_layer_path, not_here, not_completed}

savepoint-IsSwept :
    {A : Type 0} (r : Result CascadeError A) (t u : Tables)
    → IsSwept t u
    → IsSwept t (savepoint t (r, u)).1
savepoint-IsSwept (ok a) t u h = h
savepoint-IsSwept (err x) t u h = IsSwept-refl t

savepoint_ok :
    {A : Type 0} (r : Result CascadeError A) (t u v : Tables) (a : A)
    → savepoint t (r, u) ≡ (ok a, v)
    → (r ≡ ok a) × (u ≡ v)
savepoint_ok (ok b) t u v a q = (ap (λ z. z.0) q, ap (λ z. z.1) q)
savepoint_ok (err x) t u v a q = absurd (err_not_ok CascadeError (ap (λ z. z.0) q))

nested_ok :
    {A : Type 0} (m : Sweep A) (w w' : Store) (a : A)
    → nested m w ≡ (ok a, w')
    → m w.tables ≡ (ok a, w'.tables)
unfolding nested
nested_ok m w w' a q =
    let (r, u) = m w.tables in
    let (x, y) = savepoint_ok r w.tables u w'.tables a (ap (λ z. (z.0, z.1.tables)) q) in
    λ i. (x i, y i)

module _ (out : Outside) (e : ForgetEvent) where
  run_layer-IsSwept : (l : Layer) (w : Store) → IsSwept w.tables (run_layer out e l w).1.tables
  unfolding run_layer nested
  run_layer-IsSwept l w =
      let P = λ (s : Store). IsSwept w.tables s.tables in
      if_keeps P (is_export e.target_type) _ _ w (λ t. IsSwept-refl w.tables)
        λ t.
          if_keeps P (not (has_func l)) _ _ w (λ t. IsSwept-refl w.tables)
            λ t.
              if_keeps P (not (applies l e.target_type)) _ _ w (λ t. IsSwept-refl w.tables)
                λ t.
                  bind_keeps P (λ rows. pure (Mark.completed rows)) (nested (layer_func out l e)) w
                    (let (r, u) = layer_func out l e w.tables in
                      savepoint-IsSwept r w.tables u (layer-Sweeps out l e w.tables))
                    (λ a s q k. k)

  round-IsSwept :
      (l : Layer) (p : Progressing) → IsSwept p.store.tables (round out e l p).1.store.tables
  unfolding round
  round-IsSwept l p =
      bind_keeps (λ q. IsSwept p.store.tables q.store.tables) (checkpoint e l)
        (on_store (run_layer out e l)) p (run_layer-IsSwept l p.store)
        (λ m q r h.
          subst (λ t. IsSwept p.store.tables t)
            (sym (update_cascade_status-IsLocal e.id (set_entry l m q).state q.store).same_tables)
            h)

  pub run_layers-IsSwept :
      (ls : List Layer) (p : Progressing)
      → IsSwept p.store.tables (run_layers out e ls p).1.store.tables
  unfolding run_layers
  run_layers-IsSwept [] p = IsSwept-refl p.store.tables
  run_layers-IsSwept (l ∷ ls) p =
      let P = λ (q : Progressing). IsSwept p.store.tables q.store.tables in
      if_keeps P (is_completed (mark_of l p.state.layers)) (run_layers out e ls) _ p
        (λ t. run_layers-IsSwept ls p)
        (λ t.
          bind_keeps P (λ x. run_layers out e ls) (round out e l) p (round-IsSwept l p)
            (λ a q r h. IsSwept-trans h (run_layers-IsSwept ls q)))

  -- A layer that applies to the event has run where its round returns.
  module _ (l : Layer) (x : is_export e.target_type ≡ false) (f : has_func l ≡ true)
      (a : applies l e.target_type ≡ true) where
    run_layer_ran :
        (w w' : Store) (m : Mark)
        → run_layer out e l w ≡ (ok m, w')
        → (rows : ℕ) × (layer_func out l e w.tables ≡ (ok rows, w'.tables))
    unfolding run_layer
    run_layer_ran w w' m q =
        let s : (nested (layer_func out l e) >>= λ rows. pure (Mark.completed rows)) w
            ≡ (ok m, w') =
          rw (x, f, a) at q in
        let (rows, v, r, t) =
          bind_ok (λ rows. pure (Mark.completed rows)) (nested (layer_func out l e)) w w' m s in
        (
          rows,
          subst (λ z. layer_func out l e w.tables ≡ (ok rows, z.tables)) (ap (λ z. z.1) t)
              (nested_ok (layer_func out l e) w v rows r),
        )

    round_ran :
        (p q : Progressing) (d : ForgetEvent)
        → round out e l p ≡ (ok d, q)
        → (rows : ℕ) × (layer_func out l e p.store.tables ≡ (ok rows, q.store.tables))
    unfolding round
    round_ran p q d r =
        let (m, s, b, k) = bind_ok (checkpoint e l) (on_store (run_layer out e l)) p q d r in
        let (rows, c) = run_layer_ran p.store s.store m (ap (λ z. (z.0, z.1.store)) b) in
        let u = update_cascade_status-IsLocal e.id (set_entry l m s).state s.store in
        let v : q.store.tables ≡ s.store.tables =
          sym (ap (λ z. z.1.store.tables) k) ∙ u.same_tables in
        (rows, subst (λ z. layer_func out l e p.store.tables ≡ (ok rows, z)) (sym v) c)

    -- The entry of the layer stays as it is while another layer has its round.
    other_round :
        (k : Layer) (p q : Progressing) (d : ForgetEvent)
        → same_layer k l ≡ false
        → round out e k p ≡ (ok d, q)
        → mark_of l q.state.layers ≡ mark_of l p.state.layers
    unfolding round
    other_round k p q d n r =
        let (m, s, b, c) = bind_ok (checkpoint e k) (on_store (run_layer out e k)) p q d r in
        let u : s.state ≡ p.state = sym (ap (λ z. z.1.state) b) in
        let v : q.state ≡ (set_entry k m s).state = sym (ap (λ z. z.1.state) c) in
        ap (λ z. mark_of l z.layers) v
        ∙ mark_of-put_other k l m s.state.layers n
        ∙ ap (λ z. mark_of l z.layers) u

    module _ (P : Tables → Type 0) (keep : (t u : Tables) → IsSwept t u → P t → P u)
        (est : (t u : Tables) (rows : ℕ) → layer_func out l e t ≡ (ok rows, u) → P u) where
      kept_to_end :
          (ls : List Layer) (p q : Progressing)
          → run_layers out e ls p ≡ (ok tt, q)
          → P p.store.tables
          → P q.store.tables
      kept_to_end ls p q r h =
          at_end CascadeError Progressing (λ z. P z.store.tables) (run_layers out e ls) {s = p} r
            (keep p.store.tables (run_layers out e ls p).1.store.tables (run_layers-IsSwept ls p) h)

      after_round :
          (k : Layer) (ls : List Layer) (p q s : Progressing) (d : ForgetEvent)
          → round out e k p ≡ (ok d, s)
          → run_layers out e ls s ≡ (ok tt, q)
          → In l (k ∷ ls)
          → (In l ls → is_completed (mark_of l s.state.layers) ≡ false → P q.store.tables)
          → is_completed (mark_of l p.state.layers) ≡ false
          → P q.store.tables
      after_round k ls p q s d a b i later c = elim (Bool-cases (same_layer k l)) [
        | inl t ↦
            (let g : round out e l p ≡ (ok d, s) =
                subst (λ z. round out e z p ≡ (ok d, s)) (same_layer_path k l t) a in
              let (rows, v) = round_ran p s d g in
              kept_to_end ls s q b (est p.store.tables s.store.tables rows v))
        | inr t ↦ later (not_here t i) (rw (other_round k p s d t a) c)
      ]

      pub through :
          (ls : List Layer) (p q : Progressing)
          → run_layers out e ls p ≡ (ok tt, q)
          → In l ls
          → is_completed (mark_of l p.state.layers) ≡ false
          → P q.store.tables
      unfolding run_layers
      through [] p q r i c = elim i [ ]
      through (k ∷ ls) p q r i c = elim (Bool-cases (is_completed (mark_of k p.state.layers))) [
        | inl t ↦ through ls p q (rw t at r) (not_completed k ls p t i c) c
        | inr t ↦
            (let (d, s, a, b) =
                bind_ok (λ x. run_layers out e ls) (round out e k) p q tt (rw t at r) in
              after_round k ls p q s d a b i (λ j g. through ls s q b j g) c)
      ]
