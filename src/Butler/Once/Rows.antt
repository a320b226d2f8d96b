-- ===== src/Butler/Once/Rows.antt =====
-- An action that cannot be executed any more, and each statement that writes to the actions.
use vibeshkoder.Base.{
  ℕ, ◌<◌, ◌≡◌, ◌≢◌, true, [], ◌∷◌, ==_iff, ◌⊎◌, inl, inr, In, In-append, In-single, In-update_where,
  touched, arith, any, Bool-cases,
}
use vibeshkoder.Base.Exec.{bind_keeps, ◌>>◌}
use vibeshkoder.Butler.Model.{Action, ActionStatus, World}
use vibeshkoder.Butler.Repos.Actions
use vibeshkoder.Butler.Repos.Actions.{
  has_id, Values, apply_values, set_status, update_status, breaks_check,
}
use vibeshkoder.Butler.Withdraw.{refetch}
use vibeshkoder.Butler.Consent.Starting.{IsFrame, is_spent}
use vibeshkoder.Butler.Consent.Planning.{IsPlanFrame}

-- The action is older than the next key, and every row of its id has a status that no execution
-- starts from.
pub record IsSpent (id : ℕ) (w : World) : Type 0 where
  pub known : id < w.next_action
  pub spent : (a : Action) → In a w.actions → a.id ≡ id → is_spent a.status ≡ true

module _ (spent_id : ℕ) where
  touched-spent :
      (id : ℕ) (s : ActionStatus) (v : Values) (a : Action)
      → (is_spent s ≡ true) ⊎ (id ≢ spent_id)
      → (a.id ≡ spent_id → is_spent a.status ≡ true)
      → (touched (has_id id) (apply_values s v) a).id ≡ spent_id
      → is_spent (touched (has_id id) (apply_values s v) a).status ≡ true
  unfolding apply_values
  touched-spent id s v a (inl t) h e = ground (arith, ==_iff a.id id)
  touched-spent id s v a (inr ne) h e = ground (arith, ==_iff a.id id)

  pub set_status-IsSpent :
      (id : ℕ) (s : ActionStatus) (v : Values) (w : World)
      → (is_spent s ≡ true) ⊎ (id ≢ spent_id)
      → IsSpent spent_id w
      → IsSpent spent_id (set_status id s v w)
  unfolding set_status
  set_status-IsSpent id s v w t h = record {
    known = h.known;
    spent = λ a i q.
        let (b, j, e) = In-update_where (has_id id) (apply_values s v) w.actions i in
        rw e (touched-spent id s v b t (h.spent b j) (rw e at q));
  }

  pub update_status-IsSpent :
      (id : ℕ) (s : ActionStatus) (v : Values) (w : World)
      → (is_spent s ≡ true) ⊎ (id ≢ spent_id)
      → IsSpent spent_id w
      → IsSpent spent_id (update_status id s v w).1
  unfolding update_status
  update_status-IsSpent id s v w t h = elim (Bool-cases (any (has_id id) w.actions)) [
    | inl e ↦ elim (Bool-cases (any (breaks_check id s v) w.actions)) [
      | inl f ↦ rw (e, f) h
      | inr f ↦ rw (e, f) (set_status-IsSpent id s v w t h)
    ]
    | inr e ↦ rw e h
  ]

  pub create-IsSpent :
      (row : ℕ → Action) (w : World)
      → IsSpent spent_id w
      → (row w.next_action).id ≡ w.next_action
      → IsSpent spent_id (Actions.create row w).1
  unfolding Actions.create
  create-IsSpent row w h key = record {
    known = (let k = h.known in omega arith);
    spent = λ a i q. elim (In-append w.actions (row w.next_action ∷ []) i) [
      | inl old ↦ h.spent a old q
      | inr last ↦
          (let k = h.known in
            let new : a.id ≡ w.next_action = rw (In-single last) key in absurd (omega arith))
    ];
  }

  pub IsSpent-IsFrame : (id : ℕ) → IsFrame id (IsSpent spent_id)
  IsSpent-IsFrame id = record {
    quiet = record {
      status = λ s v w t h. set_status-IsSpent id s v w (inl t) h;
      buckets = λ w l h. record { known = h.known; spent = h.spent };
    };
    invocations = λ w l n h. record { known = h.known; spent = h.spent };
    undo_rows = λ w l n h. record { known = h.known; spent = h.spent };
    effects = λ w l h. record { known = h.known; spent = h.spent };
  }

  pub IsSpent-IsPlanFrame : IsPlanFrame (IsSpent spent_id)
  IsSpent-IsPlanFrame = record {
    create = λ row w h key idle. create-IsSpent row w h key;
    buckets = λ w l h. record { known = h.known; spent = h.spent };
  }

  -- the write that ends a method, and the row read again
  pub finish-IsSpent :
      (id : ℕ) (s : ActionStatus) (v : Values) (a : Action) (w : World)
      → is_spent s ≡ true
      → IsSpent spent_id w
      → IsSpent spent_id ((update_status id s v >> refetch id a) w).1
  unfolding refetch Actions.get
  finish-IsSpent id s v a w t h =
      bind_keeps (IsSpent spent_id) (λ _. refetch id a) (update_status id s v) w
        (update_status-IsSpent id s v w (inl t) h) λ _ u e k. k
