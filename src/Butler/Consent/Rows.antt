-- ===== src/Butler/Consent/Rows.antt =====
-- The invariant on the rows, and each statement that writes to them.
use vibeshkoder.Base.{
  ℕ, ◌+◌, ◌<◌, ◌≡◌, ◌≢◌, refl, sym, ◌∙◌, Bool, true, false, ◌&&◌, List, [], ◌∷◌, ◌++◌, ==_iff, ◌⊎◌,
  inl, inr, In, In-append, In-single, In-update_where, update_where, touched, arith,
}
use mathlib.Core.Bool.{false≢true}
use vibeshkoder.Butler.Model.{
  Action, ActionStatus, Confirmation, ConfStatus, World, is_pending_conf,
}
use vibeshkoder.Butler.Repos.Actions.{has_id, Values, apply_values, set_status}
use vibeshkoder.Butler.Repos.Confirmations
use vibeshkoder.Butler.Repos.Confirmations.{of_action, resolve, set_resolved, mark_all_for_action}

-- the statuses that only a full confirmation leads to
abbrev pub is_committed : ActionStatus → Bool
is_committed ActionStatus.confirmed = true
is_committed ActionStatus.executing = true
is_committed ActionStatus.succeeded = true
is_committed ActionStatus.execution_failed = true
is_committed ActionStatus.undone = true
is_committed _ = false

-- Everybody who was asked about the action has confirmed.
abbrev pub IsAgreed : ℕ → List Confirmation → Type 0
IsAgreed action_id cs =
    (c : Confirmation) → In c cs → c.action_id ≡ action_id → c.status ≡ ConfStatus.confirmed

pub record AreConsented (acts : List Action) (next_a : ℕ) (cs : List Confirmation) (next_c : ℕ)
    : Type 0 where
  pub action_ids : (a : Action) → In a acts → a.id < next_a
  pub conf_ids : (c : Confirmation) → In c cs → c.id < next_c
  pub conf_refs : (c : Confirmation) → In c cs → c.action_id < next_a
  pub conf_unique :
      (c d : Confirmation) → In c cs → In d cs → c.id ≡ d.id → c.action_id ≡ d.action_id
  pub agreed : (a : Action) → In a acts → is_committed a.status ≡ true → IsAgreed a.id cs

abbrev pub IsConsented : World → Type 0
IsConsented w = AreConsented w.actions w.next_action w.confirmations w.next_confirmation

module _ (id : ℕ) (status : ActionStatus) (v : Values) (w : World) (h : IsConsented w) where
  touched-id : (a : Action) → (touched (has_id id) (apply_values status v) a).id ≡ a.id
  unfolding apply_values
  touched-id a = ground arith

  touched-committed :
      (a : Action)
      → is_committed (touched (has_id id) (apply_values status v) a).status ≡ true
      → (a.id ≡ id) × (is_committed status ≡ true) ⊎ (is_committed a.status ≡ true)
  unfolding apply_values
  touched-committed a = ground arith

  -- `update_status` to a committed status wants the agreement of everybody.
  pub set_status-IsConsented :
      (is_committed status ≡ true → IsAgreed id w.confirmations)
      → IsConsented (set_status id status v w)
  unfolding set_status
  set_status-IsConsented agreement = record {
    action_ids = λ a i.
        let (b, j, e) = In-update_where (has_id id) (apply_values status v) w.actions i in
        rw (e, touched-id b) (h.action_ids b j);
    conf_ids = h.conf_ids;
    conf_refs = h.conf_refs;
    conf_unique = h.conf_unique;
    agreed = λ a i k.
        let (b, j, e) = In-update_where (has_id id) (apply_values status v) w.actions i in
        rw (e, touched-id b)
          (elim (touched-committed b (rw e at k)) [
            | inl both ↦ rw both.0 (agreement both.1)
            | inr old ↦ h.agreed b j old
          ]);
  }

-- the confirmation rows after an update that keeps their keys
module _ (p : Confirmation → Bool) (f : Confirmation → Confirmation) (acts : List Action)
    (next_a : ℕ) (cs : List Confirmation) (next_c : ℕ) (h : AreConsented acts next_a cs next_c)
    (keys : (c : Confirmation) → ((f c).id ≡ c.id) × ((f c).action_id ≡ c.action_id)) where
  touched-keys :
      (c : Confirmation) → ((touched p f c).id ≡ c.id) × ((touched p f c).action_id ≡ c.action_id)
  touched-keys c = ground (arith, keys c)

  -- No row that was confirmed of a committed action loses that.
  update_confirmations :
      ((a : Action) (c : Confirmation)
        → In a acts
        → is_committed a.status ≡ true
        → In c cs
        → c.action_id ≡ a.id
        → c.status ≡ ConfStatus.confirmed
        → p c ≡ true
        → (f c).status ≡ ConfStatus.confirmed)
      → AreConsented acts next_a (update_where p f cs) next_c
  update_confirmations keep = record {
    action_ids = h.action_ids;
    conf_ids = λ c i.
        let (d, j, e) = In-update_where p f cs i in rw (e, (touched-keys d).0) (h.conf_ids d j);
    conf_refs = λ c i.
        let (d, j, e) = In-update_where p f cs i in rw (e, (touched-keys d).1) (h.conf_refs d j);
    conf_unique = λ c d i j q.
        let (c', i', e) = In-update_where p f cs i in
        let (d', j', e') = In-update_where p f cs j in
        let same = h.conf_unique c' d' i' j' (cc ((touched-keys c').0, (touched-keys d').0)) in
        cc ((touched-keys c').1, (touched-keys d').1, same);
    agreed = λ a i k c j q.
        let (d, j', e) = In-update_where p f cs j in
        let of_a : d.action_id ≡ a.id = cc ((touched-keys d).1) in
        let was = h.agreed a i k d j' of_a in ground (arith, keep a d i k j' of_a was);
  }

resolve_keys :
    (s : ConfStatus) (ts : ℕ) (c : Confirmation)
    → ((resolve s ts c).id ≡ c.id) × ((resolve s ts c).action_id ≡ c.action_id)
unfolding resolve
resolve_keys ConfStatus.confirmed ts c = (refl, refl)
resolve_keys _ ts c = (refl, refl)

module _ (w : World) (h : IsConsented w) where
  pub confirm-IsConsented : (id ts : ℕ) → IsConsented (set_resolved id ConfStatus.confirmed ts w)
  unfolding set_resolved resolve
  confirm-IsConsented id ts =
      update_confirmations (Confirmations.has_id id) (resolve ConfStatus.confirmed ts) w.actions
        w.next_action w.confirmations w.next_confirmation h (resolve_keys ConfStatus.confirmed ts)
        (λ a c i k j q was hit. refl)

  -- A row that is not confirmed may be given any status.
  pub resolve-IsConsented :
      (c : Confirmation) (s : ConfStatus) (ts : ℕ)
      → In c w.confirmations
      → c.status ≢ ConfStatus.confirmed
      → IsConsented (set_resolved c.id s ts w)
  unfolding set_resolved
  resolve-IsConsented c s ts i ne =
      update_confirmations (Confirmations.has_id c.id) (resolve s ts) w.actions w.next_action
        w.confirmations w.next_confirmation h (resolve_keys s ts)
        (λ a d ia k j q was hit.
          let same = h.conf_unique d c j i ((==_iff d.id c.id).0 hit) in
          absurd (ne (h.agreed a ia k c i (cc (same, q)))))

  pub mark_all-IsConsented : (id : ℕ) (s : ConfStatus) → IsConsented (mark_all_for_action id s w)
  unfolding mark_all_for_action
  mark_all-IsConsented id s =
      update_confirmations (λ c. of_action id c && is_pending_conf c.status)
        (λ c. record c { status = s }) w.actions w.next_action w.confirmations w.next_confirmation h
        (λ c. (refl, refl)) (λ a c i k j q was hit. ground arith)

  -- A new action that nobody has agreed to.
  pub insert_action-IsConsented :
      (a : Action)
      → a.id ≡ w.next_action
      → is_committed a.status ≡ false
      → AreConsented (w.actions ++ a ∷ []) (w.next_action + 1) w.confirmations w.next_confirmation
  insert_action-IsConsented a new idle = record {
    action_ids = λ b i. elim (In-append w.actions (a ∷ []) i) [
      | inl old ↦ (let k = h.action_ids b old in omega arith)
      | inr last ↦ rw (In-single last, new) (omega arith)
    ];
    conf_ids = h.conf_ids;
    conf_refs = λ c i. let k = h.conf_refs c i in omega arith;
    conf_unique = h.conf_unique;
    agreed = λ b i k. elim (In-append w.actions (a ∷ []) i) [
      | inl old ↦ h.agreed b old k
      | inr last ↦ absurd (false≢true (sym idle ∙ (rw (In-single last) at k)))
    ];
  }

  -- A new row for an action that nobody has agreed to.
  pub insert_confirmation-IsConsented :
      (c : Confirmation)
      → c.id ≡ w.next_confirmation
      → c.action_id < w.next_action
      → ((a : Action) → In a w.actions → a.id ≡ c.action_id → is_committed a.status ≡ false)
      → AreConsented w.actions w.next_action (w.confirmations ++ c ∷ []) (w.next_confirmation + 1)
  insert_confirmation-IsConsented c new known idle = record {
    action_ids = h.action_ids;
    conf_ids = λ d i. elim (In-append w.confirmations (c ∷ []) i) [
      | inl old ↦ (let k = h.conf_ids d old in omega arith)
      | inr last ↦ rw (In-single last, new) (omega arith)
    ];
    conf_refs = λ d i. elim (In-append w.confirmations (c ∷ []) i) [
      | inl old ↦ h.conf_refs d old
      | inr last ↦ rw (In-single last) known
    ];
    conf_unique = λ d e i j q. elim (In-append w.confirmations (c ∷ []) i) [
      | inl old ↦ elim (In-append w.confirmations (c ∷ []) j) [
        | inl old' ↦ h.conf_unique d e old old' q
        | inr last' ↦ absurd (fresh d e old last' q)
      ]
      | inr last ↦ elim (In-append w.confirmations (c ∷ []) j) [
        | inl old' ↦ absurd (fresh e d old' last (sym q))
        | inr last' ↦ cc (In-single last, In-single last')
      ]
    ];
    agreed = λ a i k d j q. elim (In-append w.confirmations (c ∷ []) j) [
      | inl old ↦ h.agreed a i k d old q
      | inr last ↦
          (let same : a.id ≡ c.action_id = cc (In-single last) in
            absurd (false≢true (sym (idle a i same) ∙ k)))
    ];
  }
    where
      fresh : (d e : Confirmation) → In d w.confirmations → In e (c ∷ []) → d.id ≡ e.id → ⊥
      fresh d e i j q =
          let k = h.conf_ids d i in
          let z : e ≡ c = In-single j in
          let y : e.id ≡ w.next_confirmation = rw (z, new) refl in omega arith
