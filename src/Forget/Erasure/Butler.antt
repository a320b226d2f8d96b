-- ===== src/Forget/Erasure/Butler.antt =====
-- The layers on the Butler for a `user` event.
use vibeshkoder.Base.{
  any, str_eq, ℕ, ◌≡◌, refl, sym, ◌∙◌, ap, subst, Bool, true, false, not, ◌&&◌, ==_iff, String,
  some, List, [], ◌∷◌, ◌++◌, In, In-filter, In-append_right, any-In, contains, update_where,
  updated_row, pointwise_from, Bool-cases, inl, inr, arith, filter,
}
use mathlib.Core.Bool.{false≢true}
use vibeshkoder.Base.Exec.{ok, bind_ok, guard_ok}
use vibeshkoder.Butler.Model.{Action, Confirmation, is_pending_conf}
use vibeshkoder.Forget.Model.{Layer, ForgetEvent, TargetType, CascadeError, Tables, Sweep, Outside}
use vibeshkoder.Forget.Targets.{
  affected_action_ids, resolve_affected_mvids, cites_any, action_ids, requested_by, requested,
}
use vibeshkoder.Forget.Layers.Butler.{
  is_in_progress, of_actions, expire_row, redact_row, expire_source, redact_action,
  update_confirmations, update_actions, lock_parents, rewrite_rows, sweep_confirmations,
  sweep_actions, unless_none, holds_evidence, redact_text, cascade_butler_action_confirmations,
  cascade_butler_actions,
}
use vibeshkoder.Forget.Cascade.{layer_func}
use vibeshkoder.Forget.Erasure.Every.{layer-Sweeps}
use vibeshkoder.Forget.Erasure.Swept.{IsSwept}
use vibeshkoder.Forget.Erasure.Semantic.{In-map, contains-In}

-- What is not among the first goes into the second.
In-union :
    (n : ℕ) (k l : List ℕ) → In n l → contains n (k ++ filter (λ m. not (contains m k)) l) ≡ true
In-union n k l i = elim (Bool-cases (contains n k)) [
  | inl t ↦ contains-append n k (filter (λ m. not (contains m k)) l) t
  | inr t ↦ contains-In n (k ++ filter (λ m. not (contains m k)) l) (
      In-append_right k (filter (λ m. not (contains m k)) l)
        (In-filter (λ m. not (contains m k)) l i (rw t refl)))
]
  where
    contains-append : (n : ℕ) (k l : List ℕ) → contains n k ≡ true → contains n (k ++ l) ≡ true
    contains-append n [] l t = ground arith
    contains-append n (m ∷ k) l t = ground (arith, contains-append n k l)

unless_none_runs :
    (n : ℕ) (l : List ℕ) (f : List ℕ → Sweep ℕ) → contains n l ≡ true → unless_none l f ≡ f l
unless_none_runs n [] f t = ground arith
unless_none_runs n (m ∷ l) f t = refl

negated : (b : Bool) → not b ≡ true → b ≡ false
negated false h = refl
negated true h = ground arith

second : (a b : Bool) → a ≡ true → (a && b) ≡ false → b ≡ false
second true b h k = k
second false b h k = ground arith

module _ (n : ℕ) where
  -- no action that the user asked for is waiting, confirmed or executing
  abbrev pub ActionsStopped : Tables → Type 0
  ActionsStopped t =
      (a : Action) → In a t.butler.actions → a.requester_tg_id ≡ n → is_in_progress a.status ≡ false

  -- nobody is asked about an action of the user
  abbrev pub NobodyAsked : Tables → Type 0
  NobodyAsked t =
      (c : Confirmation) (a : Action)
      → In c t.butler.confirmations
      → In a t.butler.actions
      → a.requester_tg_id ≡ n
      → a.id ≡ c.action_id
      → is_pending_conf c.status ≡ false

  -- no transaction holds the lock of an action of the user
  abbrev pub NoneLocked : Tables → Type 0
  NoneLocked t =
      (a : Action) → In a t.butler.actions → a.requester_tg_id ≡ n → ¬ In a.id t.butler.locked

  pub locks_kept : (t u : Tables) → IsSwept t u → NoneLocked t → NoneLocked u
  locks_kept t u s h a i o j =
      let (x, i', k) = pointwise_from _ s.actions i in
      h x i' (sym k.requester ∙ o)
        (subst (λ z. In z t.butler.locked) k.id (subst (λ z. In a.id z) s.locked j))

  pub actions_kept : (t u : Tables) → IsSwept t u → ActionsStopped t → ActionsStopped u
  actions_kept t u s h a i o =
      let (x, j, k) = pointwise_from _ s.actions i in k.stopped (h x j (sym k.requester ∙ o))

  pub asked_kept : (t u : Tables) → IsSwept t u → NobodyAsked t → NobodyAsked u
  asked_kept t u s h c a i j o r =
      let (x, i', k) = pointwise_from _ s.confirmations i in
      let (y, j', l) = pointwise_from _ s.actions j in
      k.answered (h x y i' j' (sym l.requester ∙ o) (sym l.id ∙ r ∙ k.action_id))

  module _ (out : Outside) (e : ForgetEvent) (b : String)
      (is_user : e.target_type ≡ TargetType.user) (target : e.target_id ≡ some b)
      (number : out.int b ≡ some n) where
    -- The actions of the user are among those that the layers are about.
    own_action :
        (t : Tables) (a : Action)
        → In a t.butler.actions
        → a.requester_tg_id ≡ n
        → contains a.id (affected_action_ids out e t) ≡ true
    unfolding affected_action_ids
    own_action t a i o =
        let cited = action_ids (cites_any (resolve_affected_mvids out e t)) t in
        let j : In a.id (action_ids (requested_by (some n)) t) =
          In-map (λ x. x.id) (filter (requested_by (some n)) t.butler.actions)
            (In-filter (requested_by (some n)) t.butler.actions i
              ((==_iff a.requester_tg_id n).1 o)) in
        let k : In a.id (requested out e t) = rw (target, is_user, number) j in
        In-union a.id cited (requested out e t) k

    swept_actions :
        (ids : List ℕ) (t u : Tables) (rows : ℕ)
        → sweep_actions e.id ids t ≡ (ok rows, u)
        → (a : Action) → In a u.butler.actions
        → contains a.id ids ≡ true
        → is_in_progress a.status ≡ false
    unfolding sweep_actions update_actions
    swept_actions ids t u rows q a i c =
        let p = λ (x : Action). contains x.id ids && is_in_progress x.status in
        let p' = λ (x : Action).
          contains x.id ids && (not (is_in_progress x.status) && holds_evidence x.evidence_ids) in
        let first = update_where p (expire_source e.id) t.butler.actions in
        let l : update_where p' (redact_action e.id) first ≡ u.butler.actions =
          ap (λ z. z.1.butler.actions) q in
        let (x, j, h) = updated_row p' (redact_action e.id) first (subst (λ z. In a z) (sym l) i) in
        let s : (a.status ≡ x.status) × (a.id ≡ x.id) = elim h [
          | inl (v, w) ↦ (ap (λ z. z.status) w, ap (λ z. z.id) w)
          | inr (v, w) ↦ (ap (λ z. z.status) w, ap (λ z. z.id) w)
        ] in
        let (y, k, g) = updated_row p (expire_source e.id) t.butler.actions j in
        ap is_in_progress s.0 ∙ elim g [
          | inl (v, w) ↦ ap (λ z. is_in_progress z.status) w
          | inr (v, w) ↦
              ap (λ z. is_in_progress z.status) w
              ∙ second (contains y.id ids) (is_in_progress y.status)
                  (subst (λ z. contains z ids ≡ true) (s.1 ∙ ap (λ z. z.id) w) c) v
        ]

    -- A row of the tables after the layer was a row of the user's before, which the layer is about.
    own_row :
        (t u : Tables)
        → IsSwept t u
        → (a : Action) → In a u.butler.actions
        → a.requester_tg_id ≡ n
        → contains a.id (affected_action_ids out e t) ≡ true
    own_row t u s a i o =
        let (x, j, k) = pointwise_from _ s.actions i in
        subst (λ z. contains z (affected_action_ids out e t) ≡ true) (sym k.id)
          (own_action t x j (sym k.requester ∙ o))

    pub actions_stopped :
        (t u : Tables) (rows : ℕ) → cascade_butler_actions out e t ≡ (ok rows, u) → ActionsStopped u
    unfolding cascade_butler_actions layer_func
    actions_stopped t u rows q a i o =
        let ids = affected_action_ids out e t in
        let s : IsSwept t u =
          subst (λ z. IsSwept t z.1) q (layer-Sweeps out Layer.butler_actions e t) in
        let c = own_row t u s a i o in
        let r : sweep_actions e.id ids t ≡ (ok rows, u) =
          sym (ap (λ z. z t) (unless_none_runs a.id ids (sweep_actions e.id) c)) ∙ q in
        swept_actions ids t u rows r a i c

    swept_confirmations :
        (ids : List ℕ) (t u : Tables) (rows : ℕ)
        → sweep_confirmations e.id ids t ≡ (ok rows, u)
        → (c : Confirmation) → In c u.butler.confirmations
        → contains c.action_id ids ≡ true
        → is_pending_conf c.status ≡ false
    unfolding sweep_confirmations update_confirmations lock_parents
    swept_confirmations ids t u rows q c i h =
        let p = λ (x : Confirmation). of_actions ids x && is_pending_conf x.status in
        let p' = λ (x : Confirmation).
          of_actions ids x
          && (not (is_pending_conf x.status)
              && not (str_eq x.preview_payload_hash (redact_text e.id))) in
        let first = update_where p (expire_row e.id) t.butler.confirmations in
        let (y, s, g, k) = bind_ok (λ y. rewrite_rows e.id ids) (lock_parents ids) t u rows q in
        let w : s ≡ t =
          (guard_ok CascadeError Tables (not (any (λ i. contains i ids) t.butler.locked))
            CascadeError.lock_not_available t s y g).1 in
        let l : update_where p' (redact_row e.id) first ≡ u.butler.confirmations =
          ap (λ z. z.1.butler.confirmations)
            (subst (λ z. rewrite_rows e.id ids z ≡ (ok rows, u)) w k) in
        let (x, j, d) = updated_row p' (redact_row e.id) first (subst (λ z. In c z) (sym l) i) in
        let m : (c.status ≡ x.status) × (c.action_id ≡ x.action_id) = elim d [
          | inl (v, z) ↦ (ap (λ z. z.status) z, ap (λ z. z.action_id) z)
          | inr (v, z) ↦ (ap (λ z. z.status) z, ap (λ z. z.action_id) z)
        ] in
        let (x', j', d') = updated_row p (expire_row e.id) t.butler.confirmations j in
        ap is_pending_conf m.0 ∙ elim d' [
          | inl (v, z) ↦ ap (λ z. is_pending_conf z.status) z
          | inr (v, z) ↦
              ap (λ z. is_pending_conf z.status) z
              ∙ second (contains x'.action_id ids) (is_pending_conf x'.status)
                  (subst (λ z. contains z ids ≡ true) (m.1 ∙ ap (λ z. z.action_id) z) h) v
        ]

    pub nobody_asked :
        (t u : Tables) (rows : ℕ)
        → cascade_butler_action_confirmations out e t ≡ (ok rows, u)
        → NobodyAsked u
    unfolding cascade_butler_action_confirmations layer_func
    nobody_asked t u rows q c a i j o r =
        let ids = affected_action_ids out e t in
        let s : IsSwept t u =
          subst (λ z. IsSwept t z.1) q (layer-Sweeps out Layer.butler_action_confirmations e t) in
        let h = own_row t u s a j o in
        let k : sweep_confirmations e.id ids t ≡ (ok rows, u) =
          sym (ap (λ z. z t) (unless_none_runs a.id ids (sweep_confirmations e.id) h)) ∙ q in
        swept_confirmations ids t u rows k c i (subst (λ z. contains z ids ≡ true) r h)

    -- A sweep of the confirmations that returned found no row of its actions locked.
    swept_unlocked :
        (ids : List ℕ) (t u : Tables) (rows : ℕ)
        → sweep_confirmations e.id ids t ≡ (ok rows, u)
        → any (λ i. contains i ids) t.butler.locked ≡ false
    unfolding sweep_confirmations lock_parents
    swept_unlocked ids t u rows q =
        let (y, s, g, k) = bind_ok (λ y. rewrite_rows e.id ids) (lock_parents ids) t u rows q in
        let w =
          (guard_ok CascadeError Tables (not (any (λ i. contains i ids) t.butler.locked))
            CascadeError.lock_not_available t s y g).0 in
        negated (any (λ i. contains i ids) t.butler.locked) w

    pub none_locked :
        (t u : Tables) (rows : ℕ)
        → cascade_butler_action_confirmations out e t ≡ (ok rows, u)
        → NoneLocked u
    unfolding cascade_butler_action_confirmations layer_func
    none_locked t u rows q a i o j =
        let ids = affected_action_ids out e t in
        let s : IsSwept t u =
          subst (λ z. IsSwept t z.1) q (layer-Sweeps out Layer.butler_action_confirmations e t) in
        let h = own_row t u s a i o in
        let k : sweep_confirmations e.id ids t ≡ (ok rows, u) =
          sym (ap (λ z. z t) (unless_none_runs a.id ids (sweep_confirmations e.id) h)) ∙ q in
        false≢true (
          sym (swept_unlocked ids t u rows k)
          ∙ any-In (λ i. contains i ids) t.butler.locked (subst (λ z. In a.id z) s.locked j) h)
