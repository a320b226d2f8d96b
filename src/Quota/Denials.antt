-- ===== src/Quota/Denials.antt =====
-- When `SemanticQuotaRepo.reserve` denies a question that it has not seen before.
use vibeshkoder.Base.{
  ℕ, ◌+◌, ◌-◌, ◌≤◌, ◌≡◌, refl, ap, ◌∙◌, subst, Bool, true, false, ◌&&◌, ◌==◌, Option, none, some,
  List, [], ◌∷◌, ◌++◌, arith, find, filter, somes, contains, count_where, Bool-cases, inl, inr,
}
use mathlib.Core.Bool.{true≢false, false≢true}
use vibeshkoder.Base.Exec.{ok, gets, ◌>>=◌, bind_ok, err_not_ok, ok_injective}
use vibeshkoder.Quota.Model.{Attempt, AttemptStatus, Outcome, Store, QuotaError, local_day_of}
use vibeshkoder.Quota.Attempts.{
  Request, Decision, is_active_of, active_count, used_slots, available_slot, admit, decide, new_row,
  is_valid_key, reserve, release_stale_reserved, has_key, stale_after, daily_limit,
}
use vibeshkoder.Quota.Free.{more, somes-cons}
use vibeshkoder.Quota.Slots.{holds, has_slot, count-append}

module _ {A : Type 0} (p q r : A → Bool) where
  two_apart :
      (l : List A)
      → ((x : A) → q x ≡ true → (p x ≡ true) × (r x ≡ false))
      → ((x : A) → r x ≡ true → p x ≡ true)
      → count_where q l + count_where r l ≤ count_where p l
  two_apart [] h k = omega arith
  two_apart (x ∷ l) h k =
      let c = two_apart l h k in
      elim (Bool-cases (q x)) [
        | inl t ↦ rw (t, (h x t).0, (h x t).1) (omega (arith, c))
        | inr t ↦ elim (Bool-cases (r x)) [
          | inl u ↦ rw (t, u, k x u) (omega (arith, c))
          | inr u ↦ elim (Bool-cases (p x)) [
            | inl v ↦ rw (t, u, v) (omega (arith, c))
            | inr v ↦ rw (t, u, v) (omega (arith, c))
          ]
        ]
      ]

-- Whoever does not hold the slot does not put it into the set.
more_later :
    (s : ℕ) (o : Option ℕ) (m : List ℕ)
    → has_slot s o ≡ false
    → contains s (more o m) ≡ true
    → contains s m ≡ true
more_later s none m t h = h
more_later s (some n) m t h = rw t at h

later :
    (user day s : ℕ) (a : Attempt) (l : List Attempt)
    → holds user day s a ≡ false
    → contains s (used_slots user day (a ∷ l)) ≡ true
    → contains s (used_slots user day l) ≡ true
later user day s a l t h = elim (Bool-cases (is_active_of user day a)) [
  | inl u ↦
      let k : contains s (used_slots user day (a ∷ l)) ≡ true = h in
      let m : contains s (somes (λ z. z.slot_number) (a ∷ filter (is_active_of user day) l))
          ≡ true =
        rw u at k in
      more_later s a.slot_number (used_slots user day l) (rw u at t)
        (rw (← somes-cons a.slot_number a (filter (is_active_of user day) l) refl) m)
  | inr u ↦ let k : contains s (used_slots user day (a ∷ l)) ≡ true = h in rw u at k
]

-- A slot that is in the set of used slots has an attempt.
used_held :
    (user day s : ℕ) (l : List Attempt)
    → contains s (used_slots user day l) ≡ true
    → 1 ≤ count_where (holds user day s) l
used_held user day s [] h = absurd (false≢true h)
used_held user day s (a ∷ l) h = elim (Bool-cases (holds user day s a)) [
  | inl t ↦ rw t (omega arith)
  | inr t ↦ rw t (used_held user day s l (later user day s a l t h))
]

holds_first :
    (user day : ℕ) (b : Bool) (o : Option ℕ)
    → b && has_slot 1 o ≡ true
    → (b ≡ true) × (b && has_slot 2 o ≡ false)
holds_first user day b none h = (ground arith, ground arith)
holds_first user day b (some n) h = (ground arith, ground arith)

left_of : (b c : Bool) → b && c ≡ true → b ≡ true
left_of b c h = ground arith

full :
    (used : List ℕ)
    → available_slot used ≡ none
    → (contains 1 used ≡ true) × (contains 2 used ≡ true)
full used h = elim (Bool-cases (contains 1 used)) [
  | inr t ↦ let q : ◌≡◌ {A = Option ℕ} (some 1) none = rw t at h in ground arith
  | inl t ↦ elim (Bool-cases (contains 2 used)) [
    | inr u ↦ let q : ◌≡◌ {A = Option ℕ} (some 2) none = rw (t, u) at h in ground arith
    | inl u ↦ (t, u)
  ]
]

-- Where no slot is free, the user has used up the day.
none_left :
    (user day : ℕ) (l : List Attempt)
    → available_slot (used_slots user day l) ≡ none
    → daily_limit ≤ active_count user day l
unfolding active_count
none_left user day l h =
    let (x, y) = full (used_slots user day l) h in
    let a = used_held user day 1 l x in
    let b = used_held user day 2 l y in
    let c =
      two_apart (is_active_of user day) (holds user day 1) (holds user day 2) l
        (λ z t. holds_first user day (is_active_of user day z) z.slot_number t)
        (λ z t. left_of (is_active_of user day z) (has_slot 2 z.slot_number) t) in
    omega arith

more_rows :
    (user day : ℕ) (l m : List Attempt)
    → daily_limit ≤ active_count user day l
    → daily_limit ≤ active_count user day (l ++ m)
unfolding active_count
more_rows user day l m h = let c = count-append (is_active_of user day) l m in omega arith

admit_denies :
    (r : Request) (o : Option ℕ) (used : List ℕ) (w w' : Store) (d : Decision)
    → used ≡ used_slots r.user_tg_id (local_day_of w.now) w.attempts
    → available_slot used ≡ o
    → admit r o used w ≡ (ok d, w')
    → d.allowed ≡ false
    → daily_limit ≤ active_count r.user_tg_id (local_day_of w'.now) w'.attempts
unfolding admit
admit_denies r (some n) used w w' d q e m t =
    absurd (true≢false (ap (λ z. z.allowed) (ok_injective QuotaError (ap (λ z. z.0) m)) ∙ t))
admit_denies r none used w w' d q e m t =
    let l = none_left r.user_tg_id (local_day_of w.now) w.attempts (rw (← q) e) in
    subst (λ z. daily_limit ≤ active_count r.user_tg_id (local_day_of z.now) z.attempts)
      (ap (λ z. z.1) m)
      (more_rows r.user_tg_id (local_day_of w.now) w.attempts
        (new_row r w.now w.next_attempt none AttemptStatus.denied (some Outcome.quota_denied) ∷ [])
        l)

decide_denies :
    (r : Request) (o : Option Attempt) (w w' : Store) (d : Decision)
    → decide r o w ≡ (ok d, w')
    → d.allowed ≡ false
    → d.replayed ≡ false
    → daily_limit ≤ active_count r.user_tg_id (local_day_of w'.now) w'.attempts
unfolding decide
decide_denies r (some a) w w' d m t u =
    absurd (true≢false (ap (λ z. z.replayed) (ok_injective QuotaError (ap (λ z. z.0) m)) ∙ u))
decide_denies r none w w' d m t u =
    admit_denies r (available_slot (used_slots r.user_tg_id (local_day_of w.now) w.attempts))
      (used_slots r.user_tg_id (local_day_of w.now) w.attempts) w w' d refl refl m t

-- A call of reserve that returns a decision that is neither an admission nor a replay leaves the user with the
-- whole daily limit of the day in reserved or consumed attempts: nobody is denied while a slot is free.
pub reserve_denies :
    (r : Request) (w w' : Store) (d : Decision)
    → reserve r w ≡ (ok d, w')
    → d.allowed ≡ false
    → d.replayed ≡ false
    → daily_limit ≤ active_count r.user_tg_id (local_day_of w'.now) w'.attempts
unfolding reserve
reserve_denies r w w' d m t u = elim (Bool-cases (is_valid_key r.idempotency_key)) [
  | inr x ↦ absurd (err_not_ok QuotaError (ap (λ z. z.0) (rw x at m)))
  | inl x ↦ elim (Bool-cases (r.limit == daily_limit)) [
    | inr y ↦ absurd (err_not_ok QuotaError (ap (λ z. z.0) (rw (x, y) at m)))
    | inl y ↦
        let (n, v, k, e) =
          bind_ok (λ freed. gets (λ z. find (has_key r.idempotency_key) z.attempts) >>= decide r)
            (release_stale_reserved r.user_tg_id (local_day_of w.now) (w.now - stale_after) w.now) w
            w' d (rw (x, y) at m) in
        decide_denies r (find (has_key r.idempotency_key) v.attempts) v w' d e t u
  ]
]
