-- ===== src/Quota/Replay.antt =====
-- A retry: `SemanticQuotaRepo.reserve` with a key that an attempt already has.
use vibeshkoder.Base.{
  suc, arith, String, ℕ, ◌+◌, ◌-◌, ◌≡◌, refl, ap, ◌∙◌, Bool, true, false, not, ◌&&◌, ◌==◌, some,
  List, [], ◌∷◌, any, find, length, count_where, update_where, In, here, there, Bool-cases, inl,
  inr, is_some, updated_row,
}
use mathlib.Core.Bool.{false≢true}
use vibeshkoder.Base.Exec.{ok}
use vibeshkoder.Quota.Model.{
  AttemptStatus, Attempt, Store, is_reserved, meets_checks, state_check, local_day_of,
}
use vibeshkoder.Quota.Writes.{stale}
use vibeshkoder.Quota.Attempts.{
  Request, Decision, update_attempts, is_stale, consume, release, decide, replay_of, is_valid_key,
  reserve, release_stale_reserved, has_key, stale_after, daily_limit,
}

-- Every row meets ck_semantic_attempts_state.
abbrev pub AreValid : List Attempt → Type 0
AreValid l = (a : Attempt) → In a l → meets_checks a ≡ true

module _ {A : Type 0} where
  length-update : (p : A → Bool) (f : A → A) (l : List A) → length (update_where p f l) ≡ length l
  length-update p f [] = refl
  length-update p f (x ∷ l) = ap suc (length-update p f l)

  any-update :
      (h p : A → Bool) (f : A → A)
      → ((x : A) → h (f x) ≡ h x)
      → (l : List A) → any h (update_where p f l) ≡ any h l
  any-update h p f k [] = refl
  any-update h p f k (x ∷ l) = elim (Bool-cases (p x)) [
    | inl t ↦ rw (t, k x, any-update h p f k l) refl
    | inr t ↦ rw (t, any-update h p f k l) refl
  ]

  any-none : (p : A → Bool) (l : List A) → ((x : A) → In x l → p x ≡ false) → any p l ≡ false
  any-none p [] h = refl
  any-none p (x ∷ l) h = rw (h x here) (any-none p l (λ y i. h y (there i)))

  find-any : (p : A → Bool) (l : List A) → any p l ≡ true → (x : A) × (find p l ≡ some x)
  find-any p [] h = absurd (false≢true h)
  find-any p (x ∷ l) h = elim (Bool-cases (p x)) [
    | inl t ↦ (x, rw t refl)
    | inr t ↦ let (y, e) = find-any p l (rw t at h) in (y, rw t e)
  ]

safe_write : (b c : Bool) → (b ≡ true → c ≡ true) → b && not c ≡ false
safe_write true c h = rw (h refl) refl
safe_write false c h = refl

-- what a write that keeps the CHECKs does
pub update_attempts-writes :
    (p : Attempt → Bool) (f : Attempt → Attempt) (w : Store)
    → AreValid w.attempts
    → ((a : Attempt) → meets_checks a ≡ true → p a ≡ true → meets_checks (f a) ≡ true)
    → (update_attempts p f w
        ≡ (ok (count_where p w.attempts), record w { attempts = update_where p f w.attempts }))
      × AreValid (update_where p f w.attempts)
unfolding update_attempts
update_attempts-writes p f w v k = (
  (let e =
        any-none (λ a. p a && not (meets_checks (f a))) w.attempts
          (λ a i. safe_write (p a) (meets_checks (f a)) (k a (v a i))) in
      rw e refl),
  λ y i.
      let (x, j, c) = updated_row p f w.attempts i in
      elim c [ inl (t, e) ↦ rw e (k x (v x j) t) | inr (t, e) ↦ rw e (v x j) ],
)

consumed_valid :
    (s : AttemptStatus) (a : Attempt) (now : ℕ)
    → state_check s a ≡ true
    → is_reserved s ≡ true
    → is_some a.delivery_started_at ≡ true
    → state_check AttemptStatus.consumed (consume now a) ≡ true
consumed_valid AttemptStatus.reserved a now h r d = ground arith
consumed_valid AttemptStatus.denied a now h r d = absurd (false≢true r)
consumed_valid AttemptStatus.consumed a now h r d = absurd (false≢true r)
consumed_valid AttemptStatus.released a now h r d = absurd (false≢true r)

released_valid :
    (s : AttemptStatus) (a : Attempt) (now : ℕ)
    → state_check s a ≡ true
    → is_reserved s ≡ true
    → state_check AttemptStatus.released (release now a) ≡ true
released_valid AttemptStatus.reserved a now h r = ground arith
released_valid AttemptStatus.denied a now h r = absurd (false≢true r)
released_valid AttemptStatus.consumed a now h r = absurd (false≢true r)
released_valid AttemptStatus.released a now h r = absurd (false≢true r)

second : (b c : Bool) → b && c ≡ true → c ≡ true
second b c h = ground arith

-- what the table of the attempts is after the reconciliation
record Reconciled (w : Store) (l : List Attempt) : Type 0 where
  valid : AreValid l
  same_length : length l ≡ length w.attempts
  same_keys : (k : String) → any (has_key k) l ≡ any (has_key k) w.attempts

reconcile :
    (user day before now : ℕ) (w : Store)
    → AreValid w.attempts
    → (n : ℕ) × (l : List Attempt) × (release_stale_reserved user day before now w
        ≡ (ok n, record w { attempts = l }))
      × Reconciled w l
unfolding release_stale_reserved meets_checks
reconcile user day before now w v =
    let p : Attempt → Bool = λ a. is_stale user day before a && is_some a.delivery_started_at in
    let q : Attempt → Bool =
      λ a. is_stale user day before a && not (is_some a.delivery_started_at) in
    let (e, u) = update_attempts-writes p (consume now) w v (λ a h t.
      consumed_valid a.status a now h (stale user day before (is_some a.delivery_started_at) a t)
        (second (is_stale user day before a) (is_some a.delivery_started_at) t)) in
    let w1 : Store = record w { attempts = update_where p (consume now) w.attempts } in
    let (g, x) = update_attempts-writes q (release now) w1 u (λ a h t.
      released_valid a.status a now h
        (stale user day before (not (is_some a.delivery_started_at)) a t)) in
    (
      count_where p w.attempts + count_where q w1.attempts,
      update_where q (release now) w1.attempts,
      rw (e, g) refl,
      record {
        valid = x;
        same_length =
            length-update q (release now) w1.attempts ∙ length-update p (consume now) w.attempts;
        same_keys = λ k.
            any-update (has_key k) q (release now) (λ a. refl) w1.attempts
            ∙ any-update (has_key k) p (consume now) (λ a. refl) w.attempts;
      },
    )

-- Where every row meets its CHECKs and an attempt has the key already, a call of reserve with a key of 1 to
-- 128 characters and the daily limit returns, is not allowed, says that it is a replay, and adds no attempt.
pub reserve-replayed :
    (r : Request) (w : Store)
    → AreValid w.attempts
    → is_valid_key r.idempotency_key ≡ true
    → r.limit ≡ daily_limit
    → any (has_key r.idempotency_key) w.attempts ≡ true
    → (d : Decision) × ((reserve r w).0 ≡ ok d)
      × (d.allowed ≡ false)
      × (d.replayed ≡ true)
      × (length (reserve r w).1.attempts ≡ length w.attempts)
unfolding reserve decide
reserve-replayed r w v k m h =
    let b : (r.limit == daily_limit) ≡ true = rw m refl in
    let (n, l, e, c) =
      reconcile r.user_tg_id (local_day_of w.now) (w.now - stale_after) w.now w v in
    let (a, f) = find-any (has_key r.idempotency_key) l (c.same_keys r.idempotency_key ∙ h) in
    (
      replay_of r a (record w { attempts = l }),
      rw (k, b, e, f) refl,
      refl,
      refl,
      rw (k, b, e, f) (c.same_length),
    )
