-- ===== src/Quota/Writes.antt =====
-- The UPDATEs of `SemanticQuotaRepo` keep the slots of the day apart.
use vibeshkoder.Base.{ℕ, ◌+◌, ◌≡◌, refl, Bool, true, not, ◌&&◌, ◌==◌, arith, is_some, ltb, leb}
use vibeshkoder.Base.Exec.{bind_keeps, pure, ◌>>=◌}
use vibeshkoder.Quota.Model.{AttemptStatus, Attempt, Store, is_active, is_reserved}
use vibeshkoder.Quota.Attempts.{
  update_attempts, is_stale, is_live, is_undelivered, consume, release, need_one,
  release_stale_reserved, has_id,
}
use vibeshkoder.Quota.Slots.{IsSlotted, IsMild, update_attempts-IsSlotted}

abbrev pub HasSlots : Store → Type 0
HasSlots w = IsSlotted w.attempts

reserved_active : (s : AttemptStatus) → is_reserved s ≡ true → is_active s ≡ true
reserved_active AttemptStatus.reserved h = refl
reserved_active AttemptStatus.consumed h = refl
reserved_active AttemptStatus.denied h = h
reserved_active AttemptStatus.released h = h

live_reserved : (b r : Bool) → b && r ≡ true → r ≡ true
live_reserved b r h = ground arith

undelivered_reserved : (b r x : Bool) → (b && r) && x ≡ true → r ≡ true
undelivered_reserved b r x h = ground arith

stale_reserved : (b c r t x : Bool) → (b && (c && (r && t))) && x ≡ true → r ≡ true
stale_reserved b c r t x h = ground arith

-- The repository writes to reservations only.
pub mild :
    (p : Attempt → Bool) (f : Attempt → Attempt)
    → ((a : Attempt) → p a ≡ true → is_reserved a.status ≡ true)
    → ((a : Attempt) → (f a).user_tg_id ≡ a.user_tg_id)
    → ((a : Attempt) → (f a).local_day ≡ a.local_day)
    → ((a : Attempt) → (f a).slot_number ≡ a.slot_number)
    → IsMild p f
mild p f r u d s = record {
  active = λ a t. reserved_active a.status (r a t);
  same_user = u;
  same_day = d;
  same_slot = s;
}

pub live : (id : ℕ) (a : Attempt) → is_live id a ≡ true → is_reserved a.status ≡ true
live id a h = live_reserved (has_id id a) (is_reserved a.status) h

pub undelivered : (id : ℕ) (a : Attempt) → is_undelivered id a ≡ true → is_reserved a.status ≡ true
undelivered id a h =
    undelivered_reserved (has_id id a) (is_reserved a.status) (not (is_some a.delivery_started_at))
      h

pub stale :
    (user day before : ℕ) (x : Bool) (a : Attempt)
    → is_stale user day before a && x ≡ true
    → is_reserved a.status ≡ true
stale user day before x a h =
    stale_reserved (a.user_tg_id == user) (leb a.local_day day) (is_reserved a.status)
      (ltb a.progress_at before) x h

-- an UPDATE by which exactly one row must be hit
pub one_row :
    (p : Attempt → Bool) (f : Attempt → Attempt) (w : Store)
    → IsMild p f
    → HasSlots w
    → HasSlots ((update_attempts p f >>= need_one) w).1
one_row p f w m h =
    bind_keeps HasSlots need_one (update_attempts p f) w (update_attempts-IsSlotted p f w m h)
      (λ n w' _ k. k)

pub stale-IsSlotted :
    (user day before now : ℕ) (w : Store)
    → HasSlots w
    → HasSlots (release_stale_reserved user day before now w).1
unfolding release_stale_reserved
stale-IsSlotted user day before now w h =
    bind_keeps HasSlots
      (λ delivered.
        update_attempts (λ a. is_stale user day before a && not (is_some a.delivery_started_at))
          (release now)
        >>= λ freed. pure (delivered + freed))
      (update_attempts (λ a. is_stale user day before a && is_some a.delivery_started_at)
        (consume now))
      w
      (update_attempts-IsSlotted (λ a. is_stale user day before a && is_some a.delivery_started_at)
        (consume now) w
        (mild (λ a. is_stale user day before a && is_some a.delivery_started_at) (consume now)
          (λ a. stale user day before (is_some a.delivery_started_at) a) (λ a. refl) (λ a. refl)
          (λ a. refl))
        h)
      (λ n w' _ k.
        bind_keeps HasSlots (λ freed. pure (n + freed))
          (update_attempts (λ a. is_stale user day before a && not (is_some a.delivery_started_at))
            (release now))
          w'
          (update_attempts-IsSlotted
            (λ a. is_stale user day before a && not (is_some a.delivery_started_at)) (release now)
            w'
            (mild (λ a. is_stale user day before a && not (is_some a.delivery_started_at))
              (release now) (λ a. stale user day before (not (is_some a.delivery_started_at)) a)
              (λ a. refl) (λ a. refl) (λ a. refl))
            k)
          (λ m w'' _ j. j))
