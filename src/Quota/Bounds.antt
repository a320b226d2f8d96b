-- ===== src/Quota/Bounds.antt =====
-- At most two questions of a user and a day hold a slot.
use vibeshkoder.Base.{
  ℕ, ◌+◌, ◌≤◌, ◌≡◌, refl, Bool, true, ◌&&◌, ◌==◌, Option, some, List, [], ◌∷◌, arith, count_where,
  In, here, there, Bool-cases, inl, inr, ◌⊎◌,
}
use vibeshkoder.Quota.Model.{Attempt, Store, is_active}
use vibeshkoder.Quota.Attempts.{is_active_of, active_count, daily_limit}
use vibeshkoder.Quota.Slots.{holds, has_slot, IsSlotted}
use vibeshkoder.Quota.Writes.{HasSlots}
use vibeshkoder.Quota.Runs.{Call, run, run-IsSlotted}

last_of : (b c d : Bool) → b && (c && d) ≡ true → d ≡ true
last_of b c d h = ground arith

in_one : (o : Option ℕ) → (o ≡ some 1) ⊎ (o ≡ some 2) → has_slot 1 o ≡ true ⊎ has_slot 2 o ≡ true
in_one o (inl e) = inl (rw e refl)
in_one o (inr e) = inr (rw e refl)

module _ {A : Type 0} (p q r : A → Bool) where
  count_two :
      (l : List A)
      → ((x : A) → In x l → p x ≡ true → (q x ≡ true) ⊎ (r x ≡ true))
      → count_where p l ≤ count_where q l + count_where r l
  count_two [] h = omega arith
  count_two (x ∷ l) h =
      let c = count_two l (λ y i. h y (there i)) in
      elim (Bool-cases (p x)) [
        | inl t ↦ elim (Bool-cases (q x)) [
          | inl u ↦ elim (Bool-cases (r x)) [
            | inl v ↦ rw (t, u, v) (omega arith)
            | inr v ↦ rw (t, u, v) (omega arith)
          ]
          | inr u ↦ elim (h x here t) [ inl v ↦ ground arith | inr v ↦ rw (t, u, v) (omega arith) ]
        ]
        | inr t ↦ elim (Bool-cases (q x)) [
          | inl u ↦ elim (Bool-cases (r x)) [
            | inl v ↦ rw (t, u, v) (omega arith)
            | inr v ↦ rw (t, u, v) (omega arith)
          ]
          | inr u ↦ elim (Bool-cases (r x)) [
            | inl v ↦ rw (t, u, v) (omega arith)
            | inr v ↦ rw (t, u, v) (omega arith)
          ]
        ]
      ]

held :
    (user day s : ℕ) (a : Attempt)
    → is_active_of user day a ≡ true
    → has_slot s a.slot_number ≡ true
    → holds user day s a ≡ true
held user day s a h k = rw (h, k) refl

slots_bound :
    (l : List Attempt) → IsSlotted l → (user day : ℕ) → active_count user day l ≤ daily_limit
unfolding active_count
slots_bound l h user day =
    let c = count_two (is_active_of user day) (holds user day 1) (holds user day 2) l (λ a i t.
      let n = in_one a.slot_number (
        h.numbered a i
          (last_of (a.user_tg_id == user) (a.local_day == day) (is_active a.status) t)) in
      elim n [ inl u ↦ inl (held user day 1 a t u) | inr u ↦ inr (held user day 2 a t u) ]) in
    let x = h.single user day 1 in let y = h.single user day 2 in omega arith

-- Where every attempt that holds a slot holds the first or the second, and no two of one user and day hold
-- the same, no user has more than the daily limit of reserved or consumed attempts on any day, after any
-- sequence of calls.
pub quota_holds :
    (w : Store) (l : List Call) (user day : ℕ)
    → HasSlots w
    → active_count user day (run w l).attempts ≤ daily_limit
quota_holds w l user day h = slots_bound (run w l).attempts (run-IsSlotted w l h) user day
