-- ===== src/Quota/Slots.antt =====
-- The slots of the day: who holds one, and that an UPDATE of reservations hands out none.
use vibeshkoder.Base.{
  ℕ, ◌+◌, ◌≤◌, ◌≡◌, ap, sym, Bool, true, false, not, ◌&&◌, ◌==◌, Option, none, some, List, [], ◌∷◌,
  ◌++◌, arith, any, count_where, update_where, In, Bool-cases, inl, inr, ◌⊎◌, updated_row,
}
use vibeshkoder.Quota.Model.{Attempt, Store, is_active, meets_checks}
use vibeshkoder.Quota.Attempts.{is_active_of, update_attempts}

abbrev pub has_slot : ℕ → Option ℕ → Bool
has_slot s none = false
has_slot s (some n) = n == s

-- the user's attempts of the day that hold this slot
abbrev pub holds : ℕ → ℕ → ℕ → Attempt → Bool
holds user day s a = is_active_of user day a && has_slot s a.slot_number

-- Every attempt that holds a slot holds the first or the second, and no two of one user and day the same.
pub record IsSlotted (l : List Attempt) : Type 0 where
  pub numbered :
      (a : Attempt)
      → In a l
      → is_active a.status ≡ true
      → (a.slot_number ≡ some 1) ⊎ (a.slot_number ≡ some 2)
  pub single : (user day s : ℕ) → count_where (holds user day s) l ≤ 1

module _ {A : Type 0} where
  pub count-cons_le :
      (h k : A → Bool) (x y : A) (l m : List A)
      → (h x ≡ true → k y ≡ true)
      → count_where h l ≤ count_where k m
      → count_where h (x ∷ l) ≤ count_where k (y ∷ m)
  count-cons_le h k x y l m i c = elim (Bool-cases (h x)) [
    | inl t ↦ rw (t, i t) (omega (arith, c))
    | inr t ↦ elim (Bool-cases (k y)) [ inl u ↦ rw (t, u) (omega (arith, c)) | inr u ↦ rw (t, u) c ]
  ]

  pub count-update_le :
      (h p : A → Bool) (f : A → A)
      → ((x : A) → p x ≡ true → h (f x) ≡ true → h x ≡ true)
      → (l : List A) → count_where h (update_where p f l) ≤ count_where h l
  count-update_le h p f k [] = omega arith
  count-update_le h p f k (x ∷ l) = elim (Bool-cases (p x)) [
    | inl t ↦
        rw t (count-cons_le h h (f x) x (update_where p f l) l (k x t) (count-update_le h p f k l))
    | inr t ↦
        rw t (count-cons_le h h x x (update_where p f l) l (λ e. e) (count-update_le h p f k l))
  ]

  pub count-append :
      (h : A → Bool) (l m : List A) → count_where h (l ++ m) ≡ count_where h l + count_where h m
  count-append h [] m = omega arith
  count-append h (x ∷ l) m = elim (Bool-cases (h x)) [
    | inl t ↦ rw t (omega (arith, count-append h l m))
    | inr t ↦ rw t (count-append h l m)
  ]

-- the writes of the repository: only to active attempts, and never to what says who holds which slot
pub record IsMild (p : Attempt → Bool) (f : Attempt → Attempt) : Type 0 where
  pub active : (a : Attempt) → p a ≡ true → is_active a.status ≡ true
  pub same_user : (a : Attempt) → (f a).user_tg_id ≡ a.user_tg_id
  pub same_day : (a : Attempt) → (f a).local_day ≡ a.local_day
  pub same_slot : (a : Attempt) → (f a).slot_number ≡ a.slot_number

weaker : (b c d e g : Bool) → e ≡ true → (b && (c && d)) && g ≡ true → (b && (c && e)) && g ≡ true
weaker b c d e g h k = ground arith

rewritten :
    {b b' c c' g g' : Bool} (e : Bool)
    → b ≡ b'
    → c ≡ c'
    → g ≡ g'
    → (b' && (c' && e)) && g' ≡ true
    → (b && (c && e)) && g ≡ true
rewritten e p q r h = rw (p, q, r) h

mild-holds :
    (p : Attempt → Bool) (f : Attempt → Attempt)
    → IsMild p f
    → (user day s : ℕ) (a : Attempt) → p a ≡ true
    → holds user day s (f a) ≡ true
    → holds user day s a ≡ true
mild-holds p f m user day s a t h =
    let u : (a.user_tg_id == user) ≡ ((f a).user_tg_id == user) =
      sym (ap (λ n. n == user) (m.same_user a)) in
    let d : (a.local_day == day) ≡ ((f a).local_day == day) =
      sym (ap (λ n. n == day) (m.same_day a)) in
    let o : has_slot s a.slot_number ≡ has_slot s (f a).slot_number =
      sym (ap (has_slot s) (m.same_slot a)) in
    rewritten (is_active a.status) u d o (
      weaker ((f a).user_tg_id == user) ((f a).local_day == day) (is_active (f a).status)
        (is_active a.status) (has_slot s (f a).slot_number) (m.active a t) h)

update-IsSlotted :
    (p : Attempt → Bool) (f : Attempt → Attempt)
    → IsMild p f
    → (l : List Attempt) → IsSlotted l
    → IsSlotted (update_where p f l)
update-IsSlotted p f m l h = record {
  numbered = λ y i t.
      let (x, j, c) = updated_row p f l i in
      elim c [
        | inl (u, e) ↦ rw (e, m.same_slot x) (h.numbered x j (m.active x u))
        | inr (u, e) ↦ rw e (h.numbered x j (rw (← e) t))
      ];
  single = λ user day s.
      let c = count-update_le (holds user day s) p f (mild-holds p f m user day s) l in
      let d = h.single user day s in omega arith;
}

pub update_attempts-IsSlotted :
    (p : Attempt → Bool) (f : Attempt → Attempt) (w : Store)
    → IsMild p f
    → IsSlotted w.attempts
    → IsSlotted (update_attempts p f w).1.attempts
unfolding update_attempts
update_attempts-IsSlotted p f w m h =
    elim (Bool-cases (any (λ a. p a && not (meets_checks (f a))) w.attempts)) [
      | inl t ↦ rw t h
      | inr t ↦ rw t (update-IsSlotted p f m w.attempts h)
    ]
