-- ===== src/Quota/Free.antt =====
-- A reservation gets a slot that nobody holds: `SemanticQuotaRepo.reserve` up to its two INSERTs.
use vibeshkoder.Base.{
  ℕ, ◌≤◌, ◌≡◌, refl, ap, Bool, true, false, ◌&&◌, ◌||◌, ◌==◌, Option, none, some, List, [], ◌∷◌,
  ◌++◌, arith, filter, somes, contains, count_where, In-append, In-single, Bool-cases, inl, inr,
  ◌⊎◌,
}
use mathlib.Core.Bool.{true≢false, false≢true}
use vibeshkoder.Quota.Model.{AttemptStatus, Outcome, Attempt, Store, is_active, local_day_of}
use vibeshkoder.Quota.Attempts.{
  Request, is_active_of, used_slots, available_slot, admit, decide, new_row,
}
use vibeshkoder.Quota.Slots.{holds, has_slot, IsSlotted, count-append}

both_false : {b c : Bool} → b || c ≡ false → (b ≡ false) × (c ≡ false)
both_false {b = false} h = (refl, h)
both_false {b = true} h = absurd (true≢false h)

abbrev pub more : Option ℕ → List ℕ → List ℕ
more none r = r
more (some n) r = n ∷ r

more_free :
    (s : ℕ) (o : Option ℕ) (r : List ℕ)
    → contains s (more o r) ≡ false
    → (has_slot s o ≡ false) × (contains s r ≡ false)
more_free s none r h = (refl, h)
more_free s (some n) r h = both_false h

pub somes-cons :
    (o : Option ℕ) (a : Attempt) (l : List Attempt)
    → a.slot_number ≡ o
    → somes (λ z. z.slot_number) (a ∷ l) ≡ more o (somes (λ z. z.slot_number) l)
somes-cons none a l q = simp q
somes-cons (some n) a l q = simp q

-- Who has a free slot has no attempt in it.
free_slot :
    (user day s : ℕ) (l : List Attempt)
    → contains s (used_slots user day l) ≡ false
    → count_where (holds user day s) l ≡ 0
free_slot user day s [] h = refl
free_slot user day s (a ∷ l) h = elim (Bool-cases (is_active_of user day a)) [
  | inl t ↦
      let k : contains s (used_slots user day (a ∷ l)) ≡ false = h in
      let m : contains s (somes (λ z. z.slot_number) (a ∷ filter (is_active_of user day) l))
          ≡ false =
        rw t at k in
      let (q, r) =
        more_free s a.slot_number (used_slots user day l)
          (rw (← somes-cons a.slot_number a (filter (is_active_of user day) l) refl) m) in
      rw (t, q) (free_slot user day s l r)
  | inr t ↦
      let k : contains s (used_slots user day (a ∷ l)) ≡ false = h in
      let m : contains s (used_slots user day l) ≡ false = rw t at k in
      rw t (free_slot user day s l m)
]

same_place :
    (user day s u d n : ℕ) (c : Bool)
    → (u == user && (d == day && c)) && n == s ≡ true
    → (user ≡ u) × (day ≡ d) × (s ≡ n)
same_place user day s u d n c h = (ground arith, ground arith, ground arith)

no_slot : (b : Bool) (s : ℕ) → b && has_slot s none ≡ true → ⊥
no_slot true s h = false≢true h
no_slot false s h = false≢true h

one-single : (h : Attempt → Bool) (a : Attempt) → count_where h (a ∷ []) ≤ 1
one-single h a = elim (Bool-cases (h a)) [ inl t ↦ rw t (omega arith) | inr t ↦ rw t (omega arith) ]

none-single : (h : Attempt → Bool) (a : Attempt) → h a ≡ false → count_where h (a ∷ []) ≡ 0
none-single h a t = rw t refl

-- A new row that holds no slot, or one that is free, keeps the slots apart.
pub append-IsSlotted :
    (l : List Attempt) (a : Attempt)
    → IsSlotted l
    → (is_active a.status ≡ true → (a.slot_number ≡ some 1) ⊎ (a.slot_number ≡ some 2))
    → ((user day s : ℕ) → holds user day s a ≡ true → count_where (holds user day s) l ≡ 0)
    → IsSlotted (l ++ a ∷ [])
append-IsSlotted l a h n k = record {
  numbered = λ y i t. elim (In-append l (a ∷ []) i) [
    | inl j ↦ h.numbered y j t
    | inr j ↦ let q : y ≡ a = In-single j in rw q (n (rw (← q) t))
  ];
  single = λ user day s.
      let e = count-append (holds user day s) l (a ∷ []) in
      elim (Bool-cases (holds user day s a)) [
        | inl t ↦ let z = k user day s t in let o = one-single (holds user day s) a in omega arith
        | inr t ↦
            let z = none-single (holds user day s) a t in let o = h.single user day s in omega arith
      ];
}

free_lem :
    (used : List ℕ) (s : ℕ)
    → available_slot used ≡ some s
    → (contains s used ≡ false) × ((s ≡ 1) ⊎ (s ≡ 2))
free_lem used s h = elim (Bool-cases (contains 1 used)) [
  | inr t ↦ let q : some 1 ≡ some s = rw t at h in let e : s ≡ 1 = cc in (rw e t, inl e)
  | inl t ↦ elim (Bool-cases (contains 2 used)) [
    | inr u ↦ let q : some 2 ≡ some s = rw (t, u) at h in let e : s ≡ 2 = cc in (rw e u, inr e)
    | inl u ↦ let q : ◌≡◌ {A = Option ℕ} none (some s) = rw (t, u) at h in ground arith
  ]
]

two_slots : (s : ℕ) → (s ≡ 1) ⊎ (s ≡ 2) → (some s ≡ some 1) ⊎ (some s ≡ some 2)
two_slots s (inl e) = inl (ap some e)
two_slots s (inr e) = inr (ap some e)

-- The INSERT of `reserve` keeps the slots apart.
pub admit-IsSlotted :
    (r : Request) (w : Store) (o : Option ℕ) (used : List ℕ)
    → used ≡ used_slots r.user_tg_id (local_day_of w.now) w.attempts
    → available_slot used ≡ o
    → IsSlotted w.attempts
    → IsSlotted (admit r o used w).1.attempts
unfolding admit
admit-IsSlotted r w none used q e h =
    append-IsSlotted w.attempts
      (new_row r w.now w.next_attempt none AttemptStatus.denied (some Outcome.quota_denied)) h
      (λ t. absurd (false≢true t))
      (λ user day s t. absurd (
        no_slot
          (is_active_of user day
            (new_row r w.now w.next_attempt none AttemptStatus.denied (some Outcome.quota_denied)))
          s t))
admit-IsSlotted r w (some n) used q e h =
    let (k, c) = free_lem used n e in
    append-IsSlotted w.attempts
      (new_row r w.now w.next_attempt (some n) AttemptStatus.reserved none) h (λ _. two_slots n c)
      (λ user day s t.
        let (u, d, z) = same_place user day s r.user_tg_id (local_day_of w.now) n true t in
        rw (u, d, z) (free_slot r.user_tg_id (local_day_of w.now) n w.attempts (rw (← q) k)))

pub decide-IsSlotted :
    (r : Request) (o : Option Attempt) (w : Store)
    → IsSlotted w.attempts
    → IsSlotted (decide r o w).1.attempts
unfolding decide
decide-IsSlotted r (some a) w h = h
decide-IsSlotted r none w h =
    admit-IsSlotted r w (available_slot (used_slots r.user_tg_id (local_day_of w.now) w.attempts))
      (used_slots r.user_tg_id (local_day_of w.now) w.attempts) refl refl h
