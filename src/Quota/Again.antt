-- ===== src/Quota/Again.antt =====
-- `SemanticQuotaRepo.finalize` called again with the same arguments, as a retry does.
use vibeshkoder.Base.{
  ℕ, ◌≡◌, refl, sym, ap, ◌∙◌, Bool, true, false, not, ◌&&◌, ◌==◌, Option, none, some, List, [], ◌∷◌,
  arith, any, find, count_where, update_where, In, here, there, Bool-cases, inl, inr, subst, ==_iff,
  updated_row, AreUnique, find-updated, find_unique,
}
use vibeshkoder.Base.Exec.{ok, gets, ◌>>=◌, bind_ok, err_not_ok, ok_injective, guard_ok}
use vibeshkoder.Quota.Model.{Outcome, Attempt, Store, QuotaError, is_reserved, meets_checks}
use vibeshkoder.Quota.Attempts.{update_attempts, is_live, has_id}
use vibeshkoder.Quota.Finalize.{
  Final, final_status, finalized, finalize, close, link_trace, settle_again, is_supported,
  is_same_final, same_status, same_outcome,
}

abbrev pub id_of : Attempt → ℕ
id_of a = a.id

module _ {A : Type 0} (p : A → Bool) where
  update-none : (f : A → A) (l : List A) → ((x : A) → In x l → p x ≡ false) → update_where p f l ≡ l
  update-none f [] h = refl
  update-none f (x ∷ l) h = rw (h x here) (ap (λ m. x ∷ m) (update-none f l (λ y i. h y (there i))))

  count-none : (l : List A) → ((x : A) → In x l → p x ≡ false) → count_where p l ≡ 0
  count-none [] h = refl
  count-none (x ∷ l) h = rw (h x here) (count-none l (λ y i. h y (there i)))

  any-and_none :
      (q : A → Bool) (l : List A)
      → ((x : A) → In x l → p x ≡ false)
      → any (λ a. p a && q a) l ≡ false
  any-and_none q [] h = refl
  any-and_none q (x ∷ l) h = rw (h x here) (any-and_none q l (λ y i. h y (there i)))

  count_some : (l : List A) → count_where p l ≡ 1 → (x : A) × In x l × (p x ≡ true)
  count_some [] h = ground arith
  count_some (x ∷ l) h = elim (Bool-cases (p x)) [
    | inl t ↦ (x, here, t)
    | inr t ↦ let (y, i, e) = count_some l (rw t at h) in (y, there i, e)
  ]

both : (b c : Bool) → b && c ≡ true → (b ≡ true) × (c ≡ true)
both b c h = (ground arith, ground arith)

not_reserved : (o : Outcome) → is_reserved (final_status o) ≡ false
not_reserved Outcome.answered = refl
not_reserved Outcome.abstained = refl
not_reserved Outcome.technical_failure = refl
not_reserved Outcome.quota_denied = refl

same_as_final :
    (o : Outcome) → same_status (final_status o) (final_status o) && same_outcome (some o) o ≡ true
same_as_final Outcome.answered = refl
same_as_final Outcome.abstained = refl
same_as_final Outcome.technical_failure = refl
same_as_final Outcome.quota_denied = refl

and_false : (b c : Bool) → c ≡ false → b && c ≡ false
and_false b c h = ground arith

-- No reservation of the attempt is left.
none_live :
    (id now : ℕ) (v : Final) (l : List Attempt) (y : Attempt)
    → In y (update_where (is_live id) (finalized now v) l)
    → is_live id y ≡ false
none_live id now v l y i =
    let (x, j, c) = updated_row (is_live id) (finalized now v) l i in
    elim c [
      | inl (t, e) ↦
          rw e (
            and_false (has_id id x) (is_reserved (final_status v.outcome)) (not_reserved v.outcome))
      | inr (t, e) ↦ rw e t
    ]

-- an UPDATE that hits nothing
update_attempts-none :
    (p : Attempt → Bool) (f : Attempt → Attempt) (w : Store)
    → ((x : Attempt) → In x w.attempts → p x ≡ false)
    → update_attempts p f w ≡ (ok 0, w)
unfolding update_attempts
update_attempts-none p f w h =
    let e = any-and_none p (λ a. not (meets_checks (f a))) w.attempts h in
    let c = count-none p w.attempts h in let u = update-none p f w.attempts h in rw (e, c, u) refl

-- The second call, when the first has left no reservation and a row that says the same.
second_call :
    (id : ℕ) (v : Final) (w : Store) (a : Attempt)
    → is_supported v.outcome ≡ true
    → ((x : Attempt) → In x w.attempts → is_live id x ≡ false)
    → find (has_id id) w.attempts ≡ some a
    → is_same_final v a ≡ true
    → finalize id v w ≡ (ok tt, w)
unfolding finalize close settle_again
second_call id v w a s h f t =
    rw (s, update_attempts-none (is_live id) (finalized w.now v) w h, f, t) refl

update_returned :
    (p : Attempt → Bool) (f : Attempt → Attempt) (w u : Store) (n : ℕ)
    → update_attempts p f w ≡ (ok n, u)
    → (n ≡ count_where p w.attempts) × (u.attempts ≡ update_where p f w.attempts)
unfolding update_attempts
update_returned p f w u n e =
    elim (Bool-cases (any (λ a. p a && not (meets_checks (f a))) w.attempts)) [
      | inl t ↦ absurd (err_not_ok QuotaError (ap (λ z. z.0) (rw t at e)))
      | inr t ↦
          let q : (
            ok (count_where p w.attempts),
            record w { attempts = update_where p f w.attempts },
          )
              ≡ (ok n, u) =
            rw t at e in
          (sym (ok_injective QuotaError (ap (λ z. z.0) q)), sym (ap (λ z. z.1.attempts) q))
    ]

linked_keeps :
    (id : ℕ) (t : Option ℕ) (u w : Store) (x : Unit {0})
    → link_trace id t u ≡ (ok x, w)
    → w.attempts ≡ u.attempts
unfolding link_trace
linked_keeps id none u w x e = sym (ap (λ z. z.1.attempts) e)
linked_keeps id (some n) u w x e = sym (ap (λ z. z.1.attempts) e)

same_again :
    (v : Final) (o : Option Attempt) (u w : Store) (x : Unit {0})
    → settle_again v o u ≡ (ok x, w)
    → (w.attempts ≡ u.attempts) × (a : Attempt) × (o ≡ some a) × (is_same_final v a ≡ true)
unfolding settle_again
same_again v none u w x e = absurd (err_not_ok QuotaError (ap (λ z. z.0) e))
same_again v (some a) u w x e =
    let (t, q) = guard_ok QuotaError Store (is_same_final v a) QuotaError.lookup_error u w x e in
    (ap (λ z. z.attempts) q, a, refl, t)

-- What `close` leaves: the row of the attempt says the same as the call.
settled :
    (id : ℕ) (v : Final) (l : List Attempt) (n : ℕ) (u w : Store) (x : Unit {0})
    → AreUnique id_of l
    → n ≡ count_where (is_live id) l
    → (now : ℕ) → u.attempts ≡ update_where (is_live id) (finalized now v) l
    → close id v n (find (has_id id) u.attempts) u ≡ (ok x, w)
    → (w.attempts ≡ u.attempts)
      × (a : Attempt) × (find (has_id id) u.attempts ≡ some a)
      × (is_same_final v a ≡ true)
unfolding close
settled id v l n u w x q c now r e = elim (Bool-cases (n == 1)) [
  | inr t ↦ same_again v (find (has_id id) u.attempts) u w x (rw t at e)
  | inl t ↦
      let k = linked_keeps id v.qa_trace_id u w x (rw t at e) in
      let m : n ≡ 1 = (==_iff n 1).0 t in
      let (a, i, h) = count_some (is_live id) l (sym c ∙ m) in
      let (y, z) = both (has_id id a) (is_reserved a.status) h in
      let s : a.id ≡ id = (==_iff a.id id).0 y in
      let f : find (has_id id) l ≡ some a = rw (← s) (find_unique id_of l q i) in
      let g =
        find-updated id_of id (λ b. is_reserved b.status) (finalized now v) l (λ b. refl) f z in
      (k, finalized now v a, ap (λ l. find (has_id id) l) r ∙ g, same_as_final v.outcome)
]

-- Where no two attempts have one id, a call of finalize that returned may be made again: the second call,
-- with the same arguments, returns and changes nothing.
pub finalize_again :
    (id : ℕ) (v : Final) (w w' : Store)
    → AreUnique id_of w.attempts
    → finalize id v w ≡ (ok tt, w')
    → finalize id v w' ≡ (ok tt, w')
unfolding finalize
finalize_again id v w w' q e = elim (Bool-cases (is_supported v.outcome)) [
  | inr t ↦ absurd (err_not_ok QuotaError (ap (λ z. z.0) (rw t at e)))
  | inl t ↦
      let (n, u, k, m) =
        bind_ok (λ rows. gets (λ u. find (has_id id) u.attempts) >>= close id v rows)
          (update_attempts (is_live id) (finalized w.now v)) w w' tt (rw t at e) in
      let (c, r) = update_returned (is_live id) (finalized w.now v) w u n k in
      let (s, a, f, y) = settled id v w.attempts n u w' tt q c w.now r m in
      second_call id v w' a t
        (λ x i. none_live id w.now v w.attempts x (subst (λ l. In x l) (s ∙ r) i))
        (ap (λ l. find (has_id id) l) s ∙ f) y
]
