-- ===== src/Base/Keyed.antt =====
-- A table whose rows have a numeric key: one row of it, and the statements that hit rows of one key.
use Prim.Native.Nat.{ℕ}
use mathlib.Core.Path.{◌≡◌, refl, sym, ap, ◌∙◌}
use mathlib.Core.Logic.{◌≢◌, inl, inr}
use mathlib.Core.Bool.{Bool, true, ◌&&◌}
use mathlib.Core.Option.{some}
use mathlib.Core.List.{List, [], ◌∷◌}
use native.Mathlib.Omega.{arith}
use vibeshkoder.Base.Tests.{Bool-cases, ◌==◌, ==_iff, ==_refl, ==_neq}
use vibeshkoder.Base.Lists.{In, here, there, find}
use vibeshkoder.Base.Table.{update_where, touched}

module _ {A : Type 0} (key : A → ℕ) where
  abbrev pub keyed : ℕ → A → Bool
  keyed i x = key x == i

  -- key = i AND q
  abbrev pub hits : ℕ → (A → Bool) → A → Bool
  hits i q x = keyed i x && q x

  pub keyed-find : (i : ℕ) {e : A} (l : List A) → find (keyed i) l ≡ some e → key e ≡ i
  keyed-find i [] h = ground arith
  keyed-find i {e} (x ∷ l) h = elim (Bool-cases (keyed i x)) [
    | inl t ↦
        let q : some x ≡ some e = rw t at h in
        let r : x ≡ e = cc in rw (← r) ((==_iff (key x) i).0 t)
    | inr t ↦ keyed-find i l (rw t at h)
  ]

  -- A row that passes the test is the one that the statement hits first.
  pub find-hits :
      (i : ℕ) (q : A → Bool) {e : A} (l : List A)
      → find (keyed i) l ≡ some e
      → q e ≡ true
      → find (hits i q) l ≡ some e
  find-hits i q [] h a = ground arith
  find-hits i q {e} (x ∷ l) h a = elim (Bool-cases (keyed i x)) [
    | inl t ↦
        let s : some x ≡ some e = rw t at h in
        let r : x ≡ e = cc in let b : q x ≡ true = rw r a in rw (t, b) s
    | inr t ↦ rw t (find-hits i q l (rw t at h) a)
  ]

  -- The statement as a change of the row.
  pub find-updated :
      (i : ℕ) (q : A → Bool) (f : A → A) {e : A} (l : List A)
      → ((x : A) → key (f x) ≡ key x)
      → find (keyed i) l ≡ some e
      → q e ≡ true
      → find (keyed i) (update_where (hits i q) f l) ≡ some (f e)
  find-updated i q f [] keep h a = ground arith
  find-updated i q f {e} (x ∷ l) keep h a = elim (Bool-cases (keyed i x)) [
    | inl t ↦
        let s : some x ≡ some e = rw t at h in
        let r : x ≡ e = cc in
        let b : q x ≡ true = rw r a in
        let c : keyed i (f x) ≡ true = rw (keep x) t in rw (t, b, c) (ap (λ z. some (f z)) r)
    | inr t ↦ rw (t, t) (find-updated i q f l keep (rw t at h) a)
  ]

  touched-other :
      (i j : ℕ) (q : A → Bool) (f : A → A) (x : A)
      → j ≢ i
      → keyed j x ≡ true
      → touched (hits i q) f x ≡ x
  touched-other i j q f x n t = ground arith

  touched-key :
      (p : A → Bool) (f : A → A) (x : A)
      → ((y : A) → key (f y) ≡ key y)
      → key (touched p f x) ≡ key x
  touched-key p f x keep = ground (arith, keep x)

  -- The rows of other keys stay.
  pub find-others :
      (i j : ℕ) (q : A → Bool) (f : A → A) (l : List A)
      → ((x : A) → key (f x) ≡ key x)
      → j ≢ i
      → find (keyed j) (update_where (hits i q) f l) ≡ find (keyed j) l
  find-others i j q f [] keep n = refl
  find-others i j q f (x ∷ l) keep n = elim (Bool-cases (keyed j x)) [
    | inl t ↦ rw (touched-other i j q f x n t, t)
    | inr t ↦ rw (touched-key (hits i q) f x keep, t) (find-others i j q f l keep n)
  ]

  -- Where no two rows have one key, a row is the one found by its key.
  pub data AreUnique : List A → Type 0 where
    none_yet : AreUnique []
    one_more :
        {x : A} {l : List A} → ((y : A) → In y l → key y ≢ key x) → AreUnique l → AreUnique (x ∷ l)

  pub find_unique : {e : A} (l : List A) → AreUnique l → In e l → find (keyed (key e)) l ≡ some e
  find_unique [] u i = elim i [ ]
  find_unique {e} (x ∷ l) u here = rw (==_refl (key e))
  find_unique {e} (x ∷ l) (one_more n u) (there i) =
      rw (==_neq (key x) (key e) (n e i)) (find_unique l u i)

  -- Two rows of one key are one row.
  pub same_row : (l : List A) → AreUnique l → (d e : A) → In d l → In e l → key d ≡ key e → d ≡ e
  same_row l u d e i j q =
      let a : find (keyed (key e)) l ≡ some d = rw (← q) (find_unique l u i) in
      let b : find (keyed (key e)) l ≡ some e = find_unique l u j in
      let c : some d ≡ some e = sym a ∙ b in cc
