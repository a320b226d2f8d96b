-- ===== src/Base/Table.antt =====
-- A database table as the list of its rows in order of insertion: `UPDATE … WHERE …`.
use mathlib.Core.Path.{◌≡◌, refl, sym, ap, ◌∙◌, subst}
use mathlib.Core.Bool.{false≢true}
use mathlib.Core.Logic.{◌⊎◌, inl, inr}
use mathlib.Core.Bool.{Bool, true, false}
use mathlib.Core.Option.{Option, none, some}
use native.Mathlib.Omega.{arith}
use mathlib.Core.List.{List, [], ◌∷◌, ◌++◌}
use vibeshkoder.Base.Tests.{if◌then◌else◌, Bool-cases}
use vibeshkoder.Base.Lists.{In, here, there, In-cons, find, any}

abbrev pub map_option {ℓ} : {A : Type ℓ} → (A → A) → Option A → Option A
map_option f none = none
map_option f (some x) = some (f x)

module _ {ℓ} {A : Type ℓ} where
  -- the row after the statement
  abbrev pub touched : (A → Bool) → (A → A) → A → A
  touched p f x = if p x then f x else x

  abbrev pub update_where : (A → Bool) → (A → A) → List A → List A
  update_where p f [] = []
  update_where p f (x ∷ l) = touched p f x ∷ update_where p f l

  -- A row of the updated table comes from a row of the table before.
  pub In-update_where :
      (p : A → Bool) (f : A → A) {y : A} (l : List A)
      → In y (update_where p f l)
      → (x : A) × In x l × (y ≡ touched p f x)
  In-update_where p f [] i = elim i [ ]
  In-update_where p f (x ∷ l) h = elim (In-cons h) [
    | inl e ↦ (x, here, e)
    | inr i ↦ (let (z, m, e) = In-update_where p f l i in (z, there m, e))
  ]

  -- Every row that the statement hits has what the written value gives.
  pub find-update_where :
      (p : A → Bool) (f : A → A) (l : List A)
      → ((x : A) → p x ≡ true → p (f x) ≡ true)
      → find p (update_where p f l) ≡ map_option f (find p l)
  find-update_where p f [] keep = refl
  find-update_where p f (x ∷ l) keep = elim (Bool-cases (p x)) [
    | inl e ↦ rw (e, keep x e)
    | inr e ↦ rw (e, e) (find-update_where p f l keep)
  ]

  pub any-find : (p : A → Bool) {x : A} (l : List A) → find p l ≡ some x → any p l ≡ true
  any-find p [] h = ground arith
  any-find p (y ∷ l) h = elim (Bool-cases (p y)) [
    | inl e ↦ rw e
    | inr e ↦ rw e (any-find p l (rw e at h))
  ]

  -- Where nothing is found, no row passes the test.
  pub find-none : (p : A → Bool) {x : A} (l : List A) → find p l ≡ none → In x l → p x ≡ false
  find-none p [] h i = elim i [ ]
  find-none p (y ∷ l) h i = elim (Bool-cases (p y)) [
    | inl e ↦ (let q : some y ≡ none = rw e at h in absurd (ground (arith, q)))
    | inr e ↦ elim (In-cons i) [ inl q ↦ rw q e | inr k ↦ find-none p l (rw e at h) k ]
  ]

  pub find-append : (p : A → Bool) (l m : List A) → find p l ≡ none → find p (l ++ m) ≡ find p m
  find-append p [] m h = refl
  find-append p (y ∷ l) m h = elim (Bool-cases (p y)) [
    | inl e ↦ (let q : some y ≡ none = rw e at h in absurd (ground (arith, q)))
    | inr e ↦ rw e (find-append p l m (rw e at h))
  ]

  -- A row of the updated table was hit, or it is as it was.
  pub updated_row :
      (p : A → Bool) (f : A → A) {y : A} (l : List A)
      → In y (update_where p f l)
      → (x : A) × In x l × ((p x ≡ true) × (y ≡ f x) ⊎ (p x ≡ false) × (y ≡ x))
  updated_row p f l i =
      let (x, j, e) = In-update_where p f l i in
      elim (Bool-cases (p x)) [
        | inl t ↦ (x, j, inl (t, e ∙ rw t refl))
        | inr t ↦ (x, j, inr (t, e ∙ rw t refl))
      ]

  -- Where the statement hits every row of a kind and settles what it hits, the kind is settled.
  pub settled_row :
      (p : A → Bool) (f : A → A) (Q : A → Type 0)
      → ((x : A) → Q (f x))
      → {y : A} (l : List A) → In y (update_where p f l)
      → p y ≡ true
      → Q y
  settled_row p f Q h {y} l i t =
      let (x, j, e) = updated_row p f l i in
      elim e [
        | inl (a, q) ↦ subst Q (sym q) (h x)
        | inr (a, q) ↦ absurd (false≢true (sym a ∙ ap p (sym q) ∙ t))
      ]
