-- ===== src/Base/Orders.antt =====
-- ORDER BY, LIMIT and WHERE on a table whose rows have a key: the rows stay rows of it, one for a key.
use Prim.Native.Nat.{ℕ, zero, suc, ◌≤◌}
use mathlib.Core.Path.{◌≡◌, sym, subst}
use mathlib.Core.Logic.{◌≢◌, inl, inr}
use mathlib.Core.Bool.{Bool, true}
use mathlib.Core.List.{List, [], ◌∷◌}
use native.Mathlib.Omega.{arith}
use vibeshkoder.Base.Tests.{Bool-cases}
use vibeshkoder.Base.Lists.{
  In, here, there, In-cons, length, filter, insert_by, sort_by, take, In-filter-In,
}
use vibeshkoder.Base.Keyed.{AreUnique, none_yet, one_more}

module _ {A : Type 0} where
  pub filter-test : (p : A → Bool) {x : A} (l : List A) → In x (filter p l) → p x ≡ true
  filter-test p [] i = elim i [ ]
  filter-test p {x} (y ∷ l) i = elim (Bool-cases (p y)) [
    | inl t ↦
        (let j : In x (y ∷ filter p l) = rw t at i in
          elim (In-cons j) [ inl q ↦ rw q t | inr k ↦ filter-test p l k ])
    | inr t ↦ filter-test p l (rw t at i)
  ]

  pub In-take-In : {x : A} (n : ℕ) (l : List A) → In x (take n l) → In x l
  In-take-In zero l i = elim i [ ]
  In-take-In (suc n) [] i = elim i [ ]
  In-take-In (suc n) (y ∷ l) here = here
  In-take-In (suc n) (y ∷ l) (there i) = there (In-take-In n l i)

  pub length-take : (n : ℕ) (l : List A) → length (take n l) ≤ n
  length-take zero l = omega arith
  length-take (suc n) [] = omega arith
  length-take (suc n) (x ∷ l) = omega (arith, length-take n l)

  module _ (before : A → A → Bool) where
    In-insert : {x : A} (y : A) (l : List A) → In x (insert_by before y l) → In x (y ∷ l)
    In-insert y [] i = i
    In-insert {x} y (z ∷ l) i = elim (Bool-cases (before z y)) [
      | inl t ↦
          (let j : In x (z ∷ insert_by before y l) = rw t at i in
            elim (In-cons j) [
              | inl q ↦ subst (λ v. In v (y ∷ z ∷ l)) (sym q) (there here)
              | inr k ↦ elim (In-cons (In-insert y l k)) [
                | inl q ↦ subst (λ v. In v (y ∷ z ∷ l)) (sym q) here
                | inr m ↦ there (there m)
              ]
            ])
      | inr t ↦ rw t at i
    ]

    pub In-sort-In : {x : A} (l : List A) → In x (sort_by before l) → In x l
    In-sort-In [] i = i
    In-sort-In {x} (y ∷ l) i = elim (In-cons (In-insert y (sort_by before l) i)) [
      | inl q ↦ subst (λ v. In v (y ∷ l)) (sym q) here
      | inr k ↦ there (In-sort-In l k)
    ]

  module _ (key : A → ℕ) where
    pub unique-filter : (p : A → Bool) (l : List A) → AreUnique key l → AreUnique key (filter p l)
    unique-filter p [] u = u
    unique-filter p (x ∷ l) (one_more n u) = elim (Bool-cases (p x)) [
      | inl t ↦ rw t (one_more (λ y i. n y (In-filter-In p l i)) (unique-filter p l u))
      | inr t ↦ rw t (unique-filter p l u)
    ]

    pub unique-take : (n : ℕ) (l : List A) → AreUnique key l → AreUnique key (take n l)
    unique-take zero l u = none_yet
    unique-take (suc n) [] u = u
    unique-take (suc n) (x ∷ l) (one_more f u) =
        one_more (λ y i. f y (In-take-In n l i)) (unique-take n l u)

    unique-insert :
        (before : A → A → Bool) (x : A) (l : List A)
        → ((y : A) → In y l → key y ≢ key x)
        → AreUnique key l
        → AreUnique key (insert_by before x l)
    unique-insert before x [] n u = one_more (λ y i. elim i [ ]) none_yet
    unique-insert before x (z ∷ l) n (one_more f u) = elim (Bool-cases (before z x)) [
      | inl t ↦ rw t (
          one_more
            (λ y i. elim (In-cons (In-insert before x l i)) [
              | inl q ↦ λ e. n z here (sym (subst (λ v. key v ≡ key z) q e))
              | inr k ↦ f y k
            ])
            (unique-insert before x l (λ y i. n y (there i)) u))
      | inr t ↦ rw t (one_more n (one_more f u))
    ]

    pub unique-sort :
        (before : A → A → Bool) (l : List A) → AreUnique key l → AreUnique key (sort_by before l)
    unique-sort before [] u = u
    unique-sort before (x ∷ l) (one_more n u) =
        unique-insert before x (sort_by before l) (λ y i. n y (In-sort-In before l i))
          (unique-sort before l u)
