-- ===== src/Base/Lists.antt =====
-- Lists: Boolean quantifiers, first match, membership as data, and their lemmas.
use Prim.Native.Nat.{ℕ, zero, suc, ◌+◌}
use Prim.Native.String.{String}
use text.Mathlib.Text.{◌==◌ as str_eq}
use mathlib.Core.Path.{◌≡◌, refl, sym, subst}
use mathlib.Core.Logic.{◌⊎◌, inl, inr}
use mathlib.Core.Bool.{Bool, true, false, ◌&&◌, ◌||◌, not}
use mathlib.Core.Option.{Option, none, some}
use mathlib.Core.List.{List, [], ◌∷◌, ◌++◌}
use native.Mathlib.Omega.{arith}
use vibeshkoder.Base.Tests.{if◌then◌else◌, Bool-cases, ltb, ◌==◌}

-- `In x l`: x stands somewhere in l.
pub data In {ℓ} {A : Type ℓ} (x : A) : List A → Type ℓ where
  here : {l : List A} → In x (x ∷ l)
  there : {y : A} {l : List A} → In x l → In x (y ∷ l)

module _ {ℓ} {A : Type ℓ} where
  abbrev pub length : List A → ℕ
  length [] = 0
  length (x ∷ xs) = suc (length xs)

  -- all(p(x) for x in l)
  abbrev pub all : (A → Bool) → List A → Bool
  all p [] = true
  all p (x ∷ l) = p x && all p l

  -- any(p(x) for x in l)
  abbrev pub any : (A → Bool) → List A → Bool
  any p [] = false
  any p (x ∷ l) = p x || any p l

  -- next((x for x in l if p(x)), None)
  abbrev pub find : (A → Bool) → List A → Option A
  find p [] = none
  find p (x ∷ l) = if p x then some x else find p l

  -- [x for x in l if p(x)]
  abbrev pub filter : (A → Bool) → List A → List A
  filter p [] = []
  filter p (x ∷ l) = if p x then x ∷ filter p l else filter p l

  pub length-append : (xs ys : List A) → length (xs ++ ys) ≡ length xs + length ys
  length-append [] ys = omega arith
  length-append (x ∷ xs) ys = omega (arith, length-append xs ys)

  pub In-append : {x : A} (xs ys : List A) → In x (xs ++ ys) → In x xs ⊎ In x ys
  In-append [] ys h = inr h
  In-append (z ∷ xs) ys here = inl here
  In-append (z ∷ xs) ys (there h) = elim (In-append xs ys h) [
    | inl i ↦ inl (there i)
    | inr i ↦ inr i
  ]

  pub In-cons : {x y : A} {l : List A} → In x (y ∷ l) → (x ≡ y) ⊎ In x l
  In-cons here = inl refl
  In-cons (there i) = inr i

  pub In-single : {x y : A} → In x (y ∷ []) → x ≡ y
  In-single here = refl
  In-single (there h) = elim h [ ]

  -- What `find` returns is in the list and passes the test.
  pub In-find : (p : A → Bool) {x : A} (l : List A) → find p l ≡ some x → In x l × (p x ≡ true)
  In-find p [] h = ground arith
  In-find p {x} (y ∷ l) h = elim (Bool-cases (p y)) [
    | inl e ↦
        let q : some y ≡ some x = rw e at h in
        let r : y ≡ x = cc in (subst (λ z. In z (y ∷ l)) r here, rw (← r) e)
    | inr e ↦ let (i, t) = In-find p l (rw e at h) in (there i, t)
  ]

  pub all-In : (p : A → Bool) {x : A} (l : List A) → all p l ≡ true → In x l → p x ≡ true
  all-In p [] h i = elim i [ ]
  all-In p (y ∷ l) h here = ground arith
  all-In p (y ∷ l) h (there i) = all-In p l (ground arith) i

  pub In-filter : (p : A → Bool) {x : A} (l : List A) → In x l → p x ≡ true → In x (filter p l)
  In-filter p [] i t = elim i [ ]
  In-filter p {x} (y ∷ l) here t = rw t here
  In-filter p {x} (y ∷ l) (there i) t = elim (Bool-cases (p y)) [
    | inl e ↦ rw e (there (In-filter p l i t))
    | inr e ↦ rw e (In-filter p l i t)
  ]

  pub In-filter-In : (p : A → Bool) {x : A} (l : List A) → In x (filter p l) → In x l
  In-filter-In p [] i = i
  In-filter-In p {x} (y ∷ l) i = elim (Bool-cases (p y)) [
    | inl e ↦
        (let j : In x (y ∷ filter p l) = rw e at i in
          elim (In-cons j) [
            | inl q ↦ subst (λ z. In z (y ∷ l)) (sym q) here
            | inr k ↦ there (In-filter-In p l k)
          ])
    | inr e ↦ there (In-filter-In p l (rw e at i))
  ]

  pub any-In : (p : A → Bool) {x : A} (l : List A) → In x l → p x ≡ true → any p l ≡ true
  any-In p [] i t = elim i [ ]
  any-In p (y ∷ l) here t = rw t
  any-In p (y ∷ l) (there i) t = ground (arith, any-In p l i t)

  pub In-append_left : {x : A} (xs ys : List A) → In x xs → In x (xs ++ ys)
  In-append_left [] ys i = elim i [ ]
  In-append_left (z ∷ xs) ys here = here
  In-append_left (z ∷ xs) ys (there i) = there (In-append_left xs ys i)

  pub In-append_right : {x : A} (xs ys : List A) → In x ys → In x (xs ++ ys)
  In-append_right [] ys i = i
  In-append_right (z ∷ xs) ys i = there (In-append_right xs ys i)

  -- the row count of a statement
  abbrev pub count_where : (A → Bool) → List A → ℕ
  count_where p l = length (filter p l)

  -- DELETE FROM l WHERE p
  abbrev pub delete_where : (A → Bool) → List A → List A
  delete_where p l = filter (λ x. not (p x)) l

  -- `x` before the first of those that do not go before it
  abbrev pub insert_by : (A → A → Bool) → A → List A → List A
  insert_by before x [] = x ∷ []
  insert_by before x (y ∷ l) =
      let rest = insert_by before x l in if before y x then y ∷ rest else x ∷ y ∷ l

  -- ORDER BY
  abbrev pub sort_by : (A → A → Bool) → List A → List A
  sort_by before [] = []
  sort_by before (x ∷ l) = insert_by before x (sort_by before l)

  -- l[:n]
  abbrev pub take : ℕ → List A → List A
  take zero l = []
  take (suc n) [] = []
  take (suc n) (x ∷ l) = x ∷ take n l

-- [f(x) for x in l if f(x) is not None]
abbrev pub somes {ℓ} : {A B : Type ℓ} → (A → Option B) → List A → List B
somes f [] = []
somes f (x ∷ l) = elim (f x) [ none ↦ somes f l | some y ↦ y ∷ somes f l ]

-- n in l
abbrev pub contains : ℕ → List ℕ → Bool
contains n l = any (λ m. m == n) l

-- s in l, for texts
abbrev pub contains_text : String → List String → Bool
contains_text s l = any (λ t. str_eq t s) l

-- a set of numbers, as the list of its members in ascending order
abbrev pub insert_set : ℕ → List ℕ → List ℕ
insert_set n [] = n ∷ []
insert_set n (m ∷ l) =
    let rest = insert_set n l in if n == m then m ∷ l else if ltb m n then m ∷ rest else n ∷ m ∷ l

-- sorted(set(l))
abbrev pub sorted_set : List ℕ → List ℕ
sorted_set [] = []
sorted_set (n ∷ l) = insert_set n (sorted_set l)
