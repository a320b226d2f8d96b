-- ===== src/Base/Rowwise.antt =====
-- A table and what has become of it, row by row.
use mathlib.Core.Logic.{inl, inr}
use mathlib.Core.Bool.{Bool}
use mathlib.Core.List.{List, [], ◌∷◌}
use vibeshkoder.Base.Tests.{Bool-cases}
use vibeshkoder.Base.Lists.{In, here, there}
use vibeshkoder.Base.Table.{update_where, touched}

module _ {A : Type 0} (R : A → A → Type 0) where
  pub data Pointwise : List A → List A → Type 0 where
    no_rows : Pointwise [] []
    row : {x y : A} {l m : List A} → R x y → Pointwise l m → Pointwise (x ∷ l) (y ∷ m)

  pub pointwise_refl : ((x : A) → R x x) → (l : List A) → Pointwise l l
  pointwise_refl r [] = no_rows
  pointwise_refl r (x ∷ l) = row (r x) (pointwise_refl r l)

  pub pointwise_trans :
      ((x y z : A) → R x y → R y z → R x z)
      → {k l m : List A} → Pointwise k l
      → Pointwise l m
      → Pointwise k m
  pointwise_trans t no_rows h = h
  pointwise_trans t (row {x} {y} a h) (row {y = z} b k) = row (t x y z a b) (pointwise_trans t h k)

  -- the row that a row was
  pub pointwise_from : {y : A} {l m : List A} → Pointwise l m → In y m → (x : A) × In x l × R x y
  pointwise_from no_rows i = elim i [ ]
  pointwise_from (row {x} r h) here = (x, here, r)
  pointwise_from (row r h) (there i) = let (x, j, k) = pointwise_from h i in (x, there j, k)

  -- what a row has become
  pub pointwise_to : {x : A} {l m : List A} → Pointwise l m → In x l → (y : A) × In y m × R x y
  pointwise_to no_rows i = elim i [ ]
  pointwise_to (row {y = y} r h) here = (y, here, r)
  pointwise_to (row r h) (there i) = let (y, j, k) = pointwise_to h i in (y, there j, k)

  touched_related : (p : A → Bool) (f : A → A) (x : A) → R x x → R x (f x) → R x (touched p f x)
  touched_related p f x r s = elim (Bool-cases (p x)) [ inl t ↦ rw t s | inr t ↦ rw t r ]

  pub pointwise_update :
      (p : A → Bool) (f : A → A)
      → ((x : A) → R x x)
      → ((x : A) → R x (f x))
      → (l : List A) → Pointwise l (update_where p f l)
  pointwise_update p f r s [] = no_rows
  pointwise_update p f r s (x ∷ l) =
      row (touched_related p f x (r x) (s x)) (pointwise_update p f r s l)
