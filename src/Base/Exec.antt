-- ===== src/Base/Exec.antt =====
-- Methods that write to the session and may raise. What was flushed before a raise stays written
-- (the middleware commits after a handled error), so the state comes back beside the error too.
use mathlib.Core.Path.{◌≡◌, refl, ap, sym}
use mathlib.Core.Bool.{Bool, true, false}
use vibeshkoder.Base.Tests.{if◌then◌else◌}

pub data Result {ℓ} (E A : Type ℓ) : Type ℓ where
  ok : A → Result E A
  err : E → Result E A

abbrev pub Exec {ℓ} : Type ℓ → Type ℓ → Type ℓ → Type ℓ
Exec E S A = S → Result E A × S

module _ {ℓ} {E S A : Type ℓ} where
  abbrev pub pure : A → Exec E S A
  pure a s = (ok a, s)

  abbrev pub raise : E → Exec E S A
  raise e s = (err e, s)

  abbrev pub gets : (S → A) → Exec E S A
  gets f s = (ok (f s), s)

module _ {ℓ} {E S A B : Type ℓ} where
  abbrev pub continue : Result E A → (A → Exec E S B) → Exec E S B
  continue (ok a) f s = f a s
  continue (err e) f s = (err e, s)

  infixl 5 ◌>>=◌
  abbrev pub ◌>>=◌ : Exec E S A → (A → Exec E S B) → Exec E S B
  ◌>>=◌ m f s = let (r, s') = m s in continue r f s'

module _ {E S : Type 0} where
  abbrev pub modify : (S → S) → Exec E S (Unit {0})
  modify f s = (ok tt, f s)

  abbrev pub guard : Bool → E → Exec E S (Unit {0})
  guard b e s = (if b then ok tt else err e, s)

module _ {E S B : Type 0} where
  infixl 5 ◌>>◌
  abbrev pub ◌>>◌ : Exec E S (Unit {0}) → Exec E S B → Exec E S B
  m >> k = m >>= λ _. k

-- A predicate on the state through a bind: the rest may use that the first part returned.
module _ {E S A B : Type 0} (P : S → Type 0) (f : A → Exec E S B) where
  pub continue_keeps :
      (r : Result E A) (s : S) → P s → ((a : A) → r ≡ ok a → P (f a s).1) → P (continue r f s).1
  continue_keeps (ok a) s h k = k a refl
  continue_keeps (err e) s h k = h

  pub bind_keeps :
      (m : Exec E S A) (s : S)
      → P (m s).1
      → ((a : A) (s' : S) → m s ≡ (ok a, s') → P s' → P (f a s').1)
      → P ((m >>= f) s).1
  bind_keeps m s h k = let (r, s') = m s in continue_keeps r s' h (λ a e. k a s' (rw (← e)) h)

module _ {E S B : Type 0} (P : S → Type 0) where
  pub guard_keeps :
      (b : Bool) (e : E) (m : Exec E S B) (s : S)
      → P s
      → (b ≡ true → P (m s).1)
      → P ((guard b e >> m) s).1
  guard_keeps true e m s h k = k refl
  guard_keeps false e m s h k = h

  pub if_keeps :
      (b : Bool) (m n : Exec E S B) (s : S)
      → (b ≡ true → P (m s).1)
      → (b ≡ false → P (n s).1)
      → P ((if b then m else n) s).1
  if_keeps true m n s k l = k refl
  if_keeps false m n s k l = l refl

pub err_not_ok : (E : Type 0) {A : Type 0} {x : E} {a : A} → err x ≡ ok a → ⊥
err_not_ok E e = cc

module _ {E S A B : Type 0} (f : A → Exec E S B) where
  continue_ok :
      (r : Result E A) (s s' : S) (b : B)
      → continue r f s ≡ (ok b, s')
      → (a : A) × (r ≡ ok a) × (f a s ≡ (ok b, s'))
  continue_ok (ok a) s s' b e = (a, refl, e)
  continue_ok (err x) s s' b e = absurd (err_not_ok E (ap (λ p. p.0) e))

  -- A sequence returned, so its first part did, and the rest from there.
  pub bind_ok :
      (m : Exec E S A) (s s' : S) (b : B)
      → (m >>= f) s ≡ (ok b, s')
      → (a : A) × (t : S) × (m s ≡ (ok a, t)) × (f a t ≡ (ok b, s'))
  bind_ok m s s' b e =
      let (r, t) = m s in let (a, q, k) = continue_ok r t s' b e in (a, t, rw (← q) refl, k)

pub ok_injective : (E : Type 0) {A : Type 0} {a b : A} → ◌≡◌ {A = Result E A} (ok a) (ok b) → a ≡ b
ok_injective E e = cc

-- What holds of the state after a method, by the name that its equation gives to it.
pub at_end :
    (E S : Type 0) {A : Type 0} (P : S → Type 0) (m : Exec E S A) {s s' : S} {r : Result E A}
    → m s ≡ (r, s')
    → P (m s).1
    → P s'
at_end E S P m e h = rw (← ap (λ p. p.1) e) h

pub guard_ok :
    (E S : Type 0) (b : Bool) (e : E) (s s' : S) (x : Unit {0})
    → guard b e s ≡ (ok x, s')
    → (b ≡ true) × (s' ≡ s)
guard_ok E S true e s s' x q = (refl, sym (ap (λ p. p.1) q))
guard_ok E S false e s s' x q = absurd (err_not_ok E (ap (λ p. p.0) q))
