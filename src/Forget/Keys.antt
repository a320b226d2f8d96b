-- ===== src/Forget/Keys.antt =====
-- The keys of the events: the ids and the tombstone keys.
use vibeshkoder.Base.{
  find-none, same_row, ℕ, ◌<◌, ◌≡◌, ◌≢◌, sym, ◌∙◌, ap, String, Option, none, some, List, [], ◌∷◌,
  ◌++◌, arith, In, here, there, In-append, In-single, In-append_left, find, In-find, AreUnique,
  none_yet, one_more, inl, inr, Option-cases, eq_iff,
}
use mathlib.Core.Bool.{false≢true}
use vibeshkoder.Forget.Model.{ForgetEvent, Store}
use vibeshkoder.Forget.Events.{NewEvent, pending_row, insert_or_return, has_key}
use vibeshkoder.Forget.Rows.{key}
use vibeshkoder.Forget.Lifecycle.{IsTracked, IsTracked-refl, AreTracked, no_rows, rows}

-- The table of the events: ids below the sequence, one row for an id and one for a tombstone key.
pub record AreKeyed (events : List ForgetEvent) (next : ℕ) : Type 0 where
  pub below : (e : ForgetEvent) → In e events → e.id < next
  pub unique : AreUnique key events
  pub one_tombstone :
      (e f : ForgetEvent)
      → In e events
      → In f events
      → e.tombstone_key ≡ f.tombstone_key
      → e.id ≡ f.id

abbrev pub IsKeyed : Store → Type 0
IsKeyed w = AreKeyed w.events w.next_event

-- What a row of the table was before.
pub IsTracked-from :
    {f : ForgetEvent} {l m : List ForgetEvent}
    → AreTracked l m
    → In f m
    → (e : ForgetEvent) × In e l × IsTracked e f
IsTracked-from no_rows i = elim i [ ]
IsTracked-from (rows {e} t h) here = (e, here, t)
IsTracked-from (rows t h) (there i) = let (e, j, k) = IsTracked-from h i in (e, there j, k)

pub IsTracked-to :
    {e : ForgetEvent} {l m : List ForgetEvent}
    → AreTracked l m
    → In e l
    → (f : ForgetEvent) × In f m × IsTracked e f
IsTracked-to no_rows i = elim i [ ]
IsTracked-to (rows {f = f} t h) here = (f, here, t)
IsTracked-to (rows t h) (there i) = let (f, j, k) = IsTracked-to h i in (f, there j, k)

tracked_unique : {l m : List ForgetEvent} → AreTracked l m → AreUnique key l → AreUnique key m
tracked_unique no_rows u = u
tracked_unique (rows t h) (one_more n u) =
    one_more
      (λ g i. let (d, j, k) = IsTracked-from h i in λ q. n d j (sym k.same_id ∙ q ∙ t.same_id))
      (tracked_unique h u)

pub tracked-AreKeyed :
    {l m : List ForgetEvent} {a b : ℕ} → AreTracked l m → a ≡ b → AreKeyed l a → AreKeyed m b
tracked-AreKeyed t q h = record {
  below = λ f i. let (e, j, k) = IsTracked-from t i in rw (k.same_id, ← q) (h.below e j);
  unique = tracked_unique t h.unique;
  one_tombstone = λ f g i j q.
      let (d, i', k) = IsTracked-from t i in
      let (e, j', m) = IsTracked-from t j in
      k.same_id ∙ h.one_tombstone d e i' j' (sym k.same_key ∙ q ∙ m.same_key) ∙ sym m.same_id;
}

fresh_key :
    (k : String) (l : List ForgetEvent) (e : ForgetEvent)
    → find (has_key k) l ≡ none
    → In e l
    → e.tombstone_key ≢ k
fresh_key k l e h i q =
    false≢true (sym (find-none (has_key k) l h i) ∙ (eq_iff e.tombstone_key k).1 q)

newer : (d e y : ForgetEvent) → d.id < e.id → y ≡ e → key y ≢ key d
newer d e y b q s = let t : y.id ≡ e.id = ap (λ z. z.id) q in let u : y.id ≡ d.id = s in omega arith

unique_append :
    (e : ForgetEvent) (l : List ForgetEvent)
    → ((d : ForgetEvent) → In d l → d.id < e.id)
    → AreUnique key l
    → AreUnique key (l ++ e ∷ [])
unique_append e [] h u = one_more (λ y i. elim i [ ]) none_yet
unique_append e (d ∷ l) h (one_more n u) =
    one_more
      (λ y i. elim (In-append l (e ∷ []) i) [
        | inl j ↦ n y j
        | inr j ↦ newer d e y (h d here) (In-single j)
      ])
      (unique_append e l (λ y i. h y (there i)) u)

one_tombstone_append :
    (n : ForgetEvent) (l : List ForgetEvent)
    → ((e : ForgetEvent)
        → find (has_key n.tombstone_key) l ≡ none
        → In e l
        → e.tombstone_key ≢ n.tombstone_key)
    → find (has_key n.tombstone_key) l ≡ none
    → ((d e : ForgetEvent) → In d l → In e l → d.tombstone_key ≡ e.tombstone_key → d.id ≡ e.id)
    → (d e : ForgetEvent) → In d (l ++ n ∷ [])
    → In e (l ++ n ∷ [])
    → d.tombstone_key ≡ e.tombstone_key
    → d.id ≡ e.id
one_tombstone_append n l fresh q h d e i j s = elim (In-append l (n ∷ []) i) [
  | inl i' ↦ elim (In-append l (n ∷ []) j) [
    | inl j' ↦ h d e i' j' s
    | inr j' ↦ absurd (fresh d q i' (s ∙ ap (λ z. z.tombstone_key) (In-single j')))
  ]
  | inr i' ↦ elim (In-append l (n ∷ []) j) [
    | inl j' ↦ absurd (fresh e q j' (sym s ∙ ap (λ z. z.tombstone_key) (In-single i')))
    | inr j' ↦ ap (λ z. z.id) (In-single i') ∙ sym (ap (λ z. z.id) (In-single j'))
  ]
]

pub insert-IsKeyed :
    (r : NewEvent) (o : Option ForgetEvent) (w : Store)
    → find (has_key r.tombstone_key) w.events ≡ o
    → IsKeyed w
    → IsKeyed (insert_or_return r o w).1
unfolding insert_or_return
insert-IsKeyed r (some e) w q h = record {
  below = λ d i. omega (arith, h.below d i);
  unique = h.unique;
  one_tombstone = h.one_tombstone;
}
insert-IsKeyed r none w q h = record {
  below = λ d i. elim (In-append w.events (pending_row r w.now w.next_event ∷ []) i) [
    | inl j ↦ omega (arith, h.below d j)
    | inr j ↦ omega (arith, ap (λ z. z.id) (In-single j))
  ];
  unique = unique_append (pending_row r w.now w.next_event) w.events h.below h.unique;
  one_tombstone = λ d e i j s.
      one_tombstone_append (pending_row r w.now w.next_event) w.events
        (fresh_key r.tombstone_key w.events) q h.one_tombstone d e i j s;
}

pub created_keeps :
    (r : NewEvent) (o : Option ForgetEvent) (w : Store) {e : ForgetEvent}
    → In e w.events
    → In e (insert_or_return r o w).1.events × IsTracked e e
unfolding insert_or_return
created_keeps r (some d) w {e} i = (i, IsTracked-refl e)
created_keeps r none w {e} i =
    (In-append_left w.events (pending_row r w.now w.next_event ∷ []) i, IsTracked-refl e)

-- The row that has a key is the one found by it.
pub find_by_key :
    (k : String) (l : List ForgetEvent) {n : ℕ}
    → AreKeyed l n
    → (e : ForgetEvent) → In e l
    → k ≡ e.tombstone_key
    → find (has_key k) l ≡ some e
find_by_key k l h e i q = elim (Option-cases (find (has_key k) l)) [
  | inl n ↦ absurd (fresh_key k l e n i (sym q))
  | inr (d, s) ↦
      (let (j, t) = In-find (has_key k) l s in
        let r : d.tombstone_key ≡ k = (eq_iff d.tombstone_key k).0 t in
        let u : d.id ≡ e.id = h.one_tombstone d e j i (r ∙ q) in
        s ∙ ap some (same_row key l h.unique d e j i u))
]
