-- ===== src/Forget/Rows.antt =====
-- One event of the table, by its id: what the statements of bot/db/repos/forget_event.py make of it.
use vibeshkoder.Base.{
  ℕ, ◌≡◌, ◌≢◌, refl, ◌∙◌, Bool, true, Option, none, some, List, [], ◌∷◌, find, any, update_where,
  keyed, find-hits, find-updated, find-others, inl, inr, Bool-cases,
}
use vibeshkoder.Base.Exec.{ok}
use vibeshkoder.Forget.Model.{ForgetEvent, EventStatus, CascadeStatus, CascadeError, Store}
use vibeshkoder.Forget.Events.{
  same_status, may_move, moved, checkpointed, returning, mark_status, update_cascade_status,
  allowed_old, is_known,
}

abbrev pub key : ForgetEvent → ℕ
key e = e.id

abbrev pub row : ℕ → Store → Option ForgetEvent
row id w = find (keyed key id) w.events

-- the status is among those that the statement asks for
abbrev pub is_among : List EventStatus → ForgetEvent → Bool
is_among allowed e = any (λ old. same_status old e.status) allowed

-- the table after the UPDATE
abbrev pub wrote : ℕ → List EventStatus → (ForgetEvent → ForgetEvent) → Store → Store
wrote id allowed f w = record w { events = update_where (may_move id allowed) f w.events }

-- What a statement on one event leaves of the store: the other events and the other tables.
pub record IsLocal (id : ℕ) (w w' : Store) : Type 0 where
  pub others : (j : ℕ) → j ≢ id → row j w' ≡ row j w
  pub same_tables : w'.tables ≡ w.tables
  pub same_next : w'.next_event ≡ w.next_event

pub IsLocal-refl : (id : ℕ) (w : Store) → IsLocal id w w
IsLocal-refl id w = record { others = λ j n. refl; same_tables = refl; same_next = refl }

pub IsLocal-trans : (id : ℕ) {u v w : Store} → IsLocal id u v → IsLocal id v w → IsLocal id u w
IsLocal-trans id h k = record {
  others = λ j n. k.others j n ∙ h.others j n;
  same_tables = k.same_tables ∙ h.same_tables;
  same_next = k.same_next ∙ h.same_next;
}

pub wrote-IsLocal :
    (id : ℕ) (allowed : List EventStatus) (f : ForgetEvent → ForgetEvent)
    → ((x : ForgetEvent) → (f x).id ≡ x.id)
    → (w : Store) → IsLocal id w (wrote id allowed f w)
wrote-IsLocal id allowed f keep w = record {
  others = λ j n. find-others key id j (is_among allowed) f w.events keep n;
  same_tables = refl;
  same_next = refl;
}

returning-IsLocal :
    (f : ForgetEvent → ForgetEvent) (error : CascadeError) (id : ℕ) (allowed : List EventStatus)
    (o : Option ForgetEvent) (w : Store)
    → ((x : ForgetEvent) → (f x).id ≡ x.id)
    → IsLocal id w (returning f error id (may_move id allowed) o w).1
unfolding returning
returning-IsLocal f error id allowed (some e) w keep = wrote-IsLocal id allowed f keep w
returning-IsLocal f error id allowed none w keep = IsLocal-refl id w

module _ (id : ℕ) (status : EventStatus) (state : Option CascadeStatus) (w : Store) where
  -- A transition of the table is made, and the row is returned as it is then stored.
  pub mark_status-moves :
      {e : ForgetEvent}
      → is_known status ≡ true
      → row id w ≡ some e
      → is_among (allowed_old status) e ≡ true
      → mark_status id status state w
        ≡ (ok (moved status state e), wrote id (allowed_old status) (moved status state) w)
  unfolding mark_status returning
  mark_status-moves {e} k h a =
      rw (k, find-hits key id (is_among (allowed_old status)) w.events h a)

  pub moved-row :
      {e : ForgetEvent}
      → row id w ≡ some e
      → is_among (allowed_old status) e ≡ true
      → row id (wrote id (allowed_old status) (moved status state) w) ≡ some (moved status state e)
  moved-row h a =
      find-updated key id (is_among (allowed_old status)) (moved status state) w.events (λ x. refl)
        h a

  pub mark_status-IsLocal : IsLocal id w (mark_status id status state w).1
  unfolding mark_status
  mark_status-IsLocal = elim (Bool-cases (is_known status)) [
    | inl t ↦ rw t (
        returning-IsLocal (moved status state) CascadeError.invalid_transition id
          (allowed_old status) (find (may_move id (allowed_old status)) w.events) w (λ x. refl))
    | inr t ↦ rw t (IsLocal-refl id w)
  ]

module _ (id : ℕ) (state : CascadeStatus) (w : Store) where
  pub update_cascade_status-IsLocal : IsLocal id w (update_cascade_status id state w).1
  unfolding update_cascade_status
  update_cascade_status-IsLocal =
      returning-IsLocal (checkpointed state) CascadeError.not_processing id
        (EventStatus.processing ∷ []) (find (may_move id (EventStatus.processing ∷ [])) w.events) w
        (λ x. refl)

  -- A checkpoint of an event in progress is stored under its entry, and the status stays.
  pub update_cascade_status-stores :
      {e : ForgetEvent}
      → row id w ≡ some e
      → e.status ≡ EventStatus.processing
      → (update_cascade_status id state w ≡ (
        ok (checkpointed state e),
        wrote id (EventStatus.processing ∷ []) (checkpointed state) w,
      ))
        × (row id (wrote id (EventStatus.processing ∷ []) (checkpointed state) w)
            ≡ some (checkpointed state e))
  unfolding update_cascade_status returning
  update_cascade_status-stores {e} h p =
      let a : is_among (EventStatus.processing ∷ []) e ≡ true = rw p in
      (
        rw (find-hits key id (is_among (EventStatus.processing ∷ [])) w.events h a),
        find-updated key id (is_among (EventStatus.processing ∷ [])) (checkpointed state) w.events
            (λ x. refl) h a,
      )
