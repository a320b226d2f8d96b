-- ===== src/Forget/Lifecycle.antt =====
-- The life of an event: which statuses follow on which, and what the statements on a row can do to it.
use vibeshkoder.Base.{
  ℕ, ◌≡◌, refl, sym, ◌∙◌, ap, Bool, true, false, ◌&&◌, ◌==◌, Option, none, some, List, [], ◌∷◌,
  arith, any, find, update_where, touched, subst, Bool-cases, inl, inr, ◌⊎◌,
}
use mathlib.Core.Bool.{false≢true}
use vibeshkoder.Forget.Model.{ForgetEvent, EventStatus, CascadeStatus, CascadeError, Store}
use vibeshkoder.Forget.Events.{
  same_status, may_move, moved, checkpointed, returning, mark_status, update_cascade_status,
  allowed_old, is_known, may_supersede,
}
use vibeshkoder.Forget.Rows.{is_among}

-- one step of the life of an event by the repository
pub data Transition : EventStatus → EventStatus → Type 0 where
  claim : Transition EventStatus.pending EventStatus.processing
  complete : Transition EventStatus.processing EventStatus.completed
  fail : Transition EventStatus.processing EventStatus.failed

-- one step by anybody: an event may be superseded too
pub data Step : EventStatus → EventStatus → Type 0 where
  by_repository : {s t : EventStatus} → Transition s t → Step s t
  by_message : {s : EventStatus} → may_supersede s ≡ true → Step s EventStatus.superseded

-- any number of steps
pub data Moves (s : EventStatus) : EventStatus → Type 0 where
  stay : Moves s s
  step : {t u : EventStatus} → Moves s t → Step t u → Moves s u

pub Moves-trans : {s t u : EventStatus} → Moves s t → Moves t u → Moves s u
Moves-trans h stay = h
Moves-trans h (step k t) = step (Moves-trans h k) t

and_right : (a b : Bool) → (a && b) ≡ true → b ≡ true
and_right true b h = h
and_right false b h = ground arith

transition :
    (s t : EventStatus) → any (λ old. same_status old s) (allowed_old t) ≡ true → Transition s t
transition EventStatus.pending EventStatus.pending h = ground arith
transition EventStatus.pending EventStatus.processing h = claim
transition EventStatus.pending EventStatus.completed h = ground arith
transition EventStatus.pending EventStatus.failed h = ground arith
transition EventStatus.pending EventStatus.superseded h = ground arith
transition EventStatus.processing EventStatus.pending h = ground arith
transition EventStatus.processing EventStatus.processing h = ground arith
transition EventStatus.processing EventStatus.completed h = complete
transition EventStatus.processing EventStatus.failed h = fail
transition EventStatus.processing EventStatus.superseded h = ground arith
transition EventStatus.completed EventStatus.pending h = ground arith
transition EventStatus.completed EventStatus.processing h = ground arith
transition EventStatus.completed EventStatus.completed h = ground arith
transition EventStatus.completed EventStatus.failed h = ground arith
transition EventStatus.completed EventStatus.superseded h = ground arith
transition EventStatus.failed EventStatus.pending h = ground arith
transition EventStatus.failed EventStatus.processing h = ground arith
transition EventStatus.failed EventStatus.completed h = ground arith
transition EventStatus.failed EventStatus.failed h = ground arith
transition EventStatus.failed EventStatus.superseded h = ground arith
transition EventStatus.superseded EventStatus.pending h = ground arith
transition EventStatus.superseded EventStatus.processing h = ground arith
transition EventStatus.superseded EventStatus.completed h = ground arith
transition EventStatus.superseded EventStatus.failed h = ground arith
transition EventStatus.superseded EventStatus.superseded h = ground arith

abbrev pub is_final : EventStatus → Bool
is_final EventStatus.pending = false
is_final EventStatus.processing = false
is_final _ = true

not_final : {s t : EventStatus} → Transition s t → is_final s ≡ false
not_final claim = refl
not_final complete = refl
not_final fail = refl

-- What becomes of a row of a final status: nothing, or 'completed' is 'superseded'.
abbrev pub IsSettled : ForgetEvent → ForgetEvent → Type 0
IsSettled e f =
    (f ≡ e)
    ⊎ (e.status ≡ EventStatus.completed) × (f ≡ record e { status = EventStatus.superseded })

-- A row and what has become of it: its identity stays, its status has moved along its life, and from a
-- final status on it is settled.
pub record IsTracked (e f : ForgetEvent) : Type 0 where
  pub same_id : f.id ≡ e.id
  pub same_key : f.tombstone_key ≡ e.tombstone_key
  pub same_type : f.target_type ≡ e.target_type
  pub same_target : f.target_id ≡ e.target_id
  pub moves : Moves e.status f.status
  pub final : is_final e.status ≡ true → IsSettled e f

pub IsTracked-refl : (e : ForgetEvent) → IsTracked e e
IsTracked-refl e = record {
  same_id = refl;
  same_key = refl;
  same_type = refl;
  same_target = refl;
  moves = stay;
  final = λ t. inl refl;
}

not_both : (s : EventStatus) → s ≡ EventStatus.superseded → s ≡ EventStatus.completed → ⊥
not_both s p q =
    let r : same_status s EventStatus.completed ≡ false = rw p refl in
    false≢true (sym r ∙ rw q refl)

IsSettled-trans :
    (e f g : ForgetEvent)
    → is_final e.status ≡ true
    → IsSettled e f
    → (is_final f.status ≡ true → IsSettled f g)
    → IsSettled e g
IsSettled-trans e f g t (inl p) k =
    subst (λ z. IsSettled z g) p (k (ap (λ z. is_final z.status) p ∙ t))
IsSettled-trans e f g t (inr (c, p)) k = elim (k (ap (λ z. is_final z.status) p)) [
  | inl q ↦ inr (c, q ∙ p)
  | inr (d, q) ↦ absurd (not_both f.status (ap (λ z. z.status) p) d)
]

pub IsTracked-trans : {e f g : ForgetEvent} → IsTracked e f → IsTracked f g → IsTracked e g
IsTracked-trans {e} {f} {g} h k = record {
  same_id = k.same_id ∙ h.same_id;
  same_key = k.same_key ∙ h.same_key;
  same_type = k.same_type ∙ h.same_type;
  same_target = k.same_target ∙ h.same_target;
  moves = Moves-trans h.moves k.moves;
  final = λ t. IsSettled-trans e f g t (h.final t) k.final;
}

moved-IsTracked :
    (status : EventStatus) (state : Option CascadeStatus) (e : ForgetEvent)
    → is_among (allowed_old status) e ≡ true
    → IsTracked e (moved status state e)
moved-IsTracked status state e h =
    let t = transition e.status status h in
    record {
      same_id = refl;
      same_key = refl;
      same_type = refl;
      same_target = refl;
      moves = step stay (by_repository t);
      final = λ f. absurd (false≢true (sym (not_final t) ∙ f));
    }

open_status :
    (s : EventStatus)
    → any (λ old. same_status old s) (EventStatus.processing ∷ []) ≡ true
    → is_final s ≡ false
open_status EventStatus.pending h = refl
open_status EventStatus.processing h = refl
open_status EventStatus.completed h = ground arith
open_status EventStatus.failed h = ground arith
open_status EventStatus.superseded h = ground arith

checkpointed-IsTracked :
    (state : CascadeStatus) (e : ForgetEvent)
    → is_among (EventStatus.processing ∷ []) e ≡ true
    → IsTracked e (checkpointed state e)
checkpointed-IsTracked state e h = record {
  same_id = refl;
  same_key = refl;
  same_type = refl;
  same_target = refl;
  moves = stay;
  final = λ f. absurd (false≢true (sym (open_status e.status h) ∙ f));
}

-- The rows of a table and what has become of them, in order.
pub data AreTracked : List ForgetEvent → List ForgetEvent → Type 0 where
  no_rows : AreTracked [] []
  rows :
      {e f : ForgetEvent} {l m : List ForgetEvent}
      → IsTracked e f
      → AreTracked l m
      → AreTracked (e ∷ l) (f ∷ m)

pub tracked_rows_refl : (l : List ForgetEvent) → AreTracked l l
tracked_rows_refl [] = no_rows
tracked_rows_refl (e ∷ l) = rows (IsTracked-refl e) (tracked_rows_refl l)

pub tracked_rows_trans :
    {k l m : List ForgetEvent} → AreTracked k l → AreTracked l m → AreTracked k m
tracked_rows_trans no_rows h = h
tracked_rows_trans (rows a h) (rows b k) = rows (IsTracked-trans a b) (tracked_rows_trans h k)

touched-IsTracked :
    (id : ℕ) (allowed : List EventStatus) (f : ForgetEvent → ForgetEvent) (e : ForgetEvent)
    → ((x : ForgetEvent) → is_among allowed x ≡ true → IsTracked x (f x))
    → IsTracked e (touched (may_move id allowed) f e)
touched-IsTracked id allowed f e h = elim (Bool-cases (may_move id allowed e)) [
  | inl t ↦ rw t (h e (and_right (e.id == id) (is_among allowed e) t))
  | inr t ↦ rw t (IsTracked-refl e)
]

update-AreTracked :
    (id : ℕ) (allowed : List EventStatus) (f : ForgetEvent → ForgetEvent)
    → ((e : ForgetEvent) → is_among allowed e ≡ true → IsTracked e (f e))
    → (l : List ForgetEvent) → AreTracked l (update_where (may_move id allowed) f l)
update-AreTracked id allowed f h [] = no_rows
update-AreTracked id allowed f h (e ∷ l) =
    rows (touched-IsTracked id allowed f e h) (update-AreTracked id allowed f h l)

returning-AreTracked :
    (f : ForgetEvent → ForgetEvent) (error : CascadeError) (id : ℕ) (allowed : List EventStatus)
    (o : Option ForgetEvent) (w : Store)
    → ((e : ForgetEvent) → is_among allowed e ≡ true → IsTracked e (f e))
    → AreTracked w.events (returning f error id (may_move id allowed) o w).1.events
unfolding returning
returning-AreTracked f error id allowed (some e) w h = update-AreTracked id allowed f h w.events
returning-AreTracked f error id allowed none w h = tracked_rows_refl w.events

pub mark_status-AreTracked :
    (id : ℕ) (status : EventStatus) (state : Option CascadeStatus) (w : Store)
    → AreTracked w.events (mark_status id status state w).1.events
unfolding mark_status
mark_status-AreTracked id status state w = elim (Bool-cases (is_known status)) [
  | inl t ↦ rw t (
      returning-AreTracked (moved status state) CascadeError.invalid_transition id
        (allowed_old status) (find (may_move id (allowed_old status)) w.events) w
        (moved-IsTracked status state))
  | inr t ↦ rw t (tracked_rows_refl w.events)
]

pub update_cascade_status-AreTracked :
    (id : ℕ) (state : CascadeStatus) (w : Store)
    → AreTracked w.events (update_cascade_status id state w).1.events
unfolding update_cascade_status
update_cascade_status-AreTracked id state w =
    returning-AreTracked (checkpointed state) CascadeError.not_processing id
      (EventStatus.processing ∷ []) (find (may_move id (EventStatus.processing ∷ [])) w.events) w
      (checkpointed-IsTracked state)
