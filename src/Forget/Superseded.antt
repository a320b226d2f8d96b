-- ===== src/Forget/Superseded.antt =====
-- What the restoring of a message does to the rows of the events.
use vibeshkoder.Base.{
  ◌≡◌, refl, ◌∙◌, ap, Bool, true, false, ◌&&◌, List, [], ◌∷◌, arith, update_where, contains_text,
  String, Bool-cases, inl, inr,
}
use mathlib.Core.Bool.{false≢true}
use vibeshkoder.Forget.Model.{ForgetEvent, EventStatus, Store}
use vibeshkoder.Forget.Events.{may_supersede, is_superseded_by, supersede}
use vibeshkoder.Forget.Lifecycle.{
  by_message, stay, step, is_final, IsTracked, IsTracked-refl, AreTracked, no_rows, rows,
}

and_right : (a b : Bool) → (a && b) ≡ true → b ≡ true
and_right true b h = h
and_right false b h = ground arith

superseding-IsTracked :
    (e : ForgetEvent) (s : EventStatus)
    → e.status ≡ s
    → may_supersede s ≡ true
    → IsTracked e (record e { status = EventStatus.superseded })
superseding-IsTracked e s q h = record {
  same_id = refl;
  same_key = refl;
  same_type = refl;
  same_target = refl;
  moves = step stay (by_message (ap may_supersede q ∙ h));
  final = λ t. inr (only_completed e.status t (ap may_supersede q ∙ h), refl);
}
  where
    only_completed :
        (s : EventStatus) → is_final s ≡ true → may_supersede s ≡ true → s ≡ EventStatus.completed
    only_completed EventStatus.completed t h = refl
    only_completed EventStatus.pending t h = absurd (false≢true t)
    only_completed EventStatus.processing t h = absurd (false≢true t)
    only_completed EventStatus.failed t h = absurd (false≢true h)
    only_completed EventStatus.superseded t h = absurd (false≢true h)

superseded_rows :
    (keys : List String) (l : List ForgetEvent)
    → AreTracked l
        (update_where (is_superseded_by keys) (λ e. record e { status = EventStatus.superseded }) l)
superseded_rows keys [] = no_rows
superseded_rows keys (e ∷ l) = elim (Bool-cases (is_superseded_by keys e)) [
  | inl t ↦ rw t (
      rows
        (superseding-IsTracked e e.status refl
          (and_right (contains_text e.tombstone_key keys) (may_supersede e.status) t))
        (superseded_rows keys l))
  | inr t ↦ rw t (rows (IsTracked-refl e) (superseded_rows keys l))
]

pub supersede-AreTracked :
    (keys : List String) (w : Store) → AreTracked w.events (supersede keys w).events
unfolding supersede
supersede-AreTracked keys w = superseded_rows keys w.events
