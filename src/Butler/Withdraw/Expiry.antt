-- ===== src/Butler/Withdraw/Expiry.antt =====
-- What `expire_action` does to the action's row, by its status and its time.
use vibeshkoder.Base.{
  ◌≤◌, Option, none, Bool, ℕ, ◌≡◌, refl, ◌&&◌, true, false, some, any, find, arith, Bool-cases, inl,
  inr, ◌==◌,
}
use vibeshkoder.Base.Exec.{ok}
use mathlib.Core.Bool.{false≢true}
use vibeshkoder.Butler.Model.{Action, ActionStatus, Tag, World, is_pending_confirmation}
use vibeshkoder.Butler.Repos.Actions.{has_id, apply_values, because, is_past}
use vibeshkoder.Butler.Withdraw.{expire_action}
use vibeshkoder.Butler.Withdraw.Laws.{close_lem, find-set_status}

and_left : (b c : Bool) → b && c ≡ true → b ≡ true
and_left b c h = ground arith

and_right : (b c : Bool) → b && c ≡ true → c ≡ true
and_right b c h = ground arith

-- The action waits for a confirmation, and its time is over at this instant or before.
pub record IsDue (a : Action) (now : ℕ) : Type 0 where
  pub waits : a.status ≡ ActionStatus.pending_confirmation
  pub until : ℕ
  pub has_time : a.expires_at ≡ some until
  pub over : until ≤ now

waiting_status :
    (s : ActionStatus) → is_pending_confirmation s ≡ true → s ≡ ActionStatus.pending_confirmation
waiting_status ActionStatus.pending_confirmation h = refl
waiting_status ActionStatus.requested h = absurd (false≢true h)
waiting_status ActionStatus.evidence_loaded h = absurd (false≢true h)
waiting_status ActionStatus.planned h = absurd (false≢true h)
waiting_status ActionStatus.confirmed h = absurd (false≢true h)
waiting_status ActionStatus.executing h = absurd (false≢true h)
waiting_status ActionStatus.succeeded h = absurd (false≢true h)
waiting_status ActionStatus.undone h = absurd (false≢true h)
waiting_status ActionStatus.undo_pending h = absurd (false≢true h)
waiting_status ActionStatus.undo_succeeded h = absurd (false≢true h)
waiting_status ActionStatus.undo_failed h = absurd (false≢true h)
waiting_status ActionStatus.rejected h = absurd (false≢true h)
waiting_status ActionStatus.expired h = absurd (false≢true h)
waiting_status ActionStatus.execution_failed h = absurd (false≢true h)
waiting_status ActionStatus.cancelled h = absurd (false≢true h)

past_time : (now : ℕ) (o : Option ℕ) → is_past now o ≡ true → (t : ℕ) × (o ≡ some t) × (t ≤ now)
past_time now none h = absurd (false≢true h)
past_time now (some t) h = (t, refl, ground arith)

IsDue-if :
    (a : Action) (now : ℕ)
    → is_pending_confirmation a.status && is_past now a.expires_at ≡ true
    → IsDue a now
IsDue-if a now h =
    let (t, e, l) =
      past_time now a.expires_at
        (and_right (is_pending_confirmation a.status) (is_past now a.expires_at) h) in
    record {
      waits =
          waiting_status a.status
            (and_left (is_pending_confirmation a.status) (is_past now a.expires_at) h);
      until = t;
      has_time = e;
      over = l;
    }

if-IsDue :
    (a : Action) (now : ℕ)
    → IsDue a now
    → is_pending_confirmation a.status && is_past now a.expires_at ≡ true
if-IsDue a now h = let o = h.over in rw (h.waits, h.has_time) (ground arith)

-- Of an action that is there and that no other transaction has locked: one that is due has the status
-- 'expired' and the reason 'ttl_expired' afterwards, in the row that is returned and in the table, and any
-- other is returned with nothing changed.
pub expire_exact :
    (id : ℕ) (w : World) (a : Action)
    → any (λ i. i == id) w.locked ≡ false
    → find (has_id id) w.actions ≡ some a
    → let done = apply_values ActionStatus.expired (because Tag.ttl_expired) a in
      let (r, w') = expire_action id w in
      (IsDue a w.now → (r ≡ ok done) × (find (has_id id) w'.actions ≡ some done))
      × (¬ IsDue a w.now → (r ≡ ok a) × (w' ≡ w))
unfolding expire_action
expire_exact id w a free there = (
  λ d.
      rw
        (
          free,
          there,
          if-IsDue a w.now d,
          close_lem id ActionStatus.expired (because Tag.ttl_expired) w a a there refl refl,
        )
        (refl, find-set_status id ActionStatus.expired (because Tag.ttl_expired) w a there),
  λ n. elim (Bool-cases (is_pending_confirmation a.status && is_past w.now a.expires_at)) [
    | inl e ↦ absurd (n (IsDue-if a w.now e))
    | inr e ↦ rw (free, there, e) (refl, refl)
  ],
)
