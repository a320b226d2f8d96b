-- ===== src/Forget/Hidden.antt =====
-- What the predicate of bot/services/forget_predicate.py hides along the life of an event.
use vibeshkoder.Base.{
  ◌≡◌, refl, ◌∙◌, ap, Bool, true, false, not, ◌&&◌, ◌⊎◌, inl, inr, List, In, any-In,
}
use vibeshkoder.Forget.Model.{ForgetEvent, EventStatus, ChatMessage, MessageVersion, Store, Outside}
use vibeshkoder.Forget.Targets.{is_active, targets, forget_excludes}
use vibeshkoder.Forget.Lifecycle.{
  Moves, stay, step, claim, complete, fail, by_repository, by_message, IsTracked,
}
use vibeshkoder.Forget.Runs.{Call, run, run-tracks}

-- From pending an event comes to an active status, to failed or to superseded.
reached :
    {s t : EventStatus}
    → Moves s t
    → s ≡ EventStatus.pending
    → (is_active t ≡ true) ⊎ (t ≡ EventStatus.failed) ⊎ (t ≡ EventStatus.superseded)
reached stay q = inl (ap is_active q)
reached (step h (by_repository claim)) q = inl refl
reached (step h (by_repository complete)) q = inl refl
reached (step h (by_repository fail)) q = inr (inl refl)
reached (step h (by_message m)) q = inr (inr refl)

same_targets :
    (e f : ForgetEvent) (cm : ChatMessage) (mv : MessageVersion)
    → IsTracked e f
    → targets f cm mv ≡ targets e cm mv
unfolding targets
same_targets e f cm mv h = rw (h.same_type, h.same_target) refl

both : (a b : Bool) → a ≡ true → b ≡ true → (a && b) ≡ true
both a b h k = rw (h, k) refl

-- A message that a pending event targets is hidden from then on, whatever calls follow, unless the event's
-- row has come to be failed or superseded.
pub stays_hidden :
    (out : Outside) (w : Store) (l : List Call) (e : ForgetEvent) (cm : ChatMessage)
    (mv : MessageVersion)
    → In e w.events
    → e.status ≡ EventStatus.pending
    → targets e cm mv ≡ true
    → (f : ForgetEvent) × In f (run out w l).events
      × (f.id ≡ e.id)
      × ((forget_excludes (run out w l).events cm mv ≡ false)
          ⊎ (f.status ≡ EventStatus.failed)
          ⊎ (f.status ≡ EventStatus.superseded))
unfolding forget_excludes
stays_hidden out w l e cm mv i p t =
    let (f, j, h) = run-tracks out w l e i in
    (
      f,
      j,
      h.same_id,
      elim (reached h.moves p) [
        | inl a ↦ inl (
            ap not (
              any-In (λ fe. is_active fe.status && targets fe cm mv) (run out w l).events j
                (both (is_active f.status) (targets f cm mv) a (same_targets e f cm mv h ∙ t))))
        | inr a ↦ inr a
      ],
    )
