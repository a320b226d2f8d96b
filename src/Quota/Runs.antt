-- ===== src/Quota/Runs.antt =====
-- Sequences of calls of the repository, in any order, with the time moving between them, and the bound
-- that the slots put on them.
use vibeshkoder.Base.{
  ℕ, ◌+◌, ◌-◌, refl, ◌==◌, Option, none, some, List, [], ◌∷◌, find, Bool-cases, inl, inr,
}
use vibeshkoder.Base.Exec.{bind_keeps, gets, ◌>>=◌}
use vibeshkoder.Quota.Model.{Outcome, Attempt, Store, is_delivery, local_day_of}
use vibeshkoder.Quota.Attempts.{
  Request, update_attempts, is_live, is_undelivered, started, decide, is_valid_key, reserve,
  release_stale_reserved, mark_delivery_started, attach_trace, attach_embedding_call, touch,
  has_key, has_id, stale_after, daily_limit,
}
use vibeshkoder.Quota.Finalize.{
  Final, finalized, finalize, close, link_trace, settle_again, is_supported,
}
use vibeshkoder.Quota.Slots.{update_attempts-IsSlotted}
use vibeshkoder.Quota.Free.{decide-IsSlotted}
use vibeshkoder.Quota.Writes.{HasSlots, mild, live, undelivered, one_row, stale-IsSlotted}

pub data Call : Type 0 where
  reserve_slot : Request → Call
  release_stale : ℕ → ℕ → ℕ → ℕ → Call
  start_delivery : ℕ → Outcome → ℕ → ℕ → Option ℕ → Call
  trace : ℕ → ℕ → Call
  embedding : ℕ → ℕ → Call
  settle_attempt : ℕ → Final → Call
  renew : ℕ → Call
  time_passes : ℕ → Call

unfoldable pub call : Store → Call → Store
call w (reserve_slot r) = (reserve r w).1
call w (release_stale user day before now) = (release_stale_reserved user day before now w).1
call w (start_delivery id outcome t e s) = (mark_delivery_started id outcome t e s w).1
call w (trace id t) = (attach_trace id t w).1
call w (embedding id e) = (attach_embedding_call id e w).1
call w (settle_attempt id v) = (finalize id v w).1
call w (renew id) = (touch id w).1
call w (time_passes us) = record w { now = w.now + us }

unfoldable pub run : Store → List Call → Store
run w [] = w
run w (c ∷ l) = run (call w c) l

reserve-IsSlotted : (r : Request) (w : Store) → HasSlots w → HasSlots (reserve r w).1
unfolding reserve
reserve-IsSlotted r w h = elim (Bool-cases (is_valid_key r.idempotency_key)) [
  | inr t ↦ rw t h
  | inl t ↦ elim (Bool-cases (r.limit == daily_limit)) [
    | inr u ↦ rw (t, u) h
    | inl u ↦
        rw (t, u)
          (bind_keeps HasSlots
            (λ freed. gets (λ v. find (has_key r.idempotency_key) v.attempts) >>= decide r)
            (release_stale_reserved r.user_tg_id (local_day_of w.now) (w.now - stale_after) w.now) w
            (stale-IsSlotted r.user_tg_id (local_day_of w.now) (w.now - stale_after) w.now w h)
            (λ n w' _ k. decide-IsSlotted r (find (has_key r.idempotency_key) w'.attempts) w' k))
  ]
]

link-IsSlotted : (id : ℕ) (t : Option ℕ) (w : Store) → HasSlots w → HasSlots (link_trace id t w).1
unfolding link_trace
link-IsSlotted id none w h = h
link-IsSlotted id (some n) w h = h

again-IsSlotted :
    (v : Final) (o : Option Attempt) (w : Store) → HasSlots w → HasSlots (settle_again v o w).1
unfolding settle_again
again-IsSlotted v none w h = h
again-IsSlotted v (some a) w h = h

close-IsSlotted :
    (id : ℕ) (v : Final) (rows : ℕ) (o : Option Attempt) (w : Store)
    → HasSlots w
    → HasSlots (close id v rows o w).1
unfolding close
close-IsSlotted id v rows o w h = elim (Bool-cases (rows == 1)) [
  | inl t ↦ rw t (link-IsSlotted id v.qa_trace_id w h)
  | inr t ↦ rw t (again-IsSlotted v o w h)
]

finalize-IsSlotted : (id : ℕ) (v : Final) (w : Store) → HasSlots w → HasSlots (finalize id v w).1
unfolding finalize
finalize-IsSlotted id v w h = elim (Bool-cases (is_supported v.outcome)) [
  | inr t ↦ rw t h
  | inl t ↦ rw t (
      bind_keeps HasSlots (λ rows. gets (λ u. find (has_id id) u.attempts) >>= close id v rows)
        (update_attempts (is_live id) (finalized w.now v)) w
        (update_attempts-IsSlotted (is_live id) (finalized w.now v) w
          (mild (is_live id) (finalized w.now v) (live id) (λ a. refl) (λ a. refl) (λ a. refl)) h)
        (λ n w' _ k. close-IsSlotted id v n (find (has_id id) w'.attempts) w' k))
]

start-IsSlotted :
    (id : ℕ) (outcome : Outcome) (t e : ℕ) (s : Option ℕ) (w : Store)
    → HasSlots w
    → HasSlots (mark_delivery_started id outcome t e s w).1
unfolding mark_delivery_started
start-IsSlotted id outcome t e s w h = elim (Bool-cases (is_delivery (some outcome))) [
  | inr q ↦ rw q h
  | inl q ↦ rw q (
      one_row (is_undelivered id) (started w.now outcome t e s) w
        (mild (is_undelivered id) (started w.now outcome t e s) (undelivered id) (λ a. refl)
          (λ a. refl) (λ a. refl))
        h)
]

call-IsSlotted : (w : Store) (c : Call) → HasSlots w → HasSlots (call w c)
unfolding call attach_trace attach_embedding_call touch
call-IsSlotted w (reserve_slot r) h = reserve-IsSlotted r w h
call-IsSlotted w (release_stale user day before now) h = stale-IsSlotted user day before now w h
call-IsSlotted w (start_delivery id outcome t e s) h = start-IsSlotted id outcome t e s w h
call-IsSlotted w (trace id t) h =
    one_row (is_live id) (λ a. record a { qa_trace_id = some t; progress_at = w.now }) w
      (mild (is_live id) (λ a. record a { qa_trace_id = some t; progress_at = w.now }) (live id)
        (λ a. refl) (λ a. refl) (λ a. refl))
      h
call-IsSlotted w (embedding id e) h =
    one_row (is_live id) (λ a. record a { embedding_llm_call_id = some e; progress_at = w.now }) w
      (mild (is_live id) (λ a. record a { embedding_llm_call_id = some e; progress_at = w.now })
        (live id) (λ a. refl) (λ a. refl) (λ a. refl))
      h
call-IsSlotted w (settle_attempt id v) h = finalize-IsSlotted id v w h
call-IsSlotted w (renew id) h =
    one_row (is_undelivered id) (λ a. record a { progress_at = w.now }) w
      (mild (is_undelivered id) (λ a. record a { progress_at = w.now }) (undelivered id) (λ a. refl)
        (λ a. refl) (λ a. refl))
      h
call-IsSlotted w (time_passes us) h = record { numbered = h.numbered; single = h.single }

-- Where every attempt that holds a slot holds the first or the second, and no two of one user and day hold
-- the same, this is so after any sequence of calls.
pub run-IsSlotted : (w : Store) (l : List Call) → HasSlots w → HasSlots (run w l)
unfolding run
run-IsSlotted w [] h = h
run-IsSlotted w (c ∷ l) h = run-IsSlotted (call w c) l (call-IsSlotted w c h)
