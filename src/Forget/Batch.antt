-- ===== src/Forget/Batch.antt =====
-- The worker's pass over a batch: `run_cascade_worker_once`.
use vibeshkoder.Base.{
  ℕ, ◌≡◌, ◌≢◌, refl, sym, ◌∙◌, Bool, true, none, some, List, [], ◌∷◌, arith, In, here, there,
  AreUnique, one_more, unique-filter, unique-sort, unique-take, In-take-In, In-sort-In,
  In-filter-In, filter-test, find_unique, ◌⊎◌, inl, inr, filter, sort_by,
}
use vibeshkoder.Base.Exec.{Result}
use vibeshkoder.Forget.Model.{ForgetEvent, EventStatus, CascadeError, Store, Outside}
use vibeshkoder.Forget.Events.{
  mark_status, moved, allowed_old, list_pending, same_status, created_before,
}
use vibeshkoder.Forget.Worker.{Stats, no_stats, handle, work, run_cascade_worker_once}
use vibeshkoder.Forget.Rows.{
  row, key, wrote, mark_status-moves, moved-row, mark_status-IsLocal, is_among,
}
use vibeshkoder.Forget.Outcome.{Ended, succeeded, broke_off, process_one_event-ends}

-- completed or failed
abbrev pub IsSettled : ForgetEvent → Type 0
IsSettled e = (e.status ≡ EventStatus.completed) ⊎ (e.status ≡ EventStatus.failed)

-- the event's row is there and settled
pub record HasSettled (id : ℕ) (w : Store) : Type 0 where
  pub event : ForgetEvent
  pub stored : row id w ≡ some event
  pub settled : IsSettled event

-- The batch waits: each of its events is the row of its id, and pending.
abbrev pub AreReady : List ForgetEvent → Store → Type 0
AreReady es w =
    (e : ForgetEvent) → In e es → (row e.id w ≡ some e) × (e.status ≡ EventStatus.pending)

Ended-IsSettled : (r : Result CascadeError (Unit {0})) (e : ForgetEvent) → Ended r e → IsSettled e
Ended-IsSettled r e (succeeded t a b) = inl t
Ended-IsSettled r e (broke_off t a b) = inr t

-- The rest of the batch waits still when an event before it is settled.
still_ready :
    (e : ForgetEvent) (es : List ForgetEvent) (w' w : Store)
    → ((y : ForgetEvent) → In y es → key y ≢ key e)
    → AreReady (e ∷ es) w
    → ((j : ℕ) → j ≢ e.id → row j w' ≡ row j w)
    → AreReady es w'
still_ready e es w' w f ready o d i = let (h, p) = ready d (there i) in (o d.id (f d i) ∙ h, p)

kept_settled : (id : ℕ) {w w' : Store} → row id w' ≡ row id w → HasSettled id w → HasSettled id w'
kept_settled id q k = record { event = k.event; stored = q ∙ k.stored; settled = k.settled }

abbrev pub is_pending : ForgetEvent → Bool
is_pending e = same_status e.status EventStatus.pending

pending_status : (e : ForgetEvent) → is_pending e ≡ true → e.status ≡ EventStatus.pending
pending_status e h = go e.status h
  where
    go : (t : EventStatus) → same_status t EventStatus.pending ≡ true → t ≡ EventStatus.pending
    go EventStatus.pending h = refl
    go EventStatus.processing h = ground arith
    go EventStatus.completed h = ground arith
    go EventStatus.failed h = ground arith
    go EventStatus.superseded h = ground arith

module _ (out : Outside) where
  claim : ForgetEvent → Stats → Store → Stats × Store
  claim e s w = handle out s (mark_status e.id EventStatus.processing none w)

  -- A pending event of the batch is claimed and settled, and the other events stay.
  claim-settles :
      (e : ForgetEvent) (s : Stats) (w : Store)
      → row e.id w ≡ some e
      → e.status ≡ EventStatus.pending
      → HasSettled e.id (claim e s w).1 × ((j : ℕ) → j ≢ e.id → row j (claim e s w).1 ≡ row j w)
  unfolding claim handle
  claim-settles e s w h p =
      let a : is_among (allowed_old EventStatus.processing) e ≡ true = rw p refl in
      let c = moved EventStatus.processing none e in
      let v =
        wrote e.id (allowed_old EventStatus.processing) (moved EventStatus.processing none) w in
      let m = mark_status-moves e.id EventStatus.processing none w refl h a in
      let l = mark_status-IsLocal e.id EventStatus.processing none w in
      let k =
        process_one_event-ends out c c v (moved-row e.id EventStatus.processing none w h a) refl in
      rw m (
        record { event = k.event; stored = k.stored; settled = Ended-IsSettled _ k.event k.ended },
        λ j n. k.others j n ∙ (rw m at l).others j n,
      )

  work-others :
      (es : List ForgetEvent) (s : Stats) (w : Store)
      → AreUnique key es
      → AreReady es w
      → (j : ℕ) → ((e : ForgetEvent) → In e es → j ≢ e.id)
      → row j (work out es s w).1 ≡ row j w
  unfolding work claim
  work-others [] s w u ready j n = refl
  work-others (e ∷ es) s w (one_more f u) ready j n =
      let (h, p) = ready e here in
      let (k, o) = claim-settles e s w h p in
      work-others es (claim e s w).0 (claim e s w).1 u
        (still_ready e es (claim e s w).1 w f ready o) j (λ d i. n d (there i))
      ∙ o j (n e here)

  first_or_later :
      (d : ForgetEvent) (es : List ForgetEvent) (s : Stats) (w : Store)
      → AreUnique key es
      → AreReady es (claim d s w).1
      → (e : ForgetEvent) → In e (d ∷ es)
      → ((y : ForgetEvent) → In y es → key y ≢ key d)
      → HasSettled d.id (claim d s w).1
      → (In e es → HasSettled e.id (work out es (claim d s w).0 (claim d s w).1).1)
      → HasSettled e.id (work out es (claim d s w).0 (claim d s w).1).1
  first_or_later d es s w u still e here f k later =
      kept_settled d.id
        (work-others es (claim d s w).0 (claim d s w).1 u still d.id (λ y i q. f y i (sym q))) k
  first_or_later d es s w u still e (there i) f k later = later i

  work-settles :
      (es : List ForgetEvent) (s : Stats) (w : Store)
      → AreUnique key es
      → AreReady es w
      → (e : ForgetEvent) → In e es
      → HasSettled e.id (work out es s w).1
  unfolding work claim
  work-settles [] s w u ready e i = elim i [ ]
  work-settles (d ∷ es) s w (one_more f u) ready e i =
      let (h, p) = ready d here in
      let (k, o) = claim-settles d s w h p in
      let still = still_ready d es (claim d s w).1 w f ready o in
      first_or_later d es s w u still e i f k
        (λ j. work-settles es (claim d s w).0 (claim d s w).1 u still e j)

  -- The batch that the worker takes: rows of the table, all pending, each once.
  pending-ready :
      (n : ℕ) (w : Store)
      → AreUnique key w.events
      → AreUnique key (list_pending n w) × AreReady (list_pending n w) w
  unfolding list_pending
  pending-ready n w u =
      let p = is_pending in
      let l = sort_by created_before (filter p w.events) in
      (
        unique-take key n l
            (unique-sort key created_before (filter p w.events) (unique-filter key p w.events u)),
        λ e i.
            let j = In-sort-In created_before (filter p w.events) (In-take-In n l i) in
            (
              find_unique key w.events u (In-filter-In p w.events j),
              pending_status e (filter-test p w.events j),
            ),
      )

  -- Where no two events have one id, every event of the batch that the worker takes is completed or failed
  -- when the worker returns.
  pub worker_settles :
      (batch_size : ℕ) (w : Store)
      → AreUnique key w.events
      → (e : ForgetEvent) → In e (list_pending batch_size w)
      → HasSettled e.id (run_cascade_worker_once out batch_size w).1
  unfolding run_cascade_worker_once
  worker_settles batch_size w u =
      let (v, ready) = pending-ready batch_size w u in
      work-settles (list_pending batch_size w) no_stats w v ready

  -- Where no two events have one id, the worker leaves an event outside its batch as it is.
  pub worker_keeps_others :
      (batch_size : ℕ) (w : Store)
      → AreUnique key w.events
      → (j : ℕ) → ((e : ForgetEvent) → In e (list_pending batch_size w) → j ≢ e.id)
      → row j (run_cascade_worker_once out batch_size w).1 ≡ row j w
  unfolding run_cascade_worker_once
  worker_keeps_others batch_size w u =
      let (v, ready) = pending-ready batch_size w u in
      work-others (list_pending batch_size w) no_stats w v ready
