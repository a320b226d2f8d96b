-- ===== src/Forget/Runs.antt =====
-- Sequences of calls on the forget events, in any order, and what the environment does between them:
-- time passes and other parts of the bot write their tables.
use vibeshkoder.Base.{
  ◌∙◌, String, ℕ, ◌≡◌, refl, sym, true, Option, some, List, [], ◌∷◌, ◌++◌, In, find,
}
use vibeshkoder.Base.Exec.{ok}
use vibeshkoder.Forget.Model.{ForgetEvent, EventStatus, CascadeStatus, Tables, Store, Outside}
use vibeshkoder.Forget.Events.{
  NewEvent, insert_or_return, create, has_key, mark_status, update_cascade_status, target_key,
  supersede, tombstone_keys,
}
use vibeshkoder.Forget.Worker.{run_cascade_worker_once}
use vibeshkoder.Forget.Rows.{mark_status-IsLocal, update_cascade_status-IsLocal}
use vibeshkoder.Forget.Lifecycle.{
  IsTracked, IsTracked-refl, IsTracked-trans, is_final, mark_status-AreTracked, IsSettled,
  update_cascade_status-AreTracked,
}
use vibeshkoder.Forget.Superseded.{supersede-AreTracked}
use vibeshkoder.Forget.Tracked.{worker-Tracks}
use vibeshkoder.Forget.Keys.{
  IsKeyed, find_by_key, IsTracked-to, tracked-AreKeyed, insert-IsKeyed, created_keeps,
}

pub data Call : Type 0 where
  create_event : NewEvent → Call
  mark : ℕ → EventStatus → Option CascadeStatus → Call
  checkpoint : ℕ → CascadeStatus → Call
  worker : ℕ → Call
  rehydrate : String → String → List String → Option String → Call
  environment : ℕ → Tables → Call

unfoldable pub call : Outside → Store → Call → Store
call out w (create_event r) = (create r w).1
call out w (mark id status state) = (mark_status id status state w).1
call out w (checkpoint id state) = (update_cascade_status id state w).1
call out w (worker batch_size) = (run_cascade_worker_once out batch_size w).1
call out w (rehydrate chat_id message_id hashes author) =
    supersede (tombstone_keys chat_id message_id hashes author) w
call out w (environment now tables) = record w { now = now; tables = tables }

unfoldable pub run : Outside → Store → List Call → Store
run out w [] = w
run out w (c ∷ l) = run out (call out w c) l

insert-some :
    (r : NewEvent) (o : Option ForgetEvent) (w : Store) (e : ForgetEvent)
    → o ≡ some e
    → ((insert_or_return r o w).0 ≡ ok e) × ((insert_or_return r o w).1.events ≡ w.events)
unfolding insert_or_return
insert-some r o w e q = rw q (refl, refl)

-- A request for a key that is taken is answered with the row that has it.
pub create-existing :
    (r : NewEvent) (w : Store) (e : ForgetEvent)
    → IsKeyed w
    → In e w.events
    → r.tombstone_key ≡ e.tombstone_key
    → ((create r w).0 ≡ ok e) × ((create r w).1.events ≡ w.events)
unfolding create
create-existing r w e h i q =
    insert-some r (find (has_key r.tombstone_key) w.events)
      (record w { held = target_key r.target_type r.target_id ++ w.held }) e
      (find_by_key r.tombstone_key w.events h e i q)

same_sequence : (keys : List String) (w : Store) → w.next_event ≡ (supersede keys w).next_event
unfolding supersede
same_sequence keys w = refl

module _ (out : Outside) where
  call-IsKeyed : (w : Store) (c : Call) → IsKeyed w → IsKeyed (call out w c)
  unfolding call create
  call-IsKeyed w (create_event r) h =
      insert-IsKeyed r (find (has_key r.tombstone_key) w.events)
        (record w { held = target_key r.target_type r.target_id ++ w.held }) refl h
  call-IsKeyed w (mark id status state) h =
      tracked-AreKeyed (mark_status-AreTracked id status state w)
        (sym (mark_status-IsLocal id status state w).same_next) h
  call-IsKeyed w (checkpoint id state) h =
      tracked-AreKeyed (update_cascade_status-AreTracked id state w)
        (sym (update_cascade_status-IsLocal id state w).same_next) h
  call-IsKeyed w (worker n) h = let (t, q) = worker-Tracks out n w in tracked-AreKeyed t (sym q) h
  call-IsKeyed w (rehydrate chat_id message_id hashes author) h =
      tracked-AreKeyed (supersede-AreTracked (tombstone_keys chat_id message_id hashes author) w)
        (same_sequence (tombstone_keys chat_id message_id hashes author) w) h
  call-IsKeyed w (environment now tables) h = h

  -- Where there is one row for an id and one for a tombstone key, this is so after any sequence of calls.
  pub run-IsKeyed : (w : Store) (l : List Call) → IsKeyed w → IsKeyed (run out w l)
  unfolding run
  run-IsKeyed w [] h = h
  run-IsKeyed w (c ∷ l) h = run-IsKeyed (call out w c) l (call-IsKeyed w c h)

  call-tracks :
      (w : Store) (c : Call) (e : ForgetEvent)
      → In e w.events
      → (f : ForgetEvent) × In f (call out w c).events × IsTracked e f
  unfolding call create
  call-tracks w (create_event r) e i =
      (let (f, j) =
          created_keeps r (find (has_key r.tombstone_key) w.events)
            (record w { held = target_key r.target_type r.target_id ++ w.held }) i in
        (e, f, j))
  call-tracks w (mark id status state) e i =
      IsTracked-to (mark_status-AreTracked id status state w) i
  call-tracks w (checkpoint id state) e i =
      IsTracked-to (update_cascade_status-AreTracked id state w) i
  call-tracks w (worker n) e i = IsTracked-to (worker-Tracks out n w).0 i
  call-tracks w (rehydrate chat_id message_id hashes author) e i =
      IsTracked-to (supersede-AreTracked (tombstone_keys chat_id message_id hashes author) w) i
  call-tracks w (environment now tables) e i = (e, i, IsTracked-refl e)

  -- Whatever calls follow, an event of the table stays in it: its status moves only along its life, and once
  -- it is completed, failed or superseded its row is settled.
  pub run-tracks :
      (w : Store) (l : List Call) (e : ForgetEvent)
      → In e w.events
      → (f : ForgetEvent) × In f (run out w l).events × IsTracked e f
  unfolding run
  run-tracks w [] e i = (e, i, IsTracked-refl e)
  run-tracks w (c ∷ l) e i =
      let (f, j, t) = call-tracks w c e i in
      let (g, k, u) = run-tracks (call out w c) l f j in (g, k, IsTracked-trans t u)

  -- Where there is one row for an id and one for a tombstone key, and an event is completed, failed or
  -- superseded, then after any sequence of calls a new request for its key is answered with its row and makes
  -- no other: the row as it is, or, for a completed one, with the status 'superseded' and else as it is.
  pub run-IsSettled :
      (w : Store) (l : List Call) (e : ForgetEvent) (r : NewEvent)
      → IsKeyed w
      → In e w.events
      → is_final e.status ≡ true
      → r.tombstone_key ≡ e.tombstone_key
      → (f : ForgetEvent) × ((create r (run out w l)).0 ≡ ok f)
        × ((create r (run out w l)).1.events ≡ (run out w l).events)
        × IsSettled e f
  run-IsSettled w l e r h i t q =
      let (f, j, k) = run-tracks w l e i in
      let (a, b) = create-existing r (run out w l) f (run-IsKeyed w l h) j (q ∙ sym k.same_key) in
      (f, a, b, k.final t)
