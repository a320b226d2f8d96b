-- ===== src/Butler/Plan/Taken.antt =====
-- What a call of `plan_action` takes from the rate counters, by its result, and an increment by whether
-- its counter has room.
use vibeshkoder.Base.{
  ℕ, ◌+◌, ◌<◌, ◌≡◌, refl, String, Bool, true, false, ◌==◌, Option, find, arith, inl, inr, ◌⊎◌,
  Bool-cases,
}
use vibeshkoder.Base.Exec.{Result, ok, err, ◌>>=◌}
use vibeshkoder.Butler.Model.{Action, Tag, Error, World, Method}
use vibeshkoder.Butler.Services.{Services, EvidenceContext, plan_error}
use vibeshkoder.Butler.Buckets.{BucketId, is_bucket, has_room, same_id, upsert, try_increment}
use vibeshkoder.Butler.Buckets.Counts.{count_in, one_if, count_in-upsert}
use vibeshkoder.Butler.Plan.Guards.{
  Request, plans_bucket, chat_bucket, tool_bucket, plan_error_tag, evidence_query,
}

-- The tags of a request that takes nothing: not a member, over a limit or over the budget.
abbrev pub takes_nothing : Tag → Bool
takes_nothing Tag.membership_revoked = true
takes_nothing Tag.rate_limit_exceeded = true
takes_nothing Tag.budget_exceeded = true
takes_nothing _ = false

module _ (sv : Services) (r : Request) (w : World) where
  -- At this time, the gateway may raise a ButlerPlanError of which the kind is the tag.
  pub record IsRaised (tag : Tag) : Type 0 where
    pub world : World
    pub context : EvidenceContext
    pub kind : Option String
    pub ledger_id : Option ℕ
    pub same_time : world.now ≡ w.now
    pub raised :
        sv.plan_butler_action world (evidence_query sv r) context ≡ plan_error kind ledger_id
    pub same_tag : plan_error_tag sv kind ≡ tag

  -- one from each of the two counters of the day
  abbrev pub of_day : BucketId → ℕ
  of_day j = one_if (same_id (plans_bucket r w) j) + one_if (same_id (chat_bucket r w) j)

  -- What a call takes from a counter, by its result: `n` is the count before and `m` after it.
  abbrev pub IsTaken : BucketId → Result Error Action → ℕ → ℕ → Type 0
  IsTaken j (ok a) n m = m ≡ n + (of_day j + one_if (same_id (tool_bucket r a.tool_name w) j))
  IsTaken j (err (Error.butler c tag id)) n m =
      (takes_nothing tag ≡ true) × (m ≡ n)
      ⊎ ((takes_nothing tag ≡ false) ⊎ IsRaised tag) × (m ≡ n + of_day j)
  IsTaken j (err e) n m = m ≡ n + of_day j

-- `try_increment`, by whether the counter has room.
module _ {A : Type 0} (j i : BucketId) (window : ℕ × ℕ) (ceiling : ℕ) (f : Bool → Method A)
    (Q : Result Error A × World → Type 0) where
  pub increment_cases :
      (w : World)
      → 0 < ceiling
      → ((u : World)
          → u.now ≡ w.now
          → count_in j u.buckets ≡ count_in j w.buckets + one_if (same_id i j)
          → Q (f true u))
      → ((u : World) → u.now ≡ w.now → count_in j u.buckets ≡ count_in j w.buckets → Q (f false u))
      → Q ((try_increment i window ceiling >>= f) w)
  unfolding try_increment
  increment_cases w h room full =
      let positive : (ceiling == 0) ≡ false = ground arith in
      let u : World = record w { buckets = upsert i window ceiling w.buckets } in
      let step = count_in-upsert i j window ceiling w.buckets in
      elim (Bool-cases (has_room (find (is_bucket i) w.buckets))) [
        | inl e ↦ rw (positive, e) (room u refl (ground (arith, step, e)))
        | inr e ↦ rw (positive, e) (full u refl (ground (arith, step, e)))
      ]
